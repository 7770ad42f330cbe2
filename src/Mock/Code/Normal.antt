-- ===== src/Mock/Code/Normal.antt =====
-- The normal form of a code.
use mathlib.Core.List.{reverse-cons, reverse-reverse}
use dzzzr_cli.Base.{
  ℕ, ◌≡◌, ◌≢◌, refl, ap, ◌∙◌, inl, inr, Bool, true, false, not, [], ◌∷◌, map, reverse, arith, ◌==◌,
  keep, All, All-append, Text, trim_space, trim_left, is_space, Bool-cases,
}
use dzzzr_cli.Mock.Code.{drop_tags, is_banned, fold_yo, normalize_code}

-- What the documentation of `unicode.ToUpper` gives for the characters that the engine removes:
-- none of them is the upper case of another character.
pub record Upper (upper : ℕ → ℕ) : Type 0 where
  pub not_made : (c : ℕ) → is_banned c ≡ false → is_banned (upper c) ≡ false
  pub idempotent : (c : ℕ) → upper (upper c) ≡ upper c
  pub yo : upper 0x415 ≡ 0x415
  pub space : (c : ℕ) → is_space (upper c) ≡ is_space c

-- What a normal form is made of: no banned character, no space and no Ё.
abbrev pub IsPlain : ℕ → Type 0
IsPlain c = (is_banned c ≡ false) × (c ≢ 32) × (c ≢ 0x401)

All-keep : (p : ℕ → Bool) (s : Text) → All (λ c. p c ≡ true) (keep p s)
unfolding keep
All-keep p [] = tt
All-keep p (c ∷ s) = ground (arith, All-keep p s)

All-keep_of {ℓ} :
    (P : ℕ → Type ℓ) (p : ℕ → Bool) (s : Text) → All P s → All (λ c. P c × (p c ≡ true)) (keep p s)
unfolding keep
All-keep_of P p [] a = tt
All-keep_of P p (c ∷ s) a = elim (Bool-cases (p c)) [
  | inl e ↦ rw e ((a.0, e), All-keep_of P p s a.1)
  | inr e ↦ rw e (All-keep_of P p s a.1)
]

All-map {ℓ κ} :
    (P : ℕ → Type ℓ) (Q : ℕ → Type κ) (f : ℕ → ℕ) (s : Text)
    → ((c : ℕ) → P c → Q (f c))
    → All P s
    → All Q (map f s)
All-map P Q f [] h a = tt
All-map P Q f (c ∷ s) h a = (h c a.0, All-map P Q f s h a.1)

-- Where a character comes from: the upper case of one that was not banned, and no space.
abbrev Kept : (ℕ → ℕ) → ℕ → Type 0
Kept upper c = (is_banned c ≡ false) × (upper c ≡ c) × (not (c == 32) ≡ true)

Kept-All :
    (upper : ℕ → ℕ)
    → Upper upper
    → (s : Text)
    → All (Kept upper) (keep (λ c. not (c == 32)) (map upper (keep (λ c. not (is_banned c)) s)))
Kept-All upper u s =
    regroup _ (All-keep_of Big (λ c. not (c == 32)) _ (All-map _ Big upper _ big raw))
  where
    Big : ℕ → Type 0
    Big c = (is_banned c ≡ false) × (upper c ≡ c)

    raw : All (λ c. not (is_banned c) ≡ true) (keep (λ c. not (is_banned c)) s)
    raw = All-keep (λ c. not (is_banned c)) s

    big : (c : ℕ) → not (is_banned c) ≡ true → Big (upper c)
    big c h = (u.not_made c (ground arith), u.idempotent c)

    regroup : (t : Text) → All (λ c. Big c × (not (c == 32) ≡ true)) t → All (Kept upper) t
    regroup [] a = tt
    regroup (c ∷ t) a = ((a.0.0.0, a.0.0.1, a.0.1), regroup t a.1)

abbrev Normal : (ℕ → ℕ) → ℕ → Type 0
Normal upper c = IsPlain c × (upper c ≡ c)

fold-Normal : (upper : ℕ → ℕ) → Upper upper → (c : ℕ) → Kept upper c → Normal upper (fold_yo c)
unfolding fold_yo is_banned
fold-Normal upper u c k = elim (Bool-cases (c == 0x401)) [
  | inl e ↦ rw e ((refl, omega arith, omega arith), u.yo)
  | inr e ↦ rw e ((k.0, ground arith, ground arith), k.1)
]

normalize_code-Normal :
    (upper : ℕ → ℕ) → Upper upper → (s : Text) → All (Normal upper) (normalize_code upper s)
unfolding normalize_code
normalize_code-Normal upper u s =
    All-map (Kept upper) (Normal upper) fold_yo _ (fold-Normal upper u) (Kept-All upper u _)

weaken {ℓ κ} :
    (P : ℕ → Type ℓ) (Q : ℕ → Type κ) (s : Text) → ((c : ℕ) → P c → Q c) → All P s → All Q s
weaken P Q [] h a = tt
weaken P Q (c ∷ s) h a = (h c a.0, weaken P Q s h a.1)

-- The code that the engine compares has no markup, no space and no Ё.
pub normalize_code-IsPlain :
    (upper : ℕ → ℕ) (s : Text) → Upper upper → All IsPlain (normalize_code upper s)
normalize_code-IsPlain upper s u =
    weaken (Normal upper) IsPlain _ (λ c n. n.0) (normalize_code-Normal upper u s)

trim_left-solid : (s : Text) → All (λ c. is_space c ≡ false) s → trim_left s ≡ s
unfolding trim_left
trim_left-solid [] a = refl
trim_left-solid (c ∷ s) a = rw a.0

All-reverse {ℓ} : (P : ℕ → Type ℓ) (s : Text) → All P s → All P (reverse s)
All-reverse P [] a = tt
All-reverse P (c ∷ s) a =
    rw (reverse-cons c s) (All-append P (reverse s) (c ∷ []) (All-reverse P s a.1) (a.0, tt))

trim_space-solid : (s : Text) → All (λ c. is_space c ≡ false) s → trim_space s ≡ s
unfolding trim_space
trim_space-solid s a =
    ap (λ t. reverse (trim_left (reverse t))) (trim_left-solid s a)
    ∙ ap reverse (trim_left-solid (reverse s) (All-reverse (λ c. is_space c ≡ false) s a))
    ∙ reverse-reverse s

drop_tags-plain : (s : Text) → All (λ c. is_banned c ≡ false) s → drop_tags [] s ≡ s
unfolding drop_tags is_banned
drop_tags-plain [] a = refl
drop_tags-plain (c ∷ s) a = ground (arith, drop_tags-plain s a.1)

keep-All : (p : ℕ → Bool) (s : Text) → All (λ c. p c ≡ true) s → keep p s ≡ s
unfolding keep
keep-All p [] a = refl
keep-All p (c ∷ s) a = rw a.0 (ap (◌∷◌ c) (keep-All p s a.1))

map-fixed : (f : ℕ → ℕ) (s : Text) → All (λ c. f c ≡ c) s → map f s ≡ s
map-fixed f [] a = refl
map-fixed f (c ∷ s) a = rw (a.0, map-fixed f s a.1)

solid_fixed :
    (upper : ℕ → ℕ) (t : Text)
    → All (Normal upper) t
    → All (λ c. is_space c ≡ false) t
    → normalize_code upper t ≡ t
unfolding normalize_code
solid_fixed upper t n sp = rw (
  trim_space-solid t sp,
  drop_tags-plain t (weaken (Normal upper) _ t (λ c m. m.0.0) n),
  keep-All (λ c. not (is_banned c)) t (weaken (Normal upper) _ t (λ c m. ground arith) n),
  map-fixed upper t (weaken (Normal upper) _ t (λ c m. m.1) n),
  keep-All (λ c. not (c == 32)) t (weaken (Normal upper) _ t (λ c m. ground arith) n),
  map-fixed fold_yo t (weaken (Normal upper) _ t (λ c m. unfold fold_yo in ground arith) n),
)

-- A normal form with no whitespace left in it is its own normal form.
pub normalize_code-normalize_code :
    (upper : ℕ → ℕ) (s : Text)
    → Upper upper
    → All (λ c. is_space c ≡ false) (normalize_code upper s)
    → normalize_code upper (normalize_code upper s) ≡ normalize_code upper s
normalize_code-normalize_code upper s u solid =
    solid_fixed upper (normalize_code upper s) (normalize_code-Normal upper u s) solid
