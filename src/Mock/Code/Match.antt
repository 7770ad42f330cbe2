-- ===== src/Mock/Code/Match.antt =====
-- What a match is: some entry has a variant with the same normal form.
use dzzzr_cli.Base.{
  ℕ, ◌≡◌, ◌≢◌, refl, inl, inr, ◌⊎◌, true, false, List, [], ◌∷◌, Text, text_eq, eq_of-text_eq,
  split_on, Bool-cases,
}
use dzzzr_cli.Mock.Code.{
  normalize_code, has_variant, primary, match_entry, match_normal, match_code,
}

module _ (upper : ℕ → ℕ) where
  -- The entry at which a search for the entered normal form stops, and its primary form.
  pub data Hit (e : Text) : List Text → Text → Type 0 where
    here :
        (c : Text) (cs : List Text) (out : Text)
        → has_variant upper e (split_on b'#' [] c) ≡ true
        → out ≡ primary upper (split_on b'#' [] c)
        → Hit e (c ∷ cs) out
    later :
        (c : Text) (cs : List Text) (out : Text)
        → has_variant upper e (split_on b'#' [] c) ≡ false
        → Hit e cs out
        → Hit e (c ∷ cs) out

  -- A variant among those of an entry whose normal form is the entered one.
  pub has_variant_lem :
      (e v : Text) (vs : List Text)
      → (has_variant upper e (v ∷ vs) ≡ true)
      → (normalize_code upper v ≡ e) ⊎ (has_variant upper e vs ≡ true)
  unfolding has_variant
  has_variant_lem e v vs h = elim (Bool-cases (text_eq (normalize_code upper v) e)) [
    | inl t ↦ inl (eq_of-text_eq _ e t)
    | inr f ↦ inr (rw f at h)
  ]

  match_entry-Hit :
      (e : Text) (cs : List Text) → match_entry upper e cs ≢ [] → Hit e cs (match_entry upper e cs)
  unfolding match_entry
  match_entry-Hit e [] h = absurd (h refl)
  match_entry-Hit e (c ∷ cs) h = elim (Bool-cases (has_variant upper e (split_on b'#' [] c))) [
    | inl t ↦ here c cs _ t (rw t)
    | inr f ↦ rw f (later c cs _ f (match_entry-Hit e cs (rw f at h)))
  ]

  match_normal-Hit :
      (e : Text) (cs : List Text)
      → match_normal upper e cs ≢ []
      → Hit e cs (match_normal upper e cs)
  unfolding match_normal
  match_normal-Hit [] cs h = absurd (h refl)
  match_normal-Hit (c ∷ e) cs h = match_entry-Hit (c ∷ e) cs h

  -- A code that is matched is the primary form of the first entry that lists it among its synonyms.
  pub match_code-Hit :
      (cod : Text) (cs : List Text)
      → match_code upper cod cs ≢ []
      → Hit (normalize_code upper cod) cs (match_code upper cod cs)
  unfolding match_code
  match_code-Hit cod cs h = match_normal-Hit (normalize_code upper cod) cs h
