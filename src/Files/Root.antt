-- ===== src/Files/Root.antt =====
-- agentfiles/root.go: a path from the model is confined to the root. The functions of path/filepath
-- are parameters; the separator is a slash.
use dzzzr_cli.Base.{
  ℕ, ◌≡◌, ◌≢◌, refl, sym, ap, ◌∙◌, Bool, true, false, ◌||◌, inl, inr, ◌⊎◌, [], ◌∷◌, ◌++◌, arith,
  ◌==◌, ==_iff, if◌then◌else◌, Text, codes, text_eq, eq_of-text_eq, has_prefix, is_empty,
  trim_space, Bool-cases, ||-eq-true, &&-eq-true,
}

pub record Paths : Type 0 where
  pub clean : Text → Text
  pub is_abs : Text → Bool
  pub join : Text → Text → Text
  pub abs : Text → Text ⊎ Text
  pub eval_symlinks : Text → Text ⊎ Text

abbrev pub err_outside_root : Text
err_outside_root = codes "путь за пределами DZZZR_FILES_ROOT"

unfoldable pub within : Text → Text → Bool
within root path = text_eq path root || has_prefix (root ++ b'/' ∷ []) path

-- The target of a link, if the path exists, is looked at too.
unfoldable pub confined : Text → Text → Text ⊎ Text → Text ⊎ Text
confined root abs (inl gone) = inr abs
confined root abs (inr target) = if within root target then inr abs else inl err_outside_root

unfoldable pub confine : Paths → Text → Text ⊎ Text → Text ⊎ Text
unfolding confined
confine p root (inl err) = inl err
confine p root (inr abs) =
    if within root abs then confined root abs (p.eval_symlinks abs) else inl err_outside_root

unfoldable pub resolve : Paths → Text → Text → Text ⊎ Text
unfolding confine
resolve p root user_path =
    let clean = p.clean (if is_empty (trim_space user_path) then codes "." else user_path) in
    confine p root (p.abs (if p.is_abs clean then clean else p.join root clean))

unfoldable pub resolved_or : Text → Text ⊎ Text → Text ⊎ Text
resolved_or abs (inl err) = inr abs
resolved_or abs (inr target) = inr target

unfoldable pub resolve_abs : Paths → Text ⊎ Text → Text ⊎ Text
unfolding resolved_or
resolve_abs p (inl err) = inl err
resolve_abs p (inr abs) = resolved_or abs (p.eval_symlinks abs)

-- `resolveRoot`
unfoldable pub resolve_root : Paths → Text → Text ⊎ Text
unfolding resolve_abs
resolve_root p root = resolve_abs p (p.abs root)

-- The root itself, or something below it.
abbrev pub IsUnder : Text → Text → Type 0
IsUnder root path = (path ≡ root) ⊎ ((rest : Text) × (path ≡ root ++ (b'/' ∷ rest)))

prefix-split : (p s : Text) → has_prefix p s ≡ true → (rest : Text) × (s ≡ p ++ rest)
unfolding has_prefix
prefix-split [] s h = (s, refl)
prefix-split (c ∷ p) [] h = cc h
prefix-split (c ∷ p) (x ∷ s) h =
    let (same, more) = &&-eq-true (c == x) (has_prefix p s) h in
    let (rest, e) = prefix-split p s more in (rest, cc ((==_iff c x).0 same, e))

slash_assoc : (root rest : Text) → (root ++ b'/' ∷ []) ++ rest ≡ root ++ (b'/' ∷ rest)
slash_assoc [] rest = refl
slash_assoc (c ∷ root) rest = ap (λ r. c ∷ r) (slash_assoc root rest)

within-IsUnder : (root path : Text) → within root path ≡ true → IsUnder root path
unfolding within
within-IsUnder root path h =
    elim (||-eq-true (text_eq path root) (has_prefix (root ++ b'/' ∷ []) path) h) [
      | inl e ↦ inl (eq_of-text_eq path root e)
      | inr e ↦
          let (rest, s) = prefix-split (root ++ b'/' ∷ []) path e in
          inr (rest, s ∙ slash_assoc root rest)
    ]

confined-IsUnder :
    (root abs out : Text) (target : Text ⊎ Text)
    → confined root abs target ≡ inr out
    → (out ≡ abs) × ((t : Text) → target ≡ inr t → IsUnder root t)
unfolding confined
confined-IsUnder root abs out (inl gone) h = (cc h, λ t e. cc e)
confined-IsUnder root abs out (inr target) h = elim (Bool-cases (within root target)) [
  | inl w ↦ (cc (rw w at h), λ t e. within-IsUnder root t (cc (w, e)))
  | inr w ↦ cc (rw w at h)
]

confine-IsUnder :
    (p : Paths) (root out : Text) (found : Text ⊎ Text) (target : Text)
    → confine p root found ≡ inr out
    → IsUnder root out × (p.eval_symlinks out ≡ inr target → IsUnder root target)
unfolding confine
confine-IsUnder p root out (inl err) target h = cc h
confine-IsUnder p root out (inr abs) target h = elim (Bool-cases (within root abs)) [
  | inl w ↦
      let (same, below) = confined-IsUnder root abs out (p.eval_symlinks abs) (rw w at h) in
      (rw same (within-IsUnder root abs w), λ e. below target (ap p.eval_symlinks (sym same) ∙ e))
  | inr w ↦ cc (rw w at h)
]

pub resolve-IsUnder_root :
    (p : Paths) (root user_path out : Text) → resolve p root user_path ≡ inr out → IsUnder root out
unfolding resolve
resolve-IsUnder_root p root user_path out h = (confine-IsUnder p root out _ [] h).0

-- With the file system's own root as the root, nothing that starts with a single slash is inside but
-- that root itself.
pub within_slash : (c : ℕ) (path : Text) → c ≢ b'/' → within (codes "/") (b'/' ∷ c ∷ path) ≡ false
unfolding within text_eq has_prefix
within_slash c path h = ground arith
