-- ===== src/Mock/Code.antt =====
-- How the engine compares codes: `normalizeCode` and `matchCode` of cmd/dzzzr-mock/state.go.
-- `upper` is `unicode.ToUpper` on one code point, whose table belongs to Go's library.
pub mod Normal
pub mod Match
use dzzzr_cli.Base.{
  ℕ, ◌≡◌, ◌≢◌, refl, Bool, true, false, not, ◌||◌, List, [], ◌∷◌, ◌++◌, map, reverse, arith, ◌==◌,
  if◌then◌else◌, keep, Text, codes, text_eq, trim_space, split_on, ℤ, pos,
}

-- `htmlTag.ReplaceAllString(s, "")` for `<[^>]*>`. `open` holds the text since the first bracket
-- that has not been closed, reversed; an unclosed bracket is no tag, so its text stays.
unfoldable pub drop_tags : Text → Text → Text
drop_tags opened [] = reverse opened
drop_tags [] (c ∷ s) =
    let enter = drop_tags (c ∷ []) s in
    let stay = c ∷ drop_tags [] s in if c == b'<' then enter else stay
drop_tags (o ∷ opened) (c ∷ s) =
    let close = drop_tags [] s in
    let stay = drop_tags (c ∷ o ∷ opened) s in if c == b'>' then close else stay

-- The characters that the replacer deletes: < > = ' " # |
unfoldable pub is_banned : ℕ → Bool
is_banned c = c == b'<' || c == b'>' || c == b'=' || c == 39 || c == 34 || c == b'#' || c == b'|'

-- Ё becomes Е.
unfoldable pub fold_yo : ℕ → ℕ
fold_yo c = if c == 0x401 then 0x415 else c

module _ (upper : ℕ → ℕ) where
  unfoldable pub normalize_code : Text → Text
  normalize_code s = map fold_yo (
      keep (λ c. not (c == 32))
        (map upper (keep (λ c. not (is_banned c)) (drop_tags [] (trim_space s)))))

  -- Some variant normalises to the entered code.
  unfoldable pub has_variant : Text → List Text → Bool
  has_variant e [] = false
  has_variant e (v ∷ vs) = text_eq (normalize_code v) e || has_variant e vs

  -- The normal form of the first variant: `variants[0]`.
  unfoldable pub primary : List Text → Text
  primary [] = []
  primary (v ∷ vs) = normalize_code v

  unfoldable pub match_entry : Text → List Text → Text
  unfolding has_variant primary
  match_entry e [] = []
  match_entry e (c ∷ cs) =
      let variants = split_on b'#' [] c in
      let rest = match_entry e cs in if has_variant e variants then primary variants else rest

  unfoldable pub match_normal : Text → List Text → Text
  match_normal [] cs = []
  match_normal (c ∷ e) cs = match_entry (c ∷ e) cs

  -- The primary form of the matching entry, or the empty text.
  unfoldable pub match_code : Text → List Text → Text
  unfolding match_entry match_normal
  match_code entered cs = match_normal (normalize_code entered) cs

  -- `bonusMinutesFor` and `fakePenaltyFor` search alike: the minutes at the index of the entry
  -- whose primary form is given; entries past the end of the minutes are passed over.
  unfoldable pub minutes_for : Text → List Text → List ℤ → ℤ
  unfolding primary
  minutes_for p [] ts = pos 0
  minutes_for p (c ∷ cs) [] = pos 0
  minutes_for p (c ∷ cs) (t ∷ ts) =
      let rest = minutes_for p cs ts in if text_eq (primary (split_on b'#' [] c)) p then t else rest
