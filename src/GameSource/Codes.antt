-- ===== src/GameSource/Codes.antt =====
-- gamesource/plan.go, `validateParams`: a level's codes and the rest of its parameters. Errors are
-- texts, in the order in which they are joined; the encoder, upper-casing, quoting and
-- floating-point numbers are parameters.
pub mod Keys
pub mod Values
use dzzzr_cli.Base.{
  ℕ, zero, suc, ◌+◌, ◌≡◌, refl, Bool, true, false, not, ◌&&◌, ◌||◌, Option, none, some, List, [],
  ◌∷◌, ◌++◌, ltb, if◌then◌else◌, ℤ, pos, negsuc, Text, codes, text_eq, is_empty, trim_space,
  split_on, itoa, length, any,
}
use dzzzr_cli.GameSource.Level.{
  LevelCode, BonusCode, FakeCode, SpoilerParams, LevelParams, params_value, walk,
}

-- `numeral` is a constant's value, for the bounds of the coordinates.
pub record Outside (Float : Type 0) : Type 0 where
  pub encode_error : Text → Option Text
  pub upper : Text → Text
  pub quote : Text → Text
  pub parse_float : Text → Option Float
  pub is_finite : Float → Bool
  pub less : Float → Float → Bool
  pub numeral : Text → Float

-- The paths of the codes met so far, by their keys.
abbrev pub Seen : Type 0
Seen = List (Text × Text)

unfoldable pub lookup_path : Text → Seen → Option Text
lookup_path key [] = none
lookup_path key ((k, path) ∷ seen) =
    let rest = lookup_path key seen in if text_eq key k then some path else rest

-- A part of the validation: its errors, and the codes it adds to those met.
abbrev pub Check : Type 0
Check = Seen → List Text × Seen

infixl 5 ◌>>◌
unfoldable pub ◌>>◌ : Check → Check → Check
(m >> k) seen = let (errs, seen1) = m seen in let (errs', seen2) = k seen1 in (errs ++ errs', seen2)

unfoldable pub report : List Text → Check
report errs seen = (errs, seen)

unfoldable pub indexed : Text → ℕ → Text
indexed name i = name ++ (codes "[" ++ (itoa i ++ codes "]"))

unfoldable pub is_danger : Text → Bool
is_danger s =
    text_eq s (codes "1")
    || (text_eq s (codes "1+")
        || (text_eq s (codes "2")
            || (text_eq s (codes "2+")
                || (text_eq s (codes "3")
                    || (text_eq s (codes "3+") || text_eq s (codes "null"))))))

unfoldable pub danger_errors : Text → Text → Bool → List Text
danger_errors s path required =
    if is_empty s
    then (if required then (path ++ codes ".danger is required") ∷ [] else [])
    else if is_danger s
    then []
    else (path ++ codes ".danger is invalid") ∷ []

unfoldable pub exceeds : ℤ → ℕ → Bool
exceeds (pos k) n = ltb n k
exceeds (negsuc k) n = false

unfoldable pub synonyms_of : Text → List Text
synonyms_of s = if is_empty s then [] else split_on b'#' [] s

unfoldable pub error_if : Bool → Text → List Text
error_if b e = if b then e ∷ [] else []

module _ {Float : Type 0} (o : Outside Float) where
  open o use {encode_error, upper, quote, parse_float, is_finite, less, numeral}

  unfoldable pub key_of : Text → Text
  key_of s = upper (trim_space s)

  unfoldable pub duplicate_errors : Text → Text → Option Text → List Text
  duplicate_errors s path none = []
  duplicate_errors s path (some prev) =
      (codes "duplicate code or synonym "
        ++ (quote s ++ (codes " in " ++ (prev ++ (codes " and " ++ path)))))
      ∷ []

  unfoldable pub check_value : Text → Text → Check
  unfolding lookup_path duplicate_errors key_of
  check_value path s seen =
      if is_empty (key_of s)
      then ((path ++ codes " has an empty synonym") ∷ [], seen)
      else (duplicate_errors s path (lookup_path (key_of s) seen), (key_of s, path) ∷ seen)

  unfoldable pub check_values : Text → List Text → Check
  unfolding ◌>>◌ report
  check_values path [] = report []
  check_values path (s ∷ ss) = check_value path s >> check_values path ss

  unfoldable pub check_code : Text → Text → Text → Check
  unfolding synonyms_of report
  check_code code synonyms path seen =
      if is_empty (trim_space code)
      then ((path ++ codes ".code is required") ∷ [], seen)
      else check_values path (code ∷ synonyms_of synonyms) seen

  unfoldable pub check_main : ℕ → ℕ → List LevelCode → Check
  unfolding ◌>>◌ report
  check_main sectors i [] = report []
  check_main sectors i (c ∷ cs) =
      let path = indexed (codes "codes") i in
      check_code c.code c.synonyms path
      >> report (
          danger_errors c.danger path true
          ++ error_if (exceeds c.sector sectors)
              (path ++ codes ".sector exceeds sector_names length"))
      >> check_main sectors (i + 1) cs

  unfoldable pub check_bonus : ℕ → List BonusCode → Check
  unfolding ◌>>◌ report
  check_bonus i [] = report []
  check_bonus i (c ∷ cs) =
      let path = indexed (codes "bonus_codes") i in
      check_code c.code c.synonyms path
      >> report (danger_errors c.danger path false)
      >> check_bonus (i + 1) cs

  unfoldable pub check_fake : ℕ → List FakeCode → Check
  unfolding ◌>>◌ report
  check_fake i [] = report []
  check_fake i (c ∷ cs) =
      check_code c.code c.synonyms (indexed (codes "fake_codes") i) >> check_fake (i + 1) cs

  unfoldable pub check_spoilers : ℕ → List SpoilerParams → Check
  unfolding ◌>>◌ report
  check_spoilers i [] = report []
  check_spoilers i (c ∷ cs) =
      let path = indexed (codes "spoilers") i in
      check_code c.code c.synonyms path
      >> report (error_if (is_empty (trim_space c.text)) (path ++ codes ".text is required"))
      >> check_spoilers (i + 1) cs

  unfoldable pub check_codes : LevelParams → Check
  unfolding ◌>>◌
  check_codes p =
      check_main (length p.sector_names) 0 p.level_codes
      >> check_bonus 0 p.bonus_codes
      >> check_fake 0 p.fake_codes
      >> check_spoilers 0 p.spoilers

  unfoldable pub is_within : Float → Float → Option Float → Bool
  is_within low high none = false
  is_within low high (some n) = is_finite n && (not (less n low) && not (less high n))

  unfoldable pub coordinate_errors : Text → Text → Text → Text → List Text
  coordinate_errors name value low high =
      error_if
        (not (is_empty value) && not (is_within (numeral low) (numeral high) (parse_float value)))
        (name ++ (codes " must be a finite number between " ++ (low ++ (codes " and " ++ high))))

  unfoldable pub is_no_code : List LevelCode → Bool
  is_no_code [] = true
  is_no_code (c ∷ cs) = false

  unfoldable pub publish_errors : LevelParams → Option Bool → List Text
  publish_errors p none = []
  publish_errors p (some b) =
      error_if
        (b
          && (is_empty p.title
              || (is_empty p.question
                  || (is_empty p.hint1 || (is_empty p.hint2 || is_no_code p.level_codes)))))
        (codes "publish requires title, question, both hints and a main code")

  unfoldable pub validate_params : LevelParams → List Text
  unfolding check_codes publish_errors coordinate_errors
  validate_params p =
      error_if (is_empty (trim_space p.title) && is_empty (trim_space p.question))
        (codes "title or question is required")
      ++ (walk encode_error (params_value p) (codes "params")
          ++ ((check_codes p []).0
              ++ (error_if (exceeds p.code_count (length p.level_codes))
                    (codes "code_count exceeds number of main codes")
                  ++ (publish_errors p p.publish
                      ++ (coordinate_errors (codes "lat") p.lat (codes "-90") (codes "90")
                          ++ (coordinate_errors (codes "lon") p.lon (codes "-180") (codes "180")
                              ++ coordinate_errors (codes "radius") p.radius (codes "0")
                                  (codes "1.7976931348623157e+308")))))))
