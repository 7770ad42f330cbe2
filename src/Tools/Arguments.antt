-- ===== src/Tools/Arguments.antt =====
-- agenttools/tool.go: the accessors of a call's arguments, which take a number in any of the types
-- that a provider may send it in. Floating-point numbers and lower-casing are parameters.
use dzzzr_cli.Base.{
  ◌≡◌, refl, Bool, true, false, not, ◌||◌, Option, none, some, inl, inr, ◌⊎◌, [], ◌∷◌, ◌++◌, ℤ, pos,
  if◌then◌else◌, Text, codes, text_eq, is_empty, trim_space, atoi,
}

-- `int(f)`, `strconv.FormatFloat` and `strconv.ParseFloat` of a float64, and `strconv.Quote`.
pub record Floats (Float : Type 0) : Type 0 where
  pub truncate : Float → ℤ
  pub format : Float → Text
  pub parse : Text → Option Float
  pub is_zero : Float → Bool
  pub quote : Text → Text

-- A value of a call's arguments: nil, a number of one of Go's types, a text, a truth value, or
-- something else.
pub data Argument (Float : Type 0) : Type 0 where
  nil : Argument Float
  float64 : Float → Argument Float
  float32 : Float → Argument Float
  int : ℤ → Argument Float
  int64 : ℤ → Argument Float
  json_number : Text → Argument Float
  string : Text → Argument Float
  bool : Bool → Argument Float
  structured : Argument Float

unfoldable pub format_bool : Bool → Text
format_bool true = codes "true"
format_bool false = codes "false"

unfoldable pub one_if : Bool → ℤ
one_if true = pos 1
one_if false = pos 0

module _ {Float : Type 0} (fl : Floats Float) (lower : Text → Text) where
  open fl use {truncate, format, parse, is_zero, quote}

  unfoldable pub truncated : Option Float → Option ℤ
  truncated none = none
  truncated (some f) = some (truncate f)

  -- What `Int64` or `Atoi` returns, and the text as a floating-point number where it is an error.
  unfoldable pub int_or_float : Text → ℤ × Bool → Option ℤ
  unfolding truncated
  int_or_float s (i, true) = some i
  int_or_float s (i, false) = truncated (parse s)

  unfoldable pub int_of : Argument Float → Option ℤ
  unfolding int_or_float one_if
  int_of nil = none
  int_of (float64 f) = some (truncate f)
  int_of (float32 f) = some (truncate f)
  int_of (int i) = some i
  int_of (int64 i) = some i
  int_of (json_number s) = int_or_float s (atoi s)
  int_of (string s) =
      if is_empty (trim_space s) then none else int_or_float (trim_space s) (atoi (trim_space s))
  int_of (bool b) = some (one_if b)
  int_of structured = none

  -- A key that is not there reads as nil.
  unfoldable pub optional_int : (Text → Argument Float) → Text → Option ℤ
  unfolding int_of
  optional_int a key = int_of (a key)

  unfoldable pub required {ℓ} : {A : Type ℓ} → Text → Text → Option A → Text ⊎ A
  required key must none = inl (codes "argument " ++ (quote key ++ must))
  required key must (some x) = inr x

  unfoldable pub require_int : (Text → Argument Float) → Text → Text ⊎ ℤ
  unfolding required
  require_int a key = required key (codes " must be an integer") (optional_int a key)

  unfoldable pub string_of : Argument Float → Option Text
  unfolding format_bool
  string_of (string s) = if is_empty (trim_space s) then none else some (trim_space s)
  string_of (float64 f) = some (format f)
  string_of (json_number s) = some s
  string_of (bool b) = some (format_bool b)
  string_of nil = none
  string_of (float32 f) = none
  string_of (int i) = none
  string_of (int64 i) = none
  string_of structured = none

  unfoldable pub optional_string : (Text → Argument Float) → Text → Option Text
  unfolding string_of
  optional_string a key = string_of (a key)

  unfoldable pub require_string : (Text → Argument Float) → Text → Text ⊎ Text
  unfolding required
  require_string a key = required key (codes " must be a non-empty string") (optional_string a key)

  unfoldable pub says_yes : Text → Bool
  says_yes s =
      text_eq s (codes "true")
      || (text_eq s (codes "1") || (text_eq s (codes "yes") || text_eq s (codes "да")))

  unfoldable pub says_no : Text → Bool
  says_no s =
      text_eq s (codes "false")
      || (text_eq s (codes "0")
          || (text_eq s (codes "no") || (text_eq s (codes "нет") || is_empty s)))

  unfoldable pub bool_of : Argument Float → Option Bool
  unfolding says_yes says_no
  bool_of (bool b) = some b
  bool_of (string s) =
      let t = lower (trim_space s) in
      if says_yes t then some true else if says_no t then some false else none
  bool_of (float64 f) = some (not (is_zero f))
  bool_of nil = none
  bool_of (float32 f) = none
  bool_of (int i) = none
  bool_of (int64 i) = none
  bool_of (json_number s) = none
  bool_of structured = none

  unfoldable pub optional_bool : (Text → Argument Float) → Text → Option Bool
  unfolding bool_of
  optional_bool a key = bool_of (a key)

  not_a_number : (s : Text) (n : ℤ) → atoi s ≡ (n, true) → is_empty s ≡ false
  unfolding atoi
  not_a_number [] n h = cc h
  not_a_number (c ∷ s) n h = refl

  -- An integer is read the same whichever way a provider sends it: as an int, an int64, a JSON
  -- number, or a text with spaces around it.
  pub optional_int_agrees :
      (s : Text) (n : ℤ) (a : Text → Argument Float) (key : Text)
      → atoi (trim_space s) ≡ (n, true)
      → (a key ≡ int n)
        ⊎ ((a key ≡ int64 n) ⊎ ((a key ≡ json_number (trim_space s)) ⊎ (a key ≡ string s)))
      → optional_int a key ≡ some n
  unfolding optional_int int_of int_or_float
  optional_int_agrees s n a key h (inl e) = rw e refl
  optional_int_agrees s n a key h (inr (inl e)) = rw e refl
  optional_int_agrees s n a key h (inr (inr (inl e))) = rw (e, h) refl
  optional_int_agrees s n a key h (inr (inr (inr e))) =
      rw (e, not_a_number (trim_space s) n h, h) refl
