-- ===== src/Files/Args.antt =====
-- agentfiles/args.go: the accessors of a call's arguments, with their defaults, and `clamp`.
use dzzzr_cli.Base.{
  ℕ, inl, inr, ◌⊎◌, [], ◌++◌, ltb, if◌then◌else◌, ℤ, pos, negsuc, Text, codes, is_empty, trim_space,
}
use dzzzr_cli.Tools.Arguments.{
  Argument, nil, float64, float32, int, int64, json_number, string, bool, structured,
}

module _ {Float : Type 0} (truncate : Float → ℤ) (quote : Text → Text) where
  unfoldable pub string_value_or : Argument Float → Text → Text
  string_value_or (string s) def = if is_empty (trim_space s) then def else s
  string_value_or nil def = def
  string_value_or (float64 f) def = def
  string_value_or (float32 f) def = def
  string_value_or (int i) def = def
  string_value_or (int64 i) def = def
  string_value_or (json_number s) def = def
  string_value_or (bool b) def = def
  string_value_or structured def = def

  unfoldable pub string_or : (Text → Argument Float) → Text → Text → Text
  unfolding string_value_or
  string_or a key def = string_value_or (a key) def

  unfoldable pub require_string : (Text → Argument Float) → Text → Text ⊎ Text
  unfolding string_or
  require_string a key =
      if is_empty (string_or a key [])
      then inl (codes "аргумент " ++ (quote key ++ codes " обязателен"))
      else inr (string_or a key [])

  unfoldable pub int_value_or : Argument Float → ℤ → ℤ
  int_value_or (float64 f) def = truncate f
  int_value_or (int i) def = i
  int_value_or (int64 i) def = i
  int_value_or nil def = def
  int_value_or (float32 f) def = def
  int_value_or (json_number s) def = def
  int_value_or (string s) def = def
  int_value_or (bool b) def = def
  int_value_or structured def = def

  unfoldable pub int_or : (Text → Argument Float) → Text → ℤ → ℤ
  unfolding int_value_or
  int_or a key def = int_value_or (a key) def

-- `min(max(v, lo), hi)` for bounds that are not negative.
unfoldable pub clamp : ℤ → ℕ → ℕ → ℕ
clamp (pos n) lo hi = let m = if ltb n lo then lo else n in if ltb hi m then hi else m
clamp (negsuc n) lo hi = if ltb hi lo then hi else lo

-- `max(v, 0)`
unfoldable pub at_least_zero : ℤ → ℕ
at_least_zero (pos n) = n
at_least_zero (negsuc n) = 0
