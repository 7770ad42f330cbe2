-- ===== src/Files/Assemble.antt =====
-- agentfiles/assemble.go and save.go: a scenario assembled from a manifest and its parts. The file
-- system, the JSON decoder and the encoder are parameters; an object gives the raw value of a field.
pub mod Complete
use dzzzr_cli.Base.{
  ℕ, zero, suc, ◌+◌, ◌-◌, ◌≡◌, refl, Bool, true, false, not, ◌&&◌, ◌||◌, Option, none, some, inl,
  inr, ◌⊎◌, List, [], ◌∷◌, ◌++◌, ltb, leb, ◌==◌, if◌then◌else◌, is_some, Text, codes, text_eq,
  is_empty, has_prefix, trim_space, length, itoa, join,
}

abbrev pub max_json_parts : ℕ
max_json_parts = 128

abbrev pub max_json_bytes : ℕ
max_json_bytes = 4194304

abbrev pub Object : Type 0
Object = Text → Option Text

-- What `os.Stat` says of a file.
pub record PartInfo : Type 0 where
  pub is_regular : Bool
  pub size : ℕ

-- `local_path` is `localJSONPath`; a read gives the whole content of an open file. The errors of the
-- JSON decoder are texts.
pub record Storage : Type 0 where
  pub local_path : Text → Text ⊎ Text
  pub stat : Text → Text ⊎ PartInfo
  pub open_stat : Text → Text ⊎ PartInfo
  pub read_all : Text → Text ⊎ Text
  pub syntax_error : Text → Option Text
  pub decode_object : Text → Text ⊎ Object
  pub decode_levels : Option Text → Text ⊎ List Object
  pub decode_string : Option Text → Option Text
  pub quote : Text → Text

-- `+` of errors: what follows is done where there is no error.
infixl 5 ◌>>=◌ ◌>>◌
abbrev pub ◌>>=◌ : {A B : Type 0} → Text ⊎ A → (A → Text ⊎ B) → Text ⊎ B
inl err >>= f = inl err
inr a >>= f = f a

abbrev pub ◌>>◌ : {B : Type 0} → Text ⊎ Unit {0} → Text ⊎ B → Text ⊎ B
m >> k = m >>= λ _. k

unfoldable pub wrapped : {A : Type 0} → Text → Text ⊎ A → Text ⊎ A
wrapped label (inl err) = inl (label ++ (codes ": " ++ err))
wrapped label (inr a) = inr a

unfoldable pub guard : Bool → Text → Text ⊎ Unit {0}
guard true err = inr tt
guard false err = inl err

unfoldable pub first_is : (Text → Bool) → Text → Bool
first_is p s = p (trim_space s)

abbrev pub starts_object : Text → Bool
starts_object s = has_prefix (codes "{") s

abbrev pub starts_array : Text → Bool
starts_array s = has_prefix (codes "[") s

unfoldable pub no_syntax_error : Option Text → Text ⊎ Unit {0}
no_syntax_error none = inr tt
no_syntax_error (some err) = inl err

abbrev pub too_large : Text
too_large = codes "manifest и части превышают суммарный лимит 4 МиБ"

abbrev pub not_regular : Text
not_regular = codes "JSON-часть должна быть обычным файлом"

unfoldable pub key_found : Option Text → Text ⊎ Text
key_found none = inl (codes "каждый уровень должен содержать непустой строковый key")
key_found (some key) =
    if is_empty (trim_space key)
    then inl (codes "каждый уровень должен содержать непустой строковый key")
    else inr key

-- The manifest's keys and their positions.
abbrev pub Positions : Type 0
Positions = List (Text × ℕ)

unfoldable pub position_of : Text → Positions → Option ℕ
position_of key [] = none
position_of key ((k, i) ∷ ps) =
    let rest = position_of key ps in if text_eq k key then some i else rest

unfoldable pub at_index : Text → ℕ → Text
at_index name i = name ++ (codes "[" ++ (itoa i ++ codes "]"))

-- Which parts are in their places so far.
abbrev pub Slots : Type 0
Slots = List (Option Object)

unfoldable pub empty_slots : List Object → Slots
empty_slots [] = []
empty_slots (item ∷ items) = none ∷ empty_slots items

unfoldable pub slot_at : Slots → ℕ → Option Object
slot_at [] i = none
slot_at (x ∷ xs) zero = x
slot_at (x ∷ xs) (suc i) = slot_at xs i

unfoldable pub set_slot : Slots → ℕ → Object → Slots
set_slot [] i o = []
set_slot (x ∷ xs) zero o = some o ∷ xs
set_slot (x ∷ xs) (suc i) o = x ∷ set_slot xs i o

unfoldable pub key_or_empty : Text ⊎ Text → Text
key_or_empty (inl err) = []
key_or_empty (inr key) = key

unfoldable pub filled : Slots → List Object
filled [] = []
filled (none ∷ slots) = filled slots
filled (some o ∷ slots) = o ∷ filled slots

unfoldable pub complete : List Object → Slots → List Text → Text ⊎ List Object
unfolding filled
complete inventory slots [] = inr (filled slots)
complete inventory slots (k ∷ ks) = inl (
    codes "сборка неполна: отсутствуют "
    ++ (itoa (length (k ∷ ks))
        ++ (codes " из "
            ++ (itoa (length inventory) ++ (codes " уровней: " ++ join (codes ", ") (k ∷ ks))))))

unfoldable pub is_object_or_none : Option Text → Bool
is_object_or_none none = true
is_object_or_none (some raw) = first_is starts_object raw

unfoldable pub is_count : ℕ → Bool
is_count n = leb 1 n && leb n max_json_parts

module _ (s : Storage) where
  open s use {
    local_path, stat, open_stat, read_all, syntax_error, decode_object, decode_levels,
    decode_string, quote,
  }

  -- `validateJSON`; `syntax_error` is the decoder's error with its wording.
  unfoldable pub validate_json : Text → Text ⊎ Unit {0}
  unfolding guard no_syntax_error first_is
  validate_json content = do
    guard (leb (length content) max_json_bytes)
        (codes "JSON превышает лимит " ++ (itoa max_json_bytes ++ codes " байт"))
    no_syntax_error (syntax_error content)
    guard (first_is starts_object content || first_is starts_array content)
        (codes "JSON должен быть объектом или массивом")

  -- `readObject`: the object, and the bytes that remain for the rest.
  unfoldable pub read_object : Text → ℕ → Text ⊎ Object × ℕ
  unfolding validate_json guard first_is
  read_object path remaining = do
    rel ← local_path path
    info ← stat rel
    guard info.is_regular not_regular
    guard (leb info.size remaining) too_large
    opened ← open_stat rel
    guard opened.is_regular not_regular
    content ← read_all rel
    guard (leb (length content) remaining) too_large
    validate_json content
    guard (first_is starts_object content)
        (codes "manifest и каждая часть должны быть JSON-объектами")
    object ← decode_object content
    inr (object, remaining - length content)

  -- `keyOf`
  unfoldable pub key_of : Object → Text ⊎ Text
  unfolding key_found
  key_of object = key_found (decode_string (object (codes "key")))

  unfoldable pub positions_from : ℕ → List Object → Positions → Text ⊎ Positions
  unfolding key_of wrapped at_index guard position_of
  positions_from i [] ps = inr ps
  positions_from i (item ∷ items) ps =
      let rest = λ (key : Text). positions_from (suc i) items ((key, i) ∷ ps) in
      do
        key ← wrapped (at_index (codes "manifest.levels") i) (key_of item)
        guard (not (is_some (position_of key ps)))
            (codes "повторяющийся key в manifest: " ++ quote key)
        rest key

  unfoldable pub place_at : Text → Object → Slots → Option ℕ → Text ⊎ Slots
  unfolding slot_at set_slot
  place_at key part slots none = inl (codes "неизвестный key части: " ++ quote key)
  place_at key part slots (some i) =
      if is_some (slot_at slots i)
      then inl (codes "повторяющаяся часть key=" ++ quote key)
      else inr (set_slot slots i part)

  unfoldable pub place : Positions → Object → Slots → Text → Text ⊎ Slots
  unfolding place_at position_of
  place ps part slots key = place_at key part slots (position_of key ps)

  unfoldable pub place_parts : Positions → ℕ → List Text → ℕ → Slots → Text ⊎ Slots
  unfolding read_object key_of wrapped at_index place
  place_parts ps i [] remaining slots = inr slots
  place_parts ps i (path ∷ paths) remaining slots =
      let rest = λ (left : ℕ) (slots' : Slots). place_parts ps (suc i) paths left slots' in
      do
        (part, left) ← wrapped (at_index (codes "parts") i) (read_object path remaining)
        key ← wrapped (at_index (codes "parts") i) (key_of part)
        slots' ← place ps part slots key
        rest left slots'

  -- The keys with no part.
  unfoldable pub missing : List Object → Slots → List Text
  unfolding key_or_empty key_of
  missing [] slots = []
  missing (item ∷ items) [] = key_or_empty (key_of item) ∷ missing items []
  missing (item ∷ items) (none ∷ slots) = key_or_empty (key_of item) ∷ missing items slots
  missing (item ∷ items) (some o ∷ slots) = missing items slots

  -- The levels of `assembleJSON`, in the manifest's order, before they are encoded and saved.
  unfoldable pub assemble_levels : Text → List Text → Text ⊎ List Object
  unfolding read_object wrapped guard positions_from empty_slots place_parts missing complete
      is_count
  assemble_levels manifest_path paths = do
    guard (is_count (length paths)) (codes "нужно от 1 до 128 частей")
    (manifest, left) ← wrapped (codes "manifest") (read_object manifest_path max_json_bytes)
    inventory ← wrapped (codes "manifest.levels") (decode_levels (manifest (codes "levels")))
    guard (is_count (length inventory))
        (codes "manifest.levels должен содержать от 1 до 128 уровней")
    ps ← positions_from 0 inventory []
    guard (is_object_or_none (manifest (codes "metadata")))
        (codes "manifest.metadata должен быть объектом")
    slots ← place_parts ps 0 paths left (empty_slots inventory)
    complete inventory slots (missing inventory slots)
