-- ===== src/Files/Tests.antt =====
-- Paths below a root, the windows of a short file, and an assembly of two parts.
use dzzzr_cli.Files.Args.{
  require_string, string_or, string_value_or, int_or, int_value_or, clamp, at_least_zero,
}
use dzzzr_cli.Base.{
  ℕ, ◌≤◌, ◌≡◌, refl, inr, true, false, none, some, [], ◌∷◌, ◌++◌, map, arith, if◌then◌else◌, length,
  pos, Text, codes, text_eq, has_prefix, trim_space, trim_left, is_space, itoa,
}
use dzzzr_cli.Tools.Arguments.{Argument, nil, int, string}
use dzzzr_cli.Files.Root.{Paths, IsUnder, within, resolve, confine, confined}
use dzzzr_cli.Files.Read.{
  FileSystem, ReadResult, max_read_bytes, drop, read_file, read_at, read_stat, read_opened,
  read_open, window, unless_error, resolve_named,
}
use dzzzr_cli.Files.Read.Pages.{pages, pages_lem}
use dzzzr_cli.Files.Read.Bounds.{read_file-IsUnder}
use dzzzr_cli.Files.Assemble.{
  Object, Storage, key_of, read_object, assemble_levels, wrapped, guard, validate_json,
  no_syntax_error, first_is, key_found, position_of, at_index, positions_from, empty_slots, slot_at,
  set_slot, place_at, place, place_parts, key_or_empty, missing, filled, complete,
  is_object_or_none, is_count,
}
use dzzzr_cli.Files.Assemble.Complete.{assemble_levels_lem}

abbrev paths : Paths
paths = record {
  clean = λ s. s;
  is_abs = has_prefix (codes "/");
  join = λ a b. a ++ (b'/' ∷ b);
  abs = λ s. inr s;
  eval_symlinks = λ s. inr s;
}

pages_lem_example : pages 6 (codes "abcdef") 2 1 ≡ codes "bcdef"
pages_lem_example = pages_lem 6 (codes "abcdef") 2 1 (omega arith) (omega arith)

abbrev files : FileSystem
files = record {
  stat = λ path. inr (record { size = 3; is_dir = false });
  open_file = λ path. inr (record { bytes = codes "abc"; seek_error = none; read_error = none });
}

abbrev arguments : Text → Argument ℕ
arguments key =
    if text_eq key (codes "path")
    then string (codes "a")
    else if text_eq key (codes "max_bytes")
    then int (pos 2)
    else nil

abbrev found : ReadResult
found = record {
  path = codes "/r/a";
  size = 3;
  offset = 0;
  read = 2;
  truncated = true;
  content = codes "ab";
}

read_file-IsUnder_example :
    IsUnder (codes "/r") found.path
    × (found.read ≡ length found.content)
    × (found.read ≤ max_read_bytes)
unfolding read_file read_at read_stat read_opened read_open window unless_error resolve_named
    require_string string_or string_value_or int_or int_value_or clamp at_least_zero resolve confine
    confined within text_eq has_prefix trim_space trim_left is_space
read_file-IsUnder_example =
    read_file-IsUnder (λ n. pos n) (λ s. s) paths files (codes "/r") arguments found refl

-- A part is stored under the name of its key; the manifest lists `b` before `a`.
abbrev level : Text → Object
level key name = if text_eq name (codes "key") then some key else none

abbrev manifest : Object
manifest name = if text_eq name (codes "levels") then some (codes "[b,a]") else none

abbrev storage : Storage
storage = record {
  local_path = λ s. inr s;
  stat = λ s. inr (record { is_regular = true; size = 3 });
  open_stat = λ s. inr (record { is_regular = true; size = 3 });
  read_all = λ s. inr (codes "{" ++ s);
  syntax_error = λ s. none;
  decode_object = λ s. inr (if text_eq s (codes "{m") then manifest else level (drop 1 s));
  decode_levels = λ raw. inr (level (codes "b") ∷ level (codes "a") ∷ []);
  decode_string = λ raw. raw;
  quote = λ s. s;
}

assemble_levels_lem_example :
    map (key_of storage) (level (codes "b") ∷ level (codes "a") ∷ [])
    ≡ inr (codes "b") ∷ inr (codes "a") ∷ []
unfolding assemble_levels wrapped guard read_object validate_json no_syntax_error first_is key_of
    key_found position_of at_index positions_from empty_slots slot_at set_slot place_at place
    place_parts key_or_empty missing filled complete is_object_or_none is_count text_eq has_prefix
    trim_space trim_left is_space itoa
assemble_levels_lem_example =
    assemble_levels_lem storage (codes "m") (codes "a" ∷ codes "b" ∷ []) manifest 4194302
      (level (codes "b") ∷ level (codes "a") ∷ []) (level (codes "b") ∷ level (codes "a") ∷ []) refl
      refl refl
