-- ===== src/StatStore/Disk.antt =====
-- statstore/store.go: the logs as files of a directory, each written beside and then renamed. A method
-- runs under the lock as one step. The file system is a parameter; a world `W` is its state.
pub mod Laws
pub mod Kept
use dzzzr_cli.Base.{
  ℕ, ◌+◌, ◌≡◌, Bool, true, false, not, ◌&&◌, ◌||◌, Option, none, some, inl, inr, ◌⊎◌, List, [], ◌∷◌,
  ◌++◌, ltb, leb, ◌==◌, if◌then◌else◌, length, Text, codes,
}
use dzzzr_cli.StatStore.Logs.{StoredLog, Services, max_log_bytes}

-- The functions of `os` on the directory of the store; what changes it gives an error or none.
pub record Directory (W : Type 0) : Type 0 where
  pub make_root : W → Option Text × W
  pub open_root : W → Option Text
  pub read_file : Text → W → Text ⊎ Text
  pub write_file : Text → Text → W → Option Text × W
  pub rename : Text → Text → W → Option Text × W
  pub remove : Text → W → W

unfoldable pub is_hex_digits : Text → Bool
is_hex_digits [] = true
is_hex_digits (c ∷ s) = ((leb 97 c && leb c 102) || (leb 48 c && leb c 57)) && is_hex_digits s

-- `validID`
unfoldable pub is_valid_id : Text → Bool
unfolding is_hex_digits
is_valid_id id = (length id == 32) && is_hex_digits id

unfoldable pub json_name : Text → Text
json_name id = id ++ codes ".json"

unfoldable pub tmp_name : Text → Text
tmp_name id = id ++ codes ".tmp"

module _ {W Config : Type 0} (d : Directory W) (v : Services Config) where
  open d use {make_root, open_root, read_file, write_file, rename, remove}
  open v use {build, encode, decode}

  abbrev pub Saved : Type 0
  Saved = (Text ⊎ StoredLog Config) × W

  -- A failing call gives its error only; in Go the log stands beside it.
  unfoldable pub save_renamed : StoredLog Config → Option Text × W → Saved
  unfolding tmp_name
  save_renamed l (some err, w) = (inl err, remove (tmp_name l.id) w)
  save_renamed l (none, w) = (inr l, remove (tmp_name l.id) w)

  unfoldable pub save_written : StoredLog Config → Option Text × W → Saved
  unfolding save_renamed tmp_name json_name
  save_written l (some err, w) = (inl err, w)
  save_written l (none, w) = save_renamed l (rename (tmp_name l.id) (json_name l.id) w)

  unfoldable pub save_opened : StoredLog Config → Text → Option Text → W → Saved
  unfolding save_written tmp_name
  save_opened l b (some err) w = (inl err, w)
  save_opened l b none w = save_written l (write_file (tmp_name l.id) b w)

  unfoldable pub save_encoded : StoredLog Config → Text ⊎ Text → W → Saved
  unfolding save_opened
  save_encoded l (inl err) w = (inl err, w)
  save_encoded l (inr b) w = save_opened l b (open_root w) w

  unfoldable pub save_made : StoredLog Config → Option Text × W → Saved
  unfolding save_encoded
  save_made l (some err, w) = (inl err, w)
  save_made l (none, w) = save_encoded l (encode l) w

  -- `Store.save`
  unfoldable pub save_file : StoredLog Config → W → Saved
  unfolding save_made
  save_file l w = save_made l (make_root w)

  unfoldable pub load_read : Text ⊎ Text → Text ⊎ StoredLog Config
  load_read (inl err) = inl err
  load_read (inr b) = decode b

  unfoldable pub load_opened : Text → Option Text → W → Text ⊎ StoredLog Config
  unfolding load_read json_name
  load_opened id (some err) w = inl err
  load_opened id none w = load_read (read_file (json_name id) w)

  -- `Store.load`
  unfoldable pub load_file : Text → W → Text ⊎ StoredLog Config
  unfolding is_valid_id load_opened
  load_file id w =
      if not (is_valid_id id)
      then inl (codes "неверный идентификатор журнала")
      else load_opened id (open_root w) w

  unfoldable pub create_file_built : Text → Text → Text ⊎ Config → Text ⊎ Text → W → Saved
  unfolding save_file
  create_file_built name content (inl err) drawn w = (inl err, w)
  create_file_built name content (inr config) (inl err) w = (inl err, w)
  create_file_built name content (inr config) (inr id) w =
      save_file (record { id = id; name = name; content = content; config = config; revision = 1 })
        w

  -- `Store.Create`; `base` is `filepath.Base(name)`.
  unfoldable pub create_file : Text → Text → Text → Option Config → Text ⊎ Text → W → Saved
  unfolding create_file_built
  create_file name base content cfg drawn w =
      if ltb max_log_bytes (length content)
      then (inl (codes "журнал превышает 32 МБ"), w)
      else create_file_built base content (build name content cfg) drawn w

  unfoldable pub update_file_built : StoredLog Config → Text ⊎ Config → W → Saved
  unfolding save_file
  update_file_built l (inl err) w = (inl err, w)
  update_file_built l (inr config) w =
      save_file (record l { config = config; revision = l.revision + 1 }) w

  unfoldable pub update_file_loaded : ℕ → Config → Text ⊎ StoredLog Config → W → Saved
  unfolding update_file_built
  update_file_loaded revision cfg (inl err) w = (inl err, w)
  update_file_loaded revision cfg (inr l) w =
      if not (revision == l.revision)
      then (inl (codes "параметры изменились: перечитайте журнал и повторите изменение"), w)
      else update_file_built l (build l.name l.content (some cfg)) w

  -- `Store.Update`
  unfoldable pub update_file : Text → ℕ → Config → W → Saved
  unfolding update_file_loaded load_file
  update_file id revision cfg w = update_file_loaded revision cfg (load_file id w) w
