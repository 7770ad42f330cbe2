-- ===== src/StatStore/Memory.antt =====
-- statstore/memory.go. A method runs under the lock as one step. `drawn` is the identifier that
-- `rand.Read` gives, in hexadecimal, or its error.
pub mod Versions
pub mod Update
use dzzzr_cli.Base.{
  ℕ, ◌+◌, ◌≡◌, Bool, true, false, not, Option, none, some, inl, inr, ◌⊎◌, List, [], ◌∷◌, ltb, ◌==◌,
  if◌then◌else◌, length, Text, codes, text_eq,
}
use dzzzr_cli.StatStore.Logs.{StoredLog, Services, max_log_bytes}

-- Go's map of encoded logs: what is put last is found first.
abbrev pub Memory : Type 0
Memory = List (Text × Text)

unfoldable pub bytes_at : Memory → Text → Option Text
bytes_at [] id = none
bytes_at ((key, b) ∷ s) id = let rest = bytes_at s id in if text_eq key id then some b else rest

module _ {Config : Type 0} (v : Services Config) where
  open v use {build, encode, decode}

  -- A result, and the memory after it.
  abbrev pub Outcome : Type 0
  Outcome = (Text ⊎ StoredLog Config) × Memory

  -- A failing call gives its error only; in Go the log stands beside it.
  unfoldable pub save_bytes : StoredLog Config → Text ⊎ Text → Memory → Outcome
  save_bytes l (inl err) s = (inl err, s)
  save_bytes l (inr b) s = (inr l, (l.id, b) ∷ s)

  unfoldable pub save : StoredLog Config → Memory → Outcome
  unfolding save_bytes
  save l s = save_bytes l (encode l) s

  unfoldable pub create_drawn : Text → Text → Config → Text ⊎ Text → Memory → Outcome
  unfolding save
  create_drawn name content config (inl err) s = (inl err, s)
  create_drawn name content config (inr id) s =
      save (record { id = id; name = name; content = content; config = config; revision = 1 }) s

  unfoldable pub create_built : Text → Text → Text ⊎ Config → Text ⊎ Text → Memory → Outcome
  unfolding create_drawn
  create_built name content (inl err) drawn s = (inl err, s)
  create_built name content (inr config) drawn s = create_drawn name content config drawn s

  -- `Memory.Create`
  unfoldable pub create : Text → Text → Option Config → Text ⊎ Text → Memory → Outcome
  unfolding create_built
  create name content cfg drawn s =
      if ltb max_log_bytes (length content)
      then (inl (codes "журнал превышает 32 МБ"), s)
      else create_built name content (build name content cfg) drawn s

  unfoldable pub load_bytes : Option Text → Text ⊎ StoredLog Config
  load_bytes none = inl (codes "журнал не загружен")
  load_bytes (some b) = decode b

  -- `Memory.Load`
  unfoldable pub load : Text → Memory → Text ⊎ StoredLog Config
  unfolding load_bytes bytes_at
  load id s = load_bytes (bytes_at s id)

  unfoldable pub update_built : StoredLog Config → Text ⊎ Config → Memory → Outcome
  unfolding save
  update_built l (inl err) s = (inl err, s)
  update_built l (inr config) s = save (record l { config = config; revision = l.revision + 1 }) s

  unfoldable pub update_loaded : ℕ → Config → Text ⊎ StoredLog Config → Memory → Outcome
  unfolding update_built
  update_loaded revision cfg (inl err) s = (inl err, s)
  update_loaded revision cfg (inr l) s =
      if not (l.revision == revision)
      then (inl (codes "параметры изменились: перечитайте журнал"), s)
      else update_built l (build l.name l.content (some cfg)) s

  -- `Memory.Update`
  unfoldable pub update : Text → ℕ → Config → Memory → Outcome
  unfolding load update_loaded
  update id revision cfg s = update_loaded revision cfg (load id s) s
