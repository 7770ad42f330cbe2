-- ===== src/GameSource/Apply.antt =====
-- gamesource/plan.go, `Apply`: the membership of updated levels is checked before the first write,
-- and the writes are made in order. The engine and the context are parameters over a world.
pub mod Order
pub mod Batch
pub mod Completes
use dzzzr_cli.Base.{
  ℕ, zero, suc, ◌+◌, ◌≡◌, refl, Bool, true, false, not, ◌&&◌, ◌||◌, Option, none, some, inl, inr,
  ◌⊎◌, List, [], ◌∷◌, ◌++◌, if◌then◌else◌, ℤ, Text, codes, join,
}
use dzzzr_cli.GameSource.Level.{LevelParams}
use dzzzr_cli.GameSource.Codes.{Outside}
use dzzzr_cli.GameSource.Plan.{
  PlannedLevel, Plan, int_eq, is_positive, creates, updates, at_level, validate,
}

pub record LevelInfo : Type 0 where
  pub id : ℤ
  pub game_id : ℤ

-- The engine's calls on a game; the last result of each is its error.
pub record Engine (World : Type 0) : Type 0 where
  pub create_level : ℤ → LevelParams → World → ℤ × Option Text × World
  pub get_level : ℤ → ℤ → World → Option LevelInfo × Option Text × World
  pub replace_level : ℤ → ℤ → LevelParams → World → Option Text × World
  pub ctx_err : World → Option Text

pub record AppliedLevel : Type 0 where
  pub index : ℕ
  pub id : ℤ

pub record Result : Type 0 where
  pub completed : List AppliedLevel
  pub failed_index : Option ℕ

-- The result, the error, and the world that is left.
abbrev pub Applied : Type 0 → Type 0
Applied World = Result × Option Text × World

unfoldable pub failed {ℓ} :
    {World : Type ℓ} → List AppliedLevel → ℕ → Text → World → Result × Option Text × World
failed completed i err w =
    (record { completed = completed; failed_index = some i }, some (at_level i err), w)

unfoldable pub is_member : ℤ → ℤ → Option LevelInfo → Bool
is_member game id none = false
is_member game id (some info) = int_eq info.id id && int_eq info.game_id game

module _ {World : Type 0} (e : Engine World) (int_text : ℤ → Text) where
  open e use {create_level, get_level, replace_level, ctx_err}

  -- What one membership check says: its error, if it fails.
  unfoldable pub member_error : ℤ → ℤ → Option LevelInfo × Option Text → Option Text
  member_error game id (info, some err) = some err
  member_error game id (info, none) =
      if is_member game id info
      then none
      else some
          (codes "level " ++ (int_text id ++ (codes " does not belong to game " ++ int_text game)))

  unfoldable pub check_member : ℤ → ℤ → Option Text → World → Option Text × World
  unfolding member_error
  check_member game id (some done) w = (some done, w)
  check_member game id none w =
      let (info, err, w') = get_level game id w in (member_error game id (info, err), w')

  -- The first failing check: its index and its error.
  unfoldable pub check_members : ℤ → ℕ → List PlannedLevel → World → Option (ℕ × Text) × World
  unfolding check_member
  check_members game i [] w = (none, w)
  check_members game i (l ∷ ls) w =
      let (err, w') = check_member game l.id (ctx_err w) w in
      let rest = check_members game (i + 1) ls w' in
      elim err [ some x ↦ (some (i, x), w') | none ↦ rest ]

  -- One write: the id that the level has afterwards, or an error.
  unfoldable pub write_level : ℤ → Text → PlannedLevel → World → ℤ × Option Text × World
  write_level game mode l w =
      let replaced = replace_level game l.id l.params w in
      if creates mode then create_level game l.params w else (l.id, replaced.0, replaced.1)

  unfoldable pub written_id : ℤ × Option Text → Text ⊎ ℤ
  written_id (id, some err) = inl err
  written_id (id, none) =
      if is_positive id
      then inr id
      else inl (codes "engine returned an invalid level id after write")

  -- A write unless the context is done.
  unfoldable pub try_write : ℤ → Text → PlannedLevel → Option Text → World → (Text ⊎ ℤ) × World
  unfolding write_level written_id
  try_write game mode l (some done) w = (inl done, w)
  try_write game mode l none w =
      let (id, err, w') = write_level game mode l w in (written_id (id, err), w')

  unfoldable pub write_levels :
      ℤ → Text → ℕ → List PlannedLevel → List AppliedLevel → World → Applied World
  unfolding try_write failed
  write_levels game mode i [] completed w =
      (record { completed = completed; failed_index = none }, none, w)
  write_levels game mode i (l ∷ ls) completed w =
      let (out, w') = try_write game mode l (ctx_err w) w in
      elim out [
        | inl err ↦ failed completed i err w'
        | inr id ↦
            write_levels game mode (i + 1) ls (completed ++ record { index = i; id = id } ∷ []) w'
      ]

  unfoldable pub write_if_members : Plan → Option (ℕ × Text) × World → Applied World
  unfolding write_levels failed
  write_if_members p (some (i, err), w) = failed [] i err w
  write_if_members p (none, w) = write_levels p.game_id p.mode 0 p.levels [] w

  unfoldable pub apply_valid : Plan → World → Applied World
  unfolding write_if_members check_members
  apply_valid p w =
      if updates p.mode
      then write_if_members p (check_members p.game_id 0 p.levels w)
      else write_if_members p (none, w)

abbrev pub nothing_done : Result
nothing_done = record { completed = []; failed_index = none }

module _ {Float World : Type 0} (o : Outside Float) (int_text : ℤ → Text) where
  unfoldable pub apply_with : Option (Engine World) → Plan → World → Applied World
  unfolding apply_valid
  apply_with none p w = (nothing_done, some (codes "game source engine is required"), w)
  apply_with (some e) p w = apply_valid e int_text p w

  unfoldable pub apply_errors : List Text → Option (Engine World) → Plan → World → Applied World
  unfolding apply_with
  apply_errors [] engine p w = apply_with engine p w
  apply_errors (x ∷ xs) engine p w = (nothing_done, some (join (10 ∷ []) (x ∷ xs)), w)

  -- `Apply`
  unfoldable pub apply : Option (Engine World) → Plan → World → Applied World
  unfolding apply_errors
  apply engine p w = apply_errors (validate o int_text p) engine p w
