-- ===== src/GameSource/Apply/Completes.antt =====
-- With an engine that answers, a plan that validates is applied to its end.
use dzzzr_cli.Base.{
  ℕ, ◌+◌, ◌≡◌, refl, inl, inr, ◌⊎◌, true, not, ◌&&◌, Option, none, some, List, [], ◌∷◌, ◌++◌, ℤ,
  Text, All, Bool-cases, &&-eq-true, any,
}
use dzzzr_cli.GameSource.Level.{LevelParams}
use dzzzr_cli.GameSource.Codes.{Outside}
use dzzzr_cli.GameSource.Plan.{PlannedLevel, Plan, int_eq, is_positive, creates, updates, validate}
use dzzzr_cli.GameSource.Plan.Valid.{IsValid, ids_apart, validate-IsValid}
use dzzzr_cli.GameSource.Apply.{
  Engine, AppliedLevel, is_member, member_error, check_member, check_members, write_level,
  written_id, try_write, write_levels, write_if_members, apply_valid, apply_with, apply_errors,
  apply,
}
use dzzzr_cli.GameSource.Apply.Order.{Write, Logs, Finished, Stopped}
use dzzzr_cli.GameSource.Apply.Batch.{Refused, Outcome, apply-Outcome}

-- The context is never done, every call succeeds, a new level has a positive id, and every level
-- asked for belongs to its game.
pub record Answers {World : Type 0} (e : Engine World) : Type 0 where
  pub live : (w : World) → e.ctx_err w ≡ none
  pub created :
      (game : ℤ) (params : LevelParams) (w : World) → (e.create_level game params w).1 ≡ none
  pub positive :
      (game : ℤ) (params : LevelParams) (w : World)
      → is_positive (e.create_level game params w).0 ≡ true
  pub replaced :
      (game id : ℤ) (params : LevelParams) (w : World) → (e.replace_level game id params w).0 ≡ none
  pub found : (game id : ℤ) (w : World) → (e.get_level game id w).1 ≡ none
  pub member : (game id : ℤ) (w : World) → is_member game id (e.get_level game id w).0 ≡ true

module _ {World : Type 0} (e : Engine World) (int_text : ℤ → Text) (a : Answers e) where
  -- What a level's own id must be for its write to succeed.
  abbrev HasId : Text → PlannedLevel → Type 0
  HasId mode l = (creates mode ≡ true) ⊎ (is_positive l.id ≡ true)

  written_lem :
      (id : ℤ) (err : Option Text)
      → err ≡ none
      → is_positive id ≡ true
      → written_id e int_text (id, err) ≡ inr id
  unfolding written_id
  written_lem id err h k = rw (h, k) refl

  try_write_lem :
      (game : ℤ) (mode : Text) (l : PlannedLevel) (w : World)
      → HasId mode l
      → (id : ℤ) × ((try_write e int_text game mode l none w).0 ≡ inr id)
  unfolding try_write write_level
  try_write_lem game mode l w h = elim (Bool-cases (creates mode)) [
    | inl c ↦ rw c (
      (e.create_level game l.params w).0,
      written_lem _ _ (a.created game l.params w) (a.positive game l.params w),
    )
    | inr u ↦ elim h [
      | inl c ↦ cc (c, u)
      | inr k ↦ rw u (l.id, written_lem l.id _ (a.replaced game l.id l.params w) k)
    ]
  ]

  write_levels_lem :
      (game : ℤ) (mode : Text) (i : ℕ) (ls : List PlannedLevel) (done : List AppliedLevel)
      (w : World)
      → All (HasId mode) ls
      → (write_levels e int_text game mode i ls done w).1 ≡ none
  unfolding write_levels
  write_levels_lem game mode i [] done w h = refl
  write_levels_lem game mode i (l ∷ ls) done w (h, hs) =
      let (id, s) = try_write_lem game mode l w h in
      rw (a.live w, s, write_levels)
        (write_levels_lem game mode (i + 1) ls (done ++ record { index = i; id = id } ∷ []) _ hs)

  member_lem :
      (game id : ℤ) (w : World)
      → member_error e int_text game id ((e.get_level game id w).0, (e.get_level game id w).1)
        ≡ none
  unfolding member_error
  member_lem game id w = rw (a.found game id w, a.member game id w) refl

  check_members_lem :
      (game : ℤ) (i : ℕ) (ls : List PlannedLevel) (w : World)
      → (check_members e int_text game i ls w).0 ≡ none
  unfolding check_members check_member
  check_members_lem game i [] w = refl
  check_members_lem game i (l ∷ ls) w =
      rw (a.live w, member_lem game l.id w, check_members) (check_members_lem game (i + 1) ls _)

  write_if_members_lem :
      (p : Plan) (checked : Option (ℕ × Text) × World)
      → checked.0 ≡ none
      → All (HasId p.mode) p.levels
      → (write_if_members e int_text p checked).1 ≡ none
  unfolding write_if_members
  write_if_members_lem p (some x, w) h k = cc h
  write_if_members_lem p (none, w) h k = write_levels_lem p.game_id p.mode 0 p.levels [] w k

  apply_valid_lem :
      (p : Plan) (w : World) → All (HasId p.mode) p.levels → (apply_valid e int_text p w).1 ≡ none
  unfolding apply_valid
  apply_valid_lem p w k = elim (Bool-cases (updates p.mode)) [
    | inl u ↦ rw u (
        write_if_members_lem p (check_members e int_text p.game_id 0 p.levels w)
          (check_members_lem p.game_id 0 p.levels w) k)
    | inr c ↦ rw c (write_if_members_lem p (none, w) refl k)
  ]

  created-HasId : (mode : Text) (ls : List PlannedLevel) → creates mode ≡ true → All (HasId mode) ls
  created-HasId mode [] c = tt
  created-HasId mode (l ∷ ls) c = (inl c, created-HasId mode ls c)

  apart-HasId :
      (mode : Text) (ids : List ℤ) (ls : List PlannedLevel)
      → ids_apart ids ls ≡ true
      → All (HasId mode) ls
  unfolding ids_apart
  apart-HasId mode ids [] h = tt
  apart-HasId mode ids (l ∷ ls) h =
      let (here, rest) =
        &&-eq-true (is_positive l.id) (not (any (int_eq l.id) ids) && ids_apart (l.id ∷ ids) ls)
          h in
      (
        inr here,
        apart-HasId mode (l.id ∷ ids) ls
            (&&-eq-true (not (any (int_eq l.id) ids)) (ids_apart (l.id ∷ ids) ls) rest).1,
      )

  valid-HasId :
      {Float : Type 0} (o : Outside Float) (p : Plan) → IsValid o p → All (HasId p.mode) p.levels
  valid-HasId o p v = elim v.ids [
    | inl (c, zeros) ↦ created-HasId p.mode p.levels c
    | inr (u, apart) ↦ apart-HasId p.mode [] p.levels apart
  ]

  apply_no_error :
      {Float : Type 0} (o : Outside Float) (p : Plan) (w : World)
      → validate o int_text p ≡ []
      → (apply o int_text (some e) p w).1 ≡ none
  unfolding apply apply_errors apply_with
  apply_no_error o p w h =
      rw h (apply_valid_lem p w (valid-HasId o p (validate-IsValid o int_text p h)))

-- With an engine that answers every call, a plan that validates is applied to its end: all its
-- levels are reported, there is no error, and exactly its writes were asked for, in order.
pub apply-Finished :
    {Float World : Type 0} (e : Engine World) (int_text : ℤ → Text) (log : World → List Write)
    (o : Outside Float) (p : Plan) (w : World) (logs : Logs e log)
    → Answers e
    → validate o int_text p ≡ []
    → Finished e int_text log logs p.game_id p.mode 0 p.levels [] w (apply o int_text (some e) p w)
unfolding Outcome Refused Stopped
apply-Finished e int_text log o p w logs a v =
    let fine = apply_no_error e int_text a o p w v in
    elim (apply-Outcome e int_text log logs o p w) [
      | inl (nothing, err, same) ↦ cc (rw fine at err)
      | inr (inl (n, (less, ids, at, err, wrote))) ↦ cc (rw fine at err)
      | inr (inr done) ↦ done
    ]
