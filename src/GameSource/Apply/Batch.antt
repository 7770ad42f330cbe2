-- ===== src/GameSource/Apply/Batch.antt =====
-- The whole of `Apply`: what a plan writes, and that updates are checked first.
use dzzzr_cli.Base.{
  ℕ, ◌+◌, ◌≡◌, refl, sym, ◌∙◌, inl, inr, ◌⊎◌, true, Option, none, some, List, [], ◌∷◌, is_some, ℤ,
  Text, Bool-cases, Option-cases, All, pos, negsuc, ap, &&-eq-true, ==_iff,
}
use dzzzr_cli.GameSource.Codes.{Outside}
use dzzzr_cli.GameSource.Plan.{PlannedLevel, Plan, int_eq, updates, validate}
use dzzzr_cli.GameSource.Apply.{
  LevelInfo, Engine, Applied, failed, is_member, member_error, write_levels, check_member,
  check_members, write_if_members, apply_valid, apply_with, apply_errors, apply,
}
use dzzzr_cli.GameSource.Apply.Order.{Write, Logs, Stopped, Finished, write_levels-Ends}

eq_of-int_eq : (a b : ℤ) → int_eq a b ≡ true → a ≡ b
unfolding int_eq
eq_of-int_eq (pos a) (pos b) h = ap pos ((==_iff a b).0 h)
eq_of-int_eq (pos a) (negsuc b) h = cc h
eq_of-int_eq (negsuc a) (pos b) h = cc h
eq_of-int_eq (negsuc a) (negsuc b) h = ap negsuc ((==_iff a b).0 h)

is_member_lem :
    (game id : ℤ) (found : Option LevelInfo)
    → is_member game id found ≡ true
    → (info : LevelInfo) × ((found ≡ some info) × ((info.id ≡ id) × (info.game_id ≡ game)))
unfolding is_member
is_member_lem game id none h = cc h
is_member_lem game id (some info) h =
    let (same, here) = &&-eq-true (int_eq info.id id) (int_eq info.game_id game) h in
    (info, (refl, (eq_of-int_eq info.id id same, eq_of-int_eq info.game_id game here)))

module _ {World : Type 0} (e : Engine World) (int_text : ℤ → Text) (log : World → List Write)
    (logs : Logs e log) where
  -- Nothing was written, and there is an error.
  unfoldable pub Refused : World → Applied World → Type 0
  Refused w out = (out.0.completed ≡ []) × (is_some out.1 ≡ true) × (log out.2 ≡ log w)

  -- A batch is refused, stops at some level, or is finished.
  unfoldable pub Outcome : Plan → World → Applied World → Type 0
  Outcome p w out =
      Refused w out
      ⊎ (((n : ℕ) × Stopped e int_text log logs p.game_id p.mode 0 p.levels [] w out n)
          ⊎ Finished e int_text log logs p.game_id p.mode 0 p.levels [] w out)

  check_member_logs :
      (game id : ℤ) (done : Option Text) (w : World)
      → log (check_member e int_text game id done w).1 ≡ log w
  unfolding check_member
  check_member_logs game id (some done) w = refl
  check_member_logs game id none w = logs.asked game id w

  check_members_logs :
      (game : ℤ) (i : ℕ) (ls : List PlannedLevel) (w : World)
      → log (check_members e int_text game i ls w).1 ≡ log w
  unfolding check_members
  check_members_logs game i [] w = refl
  check_members_logs game i (l ∷ ls) w =
      let checked = check_member e int_text game l.id (e.ctx_err w) w in
      elim (Option-cases checked.0) [
        | inl s ↦
            rw (s, check_members)
              (check_members_logs game (i + 1) ls checked.1
                ∙ check_member_logs game l.id (e.ctx_err w) w)
        | inr (err, s) ↦ rw (s, check_members) (check_member_logs game l.id (e.ctx_err w) w)
      ]

  -- The engine found the level, in some world, with its id and in the game.
  unfoldable pub Confirmed : ℤ → PlannedLevel → Type 0
  Confirmed game l =
      (w : World) × ((info : LevelInfo) × (((e.get_level game l.id w).0 ≡ some info)
          × ((info.id ≡ l.id) × (info.game_id ≡ game))))

  check_member-Confirmed :
      (game : ℤ) (l : PlannedLevel) (done : Option Text) (w : World)
      → (check_member e int_text game l.id done w).0 ≡ none
      → Confirmed game l
  unfolding check_member Confirmed
  check_member-Confirmed game l (some done) w h = cc h
  check_member-Confirmed game l none w h = (
    w,
    is_member_lem game l.id (e.get_level game l.id w).0
        (member_error_none game l.id (e.get_level game l.id w).0 (e.get_level game l.id w).1 h),
  )
    where
      member_error_none :
          (game id : ℤ) (info : Option LevelInfo) (err : Option Text)
          → member_error e int_text game id (info, err) ≡ none
          → is_member game id info ≡ true
      member_error_none game id info (some err) h = cc h
      member_error_none game id info none h = elim (Bool-cases (is_member game id info)) [
        | inl m ↦ m
        | inr m ↦ cc (rw m at h)
      ]

  check_members-Confirmed :
      (game : ℤ) (i : ℕ) (ls : List PlannedLevel) (w : World)
      → (check_members e int_text game i ls w).0 ≡ none
      → All (Confirmed game) ls
  unfolding check_members
  check_members-Confirmed game i [] w h = tt
  check_members-Confirmed game i (l ∷ ls) w h =
      let checked = check_member e int_text game l.id (e.ctx_err w) w in
      elim (Option-cases checked.0) [
        | inl s ↦ (
          check_member-Confirmed game l (e.ctx_err w) w s,
          check_members-Confirmed game (i + 1) ls checked.1 (rw (s, check_members) at h),
        )
        | inr (err, s) ↦ cc (rw (s, check_members) at h)
      ]

  write_levels-Outcome :
      (p : Plan) (w w' : World)
      → log w' ≡ log w
      → Outcome p w (write_levels e int_text p.game_id p.mode 0 p.levels [] w')
  unfolding Outcome Stopped Finished
  write_levels-Outcome p w w' h =
      elim (write_levels-Ends e int_text log logs p.game_id p.mode 0 p.levels [] w') [
        | inl (n, (less, ids, at, err, inl wrote)) ↦
            inr (inl (n, (less, ids, at, err, inl (rw (sym h) wrote))))
        | inl (n, (less, ids, at, err, inr wrote)) ↦
            inr (inl (n, (less, ids, at, err, inr (rw (sym h) wrote))))
        | inr (ids, at, err, wrote) ↦ inr (inr (ids, at, err, rw (sym h) wrote))
      ]

  write_if_members-Outcome :
      (p : Plan) (w : World) (checked : Option (ℕ × Text) × World)
      → log checked.1 ≡ log w
      → Outcome p w (write_if_members e int_text p checked)
  unfolding write_if_members failed Outcome Refused
  write_if_members-Outcome p w (some (i, err), w') h = inl (refl, refl, h)
  write_if_members-Outcome p w (none, w') h = write_levels-Outcome p w w' h

  apply_valid-Outcome : (p : Plan) (w : World) → Outcome p w (apply_valid e int_text p w)
  unfolding apply_valid
  apply_valid-Outcome p w = elim (Bool-cases (updates p.mode)) [
    | inl u ↦ rw u (
        write_if_members-Outcome p w (check_members e int_text p.game_id 0 p.levels w)
          (check_members_logs p.game_id 0 p.levels w))
    | inr c ↦ rw c (write_if_members-Outcome p w (none, w) refl)
  ]

  module _ {Float : Type 0} (o : Outside Float) where
    apply_errors-Outcome :
        (errs : List Text) (p : Plan) (w : World)
        → Outcome p w (apply_errors o int_text errs (some e) p w)
    unfolding apply_errors apply_with Outcome Refused
    apply_errors-Outcome [] p w = apply_valid-Outcome p w
    apply_errors-Outcome (x ∷ xs) p w = inl (refl, refl, refl)

    -- A batch ends in one of three ways. It is refused: there is an error, nothing is reported and the
    -- engine was asked for no write. Or it stops at some level: exactly the levels before it are
    -- reported, in order, it is reported as the failed one, and the engine was asked for exactly the
    -- planned writes before it, and perhaps for its own. Or it is finished: all levels are reported,
    -- and the engine was asked for exactly the planned writes, in order.
    pub apply-Outcome : (p : Plan) (w : World) → Outcome p w (apply o int_text (some e) p w)
    unfolding apply
    apply-Outcome p w = apply_errors-Outcome (validate o int_text p) p w

    write_if_members-Confirmed :
        (p : Plan) (w : World) (checked : Option (ℕ × Text) × World)
        → log checked.1 ≡ log w
        → (checked.0 ≡ none → All (Confirmed p.game_id) p.levels)
        → (log (write_if_members e int_text p checked).2 ≡ log w)
          ⊎ All (Confirmed p.game_id) p.levels
    unfolding write_if_members failed
    write_if_members-Confirmed p w (some x, w') h k = inl h
    write_if_members-Confirmed p w (none, w') h k = inr (k refl)

    apply_errors-Confirmed :
        (errs : List Text) (p : Plan) (w : World)
        → updates p.mode ≡ true
        → (log (apply_errors o int_text errs (some e) p w).2 ≡ log w)
          ⊎ All (Confirmed p.game_id) p.levels
    unfolding apply_errors apply_with apply_valid
    apply_errors-Confirmed [] p w u = rw u (
        write_if_members-Confirmed p w (check_members e int_text p.game_id 0 p.levels w)
          (check_members_logs p.game_id 0 p.levels w)
          (check_members-Confirmed p.game_id 0 p.levels w))
    apply_errors-Confirmed (x ∷ xs) p w u = inl refl

    -- A batch of updates asks the engine for no write at all, unless every level of the batch is found
    -- by the engine, in some world, with its own id and in the game of the plan.
    pub apply-Confirmed :
        (p : Plan) (w : World)
        → updates p.mode ≡ true
        → (log (apply o int_text (some e) p w).2 ≡ log w) ⊎ All (Confirmed p.game_id) p.levels
    unfolding apply
    apply-Confirmed p w u = apply_errors-Confirmed (validate o int_text p) p w u
