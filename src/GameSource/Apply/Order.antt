-- ===== src/GameSource/Apply/Order.antt =====
-- What a batch writes: the planned writes, in order, up to the first failure.
use dzzzr_cli.Base.{
  ℕ, zero, suc, ◌+◌, ◌<◌, ◌≡◌, refl, sym, ap, ◌∙◌, inl, inr, ◌⊎◌, true, Option, none, some, List,
  [], ◌∷◌, ◌++◌, arith, if◌then◌else◌, length, is_some, ℤ, Text, Bool-cases,
}
use mathlib.Core.List.{append_assoc, append-nil}
use dzzzr_cli.GameSource.Level.{LevelParams}
use dzzzr_cli.GameSource.Plan.{PlannedLevel, creates}
use dzzzr_cli.GameSource.Apply.{
  Engine, AppliedLevel, Applied, failed, write_level, try_write, write_levels,
}

-- A write asked of the engine: a new level, or new parameters of one.
pub record Write : Type 0 where
  pub game : ℤ
  pub target : Option ℤ
  pub params : LevelParams

-- The writes that the engine was asked for so far, in a world; a failed one was asked for too.
pub record Logs {World : Type 0} (e : Engine World) (log : World → List Write) : Type 0 where
  pub created :
      (game : ℤ) (params : LevelParams) (w : World)
      → log (e.create_level game params w).2
        ≡ log w ++ record { game = game; target = none; params = params } ∷ []
  pub replaced :
      (game id : ℤ) (params : LevelParams) (w : World)
      → log (e.replace_level game id params w).1
        ≡ log w ++ record { game = game; target = some id; params = params } ∷ []
  pub asked : (game id : ℤ) (w : World) → log (e.get_level game id w).2 ≡ log w

unfoldable pub planned : ℤ → Text → PlannedLevel → Write
planned game mode l = record {
  game = game;
  target = if creates mode then none else some l.id;
  params = l.params;
}

unfoldable pub first_writes : ℤ → Text → ℕ → List PlannedLevel → List Write
unfolding planned
first_writes game mode zero ls = []
first_writes game mode (suc n) [] = []
first_writes game mode (suc n) (l ∷ ls) = planned game mode l ∷ first_writes game mode n ls

unfoldable pub count_from : ℕ → ℕ → List ℕ
count_from i zero = []
count_from i (suc n) = i ∷ count_from (i + 1) n

unfoldable pub indices : List AppliedLevel → List ℕ
indices [] = []
indices (a ∷ as') = a.index ∷ indices as'

indices-append : (xs ys : List AppliedLevel) → indices (xs ++ ys) ≡ indices xs ++ indices ys
unfolding indices
indices-append [] ys = refl
indices-append (x ∷ xs) ys = ap (λ r. x.index ∷ r) (indices-append xs ys)

regroup {ℓ} :
    {A : Type ℓ} (xs : List A) {ys : List A} (x : A)
    → ys ≡ xs ++ x ∷ []
    → (zs : List A) → ys ++ zs ≡ xs ++ (x ∷ zs)
regroup xs x h zs = rw h (append_assoc xs (x ∷ []) zs)

regroup_indices :
    (done : List AppliedLevel) (i : ℕ) (id : ℤ) (zs : List ℕ)
    → indices (done ++ record { index = i; id = id } ∷ []) ++ zs ≡ indices done ++ (i ∷ zs)
unfolding indices
regroup_indices done i id zs =
    regroup (indices done) i (indices-append done (record { index = i; id = id } ∷ [])) zs

out-cases : (o : Text ⊎ ℤ) → ((err : Text) × (o ≡ inl err)) ⊎ ((id : ℤ) × (o ≡ inr id))
out-cases (inl err) = inl (err, refl)
out-cases (inr id) = inr (id, refl)

module _ {World : Type 0} (e : Engine World) (int_text : ℤ → Text) (log : World → List Write)
    (logs : Logs e log) (game : ℤ) (mode : Text) where
  -- The batch stopped at the level `n` of `ls`, whose write was or was not asked for.
  unfoldable pub Stopped :
      ℕ → List PlannedLevel → List AppliedLevel → World → Applied World → ℕ → Type 0
  Stopped i ls done w out n =
      (n < length ls)
      × (indices out.0.completed ≡ indices done ++ count_from i n)
      × (out.0.failed_index ≡ some (i + n))
      × (is_some out.1 ≡ true)
      × ((log out.2 ≡ log w ++ first_writes game mode n ls)
          ⊎ (log out.2 ≡ log w ++ first_writes game mode (suc n) ls))

  unfoldable pub Finished :
      ℕ → List PlannedLevel → List AppliedLevel → World → Applied World → Type 0
  Finished i ls done w out =
      (indices out.0.completed ≡ indices done ++ count_from i (length ls))
      × (out.0.failed_index ≡ none)
      × (out.1 ≡ none)
      × (log out.2 ≡ log w ++ first_writes game mode (length ls) ls)

  abbrev pub Ends : ℕ → List PlannedLevel → List AppliedLevel → World → Applied World → Type 0
  Ends i ls done w out = ((n : ℕ) × Stopped i ls done w out n) ⊎ Finished i ls done w out

  write_level_logs :
      (l : PlannedLevel) (w : World)
      → log (write_level e int_text game mode l w).2 ≡ log w ++ planned game mode l ∷ []
  unfolding write_level planned
  write_level_logs l w = elim (Bool-cases (creates mode)) [
    | inl c ↦ rw c (logs.created game l.params w)
    | inr c ↦ rw c (logs.replaced game l.id l.params w)
  ]

  try_write_logs :
      (l : PlannedLevel) (done : Option Text) (w : World)
      → ((err : Text) × ((try_write e int_text game mode l done w).0 ≡ inl err)
          × (log (try_write e int_text game mode l done w).1 ≡ log w))
        ⊎ (log (try_write e int_text game mode l done w).1 ≡ log w ++ planned game mode l ∷ [])
  unfolding try_write
  try_write_logs l (some done) w = inl (done, refl, refl)
  try_write_logs l none w = inr (write_level_logs l w)

  step-Ends :
      (i : ℕ) (l : PlannedLevel) (ls : List PlannedLevel) (done : List AppliedLevel) (id : ℤ)
      (w w' : World) (out : Applied World)
      → log w' ≡ log w ++ planned game mode l ∷ []
      → Ends (i + 1) ls (done ++ record { index = i; id = id } ∷ []) w' out
      → Ends i (l ∷ ls) done w out
  unfolding Stopped Finished first_writes count_from indices
  step-Ends i l ls done id w w' out h (inl (n, (less, ids, at, err, wrote))) = inl (
    suc n,
    (
      omega (arith, less),
      ids ∙ regroup_indices done i id (count_from (i + 1) n),
      at ∙ ap some (omega arith),
      err,
      wrote_more wrote,
    ),
  )
    where
      wrote_more :
          (log out.2 ≡ log w' ++ first_writes game mode n ls)
            ⊎ (log out.2 ≡ log w' ++ first_writes game mode (suc n) ls)
          → (log out.2 ≡ log w ++ first_writes game mode (suc n) (l ∷ ls))
            ⊎ (log out.2 ≡ log w ++ first_writes game mode (suc (suc n)) (l ∷ ls))
      wrote_more (inl x) =
          inl (x ∙ regroup (log w) (planned game mode l) h (first_writes game mode n ls))
      wrote_more (inr x) =
          inr (x ∙ regroup (log w) (planned game mode l) h (first_writes game mode (suc n) ls))
  step-Ends i l ls done id w w' out h (inr (ids, at, err, wrote)) = inr (
    ids ∙ regroup_indices done i id (count_from (i + 1) (length ls)),
    at,
    err,
    wrote ∙ regroup (log w) (planned game mode l) h (first_writes game mode (length ls) ls),
  )

  pub write_levels-Ends :
      (i : ℕ) (ls : List PlannedLevel) (done : List AppliedLevel) (w : World)
      → Ends i ls done w (write_levels e int_text game mode i ls done w)
  unfolding write_levels failed Stopped Finished first_writes count_from
  write_levels-Ends i [] done w =
      inr (sym (append-nil (indices done)), refl, refl, sym (append-nil (log w)))
  write_levels-Ends i (l ∷ ls) done w =
      let tried = try_write e int_text game mode l (e.ctx_err w) w in
      elim (out-cases tried.0) [
        | inl (err, s) ↦
            rw (s, write_levels)
              (inl (
                zero,
                (
                  omega arith,
                  sym (append-nil (indices done)),
                  ap some (omega arith),
                  refl,
                  elim (try_write_logs l (e.ctx_err w) w) [
                    | inl (err', tried_err, same) ↦ inl (same ∙ sym (append-nil (log w)))
                    | inr more ↦ inr more
                  ],
                ),
              ))
        | inr (id, s) ↦
            rw (s, write_levels)
              (elim (try_write_logs l (e.ctx_err w) w) [
                | inl (err, tried_err, same) ↦ cc (s, tried_err)
                | inr more ↦ step-Ends i l ls done id w tried.1 _ more (
                    write_levels-Ends (i + 1) ls (done ++ record { index = i; id = id } ∷ [])
                      tried.1)
              ])
      ]
