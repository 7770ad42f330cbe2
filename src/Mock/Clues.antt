-- ===== src/Mock/Clues.antt =====
-- Early hints: what they cost, and what they do to the time that is left.
use dzzzr_cli.Base.{
  ℕ, ◌+◌, ◌*◌, ◌≤◌, ◌<◌, ◌≡◌, ◌↔◌, true, false, some, arith, ◌==◌, if◌then◌else◌, Text, ==_refl,
  pos, ◌+ℤ◌,
}
use dzzzr_cli.Mock.State.{LevelDef, LevelProgress, GameState, put, add_log, minute, time_limit}
use dzzzr_cli.Mock.Clock.{deadline}
use dzzzr_cli.Mock.Entry.{Form}
use dzzzr_cli.Mock.Actions.{before_clue_on, minutes_until, first_takeable, second_takeable}

-- The minutes charged cover the time left until a hint is due, and not one minute more.
pub minutes_until_bounds :
    (due now : ℕ)
    → (due ≤ now + minutes_until due now * minute)
      × ((k : ℕ) → due ≤ now + k * minute → minutes_until due now ≤ k)
unfolding minutes_until
minutes_until_bounds due now = (omega arith, λ k h. omega arith)

first_takeable-before :
    (form : Form) (l : LevelDef) (p : LevelProgress) (now : ℕ)
    → first_takeable form l p now ≡ true
    → (p.hint1_early ≡ 0) × (now < p.issued_at + l.clue_min * minute)
unfolding first_takeable
first_takeable-before form l p now h = ground arith

second_takeable-free : (p : LevelProgress) → second_takeable p ≡ true → p.hint2_early ≡ 0
unfolding second_takeable
second_takeable-free p h = ground arith

deadline-first :
    (l : LevelDef) (p : LevelProgress) (now : ℕ)
    → p.hint1_early ≡ 0
    → now ≤ p.issued_at + l.clue_min * minute
    → deadline l (record p { hint1_early = now }) ≤ deadline l p
unfolding deadline time_limit
deadline-first l p now e h = ground arith

-- The moment at which the second hint comes by itself.
abbrev pub second_due : LevelDef → LevelProgress → ℕ
second_due l p =
    if p.hint1_early == 0
    then p.issued_at + (l.clue_min + l.clue_min2) * minute
    else p.hint1_early + l.clue_min2 * minute

deadline-second :
    (l : LevelDef) (p : LevelProgress) (now : ℕ)
    → 0 < now
    → p.hint2_early ≡ 0
    → (deadline l p < deadline l (record p { hint2_early = now })) ↔ (second_due l p < now)
unfolding deadline time_limit
deadline-second l p now t e = (λ h. ground arith, λ h. ground arith)

module _ (g : GameState) (login : Text) (form : Form) (now : ℕ) (l : LevelDef)
    (p p1 : LevelProgress)
    (stored : (before_clue_on g login form now (some l) (some p)).0.progress l.order
      ≡ some p1) where
  first_stored : first_takeable form l p now ≡ true → p1 ≡ record p { hint1_early = now }
  unfolding before_clue_on put add_log
  first_stored h = ground (arith, ==_refl l.order)

  second_stored :
      first_takeable form l p now ≡ false
      → second_takeable p ≡ true
      → p1 ≡ record p { hint2_early = now }
  unfolding before_clue_on put add_log
  second_stored h k = ground (arith, ==_refl l.order)

  first_charged :
      first_takeable form l p now ≡ true
      → (before_clue_on g login form now (some l) (some p)).0.penalty_min
        ≡ g.penalty_min
          +ℤ pos (g.clue_before_penalty + minutes_until (p.issued_at + l.clue_min * minute) now)
  unfolding before_clue_on put add_log
  first_charged h = rw h

  -- Asking for the first hint early, while that is possible, never moves the level's deadline on, and
  -- costs the game's penalty and the minutes until the hint was due, rounded up.
  pub first_early_lem :
      first_takeable form l p now ≡ true
      → (deadline l p1 ≤ deadline l p)
        × (before_clue_on g login form now (some l) (some p)).0.penalty_min
          ≡ g.penalty_min
            +ℤ pos (g.clue_before_penalty + minutes_until (p.issued_at + l.clue_min * minute) now)
  first_early_lem h =
      let (free, before) = first_takeable-before form l p now h in
      (rw (first_stored h) (deadline-first l p now free (omega arith)), first_charged h)

  -- Asking for the second hint, where the first cannot be asked for, moves the deadline on exactly
  -- when the hint had come by itself already.
  pub second_early_lem :
      0 < now
      → first_takeable form l p now ≡ false
      → second_takeable p ≡ true
      → (deadline l p < deadline l p1) ↔ (second_due l p < now)
  second_early_lem t h k =
      rw (second_stored h k) (deadline-second l p now t (second_takeable-free p k))
