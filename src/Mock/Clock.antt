-- ===== src/Mock/Clock.antt =====
-- What time and finished levels do to the game: `current`, `advance`, `tick`, `onBreak`,
-- `mainDone`, `bonusPending`, `expired`, `hints` and `timerSeconds` of cmd/dzzzr-mock/state.go.
pub mod Ticks
use dzzzr_cli.Base.{
  ℕ, suc, ◌+◌, ◌-◌, ◌*◌, ◌/◌, ◌≡◌, refl, Bool, true, false, not, ◌&&◌, ◌||◌, Option, none, some,
  List, [], ◌∷◌, ltb, leb, ◌==◌, if◌then◌else◌, length, Text, is_empty, is_minus_one,
}
use dzzzr_cli.Mock.State.{
  LevelDef, LevelProgress, GameState, break_started, game_over, minute, second, break_duration,
  needed_codes, time_limit, level_at, add_log, issue_level,
}
use dzzzr_cli.Mock.Line.{next_main_order}

-- The level being played and what was done on it; each may be missing.
unfoldable pub current_level : GameState → Option LevelDef
current_level g = if g.current == 0 then none else level_at g g.current

unfoldable pub current_progress : GameState → Option LevelProgress
current_progress g = if g.current == 0 then none else g.progress g.current

unfoldable pub on_break : GameState → ℕ → Bool
on_break g now = not (g.break_until == 0) && ltb now g.break_until

-- Issue the next main level, finish the game, or start the break that was scheduled.
unfoldable pub advance : GameState → ℕ → GameState
advance g now =
    let next = next_main_order g in
    if next == 0
    then add_log (record g { current = 0; finished = true }) now game_over [] []
    else if not (g.break_pending == 0) && g.break_pending == g.current
    then add_log
        (record g {
          break_pending = 0;
          break_until = now + break_duration;
          pending_next = true;
          current = 0;
        })
        now break_started [] []
    else if on_break g now
    then record g { pending_next = true; current = 0 }
    else issue_level g next now

unfoldable pub end_break : GameState → ℕ → GameState
end_break g now =
    if not (g.break_until == 0) && not (ltb now g.break_until)
    then record g { break_until = 0 }
    else g

unfoldable pub hand_over : GameState → ℕ → GameState
hand_over g now =
    if g.pending_next && g.break_until == 0
    then advance (record g { pending_next = false }) now
    else g

unfoldable pub tick : GameState → ℕ → GameState
tick g now = if g.finished then g else hand_over (end_break g now) now

unfoldable pub codes_found : LevelProgress → ℕ
codes_found p = if p.master_code then length p.found + 1 else length p.found

unfoldable pub main_done : LevelDef → LevelProgress → Bool
unfolding needed_codes codes_found
main_done l p = leb (needed_codes l) (codes_found p)

-- The level is held open because bonus codes are still missing.
unfoldable pub bonus_pending : GameState → LevelDef → LevelProgress → Bool
bonus_pending g l p =
    if not (main_done l p) || length l.bonus_codes == 0
    then false
    else if leb (length l.bonus_codes) (length p.found_bonus)
    then false
    else if is_minus_one g.bonus_after
    then false
    else not p.next_request

-- The moment at which the time for the level runs out.
unfoldable pub deadline : LevelDef → LevelProgress → ℕ
unfolding time_limit
deadline l p =
    if not (p.hint2_early == 0)
    then p.hint2_early + l.clue_min3 * minute
    else if not (p.hint1_early == 0)
    then p.hint1_early + (l.clue_min2 + l.clue_min3) * minute
    else p.issued_at + time_limit l

unfoldable pub expired : LevelDef → LevelProgress → ℕ → Bool
unfolding deadline
expired l p now = if l.skvoz then false else ltb (deadline l p) now

unfoldable pub hint1_due : LevelDef → LevelProgress → ℕ → Bool
hint1_due l p now =
    p.hint1_taken || not (p.hint1_early == 0) || leb (p.issued_at + l.clue_min * minute) now

unfoldable pub hint2_due : LevelDef → LevelProgress → ℕ → Bool
hint2_due l p now =
    p.hint2_taken
    || not (p.hint2_early == 0)
    || leb
        (if p.hint1_early == 0
          then p.issued_at + (l.clue_min + l.clue_min2) * minute
          else p.hint1_early + l.clue_min2 * minute)
        now

-- The hint texts that the team may see.
unfoldable pub hints : LevelDef → LevelProgress → ℕ → Text × Text
unfolding hint1_due hint2_due
hints l p now =
    let h1 = if hint1_due l p now then l.clue1 else [] in
    let h2 = if hint2_due l p now then l.clue2 else [] in (h1, if is_empty h1 then [] else h2)

first_left : ℕ → List ℕ → ℕ
first_left elapsed [] = 0
first_left elapsed (m ∷ ms) =
    let rest = first_left elapsed ms in if ltb elapsed m then m - elapsed else rest

-- The seconds until the next hint or the end of the level, for a moment not before the issue.
unfoldable pub timer_seconds : LevelDef → LevelProgress → ℕ → ℕ
unfolding first_left
timer_seconds l p now = first_left ((now - p.issued_at) / second) (
    (l.clue_min * 60)
    ∷ ((l.clue_min + l.clue_min2) * 60)
    ∷ ((l.clue_min + l.clue_min2 + l.clue_min3) * 60)
    ∷ [])

unfoldable pub level_duration : LevelProgress → ℕ → ℕ
level_duration p now = (if p.completed_at == 0 then now else p.completed_at) - p.issued_at
