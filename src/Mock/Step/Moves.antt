-- ===== src/Mock/Step/Moves.antt =====
-- Handing over levels, and time, as steps.
use dzzzr_cli.Base.{
  ℕ, ◌+◌, ◌≡◌, ◌≢◌, refl, inl, inr, true, false, not, ◌&&◌, some, List, [], ◌∷◌, ◌++◌, arith, ◌==◌,
  if◌then◌else◌, any, is_some, Bool-cases, ==_refl, ==_iff,
}
use dzzzr_cli.Mock.State.{
  LevelProgress, GameState, issue_level, break_started, game_over, break_duration,
}
use dzzzr_cli.Mock.Line.{contains, next_main_order, main_line}
use dzzzr_cli.Mock.Line.Next.{is_main, contains-append, is_main→has_order, next_main_order_open}
use dzzzr_cli.Mock.Clock.{on_break, advance, end_break, hand_over, tick}
use dzzzr_cli.Mock.Step.{IsSound, Step, distinct}
use dzzzr_cli.Mock.Step.Parts.{
  Step-refl, Step-trans, if-Step, add_log-Step, pause-Step, idle-Step, finish-Step,
}

distinct-append :
    (n : ℕ) (ns : List ℕ)
    → contains n ns ≡ false
    → distinct ns ≡ true
    → distinct (ns ++ n ∷ []) ≡ true
unfolding distinct contains any
distinct-append n [] h d = refl
distinct-append n (m ∷ ms) h d = ground (arith, distinct-append n ms, contains-append m ms (n ∷ []))

-- What handing over one more level asks of the game and of the level's order.
abbrev pub IsOpen : GameState → ℕ → Type 0
IsOpen g n =
    (n ≢ 0) × (is_main g.levels n ≡ true) × (contains n g.issued ≡ false) × (g.finished ≡ false)

issued_recorded :
    (g : GameState) (n : ℕ) (p : LevelProgress) (m : ℕ)
    → IsSound g
    → contains m (g.issued ++ n ∷ []) ≡ true
    → is_some (if m == n then some p else g.progress m) ≡ true
unfolding contains any
issued_recorded g n p m s h = ground (arith, contains-append m g.issued (n ∷ []), s.recorded m)

issue-Sound : (g : GameState) (n at : ℕ) → IsOpen g n → IsSound g → IsSound (issue_level g n at)
unfolding issue_level
issue-Sound g n at (n0, m, u, f) s = record {
  playing = λ _. (is_main→has_order g.levels n m, ground (arith, ==_refl n), f);
  recorded = λ k h. issued_recorded g n _ k s h;
  once = distinct-append n g.issued u s.once;
  over = λ e. cc;
  numbered = s.numbered;
  breaks_capped = s.breaks_capped;
  abandons_capped = s.abandons_capped;
}

pub issue-Step : (g : GameState) (n at : ℕ) → (IsSound g → IsOpen g n) → Step g (issue_level g n at)
unfolding issue_level
issue-Step g n at ready = record {
  sound = λ s. issue-Sound g n at (ready s) s;
  levels_kept = refl;
  captain_kept = refl;
  log_grows = (_, refl);
  issued_grows = (_, refl);
  finished_stays = λ e. e;
  master_stays = λ e. e;
}

-- The next main level may be handed over; in a game that is over there is none.
pub next-IsOpen : (g : GameState) → next_main_order g ≢ 0 → IsSound g → IsOpen g (next_main_order g)
unfolding next_main_order main_line
next-IsOpen g h s = elim (Bool-cases g.finished) [
  | inl e ↦ absurd (h (s.over e))
  | inr e ↦ (h, (next_main_order_open g h).0, (next_main_order_open g h).1, e)
]

pub advance-Step : (g : GameState) (now : ℕ) → Step g (advance g now)
unfolding advance
advance-Step g now = elim (Bool-cases (next_main_order g == 0)) [
  | inl e ↦ rw e (
      Step-trans (finish-Step g ((==_iff (next_main_order g) 0).0 e))
        (add_log-Step _ now game_over [] []))
  | inr e ↦ rw e (
      if-Step (not (g.break_pending == 0) && g.break_pending == g.current)
        (Step-trans (Step-trans (pause-Step g 0 (now + break_duration) true) (idle-Step _))
          (add_log-Step _ now break_started [] []))
        (if-Step (on_break g now)
          (Step-trans (pause-Step g g.break_pending g.break_until true) (idle-Step _))
          (issue-Step g (next_main_order g) now
            (next-IsOpen g (λ z. cc (e, (==_iff (next_main_order g) 0).1 z))))))
]

-- Time alone keeps the invariant, whatever the moment.
pub tick-Step : (g : GameState) (now : ℕ) → Step g (tick g now)
unfolding tick hand_over end_break
tick-Step g now = if-Step g.finished (Step-refl g) (
    Step-trans end_break-Step
      (if-Step _ (Step-trans (pause-Step _ _ _ false) (advance-Step _ now)) (Step-refl _)))
  where
    end_break-Step : Step g (end_break g now)
    end_break-Step = if-Step _ (pause-Step g g.break_pending 0 g.pending_next) (Step-refl g)
