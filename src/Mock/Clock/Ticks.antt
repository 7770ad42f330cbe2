-- ===== src/Mock/Clock/Ticks.antt =====
-- The clock may be read as often as one likes.
use dzzzr_cli.Base.{ℕ, ◌<◌, ◌≡◌, ◌≢◌, ◌⊎◌, true, false, arith}
use dzzzr_cli.Mock.State.{GameState, add_log, issue_level, put}
use dzzzr_cli.Mock.Clock.{on_break, advance, end_break, hand_over, tick}

-- What a tick leaves for the next one at the same moment: nothing.
abbrev IsSettled : GameState → ℕ → Type 0
IsSettled g now =
    (g.finished ≡ true)
    ⊎ (((g.break_until ≡ 0) ⊎ (now < g.break_until))
        × ((g.pending_next ≡ false) ⊎ (g.break_until ≢ 0)))

settled-tick : (g : GameState) (now : ℕ) → IsSettled g now → tick g now ≡ g
unfolding tick hand_over end_break
settled-tick g now h = ground arith

advance-IsSettled :
    (g : GameState) (now : ℕ)
    → g.break_until ≡ 0
    → g.pending_next ≡ false
    → IsSettled (advance g now) now
unfolding advance on_break add_log issue_level put
advance-IsSettled g now b p = ground arith

tick-IsSettled : (g : GameState) (now : ℕ) → IsSettled (tick g now) now
unfolding tick hand_over end_break
tick-IsSettled g now = ground (
  arith,
  advance-IsSettled (record g { pending_next = false }) now,
  advance-IsSettled (record g { pending_next = false; break_until = 0 }) now,
)

-- A second tick at the same moment does nothing.
pub tick-tick : (g : GameState) (now : ℕ) → tick (tick g now) now ≡ tick g now
tick-tick g now = settled-tick (tick g now) now (tick-IsSettled g now)
