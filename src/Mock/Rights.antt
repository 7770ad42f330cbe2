-- ===== src/Mock/Rights.antt =====
-- Who may change the game.
use dzzzr_cli.Base.{
  ℕ, ◌≡◌, ◌≢◌, refl, inl, inr, ◌⊎◌, Bool, true, false, text_eq, eq_of-text_eq, Bool-cases, arith,
}
use dzzzr_cli.Mock.State.{GameState, add_log}
use dzzzr_cli.Mock.Entry.{Form, Session, entcod, enter_checked}
use dzzzr_cli.Mock.Clock.{on_break}
use dzzzr_cli.Mock.Actions.{
  Action, enter_code, abandons, takes_break, stops_break, takes_clue, takes_clue_early, moves_on,
  selects, opens_spoiler, writes, signs_in, other, is_captain, abandon, take_break, stop_break,
  take_clue, before_clue, next_level, select_level, send_message, do_action,
}

not_captain : (g : GameState) (sess : Session) → sess.login ≢ g.captain → is_captain g sess ≡ false
unfolding is_captain
not_captain g sess h = elim (Bool-cases (text_eq sess.login g.captain)) [
  | inl e ↦ absurd (h (eq_of-text_eq sess.login g.captain e))
  | inr e ↦ e
]

-- Somebody who is not the captain changes the game only by entering a code or opening a spoiler:
-- after any other action the state and the session are as they were.
pub others_change_nothing :
    (upper : ℕ → ℕ) (quiet : Bool) (g : GameState) (sess : Session) (action : Action) (form : Form)
    (now : ℕ)
    → sess.login ≢ g.captain
    → action ≢ enter_code
    → action ≢ opens_spoiler
    → ((do_action upper quiet g sess action form now).0 ≡ g)
      × ((do_action upper quiet g sess action form now).1 ≡ sess)
unfolding do_action
others_change_nothing upper quiet g sess enter_code form now h a b = absurd (a refl)
others_change_nothing upper quiet g sess abandons form now h a b =
    (unfold abandon in rw (not_captain g sess h), refl)
others_change_nothing upper quiet g sess takes_break form now h a b =
    (unfold take_break in rw (not_captain g sess h), refl)
others_change_nothing upper quiet g sess stops_break form now h a b =
    (unfold stop_break in rw (not_captain g sess h), refl)
others_change_nothing upper quiet g sess takes_clue form now h a b =
    (unfold take_clue in rw (not_captain g sess h), refl)
others_change_nothing upper quiet g sess takes_clue_early form now h a b =
    (unfold before_clue in rw (not_captain g sess h), refl)
others_change_nothing upper quiet g sess moves_on form now h a b =
    (unfold next_level in rw (not_captain g sess h), refl)
others_change_nothing upper quiet g sess selects form now h a b =
    (unfold select_level in rw (not_captain g sess h), refl)
others_change_nothing upper quiet g sess opens_spoiler form now h a b = absurd (b refl)
others_change_nothing upper quiet g sess writes form now h a b =
    (unfold send_message in rw (not_captain g sess h), refl)
others_change_nothing upper quiet g sess signs_in form now h a b = (refl, refl)
others_change_nothing upper quiet g sess other form now h a b = (refl, refl)

-- A stopped engine, a blocked team and a running break accept no code: whatever is entered, by
-- anybody, the levels and their progress stay as they were.
pub paused_accepts_nothing :
    (upper : ℕ → ℕ) (g : GameState) (sess : Session) (form : Form) (now : ℕ)
    → (g.engine_stopped ≡ true) ⊎ ((g.blocked ≡ true) ⊎ (on_break g now ≡ true))
    → let h = (entcod upper g sess form now).0 in
      (h.progress ≡ g.progress)
      × (h.issued ≡ g.issued)
      × (h.penalty_min ≡ g.penalty_min)
      × (h.bonus_min ≡ g.bonus_min)
      × (h.current ≡ g.current)
unfolding entcod enter_checked add_log
paused_accepts_nothing upper g sess form now h = ground arith
