-- ===== src/Mock/Actions.antt =====
-- The other actions of cmd/dzzzr-mock/player.go, their dispatch `doAction`, and one post as
-- `handleGoPost` runs it: the clock first, then the action. `silent_refusal` says whether the
-- quirk of that name is on.
use dzzzr_cli.Base.{
  ℕ, suc, ◌+◌, ◌-◌, ◌*◌, ◌/◌, Bool, true, false, not, ◌&&◌, ◌||◌, Option, none, some, List, [], ◌∷◌,
  ◌++◌, ltb, leb, ◌==◌, if◌then◌else◌, is_some, Text, codes, itoa, text_eq, trim_space, ℤ, pos,
  negsuc, neg, is_pos_of, atoi, ◌+ℤ◌,
}
use dzzzr_cli.Mock.State.{
  SpoilerDef, LevelDef, LevelProgress, GameState, minute, put, level_at, level_named, add_log,
  issue_level, spoiler_accepted, spoiler_rejected, level_abandoned, break_taken, break_stopped,
  first_clue, second_clue, first_clue_early, second_clue_early, next_requested, level_selected,
  message_sent,
}
use dzzzr_cli.Mock.Code.{normalize_code}
use dzzzr_cli.Mock.Line.{next_main_order}
use dzzzr_cli.Mock.Clock.{current_level, current_progress, advance, tick, main_done}
use dzzzr_cli.Mock.Entry.{
  Form, Session, Outcome, reply, nil_deref, says, open_spoiler, find_spoiler, entcod,
}

unfoldable pub is_captain : GameState → Session → Bool
is_captain g sess = text_eq sess.login g.captain

-- What a captain may do, and nobody else.
abbrev pub captain_only : GameState → Session → GameState × Outcome → GameState × Outcome
captain_only g sess done = if is_captain g sess then done else (g, says 57)

unfoldable pub abandon_level :
    GameState → Text → ℕ → Option LevelDef → Option LevelProgress → GameState × Outcome
abandon_level g login now none p = (g, says 30)
abandon_level g login now (some l) none =
    if next_main_order g == 0 then (g, says 30) else (g, nil_deref)
abandon_level g login now (some l) (some p) = if next_main_order g == 0 then (g, says 30) else (
  advance
      (add_log
        (put (record g { abandons = g.abandons + 1 }) l.order (record p { completed_at = now })) now
        level_abandoned (itoa l.order) login)
      now,
  says 0,
)

unfoldable pub abandon : Bool → GameState → Session → ℕ → GameState × Outcome
abandon silent_refusal g sess now = captain_only g sess (
    if silent_refusal
    then (g, says 0)
    else if leb 2 g.abandons
    then (g, says 28)
    else abandon_level g sess.login now (current_level g) (current_progress g))

unfoldable pub take_break : GameState → Session → ℕ → GameState × Outcome
take_break g sess now = captain_only g sess (
    if leb 2 g.breaks then (g, says 26) else (
      add_log (record g { breaks = g.breaks + 1; break_pending = g.current }) now break_taken
          (itoa g.current) sess.login,
      says 0,
    ))

unfoldable pub stop_break : GameState → Session → ℕ → GameState × Outcome
stop_break g sess now = captain_only g sess (
  tick (add_log (record g { break_pending = 0; break_until = 0 }) now break_stopped [] sess.login)
      now,
  says 0,
)

-- `progress_named` finds nothing under a negative order.
unfoldable pub take_clue_on : GameState → Text → Form → ℕ → ℤ → GameState × Outcome
take_clue_on g login form now (negsuc n) = (g, says 0)
take_clue_on g login form now (pos n) = elim (g.progress n) [
  | none ↦ (g, says 0)
  | some p ↦
      if text_eq form.event (codes "5")
      then (
        add_log (put g n (record p { hint2_taken = true })) now second_clue (itoa n) login,
        says 0,
      )
      else (
        add_log (put g n (record p { hint1_taken = true })) now first_clue (itoa n) login,
        says 0,
      )
]

unfoldable pub take_clue : GameState → Session → Form → ℕ → GameState × Outcome
take_clue g sess form now =
    captain_only g sess (take_clue_on g sess.login form now (atoi form.level).0)

-- Minutes left until a moment, rounded up.
unfoldable pub minutes_until : ℕ → ℕ → ℕ
minutes_until due now = (due - now + minute - 1) / minute

unfoldable pub first_takeable : Form → LevelDef → LevelProgress → ℕ → Bool
first_takeable form l p now =
    text_eq form.clue (codes "1")
    && (p.hint1_early == 0 && (not p.hint1_taken && ltb now (p.issued_at + l.clue_min * minute)))

unfoldable pub second_takeable : LevelProgress → Bool
second_takeable p = p.hint2_early == 0 && not p.hint2_taken

unfoldable pub before_clue_on :
    GameState → Text → Form → ℕ → Option LevelDef → Option LevelProgress → GameState × Outcome
unfolding minutes_until
before_clue_on g login form now none p = (g, says 0)
before_clue_on g login form now (some l) none = (g, nil_deref)
before_clue_on g login form now (some l) (some p) =
    let first = p.issued_at + l.clue_min * minute in
    let second = p.issued_at + (l.clue_min + l.clue_min2) * minute in
    let penalty1 = g.clue_before_penalty + minutes_until first now in
    let penalty2 = g.clue_before_penalty + minutes_until second now in
    if first_takeable form l p now
    then (
      add_log
          (record (put g l.order (record p { hint1_early = now })) {
            penalty_min = g.penalty_min +ℤ pos penalty1;
          })
          now first_clue_early (itoa l.order) login,
      reply 42 penalty1,
    )
    else if second_takeable p
    then (
      add_log
          (record (put g l.order (record p { hint2_early = now })) {
            penalty_min = g.penalty_min +ℤ pos penalty2;
          })
          now second_clue_early (itoa l.order) login,
      reply 42 penalty2,
    )
    else (g, says 42)

unfoldable pub before_clue : GameState → Session → Form → ℕ → GameState × Outcome
before_clue g sess form now =
    captain_only g sess
      (before_clue_on g sess.login form now (current_level g) (current_progress g))

-- `l` is the level of the given order, if there is one.
unfoldable pub next_level_done : GameState → ℕ → ℕ → Option LevelDef → LevelProgress → GameState
next_level_done g n now none p = g
next_level_done g n now (some l) p =
    if n == g.current && main_done l p
    then advance (put g n (record p { completed_at = now })) now
    else g

unfoldable pub next_level_on : GameState → Text → ℕ → ℤ → GameState × Outcome
next_level_on g login now (negsuc n) = (g, says 0)
next_level_on g login now (pos n) = elim (g.progress n) [
  | none ↦ (g, says 0)
  | some p ↦
      let p1 = record p { next_request = true } in
      (
        next_level_done (add_log (put g n p1) now next_requested (itoa n) login) n now
            (level_at g n) p1,
        says 0,
      )
]

unfoldable pub next_level : GameState → Session → Form → ℕ → GameState × Outcome
next_level g sess form now =
    captain_only g sess (next_level_on g sess.login now (atoi form.level).0)

-- The level that the team leaves by choosing another, if any, is completed now.
unfoldable pub complete_current : GameState → ℕ → GameState
complete_current g now = elim (g.progress g.current) [
  | none ↦ g
  | some p ↦ put g g.current (record p { completed_at = now })
]

unfoldable pub select_level_on : GameState → Text → ℕ → Option LevelDef → GameState × Outcome
select_level_on g login now none = (g, says 0)
select_level_on g login now (some l) =
    if l.bonus || is_some (g.progress l.order) then (g, says 0) else (
      add_log (issue_level (complete_current g now) l.order now) now level_selected (itoa l.order)
          login,
      says 0,
    )

unfoldable pub select_level : GameState → Session → Form → ℕ → GameState × Outcome
select_level g sess form now = captain_only g sess (
    if is_pos_of (atoi form.llevel).0 g.current
    then select_level_on g sess.login now (level_named g (atoi form.level).0)
    else (g, says 0))

unfoldable pub send_message : GameState → Session → Form → ℕ → GameState × Outcome
send_message g sess form now =
    let text = trim_space form.content in
    captain_only g sess (
      add_log
          (record g {
            org_messages =
                g.org_messages
                ++ record { time = now; team = negate g.team_id; text = text; user = sess.login }
                  ∷ [];
          })
          now message_sent text sess.login,
      says 33,
    )
  where
    negate : ℤ → ℤ
    negate (pos n) = neg n
    negate (negsuc n) = pos (suc n)

-- The order that the spoiler form means: the one that `skvoz` names if it is positive.
unfoldable pub spoiler_order : GameState → ℤ × Bool → ℕ
spoiler_order g (pos n, true) = if ltb 0 n then n else g.current
spoiler_order g (pos n, false) = g.current
spoiler_order g (negsuc n, ok) = g.current

pub data Action : Type 0 where
  enter_code abandons takes_break stops_break takes_clue takes_clue_early : Action
  moves_on selects opens_spoiler writes signs_in other : Action

abbrev pub with_session : Session → GameState × Outcome → GameState × Session × Outcome
with_session sess r = (r.0, sess, r.1)

module _ (upper : ℕ → ℕ) where
  unfoldable pub spoiler_tried :
      GameState
      → Text
      → Text
      → ℕ
      → LevelDef
      → LevelProgress
      → Option SpoilerDef
      → GameState × Outcome
  spoiler_tried g login code now l p none =
      (add_log g now spoiler_rejected (normalize_code upper code) login, says 56)
  spoiler_tried g login code now l p (some hit) = (
    add_log (open_spoiler upper g l p hit) now spoiler_accepted (normalize_code upper code) login,
    says 55,
  )

  unfoldable pub spoilers_tried :
      GameState → Text → Text → ℕ → LevelDef → LevelProgress → List SpoilerDef → GameState × Outcome
  unfolding spoiler_tried
  spoilers_tried g login code now l p [] = (g, says 0)
  spoilers_tried g login code now l p (sp ∷ sps) =
      spoiler_tried g login code now l p (find_spoiler upper code (sp ∷ sps))

  unfoldable pub spoiler_code_on :
      GameState → Text → Text → ℕ → Option LevelDef → Option LevelProgress → GameState × Outcome
  unfolding spoilers_tried
  spoiler_code_on g login code now none p = (g, says 0)
  spoiler_code_on g login code now (some l) none = (g, says 0)
  spoiler_code_on g login code now (some l) (some p) =
      spoilers_tried g login code now l p l.spoilers

  unfoldable pub spoiler_code : GameState → Session → Form → ℕ → GameState × Outcome
  spoiler_code g sess form now =
      let order = spoiler_order g (atoi form.skvoz) in
      if ltb now g.start
      then (g, says 58)
      else spoiler_code_on g sess.login form.spoiler_code now (level_at g order) (g.progress order)

  -- `doAction`; `other` stands for `saveOptions` and for names that no case has.
  unfoldable pub do_action :
      Bool → GameState → Session → Action → Form → ℕ → GameState × Session × Outcome
  do_action quiet g sess enter_code form now = entcod upper g sess form now
  do_action quiet g sess abandons form now = with_session sess (abandon quiet g sess now)
  do_action quiet g sess takes_break form now = with_session sess (take_break g sess now)
  do_action quiet g sess stops_break form now = with_session sess (stop_break g sess now)
  do_action quiet g sess takes_clue form now = with_session sess (take_clue g sess form now)
  do_action quiet g sess takes_clue_early form now = with_session sess (before_clue g sess form now)
  do_action quiet g sess moves_on form now = with_session sess (next_level g sess form now)
  do_action quiet g sess selects form now = with_session sess (select_level g sess form now)
  do_action quiet g sess opens_spoiler form now = with_session sess (spoiler_code g sess form now)
  do_action quiet g sess writes form now = with_session sess (send_message g sess form now)
  do_action quiet g sess signs_in form now =
      (g, sess, says (if text_eq form.login (codes "fail") then 23 else 22))
  do_action quiet g sess other form now = (g, sess, says 0)

  -- One post: time first, then the action.
  unfoldable pub post :
      Bool → GameState → Session → Action → Form → ℕ → GameState × Session × Outcome
  post quiet g sess action form now = do_action quiet (tick g now) sess action form now
