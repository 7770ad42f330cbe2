-- ===== src/Mock/Step/Posts.antt =====
-- Every action, and every post, as a step that reads no nil pointer.
use dzzzr_cli.Base.{
  ℕ, ◌≡◌, ◌≢◌, refl, inl, inr, Bool, true, false, not, ◌&&◌, ◌||◌, Option, none, some, List, [],
  ◌∷◌, arith, ltb, ◌==◌, is_some, Text, Bool-cases, Option-cases, ==_iff, atoi, ℤ, pos, negsuc,
  is_pos_of, find-any, ==_refl,
}
use dzzzr_cli.Mock.State.{
  LevelDef, LevelProgress, SpoilerDef, GameState, put, level_at, level_named,
}
use dzzzr_cli.Mock.Line.{next_main_order, contains, main_line}
use dzzzr_cli.Mock.Line.Next.{is_main, is_main→has_order, next_main_order_over}
use dzzzr_cli.Mock.Clock.{current_level, current_progress, tick}
use dzzzr_cli.Mock.Entry.{Form, Session, find_spoiler}
use dzzzr_cli.Mock.Actions.{
  Action, enter_code, abandons, takes_break, stops_break, takes_clue, takes_clue_early, moves_on,
  selects, opens_spoiler, writes, signs_in, other, is_captain, take_clue, before_clue, next_level,
  complete_current, select_level_on, select_level, send_message, spoiler_tried, spoilers_tried,
  spoiler_code_on, spoiler_code, do_action, post,
}
use dzzzr_cli.Mock.Step.{IsSound, Step}
use dzzzr_cli.Mock.Step.Parts.{Step-refl, Step-trans, add_log-Step, put-Step, message-Step}
use dzzzr_cli.Mock.Step.Moves.{IsOpen, issue-Step, tick-Step}
use dzzzr_cli.Mock.Step.Entries.{
  Good, GoodReply, says-Good, if-Good, open_spoiler-Step, current_level-has_progress,
  Good→GoodReply, entcod-GoodReply,
}
use dzzzr_cli.Mock.Step.Captain.{
  if-Good_by, abandon-Good, take_break-Good, stop_break-Good, take_clue_on-Good,
  before_clue_on-Good, next_level_on-Good,
}

-- The level that a team may choose was not handed over yet, so the game is not over.
select-IsOpen :
    (g : GameState) (l : LevelDef)
    → is_main g.levels l.order ≡ true
    → is_some (g.progress l.order) ≡ false
    → IsSound g
    → IsOpen g l.order
unfolding next_main_order main_line
select-IsOpen g l m fresh s = (
  not_zero,
  m,
  unissued,
  elim (Bool-cases g.finished) [
    | inl e ↦
        cc (fresh, s.recorded l.order (next_main_order_over g l.order s.numbered (over_here e) m))
    | inr e ↦ e
  ],
)
  where
    not_zero : l.order ≢ 0
    not_zero e = cc (s.numbered, rw e at (is_main→has_order g.levels l.order m))

    unissued : contains l.order g.issued ≡ false
    unissued = elim (Bool-cases (contains l.order g.issued)) [
      | inl e ↦ cc (fresh, s.recorded l.order e)
      | inr e ↦ e
    ]

    over_here : g.finished ≡ true → next_main_order g ≡ 0
    over_here e = s.over e

complete_current-Step : (g : GameState) (now : ℕ) → Step g (complete_current g now)
unfolding complete_current
complete_current-Step g now = elim (Option-cases (g.progress g.current)) [
  | inl e ↦ rw (e, complete_current) (Step-refl g)
  | inr (p, e) ↦ rw (e, complete_current) (put-Step g g.current _)
]

spoiler_code_on-Good :
    (upper : ℕ → ℕ) (g : GameState) (login code : Text) (now : ℕ) (l : Option LevelDef)
    (p : Option LevelProgress)
    → Good g (spoiler_code_on upper g login code now l p)
unfolding spoiler_code_on
spoiler_code_on-Good upper g login code now none p = says-Good 0 0 (Step-refl g)
spoiler_code_on-Good upper g login code now (some l) none = says-Good 0 0 (Step-refl g)
spoiler_code_on-Good upper g login code now (some l) (some p) = tried_on l.spoilers
  where
    tried : (found : Option SpoilerDef) → Good g (spoiler_tried upper g login code now l p found)
    tried none = says-Good 56 0 (add_log-Step g _ _ _ _)
    tried (some hit) =
        says-Good 55 0 (Step-trans (open_spoiler-Step upper g l p hit) (add_log-Step _ _ _ _ _))

    tried_on : (sps : List SpoilerDef) → Good g (spoilers_tried upper g login code now l p sps)
    tried_on [] = says-Good 0 0 (Step-refl g)
    tried_on (sp ∷ sps) = tried (find_spoiler upper code (sp ∷ sps))

spoiler_code-Good :
    (upper : ℕ → ℕ) (g : GameState) (sess : Session) (form : Form) (now : ℕ)
    → Good g (spoiler_code upper g sess form now)
unfolding spoiler_code
spoiler_code-Good upper g sess form now =
    if-Good (ltb now g.start) (says-Good 58 0 (Step-refl g))
      (spoiler_code_on-Good upper g sess.login form.spoiler_code now _ _)

-- A level that the form names is the one with that order, and is on the main line if it is no bonus.
level_named-is_main :
    (g : GameState) (z : ℤ) (l : LevelDef)
    → level_named g z ≡ some l
    → l.bonus ≡ false
    → is_main g.levels l.order ≡ true
unfolding level_at is_main
level_named-is_main g (negsuc n) l h k = cc
level_named-is_main g (pos n) l h k =
    find-any (λ m. m.order == n) (λ m. not m.bonus && m.order == l.order) g.levels l h
      (ground (arith, ==_refl l.order))

complete_current-fresh :
    (g : GameState) (now n : ℕ)
    → is_some (g.progress n) ≡ false
    → is_some ((complete_current g now).progress n) ≡ false
unfolding put complete_current
complete_current-fresh g now n h = elim (Option-cases (g.progress g.current)) [
  | inl e ↦ rw (e, complete_current) h
  | inr (p, e) ↦ rw (e, complete_current) (ground (arith, ==_iff n g.current))
]

select_level_on-Good :
    (g : GameState) (login : Text) (now : ℕ) (z : ℤ) (l : Option LevelDef)
    → level_named g z ≡ l
    → Good g (select_level_on g login now l)
unfolding select_level_on
select_level_on-Good g login now z none e = says-Good 0 0 (Step-refl g)
select_level_on-Good g login now z (some l) e =
    if-Good_by (l.bonus || is_some (g.progress l.order)) (says-Good 0 0 (Step-refl g)) (λ free.
      says-Good 0 0 (
        Step-trans
          (Step-trans (complete_current-Step g now) (
            issue-Step (complete_current g now) l.order now (
              select-IsOpen (complete_current g now) l (chosen free)
                (complete_current-fresh g now l.order (ground arith)))))
          (add_log-Step _ _ _ _ _)))
  where
    chosen :
        (l.bonus || is_some (g.progress l.order)) ≡ false
        → is_main (complete_current g now).levels l.order ≡ true
    chosen free =
        rw (complete_current-Step g now).levels_kept (level_named-is_main g z l e (ground arith))

select_level-Good :
    (g : GameState) (sess : Session) (form : Form) (now : ℕ) → Good g (select_level g sess form now)
unfolding select_level
select_level-Good g sess form now =
    if-Good (is_captain g sess)
      (if-Good (is_pos_of (atoi form.llevel).0 g.current)
        (select_level_on-Good g sess.login now (atoi form.level).0 _ refl)
        (says-Good 0 0 (Step-refl g)))
      (says-Good 57 0 (Step-refl g))

-- Each action steps from any game, and from a sound one it does not panic.
pub do_action-GoodReply :
    (upper : ℕ → ℕ) (quiet : Bool) (g : GameState) (sess : Session) (action : Action) (form : Form)
    (now : ℕ)
    → GoodReply g (do_action upper quiet g sess action form now)
unfolding do_action take_clue before_clue next_level send_message
do_action-GoodReply upper quiet g sess enter_code form now = entcod-GoodReply upper g sess form now
do_action-GoodReply upper quiet g sess abandons form now =
    Good→GoodReply sess (abandon-Good quiet g sess now)
do_action-GoodReply upper quiet g sess takes_break form now =
    Good→GoodReply sess (take_break-Good g sess now)
do_action-GoodReply upper quiet g sess stops_break form now =
    Good→GoodReply sess (stop_break-Good g sess now)
do_action-GoodReply upper quiet g sess takes_clue form now = Good→GoodReply sess (
    if-Good (is_captain g sess) (take_clue_on-Good g sess.login form now (atoi form.level).0)
      (says-Good 57 0 (Step-refl g)))
do_action-GoodReply upper quiet g sess takes_clue_early form now = Good→GoodReply sess (
    if-Good (is_captain g sess)
      (before_clue_on-Good g sess.login form now (current_level g) (current_progress g)
        (current_level-has_progress g))
      (says-Good 57 0 (Step-refl g)))
do_action-GoodReply upper quiet g sess moves_on form now = Good→GoodReply sess (
    if-Good (is_captain g sess) (next_level_on-Good g sess.login now (atoi form.level).0)
      (says-Good 57 0 (Step-refl g)))
do_action-GoodReply upper quiet g sess selects form now =
    Good→GoodReply sess (select_level-Good g sess form now)
do_action-GoodReply upper quiet g sess opens_spoiler form now =
    Good→GoodReply sess (spoiler_code-Good upper g sess form now)
do_action-GoodReply upper quiet g sess writes form now = Good→GoodReply sess (
    if-Good (is_captain g sess)
      (says-Good 33 0 (Step-trans (message-Step g _) (add_log-Step _ _ _ _ _)))
      (says-Good 57 0 (Step-refl g)))
do_action-GoodReply upper quiet g sess signs_in form now =
    Good→GoodReply sess (says-Good _ 0 (Step-refl g))
do_action-GoodReply upper quiet g sess other form now =
    Good→GoodReply sess (says-Good 0 0 (Step-refl g))

pub post-GoodReply :
    (upper : ℕ → ℕ) (quiet : Bool) (g : GameState) (sess : Session) (action : Action) (form : Form)
    (now : ℕ)
    → GoodReply g (post upper quiet g sess action form now)
unfolding post
post-GoodReply upper quiet g sess action form now =
    let t = do_action-GoodReply upper quiet (tick g now) sess action form now in
    record {
      step = Step-trans (tick-Step g now) t.step;
      safe = λ s. t.safe ((tick-Step g now).sound s);
    }
