-- ===== src/Mock/Step/Captain.antt =====
-- The captain's abandons, breaks, hints and next levels, as steps that read no nil pointer.
use dzzzr_cli.Base.{
  ℕ, ◌≡◌, refl, inl, inr, Bool, true, false, ◌&&◌, Option, none, some, leb, ◌==◌, if◌then◌else◌,
  is_some, Text, codes, text_eq, Option-cases, ℤ, pos, negsuc,
}
use dzzzr_cli.Mock.State.{LevelDef, LevelProgress, GameState, put, level_at}
use dzzzr_cli.Mock.Line.{next_main_order}
use dzzzr_cli.Mock.Clock.{current_level, current_progress, main_done}
use dzzzr_cli.Mock.Entry.{Form, Session, Outcome}
use dzzzr_cli.Mock.Actions.{
  is_captain, abandon_level, abandon, take_break, stop_break, take_clue_on, before_clue_on,
  next_level_done, next_level_on, first_takeable, second_takeable,
}
use dzzzr_cli.Mock.Step.{IsSound, Step}
use dzzzr_cli.Mock.Step.Parts.{
  Step-refl, Step-trans, if-Step, add_log-Step, put-Step, penalty-Step, pause-Step, breaks-Step,
  abandons-Step,
}
use dzzzr_cli.Mock.Step.Moves.{advance-Step, tick-Step}
use dzzzr_cli.Mock.Step.Entries.{Good, says-Good, if-Good, current_level-has_progress}

-- A branch may be proved under its test.
pub if-Good_by :
    {g : GameState} (b : Bool) {x y : GameState × Outcome}
    → Good g x
    → (b ≡ false → Good g y)
    → Good g (if b then x else y)
if-Good_by true s t = s
if-Good_by false s t = t refl

pub abandon_level-Good :
    (g : GameState) (login : Text) (now : ℕ) (l : Option LevelDef) (p : Option LevelProgress)
    → leb 2 g.abandons ≡ false
    → (IsSound g → is_some l ≡ true → is_some p ≡ true)
    → Good g (abandon_level g login now l p)
unfolding abandon_level
abandon_level-Good g login now none p fewer h = says-Good 30 0 (Step-refl g)
abandon_level-Good g login now (some l) none fewer h =
    if-Good (next_main_order g == 0) (says-Good 30 0 (Step-refl g))
      (record { step = Step-refl g; safe = λ s. cc (h s refl) })
abandon_level-Good g login now (some l) (some p) fewer h =
    if-Good (next_main_order g == 0) (says-Good 30 0 (Step-refl g)) (
      says-Good 0 0 (
        Step-trans
          (Step-trans (Step-trans (abandons-Step g fewer) (put-Step _ _ _))
            (add_log-Step _ _ _ _ _))
          (advance-Step _ now)))

pub abandon-Good :
    (quiet : Bool) (g : GameState) (sess : Session) (now : ℕ) → Good g (abandon quiet g sess now)
unfolding abandon
abandon-Good quiet g sess now =
    if-Good (is_captain g sess)
      (if-Good quiet (says-Good 0 0 (Step-refl g)) (
        if-Good_by (leb 2 g.abandons) (says-Good 28 0 (Step-refl g)) (λ fewer.
          abandon_level-Good g sess.login now (current_level g) (current_progress g) fewer
            (current_level-has_progress g))))
      (says-Good 57 0 (Step-refl g))

pub take_break-Good : (g : GameState) (sess : Session) (now : ℕ) → Good g (take_break g sess now)
unfolding take_break
take_break-Good g sess now =
    if-Good (is_captain g sess)
      (if-Good_by (leb 2 g.breaks) (says-Good 26 0 (Step-refl g)) (λ fewer.
        says-Good 0 0 (Step-trans (breaks-Step g g.current fewer) (add_log-Step _ _ _ _ _))))
      (says-Good 57 0 (Step-refl g))

pub stop_break-Good : (g : GameState) (sess : Session) (now : ℕ) → Good g (stop_break g sess now)
unfolding stop_break
stop_break-Good g sess now =
    if-Good (is_captain g sess)
      (says-Good 0 0 (
        Step-trans (Step-trans (pause-Step g 0 0 g.pending_next) (add_log-Step _ _ _ _ _))
          (tick-Step _ now)))
      (says-Good 57 0 (Step-refl g))

pub take_clue_on-Good :
    (g : GameState) (login : Text) (form : Form) (now : ℕ) (z : ℤ)
    → Good g (take_clue_on g login form now z)
unfolding take_clue_on
take_clue_on-Good g login form now (negsuc n) = says-Good 0 0 (Step-refl g)
take_clue_on-Good g login form now (pos n) = elim (Option-cases (g.progress n)) [
  | inl e ↦ rw (e, take_clue_on) (says-Good 0 0 (Step-refl g))
  | inr (p, e) ↦
      rw (e, take_clue_on)
        (if-Good (text_eq form.event (codes "5"))
          (says-Good 0 0 (Step-trans (put-Step g n _) (add_log-Step _ _ _ _ _)))
          (says-Good 0 0 (Step-trans (put-Step g n _) (add_log-Step _ _ _ _ _))))
]

pub before_clue_on-Good :
    (g : GameState) (login : Text) (form : Form) (now : ℕ) (l : Option LevelDef)
    (p : Option LevelProgress)
    → (IsSound g → is_some l ≡ true → is_some p ≡ true)
    → Good g (before_clue_on g login form now l p)
unfolding before_clue_on put
before_clue_on-Good g login form now none p h = says-Good 0 0 (Step-refl g)
before_clue_on-Good g login form now (some l) none h = record {
  step = Step-refl g;
  safe = λ s. cc (h s refl);
}
before_clue_on-Good g login form now (some l) (some p) h =
    if-Good (first_takeable form l p now)
      (says-Good 42 _ (
        Step-trans (Step-trans (put-Step g l.order _) (penalty-Step _ _)) (add_log-Step _ _ _ _ _)))
      (if-Good (second_takeable p)
        (says-Good 42 _ (
          Step-trans (Step-trans (put-Step g l.order _) (penalty-Step _ _))
            (add_log-Step _ _ _ _ _)))
        (says-Good 42 0 (Step-refl g)))

pub next_level_done-Step :
    (g : GameState) (n now : ℕ) (l : Option LevelDef) (p : LevelProgress)
    → Step g (next_level_done g n now l p)
unfolding next_level_done
next_level_done-Step g n now none p = Step-refl g
next_level_done-Step g n now (some l) p =
    if-Step (n == g.current && main_done l p) (Step-trans (put-Step g n _) (advance-Step _ now))
      (Step-refl g)

pub next_level_on-Good :
    (g : GameState) (login : Text) (now : ℕ) (z : ℤ) → Good g (next_level_on g login now z)
unfolding next_level_on
next_level_on-Good g login now (negsuc n) = says-Good 0 0 (Step-refl g)
next_level_on-Good g login now (pos n) = elim (Option-cases (g.progress n)) [
  | inl e ↦ rw (e, next_level_on) (says-Good 0 0 (Step-refl g))
  | inr (p, e) ↦
      rw (e, next_level_on)
        (says-Good 0 0 (
          Step-trans (Step-trans (put-Step g n _) (add_log-Step _ _ _ _ _))
            (next_level_done-Step _ n now (level_at g n) _)))
]
