-- ===== src/Mock/Step/Entries.antt =====
-- Code entry as a step that reads no nil pointer.
use dzzzr_cli.Base.{
  ℕ, ◌≡◌, ◌≢◌, refl, inl, inr, Bool, true, false, not, ◌&&◌, ◌||◌, Option, none, some, [], ◌∷◌, ltb,
  ◌==◌, if◌then◌else◌, is_some, Text, codes, is_empty, text_eq, Bool-cases, ==_iff, pos,
}
use dzzzr_cli.Mock.State.{LevelDef, LevelProgress, SpoilerDef, GameState, put}
use dzzzr_cli.Mock.Code.{normalize_code, match_code}
use dzzzr_cli.Mock.Line.{next_main_order, contains}
use dzzzr_cli.Mock.Clock.{
  current_level, current_progress, on_break, main_done, bonus_pending, expired,
}
use dzzzr_cli.Mock.Entry.{
  Form, Session, Outcome, reply, nil_deref, known, after_main_code, open_spoiler, find_spoiler,
  enter_wrong, enter_fake, enter_bonus, enter_main, enter_expired, enter_timed, enter_spoiler,
  enter_master, enter_on, enter_skvoz, enter_current, enter_checked, entcod,
}
use dzzzr_cli.Mock.Step.{IsSound, Step}
use dzzzr_cli.Mock.Step.Parts.{
  Step-refl, Step-trans, if-Step, add_log-Step, put-Step, penalty-Step, bonus-Step, master-Step,
  finish-Step,
}
use dzzzr_cli.Mock.Step.Moves.{advance-Step}

-- The handler steps to the new state, and from a sound state it does not panic.
pub record Good (g : GameState) (r : GameState × Outcome) : Type 0 where
  pub step : Step g r.0
  pub safe : IsSound g → r.1 ≢ nil_deref

pub says-Good : {g h : GameState} (err penalty : ℕ) → Step g h → Good g (h, reply err penalty)
says-Good err penalty s = record { step = s; safe = λ _ e. cc }

pub if-Good :
    {g : GameState} (b : Bool) {x y : GameState × Outcome}
    → Good g x
    → Good g y
    → Good g (if b then x else y)
if-Good true s t = s
if-Good false s t = t

pub after-Good : {g h : GameState} {r : GameState × Outcome} → Step g h → Good h r → Good g r
after-Good s t = record { step = Step-trans s t.step; safe = λ v. t.safe (s.sound v) }

pub after_main_code-Good :
    (g : GameState) (l : LevelDef) (p : LevelProgress) (login : Text) (now : ℕ)
    (skvoz master : Bool)
    → Good g (after_main_code g l p login now skvoz master)
unfolding after_main_code
after_main_code-Good g l p login now skvoz master =
    if-Good (not (main_done l p)) (says-Good _ _ (Step-refl g)) (
      if-Good (bonus_pending g l p) (says-Good _ _ (Step-refl g)) (
        if-Good (skvoz || l.bonus)
          (says-Good _ _ (Step-trans (put-Step g _ _) (add_log-Step _ _ _ _ _)))
          (says-Good _ _ (
            Step-trans (Step-trans (put-Step g _ _) (add_log-Step _ _ _ _ _))
              (advance-Step _ now)))))

module _ (upper : ℕ → ℕ) where
  pub open_spoiler-Step :
      (g : GameState) (l : LevelDef) (p : LevelProgress) (sp : SpoilerDef)
      → Step g (open_spoiler upper g l p sp)
  unfolding open_spoiler put
  open_spoiler-Step g l p sp =
      if-Step (contains sp.order p.opened_spoilers) (Step-refl g)
        (Step-trans (put-Step g l.order _) (penalty-Step _ sp.penalty))

  module _ (g : GameState) (l : LevelDef) (p : LevelProgress) (cod login : Text) (now : ℕ)
      (skvoz_req : Bool) where
    enter_wrong-Good : Good g (enter_wrong upper g l p cod login now skvoz_req)
    unfolding enter_wrong
    enter_wrong-Good = says-Good _ _ (Step-trans (put-Step g _ _) (add_log-Step _ _ _ _ _))

    enter_fake-Good : (c : Text) → Good g (enter_fake upper g l p cod login now skvoz_req c)
    unfolding enter_fake put
    enter_fake-Good [] = enter_wrong-Good
    enter_fake-Good (c ∷ cs) =
        if-Good (known (c ∷ cs) p.found_fake) (says-Good _ _ (add_log-Step g _ _ _ _)) (
          says-Good _ _
            (Step-trans (Step-trans (put-Step g _ _) (penalty-Step _ _)) (add_log-Step _ _ _ _ _)))

    enter_bonus-Good : (c : Text) → Good g (enter_bonus upper g l p cod login now skvoz_req c)
    unfolding enter_bonus put
    enter_bonus-Good [] = enter_fake-Good (match_code upper cod l.fake_codes)
    enter_bonus-Good (c ∷ cs) =
        if-Good (known (c ∷ cs) p.found_bonus) (says-Good _ _ (add_log-Step g _ _ _ _)) (
          says-Good _ _
            (Step-trans (Step-trans (put-Step g _ _) (bonus-Step _ _)) (add_log-Step _ _ _ _ _)))

    enter_main-Good : (c : Text) → Good g (enter_main upper g l p cod login now skvoz_req c)
    unfolding enter_main
    enter_main-Good [] = enter_bonus-Good (match_code upper cod l.bonus_codes)
    enter_main-Good (c ∷ cs) =
        if-Good (known (c ∷ cs) p.found) (says-Good _ _ (add_log-Step g _ _ _ _)) (
          if-Good (bonus_pending g l p) (says-Good _ _ (add_log-Step g _ _ _ _)) (
            after-Good (Step-trans (put-Step g _ _) (add_log-Step _ _ _ _ _))
              (after_main_code-Good _ l _ login now skvoz_req false)))

    enter_expired-Good :
        (h : GameState) → Good h (enter_expired upper g l p cod login now skvoz_req h)
    unfolding enter_expired
    enter_expired-Good h = elim (Bool-cases (next_main_order h == 0)) [
      | inl e ↦ rw e (says-Good _ _ (finish-Step h ((==_iff (next_main_order h) 0).0 e)))
      | inr e ↦ rw e (says-Good _ _ (advance-Step h now))
    ]

    enter_timed-Good : Good g (enter_timed upper g l p cod login now skvoz_req)
    unfolding enter_timed
    enter_timed-Good = if-Good _ (says-Good _ _ (Step-refl g)) (
        if-Good (not skvoz_req && expired l p now)
          (after-Good (Step-trans (add_log-Step g _ _ _ _) (put-Step _ _ _)) (enter_expired-Good _))
          (enter_main-Good (match_code upper cod l.level_codes)))

    enter_spoiler-Good :
        (found : Option SpoilerDef)
        → Good g (enter_spoiler upper g l p cod login now skvoz_req found)
    unfolding enter_spoiler
    enter_spoiler-Good none = enter_timed-Good
    enter_spoiler-Good (some sp) =
        says-Good _ _ (Step-trans (open_spoiler-Step g l p sp) (add_log-Step _ _ _ _ _))

    enter_master-Good : Good g (enter_master upper g l p cod login now skvoz_req)
    unfolding enter_master put
    enter_master-Good = if-Good skvoz_req (says-Good _ _ (Step-refl g)) (
        if-Good l.no_master_code (says-Good _ _ (Step-refl g)) (
          if-Good g.master_used (says-Good _ _ (Step-refl g)) (
            after-Good
              (Step-trans
                (Step-trans (Step-trans (put-Step g _ _) (master-Step _))
                  (penalty-Step _ (pos g.master_code_penalty)))
                (add_log-Step _ _ _ _ _))
              (after_main_code-Good _ l _ login now false true))))

    enter_on-Good : Good g (enter_on upper g l p cod login now skvoz_req)
    unfolding enter_on
    enter_on-Good =
        if-Good (ltb now p.blocked_until) (says-Good _ _ (Step-refl g))
          (if-Good _ enter_master-Good (enter_spoiler-Good (find_spoiler upper cod l.spoilers)))

  enter_skvoz-Good :
      (g : GameState) (cod login : Text) (now : ℕ) (l : Option LevelDef) (p : Option LevelProgress)
      → Good g (enter_skvoz upper g cod login now l p)
  unfolding enter_skvoz
  enter_skvoz-Good g cod login now none p = says-Good _ _ (Step-refl g)
  enter_skvoz-Good g cod login now (some l) none = says-Good _ _ (Step-refl g)
  enter_skvoz-Good g cod login now (some l) (some p) =
      if-Good l.bonus (enter_on-Good g l p cod login now true) (says-Good _ _ (Step-refl g))

  -- The one read that could meet a nil pointer is that of the current level's progress.
  enter_current-Good :
      (g : GameState) (cod login : Text) (now : ℕ) (l : Option LevelDef) (p : Option LevelProgress)
      → (IsSound g → is_some l ≡ true → is_some p ≡ true)
      → Good g (enter_current upper g cod login now l p)
  unfolding enter_current
  enter_current-Good g cod login now none p h = says-Good _ _ (Step-refl g)
  enter_current-Good g cod login now (some l) none h = record {
    step = Step-refl g;
    safe = λ s. cc (h s refl);
  }
  enter_current-Good g cod login now (some l) (some p) h = enter_on-Good g l p cod login now false

-- A sound game that has a current level has progress on it.
pub current_level-has_progress :
    (g : GameState)
    → IsSound g
    → is_some (current_level g) ≡ true
    → is_some (current_progress g) ≡ true
unfolding current_level current_progress
current_level-has_progress g s h = elim (Bool-cases (g.current == 0)) [
  | inl e ↦ cc (rw e at h)
  | inr e ↦ rw e (s.playing (λ z. cc (e, (==_iff g.current 0).1 z))).1
]

-- The same of a handler that returns a session too.
pub record GoodReply (g : GameState) (r : GameState × Session × Outcome) : Type 0 where
  pub step : Step g r.0
  pub safe : IsSound g → r.2 ≢ nil_deref

if-GoodReply :
    {g : GameState} (b : Bool) {x y : GameState × Session × Outcome}
    → GoodReply g x
    → GoodReply g y
    → GoodReply g (if b then x else y)
if-GoodReply true s t = s
if-GoodReply false s t = t

pub Good→GoodReply :
    {g : GameState} (sess : Session) {r : GameState × Outcome}
    → Good g r
    → GoodReply g (r.0, sess, r.1)
Good→GoodReply sess s = record { step = s.step; safe = s.safe }

module _ (upper : ℕ → ℕ) where
  enter_checked-Good :
      (g : GameState) (cod : Text) (form : Form) (login : Text) (now : ℕ)
      → Good g (enter_checked upper g cod form login now)
  unfolding enter_checked
  enter_checked-Good g cod form login now =
      if-Good (ltb now g.start) (says-Good 58 0 (Step-refl g)) (
        if-Good (g.blocked || on_break g now) (says-Good 14 0 (Step-refl g)) (
          if-Good (not (is_empty form.skvoz)) (enter_skvoz-Good upper g cod login now _ _) (
            enter_current-Good upper g cod login now (current_level g) (current_progress g)
              (current_level-has_progress g))))

  pub entcod-GoodReply :
      (g : GameState) (sess : Session) (form : Form) (now : ℕ)
      → GoodReply g (entcod upper g sess form now)
  unfolding entcod
  entcod-GoodReply g sess form now =
      let cod : Text = normalize_code upper form.cod in
      if-GoodReply g.engine_stopped (Good→GoodReply sess (says-Good 13 0 (Step-refl g))) (
        if-GoodReply (is_empty cod) (Good→GoodReply sess (says-Good 4 0 (Step-refl g))) (
          if-GoodReply (text_eq cod (codes "PZDC"))
            (record { step = add_log-Step g _ _ _ _; safe = λ _ e. cc })
            (Good→GoodReply sess (enter_checked-Good g cod form sess.login now))))
