-- ===== src/Mock/Limits.antt =====
-- What a repeated entry does: codes, bonuses, spoilers and the universal code count once, and
-- wrong codes block the team.
use dzzzr_cli.Base.{
  ℕ, ◌+◌, ◌≤◌, ◌<◌, ◌≡◌, inl, inr, Bool, true, some, List, ◌∷◌, arith, ltb, ◌==◌, any, Text, false,
  is_empty, codes, text_eq, ◌||◌, not, ap, ◌∙◌, if◌then◌else◌, text_eq_refl, ==_refl, ==_iff,
  Bool-cases, find-passes,
}
use dzzzr_cli.Mock.State.{
  LevelDef, LevelProgress, SpoilerDef, GameState, Event, code_rejected, put, add_log, level_at,
  wrong_code_block, bonus_repeated,
}
use dzzzr_cli.Mock.Line.{contains}
use dzzzr_cli.Mock.Clock.{on_break, current_level, current_progress}
use dzzzr_cli.Mock.Code.{normalize_code}
use dzzzr_cli.Mock.Entry.{
  entcod, enter_checked, Form, Session, Outcome, says, known, open_spoiler, count_wrong,
  enter_wrong, enter_bonus, enter_on, enter_current,
}

known_head : (c : Text) (cs : List Text) → known c (c ∷ cs) ≡ true
unfolding known any
known_head c cs = rw (text_eq_refl c)

-- The current level is stored under its own order.
current-order : (g : GameState) (l : LevelDef) → current_level g ≡ some l → l.order ≡ g.current
unfolding current_level level_at
current-order g l e = elim (Bool-cases (g.current == 0)) [
  | inl z ↦ cc (rw z at e)
  | inr z ↦
      (==_iff l.order g.current).0 (find-passes (λ m. m.order == g.current) g.levels l (rw z at e))
]

-- Writing to the current level's progress, and to the log, shows as its progress.
module _ (g : GameState) (l : LevelDef) (p : LevelProgress) (e : current_level g ≡ some l) (at : ℕ)
    (event : Event) (info user : Text) where
  current_level-put : current_level (add_log (put g l.order p) at event info user) ≡ some l
  unfolding put add_log current_level level_at
  current_level-put = e

  current_progress-put : current_progress (add_log (put g l.order p) at event info user) ≡ some p
  unfolding put add_log current_progress current_level
  current_progress-put = ground (arith, current-order g l e, ==_refl g.current)

blocked_by_wrong :
    (p : LevelProgress) (now later : ℕ)
    → 3 ≤ p.wrong
    → later < now + wrong_code_block
    → ltb later (count_wrong p now).blocked_until ≡ true
unfolding count_wrong
blocked_by_wrong p now later tries soon = ground arith

-- After three wrong codes on the current level, with right ones in between or not, one more blocks
-- it: a code that is checked against the level in the three minutes after it is refused with 12.
blocked_on_level :
    (upper : ℕ → ℕ) (g : GameState) (l : LevelDef) (p : LevelProgress) (cod login : Text) (now : ℕ)
    (skvoz : Bool) (cod' login' : Text) (later : ℕ)
    → current_level g ≡ some l
    → 3 ≤ p.wrong
    → later < now + wrong_code_block
    → let h = (enter_wrong upper g l p cod login now skvoz).0 in
      enter_current upper h cod' login' later (current_level h) (current_progress h) ≡ (h, says 12)
unfolding enter_wrong enter_current enter_on
blocked_on_level upper g l p cod login now skvoz cod' login' later e tries soon =
    rw (current_level-put g l (count_wrong p now) e now code_rejected _ login) (
      rw (current_progress-put g l (count_wrong p now) e now code_rejected _ login)
        (rw (blocked_by_wrong p now later tries soon)))

-- What the handler checks before it looks at the level: the game runs, the team may play, and the
-- code is one to be checked and is for the level being played.
pub record ReachesLevel (upper : ℕ → ℕ) (g : GameState) (form : Form) (now : ℕ) : Type 0 where
  pub running : g.engine_stopped ≡ false
  pub not_blank : is_empty (normalize_code upper form.cod) ≡ false
  pub no_outage : text_eq (normalize_code upper form.cod) (codes "PZDC") ≡ false
  pub started : ltb now g.start ≡ false
  pub may_play : (g.blocked || on_break g now) ≡ false
  pub plain : is_empty form.skvoz ≡ true

if_false : {A : Type 0} (x y : A) (b : Bool) → b ≡ false → (if b then x else y) ≡ y
if_false x y b e = ap (λ c. if c then x else y) e

enter_checked_reaches :
    (upper : ℕ → ℕ) (g : GameState) (form : Form) (login : Text) (now : ℕ)
    → ReachesLevel upper g form now
    → enter_checked upper g (normalize_code upper form.cod) form login now
      ≡ enter_current upper g
          (normalize_code upper form.cod)
          login
          now
          (current_level g)
          (current_progress g)
unfolding enter_checked
enter_checked_reaches upper g form login now r =
    if_false _ _ _ r.started ∙ (if_false _ _ _ r.may_play ∙ if_false _ _ _ (ap not r.plain))

entcod_reaches :
    (upper : ℕ → ℕ) (g : GameState) (sess : Session) (form : Form) (now : ℕ) (h : GameState)
    (o : Outcome)
    → ReachesLevel upper g form now
    → enter_current upper g
        (normalize_code upper form.cod)
        sess.login
        now
        (current_level g)
        (current_progress g)
      ≡ (h, o)
    → entcod upper g sess form now ≡ (h, sess, o)
unfolding entcod
entcod_reaches upper g sess form now h o r e =
    if_false _ _ _ r.running
    ∙ (if_false _ _ _ r.not_blank
        ∙ (if_false _ _ _ r.no_outage
            ∙ ap (λ (x : GameState × Outcome). (x.0, sess, x.1))
                (enter_checked_reaches upper g form sess.login now r ∙ e)))

-- A wrong code on the level being played, when three or more were counted there before, in a row or
-- with right ones in between, leaves a state in which for three minutes the handler refuses any code,
-- by anybody, with 12, and changes nothing: if the engine runs, the game has begun, the team is neither
-- blocked nor on a break, and the code is for the level being played, not blank and not `PZDC`.
pub fourth_wrong_blocks :
    (upper : ℕ → ℕ) (g : GameState) (l : LevelDef) (p : LevelProgress) (cod login : Text) (now : ℕ)
    (skvoz : Bool) (sess : Session) (form : Form) (later : ℕ)
    → current_level g ≡ some l
    → 3 ≤ p.wrong
    → later < now + wrong_code_block
    → ReachesLevel upper (enter_wrong upper g l p cod login now skvoz).0 form later
    → entcod upper (enter_wrong upper g l p cod login now skvoz).0 sess form later
      ≡ ((enter_wrong upper g l p cod login now skvoz).0, sess, says 12)
fourth_wrong_blocks upper g l p cod login now skvoz sess form later e tries soon reaches =
    entcod_reaches upper (enter_wrong upper g l p cod login now skvoz).0 sess form later _ _ reaches
      (blocked_on_level upper g l p cod login now skvoz _ _ later e tries soon)

-- A spoiler costs its penalty once.
pub open_spoiler_once :
    (upper : ℕ → ℕ) (g : GameState) (l : LevelDef) (p p1 : LevelProgress) (sp : SpoilerDef)
    → g.progress l.order ≡ some p
    → (open_spoiler upper g l p sp).progress l.order ≡ some p1
    → open_spoiler upper (open_spoiler upper g l p sp) l p1 sp ≡ open_spoiler upper g l p sp
unfolding open_spoiler put contains any
open_spoiler_once upper g l p p1 sp e f = ground (arith, ==_refl l.order, ==_refl sp.order)

module _ (upper : ℕ → ℕ) (g : GameState) (l : LevelDef) (p p1 : LevelProgress) (cod login : Text)
    (now : ℕ) (skvoz : Bool) (login' : Text) (later c : ℕ) (cs : Text) where
  -- A bonus code counts once: entered again, by anybody and at any moment, it is refused with 35,
  -- and the state stays as it was but for one line of the log.
  pub enter_bonus_once :
      g.progress l.order ≡ some p
      → let h = (enter_bonus upper g l p cod login now skvoz (c ∷ cs)).0 in
        h.progress l.order ≡ some p1
        → enter_bonus upper h l p1 cod login' later skvoz (c ∷ cs)
          ≡ (add_log h later bonus_repeated cod login', says 35)
  unfolding enter_bonus put add_log
  enter_bonus_once e f = ground (arith, ==_refl l.order, known_head (c ∷ cs) p.found_bonus)
