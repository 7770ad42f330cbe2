-- ===== src/Mock/Entry.antt =====
-- Code entry: `entcod` and `afterMainCode` of cmd/dzzzr-mock/player.go, one function for each part
-- of the handler, in the order in which it tries them. A level `l` is stored under `l.order`.
use dzzzr_cli.Base.{
  ℕ, ◌+◌, ◌*◌, Bool, true, false, not, ◌&&◌, ◌||◌, Option, none, some, List, [], ◌∷◌, ◌++◌, ltb,
  leb, ◌==◌, if◌then◌else◌, any, Text, codes, itoa, is_empty, text_eq, atoi, join, pos, ◌+ℤ◌,
}
use dzzzr_cli.Mock.State.{
  SpoilerDef, LevelDef, LevelProgress, GameState, minute, wrong_tries_before_block,
  wrong_code_block, put, level_named, progress_named, add_log, connection_lost, master_accepted,
  spoiler_accepted, time_expired, code_repeated, optional_code, code_accepted, bonus_repeated,
  bonus_accepted, fake_repeated, fake_accepted, code_rejected, skvoz_done, all_codes_accepted,
}
use dzzzr_cli.Mock.Code.{normalize_code, match_code, minutes_for}
use dzzzr_cli.Mock.Line.{next_main_order, contains}
use dzzzr_cli.Mock.Clock.{
  current_level, current_progress, on_break, advance, main_done, bonus_pending, expired,
}

-- The fields of the posted form that the actions read; a missing field is the empty text.
pub record Form : Type 0 where
  pub cod : Text
  pub skvoz : Text
  pub level : Text
  pub event : Text
  pub clue : Text
  pub llevel : Text
  pub spoiler_code : Text
  pub content : Text
  pub login : Text

pub record Session : Type 0 where
  pub login : Text
  pub net_down : ℕ

-- `reply err penalty`, the signal to hold the connection, or a read through a nil pointer, at
-- which the handler would panic.
pub data Outcome : Type 0 where
  reply : ℕ → ℕ → Outcome
  net_down : Outcome
  nil_deref : Outcome

abbrev pub says : ℕ → Outcome
says err = reply err 0

abbrev pub network_down_duration : ℕ
network_down_duration = minute

unfoldable pub known : Text → List Text → Bool
known c cs = any (λ d. text_eq d c) cs

-- One more wrong code; the fourth and each later one blocks the team for a while.
unfoldable pub count_wrong : LevelProgress → ℕ → LevelProgress
count_wrong p now = record p {
  wrong = p.wrong + 1;
  blocked_until =
      if leb wrong_tries_before_block (p.wrong + 1)
      then now + wrong_code_block
      else p.blocked_until;
}

-- The state when `afterMainCode` runs holds the progress `p` with the code already in it.
unfoldable pub after_main_code :
    GameState → LevelDef → LevelProgress → Text → ℕ → Bool → Bool → GameState × Outcome
after_main_code g l p login now skvoz_req master =
    if not (main_done l p)
    then (g, says (if skvoz_req then 34 else if master then 47 else 8))
    else if bonus_pending g l p
    then (g, says 41)
    else let g1 = put g l.order (record p { completed_at = now }) in
      if skvoz_req || l.bonus then (add_log g1 now skvoz_done (itoa l.order) login, says 32) else (
        advance (add_log g1 now all_codes_accepted (itoa l.order) login) now,
        says (if master then 48 else 9),
      )

module _ (upper : ℕ → ℕ) where
  -- `entcod` and `spoilerCode` open a spoiler alike; a spoiler opened before costs nothing.
  unfoldable pub open_spoiler : GameState → LevelDef → LevelProgress → SpoilerDef → GameState
  open_spoiler g l p sp =
      if contains sp.order p.opened_spoilers
      then g
      else record (put g l.order (record p { opened_spoilers = sp.order ∷ p.opened_spoilers })) {
        penalty_min = g.penalty_min +ℤ sp.penalty;
      }

  -- The first spoiler whose code matches.
  unfoldable pub find_spoiler : Text → List SpoilerDef → Option SpoilerDef
  find_spoiler cod [] = none
  find_spoiler cod (sp ∷ sps) =
      let rest = find_spoiler cod sps in
      if is_empty (match_code upper cod (sp.code ∷ [])) then rest else some sp

  module _ (g : GameState) (l : LevelDef) (p : LevelProgress) (cod login : Text) (now : ℕ)
      (skvoz_req : Bool) where
    unfoldable pub enter_wrong : GameState × Outcome
    enter_wrong = (
      add_log (put g l.order (count_wrong p now)) now code_rejected
          (cod ++ (codes " / " ++ join (codes "|") l.level_codes)) login,
      says (if skvoz_req then 31 else 11),
    )

    unfoldable pub enter_fake : Text → GameState × Outcome
    enter_fake [] = enter_wrong
    enter_fake (c ∷ cs) =
        let primary = c ∷ cs in
        if known primary p.found_fake then (add_log g now fake_repeated cod login, says 7) else (
          add_log
              (record (put g l.order (record p { found_fake = primary ∷ p.found_fake })) {
                penalty_min =
                    g.penalty_min +ℤ minutes_for upper primary l.fake_codes l.fake_penalties;
              })
              now fake_accepted primary login,
          says 40,
        )

    unfoldable pub enter_bonus : Text → GameState × Outcome
    enter_bonus [] = enter_fake (match_code upper cod l.fake_codes)
    enter_bonus (c ∷ cs) =
        let primary = c ∷ cs in
        if known primary p.found_bonus then (add_log g now bonus_repeated cod login, says 35) else (
          add_log
              (record (put g l.order (record p { found_bonus = primary ∷ p.found_bonus })) {
                bonus_min = g.bonus_min +ℤ minutes_for upper primary l.bonus_codes l.bonus_times;
              })
              now bonus_accepted primary login,
          says (if skvoz_req then 37 else 36),
        )

    unfoldable pub enter_main : Text → GameState × Outcome
    enter_main [] = enter_bonus (match_code upper cod l.bonus_codes)
    enter_main (c ∷ cs) =
        let primary = c ∷ cs in
        let p1 = record p { found = primary ∷ p.found } in
        if known primary p.found
        then (add_log g now code_repeated cod login, says 7)
        else if bonus_pending g l p
        then (add_log g now optional_code cod login, says 43)
        else after_main_code (add_log (put g l.order p1) now code_accepted primary login) l p1 login
            now skvoz_req false

    unfoldable pub enter_expired : GameState → GameState × Outcome
    enter_expired g1 =
        if next_main_order g1 == 0
        then (record g1 { current = 0; finished = true }, says 17)
        else (advance g1 now, says 5)

    -- The time allowed for the level runs out before any code is examined.
    unfoldable pub enter_timed : GameState × Outcome
    enter_timed =
        if skvoz_req && ltb 0 l.skvoz_min && ltb (p.issued_at + l.skvoz_min * minute) now
        then (g, says 54)
        else if not skvoz_req && expired l p now
        then enter_expired
            (put (add_log g now time_expired cod login) l.order (record p { completed_at = now }))
        else enter_main (match_code upper cod l.level_codes)

    unfoldable pub enter_spoiler : Option SpoilerDef → GameState × Outcome
    enter_spoiler none = enter_timed
    enter_spoiler (some sp) =
        (add_log (open_spoiler g l p sp) now spoiler_accepted cod login, says 55)

    -- The universal code of the game.
    unfoldable pub enter_master : GameState × Outcome
    enter_master =
        let p1 = record p { master_code = true } in
        if skvoz_req
        then (g, says 46)
        else if l.no_master_code
        then (g, says 44)
        else if g.master_used
        then (g, says 45)
        else after_main_code
            (add_log
              (record (put g l.order p1) {
                master_used = true;
                penalty_min = g.penalty_min +ℤ pos g.master_code_penalty;
              })
              now master_accepted cod login)
            l p1 login now false true

    unfoldable pub enter_on : GameState × Outcome
    enter_on =
        if ltb now p.blocked_until
        then (g, says 12)
        else if text_eq cod (normalize_code upper g.master_code) && not (is_empty g.master_code)
        then enter_master
        else enter_spoiler (find_spoiler cod l.spoilers)

  -- The bonus level that the form names, or a refusal.
  unfoldable pub enter_skvoz :
      GameState → Text → Text → ℕ → Option LevelDef → Option LevelProgress → GameState × Outcome
  enter_skvoz g cod login now none p = (g, says 31)
  enter_skvoz g cod login now (some l) none = (g, says 31)
  enter_skvoz g cod login now (some l) (some p) =
      if l.bonus then enter_on g l p cod login now true else (g, says 31)

  unfoldable pub enter_current :
      GameState → Text → Text → ℕ → Option LevelDef → Option LevelProgress → GameState × Outcome
  enter_current g cod login now none p = (g, says (if g.finished then 10 else 15))
  enter_current g cod login now (some l) none = (g, nil_deref)
  enter_current g cod login now (some l) (some p) = enter_on g l p cod login now false

  unfoldable pub enter_checked : GameState → Text → Form → Text → ℕ → GameState × Outcome
  enter_checked g cod form login now =
      if ltb now g.start
      then (g, says 58)
      else if g.blocked || on_break g now
      then (g, says 14)
      else if not (is_empty form.skvoz)
      then enter_skvoz g cod login now (level_named g (atoi form.level).0)
          (progress_named g (atoi form.level).0)
      else enter_current g cod login now (current_level g) (current_progress g)

  -- `entcod`; the session changes only when the outage is simulated.
  unfoldable pub entcod : GameState → Session → Form → ℕ → GameState × Session × Outcome
  entcod g sess form now =
      let cod = normalize_code upper form.cod in
      let checked = enter_checked g cod form sess.login now in
      if g.engine_stopped
      then (g, sess, says 13)
      else if is_empty cod
      then (g, sess, says 4)
      else if text_eq cod (codes "PZDC")
      then (
        add_log g now connection_lost cod sess.login,
        record sess { net_down = now + network_down_duration },
        net_down,
      )
      else (checked.0, sess, checked.1)
