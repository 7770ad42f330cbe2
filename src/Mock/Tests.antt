-- ===== src/Mock/Tests.antt =====
-- Runs of the mock on small inputs, and the theorems applied to the demo game.
mod Repeats
use dzzzr_cli.Base.{
  ℕ, ◌+◌, ◌-◌, ◌*◌, ◌≤◌, ◌<◌, ◌≡◌, ◌≢◌, refl, inl, inr, ◌⊎◌, Bool, true, false, not, Option, none,
  some, List, [], ◌∷◌, arith, Text, codes, ℤ, pos, negsuc, ◌==◌, if◌then◌else◌, ltb, leb, any, find,
  keep, text_eq, is_space, split_on, trim_space, atoi, itoa, ==_iff, All, is_some, length,
}
use dzzzr_cli.Mock.State.{
  LevelDef, LevelProgress, GameState, minute, wrong_code_block, put, add_log, bonus_repeated,
  level_at, needed_codes, issue_level, new_level_progress,
}
use dzzzr_cli.Mock.Code.{
  normalize_code, match_code, is_banned, fold_yo, drop_tags, match_entry, match_normal, minutes_for,
}
use dzzzr_cli.Mock.Code.Normal.{Upper, normalize_code-normalize_code}
use dzzzr_cli.Mock.Code.Match.{here}
use dzzzr_cli.Mock.Line.{
  next_main_order, contains, main_line, first_unissued, sort_levels, insert_level,
}
use dzzzr_cli.Mock.Line.Next.{is_main}
use dzzzr_cli.Mock.Clock.{
  tick, current_level, current_progress, on_break, deadline, main_done, bonus_pending, expired,
  end_break, hand_over, advance,
}
use dzzzr_cli.Mock.Clock.Ticks.{tick-tick}
use dzzzr_cli.Mock.Entry.{
  Form, Session, Outcome, reply, says, nil_deref, enter_wrong, enter_bonus, enter_current, enter_on,
  entcod, open_spoiler, count_wrong, known, after_main_code, find_spoiler, enter_main, enter_timed,
  enter_spoiler, enter_checked,
}
use dzzzr_cli.Mock.Actions.{
  Action, enter_code, takes_break, post, do_action, before_clue_on, first_takeable, second_takeable,
  minutes_until,
}
use dzzzr_cli.Mock.Step.{IsSound, Extends}
use dzzzr_cli.Mock.Run.{
  Post, play, play-IsSound, post_never_faults, play_grows, finished_all_issued,
}
use dzzzr_cli.Mock.Limits.{fourth_wrong_blocks}
use dzzzr_cli.Mock.Clues.{first_early_lem, second_early_lem, second_due}
use dzzzr_cli.Mock.Rights.{others_change_nothing, paused_accepts_nothing}
use dzzzr_cli.Mock.Demo.{new_game_state, new_game_state-IsSound, first_level}

-- Upper case of ASCII and Cyrillic letters, for the runs.
unfoldable pub upper : ℕ → ℕ
upper c =
    if leb b'a' c
    then (if leb c b'z'
        then c - 32
        else if leb 0x430 c
        then (if leb c 0x44f then c - 32 else if c == 0x451 then 0x401 else c)
        else c)
    else c

abbrev pub demo_player : Session
demo_player = record { login = codes "demo"; net_down = 0 }

abbrev pub code_form : Text → Form
code_form c = record {
  cod = c;
  skvoz = [];
  level = [];
  event = [];
  clue = [];
  llevel = [];
  spoiler_code = [];
  content = [];
  login = [];
}

abbrev pub noon : ℕ
noon = 100 * minute

test_normal : normalize_code upper (codes " <b>d 4</b>5r'ё ") ≡ codes "D45RЕ"
unfolding normalize_code upper trim_space drop_tags is_banned fold_yo keep
test_normal = refl

abbrev entered : List Post
entered =
    record { session = demo_player; action = enter_code; form = code_form (codes "1"); now = noon }
    ∷ record {
      session = demo_player;
      action = enter_code;
      form = code_form (codes "1");
      now = noon;
    }
    ∷ record {
      session = demo_player;
      action = enter_code;
      form = code_form (codes "2");
      now = noon;
    }
    ∷ record {
      session = demo_player;
      action = enter_code;
      form = code_form (codes "3");
      now = noon;
    }
    ∷ []

-- The demo's first level is finished by its three codes, and the second one follows.
test_first_level :
    let g = play upper false (new_game_state noon) entered in
    (g.current ≡ 2) × (g.issued ≡ 1 ∷ 2 ∷ []) × (length g.log ≡ 7)
unfolding play post do_action entcod new_game_state upper tick normalize_code trim_space drop_tags
    is_banned fold_yo keep enter_checked on_break current_level current_progress level_at find
    enter_current enter_on text_eq enter_spoiler find_spoiler enter_timed expired enter_main known
    any bonus_pending main_done after_main_code advance match_code end_break hand_over
    next_main_order main_line first_unissued sort_levels insert_level contains put add_log
    issue_level new_level_progress itoa split_on match_entry deadline
test_first_level = (refl, refl, refl)

upper_not_made : (c : ℕ) → is_banned c ≡ false → is_banned (upper c) ≡ false
unfolding upper is_banned
upper_not_made c h = ground arith

upper_idempotent : (c : ℕ) → upper (upper c) ≡ upper c
unfolding upper
upper_idempotent c = ground arith

upper_space : (c : ℕ) → is_space (upper c) ≡ is_space c
unfolding upper is_space
upper_space c = ground arith

upper-Upper : Upper upper
unfolding upper
upper-Upper = record {
  not_made = upper_not_made;
  idempotent = upper_idempotent;
  yo = refl;
  space = upper_space;
}

abbrev pub demo : GameState
demo = new_game_state noon

abbrev all_codes : List Post
all_codes =
    record { session = demo_player; action = enter_code; form = code_form (codes "1"); now = noon }
    ∷ record {
      session = demo_player;
      action = enter_code;
      form = code_form (codes "2");
      now = noon;
    }
    ∷ record {
      session = demo_player;
      action = enter_code;
      form = code_form (codes "3");
      now = noon;
    }
    ∷ record {
      session = demo_player;
      action = enter_code;
      form = code_form (codes "4");
      now = noon;
    }
    ∷ record {
      session = demo_player;
      action = enter_code;
      form = code_form (codes "6");
      now = noon;
    }
    ∷ []

test_all_codes : (play upper false demo all_codes).finished ≡ true
unfolding play post do_action entcod new_game_state upper tick normalize_code trim_space drop_tags
    is_banned fold_yo keep enter_checked on_break current_level current_progress level_at find
    enter_current enter_on text_eq enter_spoiler find_spoiler enter_timed expired enter_main known
    any bonus_pending main_done after_main_code advance match_code end_break hand_over
    next_main_order main_line first_unissued sort_levels insert_level contains put add_log
    issue_level new_level_progress itoa split_on match_entry deadline
test_all_codes = refl

play-IsSound_example : IsSound (play upper false demo entered)
play-IsSound_example = play-IsSound upper false demo entered (new_game_state-IsSound noon)

abbrev next_post : Post
next_post = record { session = demo_player; action = takes_break; form = code_form []; now = noon }

post_never_faults_example :
    (post upper false (play upper false demo entered) demo_player takes_break (code_form []) noon).2
    ≢ nil_deref
post_never_faults_example =
    post_never_faults upper false demo entered next_post (new_game_state-IsSound noon)

play_grows_example : Extends demo.issued (play upper false demo entered).issued
play_grows_example = (play_grows upper false demo entered).1

third_is_main : is_main demo.levels 3 ≡ true
unfolding is_main any new_game_state
third_is_main = refl

finished_all_issued_example : contains 3 (play upper false demo all_codes).issued ≡ true
finished_all_issued_example =
    finished_all_issued upper false demo all_codes 3 (new_game_state-IsSound noon) test_all_codes
      third_is_main

d45_solid : All (λ c. is_space c ≡ false) (normalize_code upper (codes "<i>d 4'5"))
unfolding normalize_code upper trim_space drop_tags is_banned fold_yo keep
d45_solid = (refl, (refl, (refl, tt)))

normalize_code-normalize_code_example :
    normalize_code upper (normalize_code upper (codes "<i>d 4'5"))
    ≡ normalize_code upper (codes "<i>d 4'5")
normalize_code-normalize_code_example =
    normalize_code-normalize_code upper (codes "<i>d 4'5") upper-Upper d45_solid

tick-tick_example : tick (tick demo noon) noon ≡ tick demo noon
tick-tick_example = tick-tick demo noon
