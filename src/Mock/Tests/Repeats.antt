-- ===== src/Mock/Tests/Repeats.antt =====
-- The theorems on repeated entries, early hints and rights, applied to the demo game.
use dzzzr_cli.Base.{
  ℕ, ◌+◌, ◌-◌, ◌*◌, ◌<◌, ◌≡◌, ◌≢◌, ◌↔◌, refl, true, false, some, [], ◌∷◌, arith, Text, codes, any,
  find, text_eq, pos, keep, trim_space, is_space, trim_left,
}
use dzzzr_cli.Mock.State.{LevelProgress, SpoilerDef, GameState, minute, put, add_log, level_at}
use dzzzr_cli.Mock.Line.{contains}
use dzzzr_cli.Mock.Code.{normalize_code, drop_tags, is_banned, fold_yo}
use dzzzr_cli.Mock.Clock.{on_break, current_level, deadline}
use dzzzr_cli.Mock.Entry.{
  Form, Session, says, enter_wrong, enter_bonus, open_spoiler, known, entcod,
}
use dzzzr_cli.Mock.Actions.{before_clue_on, first_takeable, second_takeable}
use dzzzr_cli.Mock.Limits.{ReachesLevel, fourth_wrong_blocks}
use dzzzr_cli.Mock.Clues.{second_early_lem, second_due}
use dzzzr_cli.Mock.Demo.{new_game_state, first_level}
use dzzzr_cli.Mock.Tests.{upper, code_form, noon, demo}

-- What three wrong codes leave on the first level.
abbrev tired : LevelProgress
tired = record first_progress { wrong = 3 }
  where
    first_progress : LevelProgress
    first_progress = record {
      order = 1;
      number = 1;
      issued_at = noon - 60 * minute;
      found = [];
      found_bonus = [];
      found_fake = [];
      opened_spoilers = [];
      hint1_early = 0;
      hint2_early = 0;
      hint1_taken = false;
      hint2_taken = false;
      wrong = 0;
      blocked_until = 0;
      next_request = false;
      master_code = false;
      completed_at = 0;
    }

demo_first : current_level demo ≡ some first_level
unfolding new_game_state current_level level_at find
demo_first = refl

abbrev blocked_demo : GameState
blocked_demo = (enter_wrong upper demo first_level tired (codes "X") (codes "demo") noon false).0

abbrev sidekick : Session
sidekick = record { login = codes "sidekick"; net_down = 0 }

blocked_demo-ReachesLevel : ReachesLevel upper blocked_demo (code_form (codes "1")) (noon + minute)
unfolding enter_wrong add_log put new_game_state normalize_code keep drop_tags trim_space is_banned
    upper text_eq fold_yo on_break is_space trim_left
blocked_demo-ReachesLevel = record {
  running = refl;
  not_blank = refl;
  no_outage = refl;
  started = refl;
  may_play = refl;
  plain = refl;
}

fourth_wrong_blocks_example :
    entcod upper blocked_demo sidekick (code_form (codes "1")) (noon + minute)
    ≡ (blocked_demo, sidekick, says 12)
fourth_wrong_blocks_example =
    fourth_wrong_blocks upper demo first_level tired (codes "X") (codes "demo") noon false sidekick
      (code_form (codes "1")) (noon + minute) demo_first (omega arith) (omega arith)
      blocked_demo-ReachesLevel

abbrev bonus_demo : GameState
bonus_demo =
    (enter_bonus upper (put demo 1 tired) first_level tired (codes "B1") (codes "demo") noon false
      (codes "B1")).0

tired_stored : (put demo 1 tired).progress 1 ≡ some tired
unfolding put new_game_state
tired_stored = refl

bonus_stored : bonus_demo.progress 1 ≡ some (record tired { found_bonus = codes "B1" ∷ [] })
unfolding put new_game_state enter_bonus add_log known any
bonus_stored = refl

abbrev first_spoiler : SpoilerDef
first_spoiler = record {
  order = 1;
  text = codes "Скрытая подсказка";
  code = codes "SP1";
  penalty = pos 5;
}

spoiler_stored :
    (open_spoiler upper (put demo 1 tired) first_level tired first_spoiler).progress 1
    ≡ some (record tired { opened_spoilers = 1 ∷ [] })
unfolding put new_game_state open_spoiler contains any
spoiler_stored = refl

abbrev clue_form : Text → Form
clue_form c = record (code_form []) { clue = c }

-- Fifty minutes into the first level.
abbrev early : ℕ
early = noon - 50 * minute

first_free : first_takeable (clue_form (codes "1")) first_level tired early ≡ true
unfolding first_takeable text_eq
first_free = refl

first_early_stored :
    (before_clue_on demo
        (codes "demo")
        (clue_form (codes "1"))
        early
        (some first_level)
        (some tired)).0.progress
      1
    ≡ some (record tired { hint1_early = early })
unfolding before_clue_on first_takeable text_eq put add_log new_game_state
first_early_stored = refl

first_not_free : first_takeable (clue_form []) first_level tired (noon + minute) ≡ false
unfolding first_takeable text_eq
first_not_free = refl

second_free : second_takeable tired ≡ true
unfolding second_takeable
second_free = refl

second_early_stored :
    (before_clue_on demo
        (codes "demo")
        (clue_form [])
        (noon + minute)
        (some first_level)
        (some tired)).0.progress
      1
    ≡ some (record tired { hint2_early = noon + minute })
unfolding before_clue_on first_takeable second_takeable text_eq put add_log new_game_state
second_early_stored = refl

second_early_lem_example :
    (deadline first_level tired
      < deadline first_level (record tired { hint2_early = noon + minute }))
    ↔ (second_due first_level tired < noon + minute)
second_early_lem_example =
    second_early_lem demo (codes "demo") (clue_form []) (noon + minute) first_level tired
      (record tired { hint2_early = noon + minute }) second_early_stored (omega arith)
      first_not_free second_free

sidekick_plays : sidekick.login ≢ demo.captain
unfolding new_game_state
sidekick_plays e = cc e
