-- ===== src/Mock/Demo.antt =====
-- The fixed demo game of `newGameState` in cmd/dzzzr-mock/state.go: three main levels, a bonus level
-- beside them, and a team that got the first level an hour ago. Texts that only pages print are
-- shortened to their first words.
use dzzzr_cli.Base.{
  ℕ, ◌+◌, ◌-◌, ◌*◌, ◌≡◌, refl, true, false, none, [], ◌∷◌, arith, codes, pos, negsuc, any,
}
use dzzzr_cli.Mock.State.{
  LevelDef, GameState, minute, put, issue_level, new_level_progress, add_log,
}
use dzzzr_cli.Mock.Line.{contains}
use dzzzr_cli.Mock.Step.{IsSound, distinct}

-- `levelIDOf`
unfoldable pub level_id_of : ℕ → ℕ
level_id_of order = 900 + order

abbrev blank_level : LevelDef
blank_level = record {
  id = 0;
  order = 0;
  title = [];
  question = [];
  level_codes = [];
  dangers = [];
  sectors = [];
  sector_names = [];
  bonus_codes = [];
  bonus_dangers = [];
  bonus_times = [];
  fake_codes = [];
  fake_penalties = [];
  code_count = 0;
  clue1 = [];
  clue2 = [];
  clue_min = 30;
  clue_min2 = 30;
  clue_min3 = 30;
  spoilers = [];
  bonus = false;
  show_as_bonus = false;
  bonus_time = 0;
  skvoz = false;
  skvoz_min = 0;
  no_master_code = false;
  no_break = false;
  try_limit = 0;
}

abbrev pub first_level : LevelDef
first_level = record blank_level {
  id = 901;
  order = 1;
  title = codes "Первый уровень";
  question = codes "Найдите три кода во дворе";
  level_codes = codes "1" ∷ codes "2" ∷ codes "3" ∷ [];
  dangers = codes "1" ∷ codes "1" ∷ codes "2" ∷ [];
  sectors = codes "1" ∷ codes "1" ∷ codes "2" ∷ [];
  sector_names = codes "Гаражи" ∷ codes "Пустырь" ∷ [];
  bonus_codes = codes "B1" ∷ [];
  bonus_dangers = codes "1" ∷ [];
  bonus_times = pos 10 ∷ [];
  fake_codes = codes "FAKE" ∷ [];
  fake_penalties = pos 10 ∷ [];
  clue1 = codes "Подсказка 1 к уровню 1";
  clue2 = codes "Подсказка 2 к уровню 1";
  spoilers =
      record { order = 1; text = codes "Скрытая подсказка"; code = codes "SP1"; penalty = pos 5 }
      ∷ [];
}

abbrev pub second_level : LevelDef
second_level = record blank_level {
  id = 902;
  order = 2;
  title = codes "Второй уровень";
  question = codes "Найдите любой из двух кодов";
  level_codes = codes "4" ∷ codes "5" ∷ [];
  dangers = codes "1" ∷ codes "1" ∷ [];
  sectors = codes "1" ∷ codes "1" ∷ [];
  sector_names = codes "Двор" ∷ [];
  code_count = 1;
  clue1 = codes "Подсказка 1 к уровню 2";
  clue2 = codes "Подсказка 2 к уровню 2";
  no_master_code = true;
}

abbrev pub third_level : LevelDef
third_level = record blank_level {
  id = 903;
  order = 3;
  title = codes "Третий уровень";
  question = codes "Последний код игры";
  level_codes = codes "6" ∷ [];
  dangers = codes "3" ∷ [];
  sectors = codes "1" ∷ [];
  sector_names = codes "Финиш" ∷ [];
  clue1 = codes "Подсказка 1 к уровню 3";
  clue2 = codes "Подсказка 2 к уровню 3";
}

abbrev pub skvoz_level : LevelDef
skvoz_level = record blank_level {
  id = 904;
  order = 4;
  title = codes "Сквозной бонус";
  question = codes "Сквозное бонусное задание: найдите памятник";
  level_codes = codes "SK1" ∷ [];
  dangers = codes "1" ∷ [];
  sectors = [] ∷ [];
  clue1 = codes "Подсказка к сквозному заданию";
  bonus = true;
  bonus_time = 15;
  skvoz = true;
}

-- The game before its first level is handed over. `now` is at least an hour after the zero time.
abbrev pub demo_settings : ℕ → GameState
demo_settings start = record {
  start = start;
  finished = false;
  engine_stopped = false;
  blocked = false;
  master_code = codes "MASTER";
  master_code_penalty = 30;
  clue_before_penalty = 10;
  bonus_after = negsuc 0;
  levels = first_level ∷ second_level ∷ third_level ∷ skvoz_level ∷ [];
  team_id = pos 5150;
  captain = codes "demo";
  issued = [];
  current = 0;
  progress = λ n. none;
  breaks = 0;
  abandons = 0;
  break_pending = 0;
  break_until = 0;
  pending_next = false;
  master_used = false;
  penalty_min = pos 0;
  bonus_min = pos 0;
  org_messages = [];
  log = [];
}

unfoldable pub new_game_state : ℕ → GameState
unfolding issue_level put new_level_progress
new_game_state now =
    let start = now - 60 * minute in
    let g = put (issue_level (demo_settings start) 1 start) 4 (new_level_progress 4 0 start) in
    record g {
      org_messages =
          record {
            time = start + minute;
            team = pos 0;
            text = codes "Всем командам: движок работает";
            user = [];
          }
          ∷ record {
            time = start + 5 * minute;
            team = g.team_id;
            text = codes "Вам начислен бонус 5 мин";
            user = [];
          }
          ∷ [];
    }

only_first : (n : ℕ) → contains n (1 ∷ []) ≡ true → 1 ≡ n
unfolding contains any
only_first n h = ground arith

-- The demo game starts sound.
pub new_game_state-IsSound : (now : ℕ) → IsSound (new_game_state now)
unfolding new_game_state add_log distinct contains any
new_game_state-IsSound now = record {
  playing = λ _. (refl, refl, refl);
  recorded = λ n h. rw (← only_first n h);
  once = refl;
  over = λ e. cc;
  numbered = refl;
  breaks_capped = omega arith;
  abandons_capped = omega arith;
}
