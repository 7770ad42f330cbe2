-- ===== src/Mock/State.antt =====
-- The data of cmd/dzzzr-mock/state.go: levels, what the team did on them, and the game.
-- Moments and spans are nanoseconds, moments counted from Go's zero time, so that 0 is the
-- moment for which `IsZero` holds. Numbers of minutes, penalties and orders are not negative.
-- Fields that only pages print (names, greeting, legend, season, authors, roster, chat) are left out.
use dzzzr_cli.Base.{
  ℕ, ◌+◌, ◌*◌, ◌/◌, Bool, false, Option, none, some, List, [], ◌∷◌, ◌++◌, ltb, ◌==◌, if◌then◌else◌,
  length, find, Text, itoa, ℤ, pos, negsuc,
}

abbrev pub second : ℕ
second = 1_000_000_000

abbrev pub minute : ℕ
minute = 60 * second

abbrev pub break_duration : ℕ
break_duration = 15 * minute

abbrev pub wrong_tries_before_block : ℕ
wrong_tries_before_block = 4

abbrev pub wrong_code_block : ℕ
wrong_code_block = 3 * minute

pub record SpoilerDef : Type 0 where
  pub order : ℕ
  pub text : Text
  pub code : Text
  pub penalty : ℤ

pub record LevelDef : Type 0 where
  pub id : ℕ
  pub order : ℕ
  pub title : Text
  pub question : Text
  pub level_codes : List Text
  pub dangers : List Text
  pub sectors : List Text
  pub sector_names : List Text
  pub bonus_codes : List Text
  pub bonus_dangers : List Text
  pub bonus_times : List ℤ
  pub fake_codes : List Text
  pub fake_penalties : List ℤ
  pub code_count : ℕ
  pub clue1 : Text
  pub clue2 : Text
  pub clue_min : ℕ
  pub clue_min2 : ℕ
  pub clue_min3 : ℕ
  pub spoilers : List SpoilerDef
  pub bonus : Bool
  pub show_as_bonus : Bool
  pub bonus_time : ℕ
  pub skvoz : Bool
  pub skvoz_min : ℕ
  pub no_master_code : Bool
  pub no_break : Bool
  pub try_limit : ℕ

-- A set that the source keeps as a `map[…]bool` is the list of its keys, each once.
pub record LevelProgress : Type 0 where
  pub order : ℕ
  pub number : ℕ
  pub issued_at : ℕ
  pub found : List Text
  pub found_bonus : List Text
  pub found_fake : List Text
  pub opened_spoilers : List ℕ
  pub hint1_early : ℕ
  pub hint2_early : ℕ
  pub hint1_taken : Bool
  pub hint2_taken : Bool
  pub wrong : ℕ
  pub blocked_until : ℕ
  pub next_request : Bool
  pub master_code : Bool
  pub completed_at : ℕ

unfoldable pub new_level_progress : ℕ → ℕ → ℕ → LevelProgress
new_level_progress order number at = record {
  order = order;
  number = number;
  issued_at = at;
  found = [];
  found_bonus = [];
  found_fake = [];
  opened_spoilers = [];
  hint1_early = 0;
  hint2_early = 0;
  hint1_taken = false;
  hint2_taken = false;
  wrong = 0;
  blocked_until = 0;
  next_request = false;
  master_code = false;
  completed_at = 0;
}

-- The wordings of the log, one constructor for each.
pub data Event : Type 0 where
  level_issued : ℕ → Event
  game_over break_started connection_lost master_accepted spoiler_accepted spoiler_rejected : Event
  time_expired code_repeated optional_code code_accepted bonus_repeated bonus_accepted : Event
  fake_repeated fake_accepted code_rejected skvoz_done all_codes_accepted : Event
  level_abandoned break_taken break_stopped first_clue second_clue : Event
  first_clue_early second_clue_early next_requested level_selected message_sent : Event

pub record LogEntry : Type 0 where
  pub time : ℕ
  pub level : ℕ
  pub event : Event
  pub info : Text
  pub user : Text

pub record OrgMessage : Type 0 where
  pub time : ℕ
  pub team : ℤ
  pub text : Text
  pub user : Text

pub record GameState : Type 0 where
  pub start : ℕ
  pub finished : Bool
  pub engine_stopped : Bool
  pub blocked : Bool
  pub master_code : Text
  pub master_code_penalty : ℕ
  pub clue_before_penalty : ℕ
  pub bonus_after : ℤ
  pub levels : List LevelDef
  pub team_id : ℤ
  pub captain : Text
  -- The main levels in the order received; `current` is 0 when none is being played.
  pub issued : List ℕ
  pub current : ℕ
  pub progress : ℕ → Option LevelProgress
  pub breaks : ℕ
  pub abandons : ℕ
  pub break_pending : ℕ
  pub break_until : ℕ
  pub pending_next : Bool
  pub master_used : Bool
  pub penalty_min : ℤ
  pub bonus_min : ℤ
  pub org_messages : List OrgMessage
  pub log : List LogEntry

-- `g.Progress[order] = p`
unfoldable pub put : GameState → ℕ → LevelProgress → GameState
put g order p = record g { progress = λ j. if j == order then some p else g.progress j }

unfoldable pub needed_codes : LevelDef → ℕ
needed_codes l = if ltb 0 l.code_count then l.code_count else length l.level_codes

unfoldable pub time_limit : LevelDef → ℕ
time_limit l = (l.clue_min + l.clue_min2 + l.clue_min3) * minute

-- The level with the given order, `g.level`.
unfoldable pub level_at : GameState → ℕ → Option LevelDef
level_at g order = find (λ l. l.order == order) g.levels

-- The same for an order that a form names; no level has a negative one.
abbrev pub level_named : GameState → ℤ → Option LevelDef
level_named g (pos n) = level_at g n
level_named g (negsuc n) = none

abbrev pub progress_named : GameState → ℤ → Option LevelProgress
progress_named g (pos n) = g.progress n
progress_named g (negsuc n) = none

-- The engine stores whole seconds.
unfoldable pub add_log : GameState → ℕ → Event → Text → Text → GameState
add_log g at event info user = record g {
  log =
      g.log
      ++ record {
        time = at / second * second;
        level = g.current;
        event = event;
        info = info;
        user = user;
      }
        ∷ [];
}

unfoldable pub issue_level : GameState → ℕ → ℕ → GameState
unfolding add_log put new_level_progress
issue_level g order at =
    let issued = g.issued ++ order ∷ [] in
    let g1 =
      put (record g { issued = issued }) order (new_level_progress order (length issued) at) in
    add_log (record g1 { current = order }) at (level_issued order) (itoa order) []
