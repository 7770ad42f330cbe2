-- ===== src/GameSource/Tests.antt =====
-- A plan of two levels against an engine that keeps the writes asked for.
use dzzzr_cli.Base.{
  ℕ, ◌≡◌, refl, ◌⊎◌, true, false, none, some, List, [], ◌∷◌, ◌++◌, ℤ, pos, negsuc, Text, codes,
  itoa, All, ==_refl, trim_space, contains_text, has_prefix, split_on, text_eq, is_space, trim_left,
  any,
}
use dzzzr_cli.GameSource.Level.{
  LevelCode, LevelParams, params_value, walk, bonus_value, code_value, fake_value, image_errors,
  items_of, later_fields, spoiler_value, unencodable, walk_int, walk_text,
}
use dzzzr_cli.GameSource.Codes.{
  Outside, validate_params, error_if, check_main, check_code, check_values, check_value,
  danger_errors, is_danger, exceeds, check_bonus, check_fake, check_codes, check_spoilers,
  coordinate_errors, duplicate_errors, indexed, is_no_code, is_within, key_of, lookup_path,
  publish_errors, report, synonyms_of, ◌>>◌,
}
use dzzzr_cli.GameSource.Codes.Keys.{apart, level_keys, validate_params-apart}
use dzzzr_cli.GameSource.Codes.Values.{IsWritable, validate_params-IsWritable}
use dzzzr_cli.GameSource.Plan.{
  Plan, int_eq, updates, is_positive, validate, all_level_errors, level_errors, update_errors,
  is_no_level, at_level,
}
use dzzzr_cli.GameSource.Plan.Valid.{IsValid, validate-IsValid}
use dzzzr_cli.GameSource.Apply.{Engine, apply, is_member}
use dzzzr_cli.GameSource.Apply.Order.{Write, Logs, Finished}
use dzzzr_cli.GameSource.Apply.Batch.{Outcome, Confirmed, apply-Outcome, apply-Confirmed}
use dzzzr_cli.GameSource.Apply.Completes.{Answers, apply-Finished}

-- Floats that are integers at least 0.
abbrev outside : Outside ℕ
outside = record {
  encode_error = λ s. none;
  upper = λ s. s;
  quote = λ s. s;
  parse_float = λ s. some 3;
  is_finite = λ n. true;
  less = λ n m. false;
  numeral = λ s. 0;
}

abbrev int_text : ℤ → Text
int_text n = codes "n"

abbrev code : Text → LevelCode
code c = record { code = c; synonyms = codes "X1#X2"; danger = codes "1+"; sector = pos 0 }

abbrev level_params : LevelParams
level_params = record {
  title = codes "Bridge";
  subtitle = [];
  question = [];
  hint1 = [];
  hint2 = [];
  location = [];
  location_comment = [];
  comment = none;
  time_add_bonus_all = some (pos 3);
  level_codes = code (codes "DR1") ∷ [];
  sector_names = [];
  bonus_codes = [];
  fake_codes = [];
  spoilers = [];
  clue_min = pos 0;
  clue_min2 = pos 0;
  clue_min3 = pos 0;
  hint1_on_request = none;
  hint1_interval = pos 0;
  hint1_penalty = pos 0;
  hint2_on_request = none;
  hint2_interval = pos 0;
  hint2_penalty = pos 0;
  code_count = pos 1;
  try_limit = pos 0;
  penalty = none;
  no_master_code = none;
  is_sabotage = none;
  bonus = none;
  bonus_time = pos 0;
  skvoz = none;
  skvoz_min = pos 0;
  skvoz_start = [];
  lat = [];
  lon = [];
  radius = [];
  show_coord_hint2 = none;
  no_break = none;
  clue_before = none;
  reserve = none;
  publish = some false;
  greeting = [];
  clear = [];
}

abbrev plan : Plan
plan = record {
  game_id = pos 4;
  mode = codes "update";
  levels =
      record { id = pos 7; params = level_params }
      ∷ record { id = pos 9; params = level_params }
      ∷ [];
}

abbrev engine : Engine (List Write)
engine = record {
  create_level = λ g ps w. (pos 1, none, w ++ record { game = g; target = none; params = ps } ∷ []);
  get_level = λ g id w. (some (record { id = id; game_id = g }), none, w);
  replace_level = λ g id ps w. (none, w ++ record { game = g; target = some id; params = ps } ∷ []);
  ctx_err = λ w. none;
}

abbrev log : List Write → List Write
log w = w

engine_logs : Logs engine log
engine_logs = record {
  created = λ g ps w. refl;
  replaced = λ g id ps w. refl;
  asked = λ g id w. refl;
}

int_eq_refl : (n : ℤ) → int_eq n n ≡ true
unfolding int_eq
int_eq_refl (pos n) = ==_refl n
int_eq_refl (negsuc n) = ==_refl n

engine-Answers : Answers engine
unfolding is_member is_positive
engine-Answers = record {
  live = λ w. refl;
  created = λ g ps w. refl;
  positive = λ g ps w. refl;
  replaced = λ g id ps w. refl;
  found = λ g id w. refl;
  member = λ g id w. rw (int_eq_refl id, int_eq_refl g) refl;
}

level_validates : validate_params outside level_params ≡ []
unfolding validate_params error_if trim_space walk params_value contains_text has_prefix check_main
    check_code check_values check_value split_on text_eq danger_errors is_danger exceeds check_bonus
    check_fake is_space itoa trim_left check_codes check_spoilers coordinate_errors duplicate_errors
    indexed is_no_code is_within key_of lookup_path publish_errors report synonyms_of ◌>>◌
    bonus_value code_value fake_value image_errors items_of later_fields spoiler_value unencodable
    walk_int walk_text
level_validates = refl

plan_validates : validate outside int_text plan ≡ []
unfolding validate all_level_errors level_errors update_errors int_eq is_positive is_no_level
    at_level validate_params error_if trim_space walk params_value contains_text has_prefix
    check_main check_code check_values check_value split_on text_eq danger_errors is_danger exceeds
    check_bonus check_fake is_space itoa trim_left check_codes check_spoilers coordinate_errors
    duplicate_errors indexed is_no_code is_within key_of lookup_path publish_errors report
    synonyms_of ◌>>◌ bonus_value code_value fake_value image_errors items_of later_fields
    spoiler_value unencodable walk_int walk_text any
plan_validates = refl

validate_params-apart_example : apart [] (level_keys outside level_params) ≡ true
validate_params-apart_example = validate_params-apart outside level_params level_validates

validate_params-IsWritable_example : IsWritable outside.encode_error (params_value level_params)
validate_params-IsWritable_example = validate_params-IsWritable outside level_params level_validates

validate-IsValid_example : IsValid outside plan
validate-IsValid_example = validate-IsValid outside int_text plan plan_validates

apply-Outcome_example :
    Outcome engine int_text log engine_logs plan [] (apply outside int_text (some engine) plan [])
apply-Outcome_example = apply-Outcome engine int_text log engine_logs outside plan []

is_update : updates plan.mode ≡ true
unfolding text_eq
is_update = refl

apply-Confirmed_example :
    (log (apply outside int_text (some engine) plan []).2 ≡ log [])
    ⊎ All (Confirmed engine int_text log engine_logs plan.game_id) plan.levels
apply-Confirmed_example = apply-Confirmed engine int_text log engine_logs outside plan [] is_update

apply-Finished_example :
    Finished engine int_text log engine_logs plan.game_id plan.mode 0 plan.levels [] []
      (apply outside int_text (some engine) plan [])
apply-Finished_example =
    apply-Finished engine int_text log outside plan [] engine_logs engine-Answers plan_validates
