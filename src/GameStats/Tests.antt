-- ===== src/GameStats/Tests.antt =====
-- A log with the latest row first: a team is issued two levels and has found a code of the first.
use dzzzr_cli.Base.{
  ℕ, ◌+◌, ◌-◌, ◌*◌, ◌/◌, ◌≤◌, ◌<◌, ltb, leb, ◌≡◌, refl, true, false, none, some, inl, inr, ◌⊎◌,
  List, [], ◌∷◌, Text, codes, text_eq, has_prefix, contains_text, join, any, keep, trim_space,
  trim_left, is_space,
}
use dzzzr_cli.GameStats.Log.{
  Event, Reading, exact_kind, prefix_kind, hint_kind, prefix_or_hint, exact_or, is_kind,
  commas_as_dots, norm, norm_code, action, serial_or_none, first_layout, parse_time, steps_up,
  steps_down, forward, insert_event, sort_events, is_issue, last_issue, cut_at, is_before,
  is_played, append_new, teams_of, with_kinds,
}
use dzzzr_cli.GameStats.Records.{
  Record, new_record, Replay, new_replay, mark_level, touch, or_new, record_of, put_record, or_now,
}
use dzzzr_cli.GameStats.Replay.{
  parse, is_closed, issue_record, close_record, close_previous, set_current, count_order, issue,
  has_code, add_code, count_code, try_spoiler, larger, code_of, issued_through, issue_through,
  override_of, hint_of, update_record, is_through, play_kind, play_team, plan_level, is_nowhere,
  play_event, replay, played, reconstruct,
}
use dzzzr_cli.GameStats.Finish.{done_at, times_of, sort_times, insert_time}
use dzzzr_cli.GameStats.Finish.Done.{count, done_at_lem}
use dzzzr_cli.GameStats.Eval.{Numbers, Rules, Resolved, Cell, eval_level}
use dzzzr_cli.GameStats.Eval.Ends.{IsFair, eval_level-IsFair}
use dzzzr_cli.GameStats.Replay.Timeline.{is_open}
use dzzzr_cli.GameStats.Replay.Whole.{parse_closed, parse_one_open}

abbrev reading : Reading ℕ
reading = record {
  lower = λ s. s;
  upper = λ s. s;
  fields = λ s. s ∷ [];
  parse_layout = λ layout s. none;
  parse_float = λ s. none;
  at_least = λ n m. false;
  numeral = λ s. 0;
  serial_time = λ n. n;
  spoiler_number = λ s. [];
}

abbrev row : ℕ → Text → Text → Event
row time act level = record {
  time = time;
  act = act;
  team = codes "A";
  level = level;
  payload = codes "X";
  player = codes "p";
}

abbrev log : List Event
log =
    row 30 (codes "завершена игра") (codes "2")
    ∷ row 20 (codes "выдан уровень") (codes "2")
    ∷ row 15 (codes "принят код") (codes "1")
    ∷ row 10 (codes "выдан уровень") (codes "1")
    ∷ []

unfoldable the_replay : Text ⊎ Replay → Replay
the_replay (inl err) = new_replay
the_replay (inr s) = s

parsed : parse reading log ≡ inr (the_replay (parse reading log))
unfolding exact_kind prefix_kind hint_kind prefix_or_hint exact_or is_kind commas_as_dots norm
    norm_code action serial_or_none first_layout parse_time steps_up steps_down forward insert_event
    sort_events is_issue last_issue cut_at is_before is_played append_new teams_of with_kinds
    mark_level touch or_new record_of put_record or_now is_closed issue_record close_record
    close_previous set_current count_order issue has_code add_code count_code try_spoiler larger
    code_of issued_through issue_through override_of hint_of update_record is_through play_kind
    play_team plan_level is_nowhere play_event replay played reconstruct parse text_eq has_prefix
    contains_text join any keep trim_space trim_left is_space the_replay
parsed = refl

abbrev first_record : Record
first_record = record new_record {
  issued = some 10;
  closed_at = some 20;
  last_code_at = some 15;
  order = 1;
  codes_found =
      (codes "X", record { at = 15; raw = codes "X"; player = codes "p"; n = []; count = 0 }) ∷ [];
}

abbrev second_record : Record
second_record = record new_record { issued = some 20; order = 2 }

first_found : (the_replay (parse reading log)).recs (codes "A") (codes "1") ≡ some first_record
unfolding exact_kind prefix_kind hint_kind prefix_or_hint exact_or is_kind commas_as_dots norm
    norm_code action serial_or_none first_layout parse_time steps_up steps_down forward insert_event
    sort_events is_issue last_issue cut_at is_before is_played append_new teams_of with_kinds
    mark_level touch or_new record_of put_record or_now is_closed issue_record close_record
    close_previous set_current count_order issue has_code add_code count_code try_spoiler larger
    code_of issued_through issue_through override_of hint_of update_record is_through play_kind
    play_team plan_level is_nowhere play_event replay played reconstruct parse text_eq has_prefix
    contains_text join any keep trim_space trim_left is_space the_replay
first_found = refl

second_found : (the_replay (parse reading log)).recs (codes "A") (codes "2") ≡ some second_record
unfolding exact_kind prefix_kind hint_kind prefix_or_hint exact_or is_kind commas_as_dots norm
    norm_code action serial_or_none first_layout parse_time steps_up steps_down forward insert_event
    sort_events is_issue last_issue cut_at is_before is_played append_new teams_of with_kinds
    mark_level touch or_new record_of put_record or_now is_closed issue_record close_record
    close_previous set_current count_order issue has_code add_code count_code try_spoiler larger
    code_of issued_through issue_through override_of hint_of update_record is_through play_kind
    play_team plan_level is_nowhere play_event replay played reconstruct parse text_eq has_prefix
    contains_text join any keep trim_space trim_left is_space the_replay
second_found = refl

second_open : is_open second_record.through second_record.issued second_record.closed_at ≡ true
unfolding is_open
second_open = refl

parse_closed_example : (t : ℕ) × ((first_record.issued ≡ some t) × (t ≤ 20))
parse_closed_example =
    parse_closed reading log (the_replay (parse reading log)) parsed (codes "A") (codes "1")
      first_record 20 first_found refl refl

parse_one_open_example : codes "2" ≡ codes "2"
parse_one_open_example =
    parse_one_open reading log (the_replay (parse reading log)) parsed (codes "A") (codes "2")
      (codes "2") second_record second_record second_found second_found second_open second_open

-- Two codes, the later one first, and closed after both.
abbrev two_codes : Record
two_codes = record new_record {
  issued = some 10;
  closed_at = some 40;
  codes_found =
      (codes "Y", record { at = 30; raw = codes "Y"; player = []; n = []; count = 0 })
      ∷ (codes "X", record { at = 15; raw = codes "X"; player = []; n = []; count = 0 })
      ∷ [];
}

done_at_two : done_at 2 two_codes ≡ some 30
unfolding done_at sort_times insert_time times_of
done_at_two = refl

done_at_lem_example :
    (2 ≤ count (λ u. leb u 30) (times_of two_codes.codes_found))
    × (count (λ u. ltb u 30) (times_of two_codes.codes_found) < 2)
done_at_lem_example = done_at_lem 2 two_codes 30 done_at_two

abbrev naturals : Numbers ℕ
naturals = record {
  zero_num = 0;
  of_nat = λ k. k;
  plus = λ a b. a + b;
  times = λ a b. a * b;
  less = ltb;
  milliseconds = λ s. s * 1000;
  seconds_between = λ a b. (a - b) / 1000;
}

abbrev rules : Rules ℕ
rules = record {
  dur = 90;
  h1 = 30;
  h2 = 60;
  add = 15;
  done = 5;
  per_bonus = 1;
  cap = 0;
  code_vals = λ code. none;
}

abbrev resolved : Resolved
resolved = record {
  stop_at = 35;
  none_mode = codes "limit";
  stop_mode = codes "actual";
  rejected_mode = codes "first";
}

eval_level-IsFair_example :
    (c : Cell ℕ) × ((eval_level naturals rules resolved (some (two_codes, (some 30, none)))
        ≡ some c)
      × IsFair 35 c)
eval_level-IsFair_example =
    eval_level-IsFair naturals rules resolved (some (two_codes, (some 30, none)))
