-- ===== src/GameStats/Replay.antt =====
-- gamestats/parse.go: the replay of the played events, up to the end of the loop.
pub mod Timeline
pub mod Issues
pub mod Events
pub mod Whole
use dzzzr_cli.Base.{
  ℕ, zero, suc, ◌+◌, ◌≡◌, refl, Bool, true, false, not, ◌&&◌, ◌||◌, Option, none, some, inl, inr,
  ◌⊎◌, List, [], ◌∷◌, ◌++◌, any, keep, ltb, leb, if◌then◌else◌, is_some, length, Text, codes,
  text_eq, is_empty, contains_text,
}
use dzzzr_cli.GameStats.Log.{
  Kind, no_event, issue_event, through_event, code_event, bonus_event, credit_event, prequel_event,
  timeout_event, refuse_event, avg_event, spoiler_event, spoiler_bad_event, plan_event, end_event,
  reset_event, hint_event, Event, KindedEvent, Reading, append_new, norm_code, parse_time,
  with_kinds, forward, sort_events, last_issue, cut_at, is_played, teams_of,
}
use dzzzr_cli.GameStats.Records.{
  Code, Override, Codes, Record, new_record, Replay, new_replay, mark_level, touch, or_new,
  record_of, put_record, or_now, first_time,
}

unfoldable pub is_closed : Record → Bool
is_closed r = is_some r.issued && is_some r.closed_at

unfoldable pub issue_record : ℕ → ℕ → Record → Record
unfolding or_now
issue_record now order r =
    if is_some r.issued then r else record r { issued = some now; order = order }

unfoldable pub close_record : ℕ → Record → Record
unfolding or_now
close_record now r = record r { closed_at = first_time r.closed_at now }

unfoldable pub close_previous : ℕ → Text → Text → Replay → Replay
unfolding put_record record_of close_record
close_previous now team level s =
    let prev = s.current team in
    if not (is_empty prev) && not (text_eq prev level)
    then put_record team prev (close_record now (record_of s team prev)) s
    else s

unfoldable pub set_current : Text → Text → Replay → Replay
set_current team level s = record s { current = λ t. if text_eq t team then level else s.current t }

unfoldable pub count_order : Text → Record → Replay → Replay
count_order team r s =
    if is_some r.issued
    then s
    else record s { orders = λ t. if text_eq t team then s.orders t + 1 else s.orders t }

-- The case `ISSUE` for a record that is in the map.
unfoldable pub issue : ℕ → Text → Text → Record → Replay → Replay
unfolding is_closed issue_record put_record count_order close_previous set_current
issue now team level r s =
    if is_closed r
    then put_record team level r s
    else set_current team level (
        close_previous now team level
          (put_record team level (issue_record now (s.orders team + 1) r) (count_order team r s)))

unfoldable pub has_code : Text → Codes → Bool
has_code key [] = false
has_code key ((k, c) ∷ cs) = text_eq k key || has_code key cs

unfoldable pub add_code : Text → Code → Codes → Codes
unfolding has_code
add_code key c cs = if has_code key cs then cs else cs ++ (key, c) ∷ []

unfoldable pub count_code : Text → Codes → Codes
count_code key [] = []
count_code key ((k, c) ∷ cs) =
    let rest = count_code key cs in
    if text_eq k key then (k, record c { count = c.count + 1 }) ∷ cs else (k, c) ∷ rest

unfoldable pub try_spoiler : Text → Code → Codes → Codes
unfolding has_code count_code
try_spoiler key c cs = if has_code key cs then count_code key cs else cs ++ (key, c) ∷ []

unfoldable pub larger : ℕ → ℕ → ℕ
larger a b = if leb a b then b else a

unfoldable pub code_of : Event → Text → ℕ → Code
code_of e n count = record { at = e.time; raw = e.payload; player = e.player; n = n; count = count }

unfoldable pub is_through : Kind → Bool
is_through through_event = true
is_through k = false

unfoldable pub plan_level : Event → Replay → Replay
unfolding append_new touch
plan_level e s = record (touch e.level false s) {
  plan = λ t. if text_eq t e.team then append_new e.level (s.plan t) else s.plan t;
}

unfoldable pub is_nowhere : Event → Bool
is_nowhere e = is_empty e.team || is_empty e.level

-- The events that are played: `play` in `Parse`.
unfoldable pub played : ℕ → List KindedEvent → List KindedEvent
unfolding cut_at is_played
played last es = keep (is_played (cut_at last none es)) es

module _ {Float : Type 0} (rd : Reading Float) where
  unfoldable pub issued_through : Event → Option ℕ → Option ℕ
  unfolding or_now parse_time
  issued_through e none = some (or_now (parse_time rd e.payload) e.time)
  issued_through e (some t) = some t

  -- `ISSUE_T`
  unfoldable pub issue_through : Event → Record → Record
  unfolding issued_through
  issue_through e r = record r { through = true; issued = issued_through e r.issued }

  unfoldable pub override_of : Event → Bool → Override
  unfolding or_now parse_time
  override_of e is_average = record {
    is_average = is_average;
    at = or_now (parse_time rd e.payload) e.time;
    logged = e.time;
  }

  unfoldable pub hint_of : Event → ℕ
  hint_of e = if contains_text (codes "втор") (rd.lower e.act) then 2 else 1

  -- What an event other than an issue does to the record of its team and level.
  unfoldable pub update_record : Event → Kind → Record → Record
  unfolding issue_through norm_code add_code code_of or_now try_spoiler larger hint_of override_of
  update_record e through_event r = issue_through e r
  update_record e code_event r = record r {
    codes_found = add_code (norm_code rd e.payload) (code_of e [] 0) r.codes_found;
    last_code_at = some e.time;
  }
  update_record e bonus_event r = record r {
    bonus = add_code (norm_code rd e.payload) (code_of e [] 0) r.bonus;
  }
  update_record e timeout_event r = record r { timeout_at = first_time r.timeout_at e.time }
  update_record e refuse_event r = record r { refused_at = first_time r.refused_at e.time }
  update_record e spoiler_event r = record r {
    spoiler_at = first_time r.spoiler_at e.time;
    spoilers =
        try_spoiler (norm_code rd e.payload) (code_of e (rd.spoiler_number e.act) 1) r.spoilers;
  }
  update_record e spoiler_bad_event r = record r {
    spoiler_bad =
        try_spoiler (norm_code rd e.payload) (code_of e (rd.spoiler_number e.act) 1) r.spoiler_bad;
  }
  update_record e hint_event r = record r { hint_req = larger r.hint_req (hint_of e) }
  update_record e credit_event r = record r { override = some (override_of e false) }
  update_record e avg_event r = record r { override = some (override_of e true) }
  update_record e k r = r

  -- The switch over an event of a team that plays.
  unfoldable pub play_kind : Event → Kind → Record → Replay → Replay
  unfolding issue put_record update_record
  play_kind e issue_event r s = issue e.time e.team e.level r s
  play_kind e k r s = put_record e.team e.level (update_record e k r) s

  unfoldable pub play_team : List Text → Event → Kind → Replay → Replay
  unfolding touch play_kind record_of
  play_team teams e k s =
      if any (text_eq e.team) teams
      then play_kind e k (record_of s e.team e.level) (touch e.level (is_through k) s)
      else s

  -- One pass of the loop.
  unfoldable pub play_event : List Text → Event → Kind → Replay → Replay
  unfolding append_new is_nowhere plan_level play_team
  play_event teams e end_event s = record s { end_at = e.time; ended = true }
  play_event teams e prequel_event s =
      if is_empty e.team then s else record s { prequel = append_new e.team s.prequel }
  play_event teams e reset_event s = s
  play_event teams e plan_event s = if is_nowhere e then s else plan_level e s
  play_event teams e k s = if is_nowhere e then s else play_team teams e k s

  unfoldable pub replay : List Text → List KindedEvent → Replay → Replay
  unfolding play_event
  replay teams [] s = s
  replay teams ((e, k) ∷ es) s = replay teams es (play_event teams e k s)

  unfoldable pub reconstruct : Option ℕ → List KindedEvent → Text ⊎ Replay
  unfolding played teams_of replay
  reconstruct none es =
      inl (codes "в файле нет событий «выдан уровень»: нужна выгрузка журнала игры DozoR")
  reconstruct (some last) es =
      inr (replay (teams_of [] (played last es)) (played last es) new_replay)

  -- `Parse` up to the end of the replay.
  unfoldable pub parse : List Event → Text ⊎ Replay
  unfolding with_kinds sort_events forward reconstruct last_issue
  parse input =
      let rows = with_kinds rd (sort_events (forward input)) in
      reconstruct (last_issue none rows) rows
