-- ===== src/GameStats/Log.antt =====
-- gamestats/parse.go and read.go: the events of a log, what each says, and which of them are played,
-- in which order. A time is its milliseconds since 1970, not negative.
use dzzzr_cli.Base.{
  ℕ, ◌+◌, Bool, true, false, not, ◌&&◌, Option, none, some, List, [], ◌∷◌, ◌++◌, reverse, any, ltb,
  leb, ◌==◌, if◌then◌else◌, Text, codes, text_eq, is_empty, trim_space, has_prefix, contains_text,
  join,
}

pub data Kind : Type 0 where
  no_event : Kind
  issue_event : Kind
  through_event : Kind
  code_event : Kind
  bonus_event : Kind
  credit_event : Kind
  prequel_event : Kind
  timeout_event : Kind
  refuse_event : Kind
  avg_event : Kind
  spoiler_event : Kind
  spoiler_bad_event : Kind
  plan_event : Kind
  end_event : Kind
  reset_event : Kind
  hint_event : Kind

pub record Event : Type 0 where
  pub time : ℕ
  pub act : Text
  pub team : Text
  pub level : Text
  pub payload : Text
  pub player : Text

-- The case of letters, `strings.Fields`, `time.Parse` in a layout, floating-point numbers, the time of
-- a spreadsheet's serial number, and the number that `spoilerNumber` finds.
pub record Reading (Float : Type 0) : Type 0 where
  pub lower : Text → Text
  pub upper : Text → Text
  pub fields : Text → List Text
  pub parse_layout : Text → Text → Option ℕ
  pub parse_float : Text → Option Float
  pub at_least : Float → Float → Bool
  pub numeral : Text → Float
  pub serial_time : Float → ℕ
  pub spoiler_number : Text → Text

unfoldable pub exact_kind : Text → List (Text × Kind) → Option Kind
exact_kind a [] = none
exact_kind a ((name, k) ∷ rest) =
    let later = exact_kind a rest in if text_eq name a then some k else later

unfoldable pub prefix_kind : Text → List (Text × Kind) → Option Kind
prefix_kind a [] = none
prefix_kind a ((name, k) ∷ rest) =
    let later = prefix_kind a rest in if has_prefix name a then some k else later

abbrev pub exact_names : List (Text × Kind)
exact_names =
    (codes "выдан уровень", issue_event)
    ∷ (codes "выдан сквозной уровень", through_event)
    ∷ (codes "принят код", code_event)
    ∷ (codes "принят бонусный код", bonus_event)
    ∷ (codes "засчитан уровень", credit_event)
    ∷ (codes "принят код к приквелу", prequel_event)
    ∷ []

abbrev pub prefix_names : List (Text × Kind)
prefix_names =
    (codes "вышло время", timeout_event)
    ∷ (codes "отказ от уровня", refuse_event)
    ∷ (codes "засчитано среднее", avg_event)
    ∷ (codes "введен правильный код к спойлеру", spoiler_event)
    ∷ (codes "введён правильный код к спойлеру", spoiler_event)
    ∷ (codes "введен неверный код к спойлеру", spoiler_bad_event)
    ∷ (codes "введён неверный код к спойлеру", spoiler_bad_event)
    ∷ (codes "запланировано задание", plan_event)
    ∷ (codes "завершена игра", end_event)
    ∷ (codes "удалена статистика", reset_event)
    ∷ []

unfoldable pub hint_kind : Text → Kind
hint_kind a =
    if has_prefix (codes "запрос ") a && contains_text (codes "подсказк") a
    then hint_event
    else no_event

unfoldable pub prefix_or_hint : Text → Option Kind → Kind
unfolding hint_kind
prefix_or_hint a none = hint_kind a
prefix_or_hint a (some k) = k

unfoldable pub exact_or : Text → Option Kind → Kind
unfolding prefix_or_hint prefix_kind
exact_or a none = prefix_or_hint a (prefix_kind a prefix_names)
exact_or a (some k) = k

unfoldable pub is_kind : Kind → Kind → Bool
is_kind issue_event issue_event = true
is_kind plan_event plan_event = true
is_kind prequel_event prequel_event = true
is_kind reset_event reset_event = true
is_kind no_event no_event = true
is_kind through_event through_event = true
is_kind code_event code_event = true
is_kind bonus_event bonus_event = true
is_kind credit_event credit_event = true
is_kind timeout_event timeout_event = true
is_kind refuse_event refuse_event = true
is_kind avg_event avg_event = true
is_kind spoiler_event spoiler_event = true
is_kind spoiler_bad_event spoiler_bad_event = true
is_kind end_event end_event = true
is_kind hint_event hint_event = true
is_kind k k' = false

unfoldable pub commas_as_dots : Text → Text
commas_as_dots [] = []
commas_as_dots (c ∷ s) = (if c == b',' then b'.' else c) ∷ commas_as_dots s

abbrev pub layouts : List Text
layouts =
    codes "2006-1-2 15:04:05.999999999"
    ∷ codes "2006-1-2T15:04:05.999999999"
    ∷ codes "2.1.2006 15:04:05.999999999"
    ∷ codes "2006-1-2 15:04"
    ∷ codes "2006-1-2T15:04"
    ∷ codes "2.1.2006 15:04"
    ∷ []

-- An event with the kind of its action.
abbrev pub KindedEvent : Type 0
KindedEvent = Event × Kind

module _ {Float : Type 0} (r : Reading Float) where
  open r use {lower, upper, fields, parse_layout, parse_float, at_least, numeral, serial_time}

  unfoldable pub norm : Text → Text
  norm s = join (codes " ") (fields s)

  unfoldable pub norm_code : Text → Text
  norm_code s = upper (join [] (fields s))

  unfoldable pub action : Text → Kind
  unfolding norm exact_or exact_kind
  action raw = exact_or (lower (norm raw)) (exact_kind (lower (norm raw)) exact_names)

  unfoldable pub serial_or_none : Option Float → Option ℕ
  serial_or_none none = none
  serial_or_none (some n) =
      if at_least n (numeral (codes "20000")) && at_least (numeral (codes "80000")) n
      then some (serial_time n)
      else none

  unfoldable pub first_layout : Text → List Text → Option ℕ
  unfolding serial_or_none
  first_layout s [] = serial_or_none (parse_float s)
  first_layout s (layout ∷ rest) =
      let later = first_layout s rest in
      elim (parse_layout layout s) [ some t ↦ some t | none ↦ later ]

  unfoldable pub parse_time : Text → Option ℕ
  unfolding first_layout commas_as_dots
  parse_time s = first_layout (trim_space (commas_as_dots s)) layouts

-- How many events are later and how many earlier than the event before.
unfoldable pub steps_up : ℕ → List Event → ℕ
steps_up t [] = 0
steps_up t (e ∷ es) = (if ltb t e.time then 1 else 0) + steps_up e.time es

unfoldable pub steps_down : ℕ → List Event → ℕ
steps_down t [] = 0
steps_down t (e ∷ es) = (if ltb e.time t then 1 else 0) + steps_down e.time es

unfoldable pub forward : List Event → List Event
unfolding steps_up steps_down
forward [] = []
forward (e ∷ es) =
    if ltb (steps_up e.time es) (steps_down e.time es) then reverse (e ∷ es) else e ∷ es

-- `slices.SortStableFunc` by time.
unfoldable pub insert_event : Event → List Event → List Event
insert_event e [] = e ∷ []
insert_event e (f ∷ fs) =
    let deeper = f ∷ insert_event e fs in if leb e.time f.time then e ∷ f ∷ fs else deeper

unfoldable pub sort_events : List Event → List Event
unfolding insert_event
sort_events [] = []
sort_events (e ∷ es) = insert_event e (sort_events es)

unfoldable pub is_issue : KindedEvent → Bool
unfolding is_kind
is_issue (e, k) = is_kind issue_event k && not (is_empty e.team)

-- The time of the last issue, and whether there is one.
unfoldable pub last_issue : Option ℕ → List KindedEvent → Option ℕ
unfolding is_issue
last_issue found [] = found
last_issue found ((e, k) ∷ es) = last_issue (if is_issue (e, k) then some e.time else found) es

unfoldable pub cut_at : ℕ → Option ℕ → List KindedEvent → Option ℕ
unfolding is_kind
cut_at last cut [] = cut
cut_at last cut ((e, k) ∷ es) =
    cut_at last (if is_kind reset_event k && ltb e.time last then some e.time else cut) es

unfoldable pub is_before : ℕ → Option ℕ → Bool
is_before t none = false
is_before t (some cut) = ltb t cut

unfoldable pub is_played : Option ℕ → KindedEvent → Bool
unfolding is_kind is_before
is_played cut (e, k) =
    not (is_kind no_event k)
    && not (
        is_before e.time cut
        && (not (is_kind plan_event k)
            && (not (is_kind prequel_event k) && not (is_kind reset_event k))))

unfoldable pub append_new : Text → List Text → List Text
append_new name names = if any (text_eq name) names then names else names ++ name ∷ []

unfoldable pub teams_of : List Text → List KindedEvent → List Text
unfolding append_new is_issue
teams_of teams [] = teams
teams_of teams ((e, k) ∷ es) =
    teams_of (if is_issue (e, k) then append_new e.team teams else teams) es

unfoldable pub with_kinds : {Float : Type 0} → Reading Float → List Event → List KindedEvent
unfolding action
with_kinds r [] = []
with_kinds r (e ∷ es) = (e, action r e.act) ∷ with_kinds r es
