-- ===== src/GameStats/Replay/Events.antt =====
-- Each event of a log keeps the times of the levels in order.
use dzzzr_cli.Base.{
  ℕ, ◌≤◌, ◌≡◌, refl, sym, subst, Bool, true, false, ◌||◌, Option, none, some, inl, inr, List, any,
  if◌then◌else◌, Text, text_eq, is_empty, Bool-cases,
}
use dzzzr_cli.GameStats.Log.{
  Kind, no_event, issue_event, through_event, code_event, bonus_event, credit_event, prequel_event,
  timeout_event, refuse_event, avg_event, spoiler_event, spoiler_bad_event, plan_event, end_event,
  reset_event, hint_event, Event, Reading, parse_time,
}
use dzzzr_cli.GameStats.Records.{Record, Replay, touch, record_of, put_record, or_now}
use dzzzr_cli.GameStats.Replay.{
  is_closed, is_through, issue, issued_through, issue_through, update_record, play_kind, play_team,
  is_nowhere, plan_level, play_event,
}
use dzzzr_cli.GameStats.Replay.Issues.{
  issued_state, issued_state-Follows, issued_state_current, close_IsTracked,
}
use dzzzr_cli.GameStats.Replay.Timeline.{
  Tracks, Kept, IsTracked, Follows, is_at, but, currently, put_record-IsTracked, through-Tracks,
  record-Tracks, Kept-later,
}

issue-IsTracked :
    (now : ℕ) (team level : Text) (r : Record) (s : Replay)
    → is_empty level ≡ false
    → Tracks now (currently s team level) r.through r.issued r.closed_at
    → IsTracked now s
    → IsTracked now (issue now team level r s)
unfolding issue issued_state Kept
issue-IsTracked now team level r s full k tracked = elim (Bool-cases (is_closed r)) [
  | inl c ↦ rw c (put_record-IsTracked now s team level r tracked k)
  | inr c ↦ rw c (
      close_IsTracked now team level (issued_state now team level r s) full (
        subst
          (λ cur.
            Follows now (but team level true (λ t l. is_at (cur t) l))
              (issued_state now team level r s))
          (sym (issued_state_current now team level r s))
          (issued_state-Follows now team level r s c k tracked)))
]

touch-IsTracked :
    (now : ℕ) (name : Text) (through : Bool) (s : Replay)
    → IsTracked now s
    → IsTracked now (touch name through s)
unfolding touch
touch-IsTracked now name through s h t l = elim (Bool-cases (is_empty name)) [
  | inl e ↦ rw e (h t l)
  | inr e ↦ rw e (h t l)
]

touch_record :
    (name : Text) (through : Bool) (s : Replay) (team level : Text)
    → record_of (touch name through s) team level ≡ record_of s team level
unfolding touch record_of
touch_record name through s team level = elim (Bool-cases (is_empty name)) [
  | inl e ↦ rw e refl
  | inr e ↦ rw e refl
]

touch_current :
    (name : Text) (through : Bool) (s : Replay) → (touch name through s).current ≡ s.current
unfolding touch
touch_current name through s = elim (Bool-cases (is_empty name)) [
  | inl e ↦ rw e refl
  | inr e ↦ rw e refl
]

module _ {Float : Type 0} (rd : Reading Float) where
  issue_through-Tracks :
      (now : ℕ) (here : Bool) (e : Event) (r : Record) (issued : Option ℕ)
      → Tracks now here r.through issued r.closed_at
      → Tracks now here true (issued_through rd e issued) r.closed_at
  unfolding issued_through or_now
  issue_through-Tracks now here e r none h =
      through-Tracks now (or_now (parse_time rd e.payload) e.time) here r.through none r.closed_at h
  issue_through-Tracks now here e r (some t) h =
      through-Tracks now t here r.through (some t) r.closed_at h

  update_record-Tracks :
      (now : ℕ) (here : Bool) (e : Event) (k : Kind) (r : Record)
      → Tracks now here r.through r.issued r.closed_at
      → Kept now here (some (update_record rd e k r))
  unfolding Kept update_record issue_through
  update_record-Tracks now here e through_event r h = issue_through-Tracks now here e r r.issued h
  update_record-Tracks now here e code_event r h = h
  update_record-Tracks now here e bonus_event r h = h
  update_record-Tracks now here e timeout_event r h = h
  update_record-Tracks now here e refuse_event r h = h
  update_record-Tracks now here e spoiler_event r h = h
  update_record-Tracks now here e spoiler_bad_event r h = h
  update_record-Tracks now here e hint_event r h = h
  update_record-Tracks now here e credit_event r h = h
  update_record-Tracks now here e avg_event r h = h
  update_record-Tracks now here e no_event r h = h
  update_record-Tracks now here e issue_event r h = h
  update_record-Tracks now here e prequel_event r h = h
  update_record-Tracks now here e plan_event r h = h
  update_record-Tracks now here e end_event r h = h
  update_record-Tracks now here e reset_event r h = h

  -- An event that is no issue.
  put_updated :
      (now : ℕ) (e : Event) (k : Kind) (r : Record) (s : Replay)
      → Tracks now (currently s e.team e.level) r.through r.issued r.closed_at
      → IsTracked now s
      → IsTracked now (put_record e.team e.level (update_record rd e k r) s)
  put_updated now e k r s h tracked =
      put_record-IsTracked now s e.team e.level (update_record rd e k r) tracked
        (update_record-Tracks now (currently s e.team e.level) e k r h)

  play_kind-IsTracked :
      (e : Event) (k : Kind) (r : Record) (s : Replay)
      → is_empty e.level ≡ false
      → Tracks e.time (currently s e.team e.level) r.through r.issued r.closed_at
      → IsTracked e.time s
      → IsTracked e.time (play_kind rd e k r s)
  unfolding play_kind
  play_kind-IsTracked e issue_event r s full h tracked =
      issue-IsTracked e.time e.team e.level r s full h tracked
  play_kind-IsTracked e through_event r s full h tracked =
      put_updated e.time e through_event r s h tracked
  play_kind-IsTracked e code_event r s full h tracked =
      put_updated e.time e code_event r s h tracked
  play_kind-IsTracked e bonus_event r s full h tracked =
      put_updated e.time e bonus_event r s h tracked
  play_kind-IsTracked e timeout_event r s full h tracked =
      put_updated e.time e timeout_event r s h tracked
  play_kind-IsTracked e refuse_event r s full h tracked =
      put_updated e.time e refuse_event r s h tracked
  play_kind-IsTracked e spoiler_event r s full h tracked =
      put_updated e.time e spoiler_event r s h tracked
  play_kind-IsTracked e spoiler_bad_event r s full h tracked =
      put_updated e.time e spoiler_bad_event r s h tracked
  play_kind-IsTracked e hint_event r s full h tracked =
      put_updated e.time e hint_event r s h tracked
  play_kind-IsTracked e credit_event r s full h tracked =
      put_updated e.time e credit_event r s h tracked
  play_kind-IsTracked e avg_event r s full h tracked = put_updated e.time e avg_event r s h tracked
  play_kind-IsTracked e no_event r s full h tracked = put_updated e.time e no_event r s h tracked
  play_kind-IsTracked e prequel_event r s full h tracked =
      put_updated e.time e prequel_event r s h tracked
  play_kind-IsTracked e plan_event r s full h tracked =
      put_updated e.time e plan_event r s h tracked
  play_kind-IsTracked e end_event r s full h tracked = put_updated e.time e end_event r s h tracked
  play_kind-IsTracked e reset_event r s full h tracked =
      put_updated e.time e reset_event r s h tracked

  play_team-IsTracked :
      (teams : List Text) (e : Event) (k : Kind) (s : Replay)
      → is_empty e.level ≡ false
      → IsTracked e.time s
      → IsTracked e.time (play_team rd teams e k s)
  unfolding play_team record_of
  play_team-IsTracked teams e k s full h = elim (Bool-cases (any (text_eq e.team) teams)) [
    | inr out ↦ rw out h
    | inl playing ↦ rw playing (
        play_kind-IsTracked e k (record_of s e.team e.level) (touch e.level (is_through k) s) full
          (rw (touch_current e.level (is_through k) s) (
            record-Tracks e.time (currently s e.team e.level) (s.recs e.team e.level)
              (h e.team e.level)))
          (touch-IsTracked e.time e.level (is_through k) s h))
  ]

  -- Where an event names a team and a level, it is that of the team, and else it does nothing.
  play_somewhere :
      (teams : List Text) (e : Event) (k : Kind) (s : Replay)
      → IsTracked e.time s
      → IsTracked e.time (if is_nowhere e then s else play_team rd teams e k s)
  unfolding is_nowhere
  play_somewhere teams e k s h = elim (Bool-cases (is_empty e.team || is_empty e.level)) [
    | inl n ↦ rw n h
    | inr n ↦
        rw n (play_team-IsTracked teams e k s (or-right (is_empty e.team) (is_empty e.level) n) h)
  ]
    where
      or-right : (a b : Bool) → (a || b) ≡ false → b ≡ false
      or-right true b n = cc n
      or-right false b n = n

  plan_level-IsTracked :
      (now : ℕ) (e : Event) (s : Replay) → IsTracked now s → IsTracked now (plan_level e s)
  unfolding plan_level
  plan_level-IsTracked now e s h = touch-IsTracked now e.level false s h

  play_event_now :
      (teams : List Text) (e : Event) (k : Kind) (s : Replay)
      → IsTracked e.time s
      → IsTracked e.time (play_event rd teams e k s)
  unfolding play_event
  play_event_now teams e end_event s h = h
  play_event_now teams e prequel_event s h = elim (Bool-cases (is_empty e.team)) [
    | inl n ↦ rw n h
    | inr n ↦ rw n (λ t l. h t l)
  ]
  play_event_now teams e reset_event s h = h
  play_event_now teams e plan_event s h = elim (Bool-cases (is_nowhere e)) [
    | inl n ↦ rw n h
    | inr n ↦ rw n (plan_level-IsTracked e.time e s h)
  ]
  play_event_now teams e issue_event s h = play_somewhere teams e issue_event s h
  play_event_now teams e through_event s h = play_somewhere teams e through_event s h
  play_event_now teams e code_event s h = play_somewhere teams e code_event s h
  play_event_now teams e bonus_event s h = play_somewhere teams e bonus_event s h
  play_event_now teams e timeout_event s h = play_somewhere teams e timeout_event s h
  play_event_now teams e refuse_event s h = play_somewhere teams e refuse_event s h
  play_event_now teams e spoiler_event s h = play_somewhere teams e spoiler_event s h
  play_event_now teams e spoiler_bad_event s h = play_somewhere teams e spoiler_bad_event s h
  play_event_now teams e hint_event s h = play_somewhere teams e hint_event s h
  play_event_now teams e credit_event s h = play_somewhere teams e credit_event s h
  play_event_now teams e avg_event s h = play_somewhere teams e avg_event s h
  play_event_now teams e no_event s h = play_somewhere teams e no_event s h

  pub play_event-IsTracked :
      (teams : List Text) (now : ℕ) (e : Event) (k : Kind) (s : Replay)
      → now ≤ e.time
      → IsTracked now s
      → IsTracked e.time (play_event rd teams e k s)
  play_event-IsTracked teams now e k s h tracked =
      play_event_now teams e k s
        (λ t l. Kept-later now e.time (currently s t l) (s.recs t l) h (tracked t l))
