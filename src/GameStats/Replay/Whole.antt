-- ===== src/GameStats/Replay/Whole.antt =====
-- What `Parse` has after the replay of any log, whatever the order of its rows.
use dzzzr_cli.Base.{
  ℕ, ◌≤◌, ◌≡◌, refl, sym, ◌∙◌, subst, Bool, true, false, Option, none, some, inl, inr, List, [],
  ◌∷◌, arith, keep, leb, Text, text_eq, eq_of-text_eq, Bool-cases, &&-eq-true,
}
use dzzzr_cli.GameStats.Log.{
  Event, KindedEvent, Reading, with_kinds, forward, insert_event, sort_events, last_issue, cut_at,
  is_played, teams_of,
}
use dzzzr_cli.GameStats.Records.{Record, Replay, new_replay}
use dzzzr_cli.GameStats.Replay.{play_event, replay, played, reconstruct, parse}
use dzzzr_cli.GameStats.Replay.Timeline.{Spans, is_at, is_open, Tracks, Kept, IsTracked, currently}
use dzzzr_cli.GameStats.Replay.Events.{play_event-IsTracked}

-- No event is earlier than the one before it, from `now` on.
unfoldable Rises : ℕ → List Event → Type 0
Rises now [] = Unit
Rises now (e ∷ es) = (now ≤ e.time) × Rises e.time es

unfoldable Ascends : ℕ → List KindedEvent → Type 0
Ascends now [] = Unit
Ascends now ((e, k) ∷ es) = (now ≤ e.time) × Ascends e.time es

insert_event-Rises :
    (now : ℕ) (e : Event) (es : List Event)
    → now ≤ e.time
    → Rises now es
    → Rises now (insert_event e es)
unfolding insert_event Rises
insert_event-Rises now e [] h k = (h, tt)
insert_event-Rises now e (f ∷ fs) h k = elim (Bool-cases (leb e.time f.time)) [
  | inl before ↦ rw before (h, (ground (arith, before), k.1))
  | inr after ↦ rw after (k.0, insert_event-Rises f.time e fs (ground (arith, after)) k.1)
]

sort_events-Rises : (es : List Event) → Rises 0 (sort_events es)
unfolding sort_events Rises
sort_events-Rises [] = tt
sort_events-Rises (e ∷ es) =
    insert_event-Rises 0 e (sort_events es) (omega arith) (sort_events-Rises es)

Ascends-earlier :
    (now now' : ℕ) (es : List KindedEvent) → now ≤ now' → Ascends now' es → Ascends now es
unfolding Ascends
Ascends-earlier now now' [] h k = tt
Ascends-earlier now now' ((e, kind) ∷ es) h k = (omega (arith, h, k.0), k.1)

keep-Ascends :
    (now : ℕ) (p : KindedEvent → Bool) (es : List KindedEvent)
    → Ascends now es
    → Ascends now (keep p es)
unfolding keep Ascends
keep-Ascends now p [] h = tt
keep-Ascends now p ((e, k) ∷ es) h = elim (Bool-cases (p (e, k))) [
  | inl c ↦ rw c (h.0, keep-Ascends e.time p es h.1)
  | inr c ↦ rw c (Ascends-earlier now e.time (keep p es) h.0 (keep-Ascends e.time p es h.1))
]

module _ {Float : Type 0} (rd : Reading Float) where
  with_kinds-Ascends : (now : ℕ) (es : List Event) → Rises now es → Ascends now (with_kinds rd es)
  unfolding with_kinds Rises Ascends
  with_kinds-Ascends now [] h = tt
  with_kinds-Ascends now (e ∷ es) h = (h.0, with_kinds-Ascends e.time es h.1)

  replay-IsTracked :
      (teams : List Text) (now : ℕ) (es : List KindedEvent) (s : Replay)
      → Ascends now es
      → IsTracked now s
      → (end : ℕ) × IsTracked end (replay rd teams es s)
  unfolding replay Ascends
  replay-IsTracked teams now [] s h tracked = (now, tracked)
  replay-IsTracked teams now ((e, k) ∷ es) s h tracked =
      replay-IsTracked teams e.time es (play_event rd teams e k s) h.1
        (play_event-IsTracked rd teams now e k s h.0 tracked)

  new_replay-IsTracked : IsTracked 0 new_replay
  unfolding Kept is_at text_eq
  new_replay-IsTracked team [] = refl
  new_replay-IsTracked team (c ∷ level) = refl

  reconstruct-IsTracked :
      (last : Option ℕ) (es : List KindedEvent) (s : Replay)
      → Ascends 0 es
      → reconstruct rd last es ≡ inr s
      → (end : ℕ) × IsTracked end s
  unfolding reconstruct played
  reconstruct-IsTracked none es s h e = cc e
  reconstruct-IsTracked (some last) es s h e =
      let same : replay rd (teams_of [] (played last es)) (played last es) new_replay ≡ s = cc e in
      subst (λ x. (end : ℕ) × IsTracked end x) same
        (replay-IsTracked (teams_of [] (played last es)) 0 (played last es) new_replay
          (keep-Ascends 0 (is_played (cut_at last none es)) es h) new_replay-IsTracked)

  parse-IsTracked :
      (input : List Event) (s : Replay) → parse rd input ≡ inr s → (end : ℕ) × IsTracked end s
  unfolding parse
  parse-IsTracked input s h =
      let rows = with_kinds rd (sort_events (forward input)) in
      reconstruct-IsTracked (last_issue none rows) rows s
        (with_kinds-Ascends 0 (sort_events (forward input)) (sort_events-Rises (forward input))) h

Spans-closed :
    (now : ℕ) (through : Bool) (issued closed : Option ℕ) (c : ℕ)
    → through ≡ false
    → closed ≡ some c
    → Spans now through issued closed
    → (t : ℕ) × ((issued ≡ some t) × (t ≤ c))
unfolding Spans
Spans-closed now true issued closed c n e h = cc n
Spans-closed now false issued none c n e h = cc e
Spans-closed now false none (some d) c n e h = absurd h
Spans-closed now false (some t) (some d) c n e h = (t, (refl, subst (λ x. t ≤ x) (cc e) h.0))

module _ {Float : Type 0} (rd : Reading Float) (input : List Event) (s : Replay)
    (done : parse rd input ≡ inr s) where
  tracks :
      (team level : Text) (r : Record)
      → s.recs team level ≡ some r
      → (now : ℕ) × Tracks now (currently s team level) r.through r.issued r.closed_at
  unfolding Kept
  tracks team level r h =
      let (now, all) = parse-IsTracked rd input s done in
      (now, subst (Kept now (currently s team level)) h (all team level))

  -- In the records of any log that has an issue, a level of a team that is closed, and is no through
  -- level, was issued, and not later than it was closed.
  pub parse_closed :
      (team level : Text) (r : Record) (c : ℕ)
      → s.recs team level ≡ some r
      → r.through ≡ false
      → r.closed_at ≡ some c
      → (t : ℕ) × ((r.issued ≡ some t) × (t ≤ c))
  unfolding Tracks
  parse_closed team level r c h n e =
      let (now, (spans, rest)) = tracks team level r h in
      Spans-closed now r.through r.issued r.closed_at c n e spans

  -- In the records of any log that has an issue, at most one level of a team is open: issued, not
  -- closed and no through level.
  pub parse_one_open :
      (team level level' : Text) (r r' : Record)
      → s.recs team level ≡ some r
      → s.recs team level' ≡ some r'
      → is_open r.through r.issued r.closed_at ≡ true
      → is_open r'.through r'.issued r'.closed_at ≡ true
      → level ≡ level'
  unfolding Tracks is_at
  parse_one_open team level level' r r' h h' open_one open_other =
      let (now, (spans, (there, here))) = tracks team level r h in
      let (now', (spans', (there', here'))) = tracks team level' r' h' in
      let (a, full) = &&-eq-true (text_eq (s.current team) level) _ (here open_one) in
      let (b, full') = &&-eq-true (text_eq (s.current team) level') _ (here' open_other) in
      sym (eq_of-text_eq (s.current team) level a) ∙ eq_of-text_eq (s.current team) level' b
