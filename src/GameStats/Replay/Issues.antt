-- ===== src/GameStats/Replay/Issues.antt =====
-- A level that is issued becomes the current one of its team, and the previous one is closed.
use dzzzr_cli.Base.{
  ℕ, ◌+◌, ◌≡◌, refl, sym, subst, Bool, true, false, not, ◌&&◌, Option, some, inl, inr, [], ◌∷◌,
  if◌then◌else◌, is_some, Text, text_eq, eq_of-text_eq, text_eq_refl, is_empty, Bool-cases,
  Option-cases, &&-eq-true,
}
use dzzzr_cli.GameStats.Records.{Record, Replay, or_new, record_of, put_record, or_now}
use dzzzr_cli.GameStats.Replay.{
  is_closed, issue_record, close_record, close_previous, set_current, count_order,
}
use dzzzr_cli.GameStats.Replay.Timeline.{
  is_at, Tracks, Kept, IsTracked, record-Tracks, issue-Tracks, close-Tracks, Follows, currently,
  but, put_record-Follows,
}

text_eq_no : (a b : Text) → text_eq a b ≡ false → text_eq b a ≡ false
text_eq_no a b h = elim (Bool-cases (text_eq b a)) [
  | inl e ↦ cc (h, text_eq_refl a, eq_of-text_eq b a e)
  | inr e ↦ e
]

is_at-is_at : (a : Text) → is_empty a ≡ false → is_at a a ≡ true
unfolding is_at
is_at-is_at a h = rw (text_eq_refl a, h) refl

is_at_no : (a b : Text) → text_eq a b ≡ false → is_at a b ≡ false
unfolding is_at
is_at_no a b h = rw h refl

is_at_empty : (a b : Text) → is_empty a ≡ true → is_at a b ≡ false
unfolding is_at text_eq
is_at_empty [] [] h = refl
is_at_empty [] (c ∷ b) h = refl
is_at_empty (c ∷ a) b h = cc h

-- Which level counts as current, once the previous one is closed and the new one is issued.
module _ (team level : Text) (cur : Text → Text) (full : is_empty level ≡ false) where
  moved :
      (t l : Text)
      → text_eq (cur team) level ≡ false
      → but team (cur team) false (but team level true (λ t' l'. is_at (cur t') l')) t l
        ≡ is_at (if text_eq t team then level else cur t) l
  unfolding but
  moved t l apart = elim (Bool-cases (text_eq t team)) [
    | inr away ↦ rw away refl
    | inl same ↦ elim (Bool-cases (text_eq l (cur team))) [
      | inl at_prev ↦
          rw
            (
              same,
              at_prev,
              eq_of-text_eq l (cur team) at_prev,
              is_at_no level (cur team) (text_eq_no (cur team) level apart),
            )
            refl
      | inr off ↦ elim (Bool-cases (text_eq l level)) [
        | inl at_level ↦
            rw (same, off, at_level, eq_of-text_eq l level at_level, is_at-is_at level full) refl
        | inr other ↦
            rw
              (
                same,
                off,
                other,
                eq_of-text_eq t team same,
                is_at_no (cur team) l (text_eq_no l (cur team) off),
                is_at_no level l (text_eq_no l level other),
              )
              refl
      ]
    ]
  ]

  none_but :
      (l : Text)
      → (not (is_empty (cur team)) && not (text_eq (cur team) level)) ≡ false
      → text_eq l level ≡ false
      → is_at (cur team) l ≡ false
  none_but l h other = elim (Bool-cases (is_empty (cur team))) [
    | inl none_yet ↦ is_at_empty (cur team) l none_yet
    | inr some_prev ↦ elim (Bool-cases (text_eq (cur team) level)) [
      | inl same ↦
          rw (eq_of-text_eq (cur team) level same) (is_at_no level l (text_eq_no l level other))
      | inr apart ↦ cc (rw (some_prev, apart) at h)
    ]
  ]

  stayed :
      (t l : Text)
      → (not (is_empty (cur team)) && not (text_eq (cur team) level)) ≡ false
      → but team level true (λ t' l'. is_at (cur t') l') t l
        ≡ is_at (if text_eq t team then level else cur t) l
  unfolding but
  stayed t l h = elim (Bool-cases (text_eq t team)) [
    | inr away ↦ rw away refl
    | inl same ↦ elim (Bool-cases (text_eq l level)) [
      | inl at_level ↦
          rw (same, at_level, eq_of-text_eq l level at_level, is_at-is_at level full) refl
      | inr other ↦
          rw
            (
              same,
              other,
              eq_of-text_eq t team same,
              none_but l h other,
              is_at_no level l (text_eq_no l level other),
            )
            refl
    ]
  ]

count_order_recs : (team : Text) (r : Record) (s : Replay) → (count_order team r s).recs ≡ s.recs
unfolding count_order
count_order_recs team r s = elim (Bool-cases (is_some r.issued)) [
  | inl e ↦ simp e refl
  | inr e ↦ simp e refl
]

count_order_current :
    (team : Text) (r : Record) (s : Replay) → (count_order team r s).current ≡ s.current
unfolding count_order
count_order_current team r s = elim (Bool-cases (is_some r.issued)) [
  | inl e ↦ simp e refl
  | inr e ↦ simp e refl
]

issue_record-Tracks :
    (now order : ℕ) (here : Bool) (r : Record)
    → is_closed r ≡ false
    → Tracks now here r.through r.issued r.closed_at
    → Kept now true (some (issue_record now order r))
unfolding Kept issue_record is_closed or_now
issue_record-Tracks now order here r h k = elim (Option-cases r.issued) [
  | inl new ↦ simp new (
      subst (λ i. Tracks now true r.through (some (or_now i now)) r.closed_at) new
        (issue-Tracks now here r.through r.issued r.closed_at h k))
  | inr (t, old) ↦ simp old (
      subst (λ i. Tracks now true r.through (some (or_now i now)) r.closed_at) old
        (issue-Tracks now here r.through r.issued r.closed_at h k))
]

-- A state in which the level is the team's current one for all but `current` itself.
unfoldable pub issued_state : ℕ → Text → Text → Record → Replay → Replay
issued_state now team level r s =
    put_record team level (issue_record now (s.orders team + 1) r) (count_order team r s)

pub issued_state-Follows :
    (now : ℕ) (team level : Text) (r : Record) (s : Replay)
    → is_closed r ≡ false
    → Tracks now (currently s team level) r.through r.issued r.closed_at
    → IsTracked now s
    → Follows now (but team level true (currently s)) (issued_state now team level r s)
unfolding issued_state
issued_state-Follows now team level r s h k tracked =
    put_record-Follows now (currently s) (count_order team r s) team level true
      (issue_record now (s.orders team + 1) r)
      (subst (λ f. (t l : Text) → Kept now (currently s t l) (f t l))
        (sym (count_order_recs team r s)) tracked)
      (issue_record-Tracks now (s.orders team + 1) (currently s team level) r h k)

pub issued_state_current :
    (now : ℕ) (team level : Text) (r : Record) (s : Replay)
    → (issued_state now team level r s).current ≡ s.current
unfolding issued_state put_record
issued_state_current now team level r s = count_order_current team r s

close_record-Tracks :
    (now : ℕ) (r : Option Record)
    → Kept now true r
    → Kept now false (some (close_record now (or_new r)))
unfolding Kept close_record
close_record-Tracks now r h =
    close-Tracks now (or_new r).through (or_new r).issued (or_new r).closed_at
      (record-Tracks now true r h)

-- Of a state that follows, closing the previous level and naming the new one makes one that tracks.
pub close_IsTracked :
    (now : ℕ) (team level : Text) (s : Replay)
    → is_empty level ≡ false
    → Follows now (but team level true (currently s)) s
    → IsTracked now (set_current team level (close_previous now team level s))
unfolding set_current close_previous record_of but
close_IsTracked now team level s full f t l =
    elim (Bool-cases (not (is_empty (s.current team)) && not (text_eq (s.current team) level))) [
      | inl c ↦
          let (there, apart) =
            &&-eq-true (not (is_empty (s.current team))) (not (text_eq (s.current team) level)) c in
          simp c (
            subst
              (λ b. Kept now b (
                (put_record team (s.current team)
                    (close_record now (or_new (s.recs team (s.current team)))) s).recs
                  t l))
              (moved team level s.current full t l (not_true apart))
              (put_record-Follows now (but team level true (currently s)) s team (s.current team)
                false (close_record now (or_new (s.recs team (s.current team)))) f
                (close_record-Tracks now (s.recs team (s.current team)) (
                  subst (λ b. Kept now b (s.recs team (s.current team)))
                    (previous_here (not_true there) (not_true apart)) (f team (s.current team))))
                t l))
      | inr c ↦
          simp c
            (subst (λ b. Kept now b (s.recs t l)) (stayed team level s.current full t l c) (f t l))
    ]
  where
    not_true : {b : Bool} → not b ≡ true → b ≡ false
    not_true {b = true} h = cc h
    not_true {b = false} h = refl

    previous_here :
        is_empty (s.current team) ≡ false
        → text_eq (s.current team) level ≡ false
        → but team level true (currently s) team (s.current team) ≡ true
    previous_here there apart = rw (text_eq_refl team, apart) (is_at-is_at (s.current team) there)
