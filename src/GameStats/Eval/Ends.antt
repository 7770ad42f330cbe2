-- ===== src/GameStats/Eval/Ends.antt =====
-- How a level that is evaluated can have ended.
use dzzzr_cli.Base.{
  ℕ, ◌+◌, ◌≤◌, ◌≡◌, refl, Bool, true, false, Option, none, some, inl, inr, ◌⊎◌, arith, ltb, leb,
  is_some, Bool-cases,
}
use dzzzr_cli.GameStats.Records.{Code, Override, Record}
use dzzzr_cli.GameStats.Replay.{larger}
use dzzzr_cli.GameStats.Finish.{Ending, timed_out}
use dzzzr_cli.GameStats.Eval.{
  Numbers, Rules, Resolved, How, by_none, by_override, by_refuse, by_timeout, by_code, by_stop,
  Standing, not_begun, failed_level, stopped_level, hints_used, End, Cell, end_expired, end_open,
  end_closed, end_refused, end_of, late_code, stop_late, is_fixed, rejected_fix_of, fixed_end,
  none_cell, hints_of, at_most_two, solved, score, Scored, cell_of, eval_end, eval_issued, issue_of,
  eval_from, eval_level,
}

-- A solution has an end, and a code is not after the stop.
unfoldable pub Ended : ℕ → How → Option ℕ → Type 0
Ended stop_at by_none at = ⊥
Ended stop_at (by_override b) none = ⊥
Ended stop_at (by_override b) (some t) = Unit
Ended stop_at by_code none = ⊥
Ended stop_at by_code (some t) = t ≤ stop_at
Ended stop_at by_refuse at = Unit
Ended stop_at by_timeout at = Unit
Ended stop_at by_stop at = Unit

-- The same before codes after the stop are left out.
unfoldable Named : How → Option ℕ → Type 0
Named by_none at = ⊥
Named (by_override b) at = is_some at ≡ true
Named by_code at = is_some at ≡ true
Named by_refuse at = Unit
Named by_timeout at = Unit
Named by_stop at = Unit

end_expired-Named :
    (timeout : Option ℕ) (expires stop_at : ℕ)
    → Named (end_expired timeout expires stop_at).how (end_expired timeout expires stop_at).at
unfolding Named end_expired
end_expired-Named (some t) expires stop_at = tt
end_expired-Named none expires stop_at = elim (Bool-cases (leb expires stop_at)) [
  | inl c ↦ rw c tt
  | inr c ↦ rw c tt
]

end_open-Named :
    (done_time timeout : Option ℕ) (expires stop_at : ℕ)
    → Named
        (end_open done_time timeout expires stop_at).how
        (end_open done_time timeout expires stop_at).at
unfolding Named end_open
end_open-Named none timeout expires stop_at = end_expired-Named timeout expires stop_at
end_open-Named (some d) timeout expires stop_at = elim (Bool-cases (leb d expires)) [
  | inl c ↦ rw c refl
  | inr c ↦ rw c (end_expired-Named timeout expires stop_at)
]

end_closed-Named :
    (r : Record) (done_time closed : Option ℕ) (expires stop_at : ℕ)
    → Named
        (end_closed r done_time closed expires stop_at).how
        (end_closed r done_time closed expires stop_at).at
unfolding Named end_closed
end_closed-Named r done_time none expires stop_at =
    end_open-Named done_time r.timeout_at expires stop_at
end_closed-Named r done_time (some c) expires stop_at =
    elim (Bool-cases (timed_out r.timeout_at c)) [
      | inl late ↦ rw late tt
      | inr intime ↦ rw intime refl
    ]

end_refused-Named :
    (r : Record) (done_time refused : Option ℕ) (expires stop_at : ℕ)
    → Named
        (end_refused r done_time refused expires stop_at).how
        (end_refused r done_time refused expires stop_at).at
unfolding Named end_refused
end_refused-Named r done_time none expires stop_at =
    end_closed-Named r done_time r.closed_at expires stop_at
end_refused-Named r done_time (some t) expires stop_at = tt

end_of-Named :
    (r : Record) (done_time : Option ℕ) (ov : Option Override) (issued expires stop_at : ℕ)
    → Named
        (end_of r done_time ov issued expires stop_at).how
        (end_of r done_time ov issued expires stop_at).at
unfolding Named end_of
end_of-Named r done_time none issued expires stop_at =
    end_refused-Named r done_time r.refused_at expires stop_at
end_of-Named r done_time (some ov) issued expires stop_at = elim (Bool-cases (leb issued ov.at)) [
  | inl c ↦ rw c refl
  | inr c ↦ rw c (end_refused-Named r done_time r.refused_at expires stop_at)
]

-- What is left where codes after the stop are.
stop_late-Ended :
    (stop_at : ℕ) (how : How) (at : Option ℕ) (last implicit : Bool)
    → Named how at
    → (e : End) × ((stop_late
            (late_code how at stop_at)
            (record { how = how; at = at; last_done = last; implicit = implicit })
          ≡ some e)
        × Ended stop_at e.how e.at)
unfolding Named Ended late_code stop_late
stop_late-Ended stop_at by_none at last implicit h = absurd h
stop_late-Ended stop_at (by_override b) none last implicit h = cc h
stop_late-Ended stop_at (by_override b) (some t) last implicit h = (_, (refl, tt))
stop_late-Ended stop_at by_refuse at last implicit h = (_, (refl, tt))
stop_late-Ended stop_at by_timeout at last implicit h = (_, (refl, tt))
stop_late-Ended stop_at by_stop at last implicit h = (_, (refl, tt))
stop_late-Ended stop_at by_code none last implicit h = cc h
stop_late-Ended stop_at by_code (some t) last implicit h = elim (Bool-cases (ltb stop_at t)) [
  | inl c ↦
      rw c (record { how = by_stop; at = none; last_done = last; implicit = implicit }, (refl, tt))
  | inr c ↦ rw c (
    record { how = by_code; at = some t; last_done = last; implicit = implicit },
    (refl, ground (arith, c)),
  )
]

fixed_end-Ended :
    (stop_at : ℕ) (r : Resolved) (rec : Record) (rejected : Option Code) (issued : ℕ) (how : How)
    (at : Option ℕ)
    → Ended stop_at how at
    → Ended stop_at how (fixed_end (rejected_fix_of r rec rejected issued how at) at)
unfolding Ended fixed_end rejected_fix_of
fixed_end-Ended stop_at r rec none issued how at h = h
fixed_end-Ended stop_at r rec (some c) issued by_none at h = h
fixed_end-Ended stop_at r rec (some c) issued by_refuse at h = h
fixed_end-Ended stop_at r rec (some c) issued by_timeout at h = h
fixed_end-Ended stop_at r rec (some c) issued by_code at h = h
fixed_end-Ended stop_at r rec (some c) issued by_stop at h = h
fixed_end-Ended stop_at r rec (some c) issued (by_override true) at h = h
fixed_end-Ended stop_at r rec (some c) issued (by_override false) none h = h
fixed_end-Ended stop_at r rec (some c) issued (by_override false) (some t) h =
    elim (Bool-cases (is_fixed r issued t c.at rec.spoiler_at)) [
      | inl fix ↦ rw fix tt
      | inr as_is ↦ rw as_is tt
    ]

-- At most two hints are counted.
unfoldable pub IsRated : Standing → Type 0
IsRated (hints_used h) = h ≤ 2
IsRated not_begun = Unit
IsRated failed_level = Unit
IsRated stopped_level = Unit

-- What a cell of a level that was issued may say.
unfoldable pub IsFair : {Num : Type 0} → ℕ → Cell Num → Type 0
unfolding Ended IsRated
IsFair stop_at c =
    (c.standing ≡ not_begun) ⊎ (Ended stop_at c.end.how c.end.at × IsRated c.standing)

module _ {Num : Type 0} (n : Numbers Num) (l : Rules Num) (r : Resolved) where
  hints_of_le : (sec : Num) → hints_of n l sec ≤ 2
  unfolding hints_of
  hints_of_le sec = elim (Bool-cases (n.less sec (n.times l.h1 (n.of_nat 60)))) [
    | inl a ↦ rw a (omega arith)
    | inr a ↦ elim (Bool-cases (n.less sec (n.times l.h2 (n.of_nat 60)))) [
      | inl b ↦ rw (a, b) (omega arith)
      | inr b ↦ rw (a, b) (omega arith)
    ]
  ]

  larger_le : (a b : ℕ) → a ≤ 2 → larger a (at_most_two n b) ≤ 2
  unfolding larger at_most_two
  larger_le a b h = ground (arith, h)

  -- There is a score wherever the end is named.
  score-some :
      (rec : Record) (issued : ℕ) (how : How) (at : Option ℕ)
      → Ended r.stop_at how at
      → (x : Scored n) × ((score n l r rec issued how at ≡ some x) × IsRated x.0)
  unfolding Ended score solved IsRated
  score-some rec issued by_none at h = absurd h
  score-some rec issued by_timeout at h = (_, (refl, tt))
  score-some rec issued by_refuse at h = (_, (refl, tt))
  score-some rec issued by_stop at h = (_, (refl, tt))
  score-some rec issued by_code none h = absurd h
  score-some rec issued by_code (some t) h = (
    _,
    (
      refl,
      larger_le (hints_of n l (n.seconds_between t issued)) rec.hint_req
          (hints_of_le (n.seconds_between t issued)),
    ),
  )
  score-some rec issued (by_override b) none h = absurd h
  score-some rec issued (by_override b) (some t) h = (
    _,
    (
      refl,
      larger_le (hints_of n l (n.seconds_between t issued)) rec.hint_req
          (hints_of_le (n.seconds_between t issued)),
    ),
  )

  eval_end-some :
      (rec : Record) (rejected : Option Code) (issued : ℕ) (virtual : Bool) (expires : ℕ)
      (late : Option End) (e : End)
      → late ≡ some e
      → Ended r.stop_at e.how e.at
      → (c : Cell Num) × ((eval_end n l r rec rejected issued virtual expires late ≡ some c)
          × IsFair r.stop_at c)
  unfolding eval_end cell_of IsFair
  eval_end-some rec rejected issued virtual expires late e h k =
      let fix = rejected_fix_of r rec rejected issued e.how e.at in
      let fixed = fixed_end-Ended r.stop_at r rec rejected issued e.how e.at k in
      let (x, (scored, rated)) = score-some rec issued e.how (fixed_end fix e.at) fixed in
      rw (h, eval_end, scored) (_, (refl, inr (fixed, rated)))

  eval_issued-some :
      (rec : Record) (ending : Ending) (issued : ℕ) (virtual : Bool)
      → (c : Cell Num) × ((eval_issued n l r rec ending issued virtual ≡ some c)
          × IsFair r.stop_at c)
  unfolding eval_issued
  eval_issued-some rec (done_time, rejected) issued virtual =
      let expires = issued + n.milliseconds (n.times l.dur (n.of_nat 60)) in
      let e = end_of rec done_time rec.override issued expires r.stop_at in
      let (e', (late, ended)) =
        stop_late-Ended r.stop_at e.how e.at e.last_done e.implicit
          (end_of-Named rec done_time rec.override issued expires r.stop_at) in
      eval_end-some rec rejected issued virtual expires _ e' late ended

  eval_from-some :
      (rec : Record) (ending : Ending) (from_issue : Option ℕ × Bool)
      → (c : Cell Num) × ((eval_from n l r rec ending from_issue ≡ some c) × IsFair r.stop_at c)
  unfolding eval_from none_cell IsFair
  eval_from-some rec ending (none, virtual) = (_, (refl, inl refl))
  eval_from-some rec ending (some t, virtual) = elim (Bool-cases (ltb r.stop_at t)) [
    | inl late ↦ rw late (none_cell n l r (some t) virtual, (refl, inl refl))
    | inr in_time ↦ rw in_time (eval_issued-some rec ending t virtual)
  ]

  -- A level is evaluated for any record: no nil pointer is read. If it was begun, a solution by a code
  -- or an override has an end, a code's is not after the stop, and at most two hints are counted.
  pub eval_level-IsFair :
      (found : Option (Record × Ending))
      → (c : Cell Num) × ((eval_level n l r found ≡ some c) × IsFair r.stop_at c)
  unfolding eval_level none_cell IsFair
  eval_level-IsFair none = (_, (refl, inl refl))
  eval_level-IsFair (some (rec, ending)) =
      eval_from-some rec ending (issue_of n rec.issued rec.override r.stop_at)
