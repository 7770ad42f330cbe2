-- ===== src/GameStats/Eval.antt =====
-- gamestats/compute.go: `evalLevel` and `bonusCodes`, over an abstract number. A nil
-- pointer that the code would read is none.
pub mod Ends
use dzzzr_cli.Base.{
  ℕ, zero, suc, ◌+◌, ◌-◌, ◌≡◌, refl, Bool, true, false, not, ◌&&◌, ◌||◌, Option, none, some, List,
  [], ◌∷◌, ltb, leb, ◌==◌, if◌then◌else◌, is_some, length, Text, codes, text_eq,
}
use dzzzr_cli.GameStats.Records.{Code, Codes, Override, Record}
use dzzzr_cli.GameStats.Replay.{larger}
use dzzzr_cli.GameStats.Finish.{Ending, timed_out}

-- `milliseconds` of a number of seconds, rounded and not negative; `seconds_between` is what lies
-- between two times.
pub record Numbers (Num : Type 0) : Type 0 where
  pub zero_num : Num
  pub of_nat : ℕ → Num
  pub plus : Num → Num → Num
  pub times : Num → Num → Num
  pub less : Num → Num → Bool
  pub milliseconds : Num → ℕ
  pub seconds_between : ℕ → ℕ → Num

-- The rules of a level that are read here.
pub record Rules (Num : Type 0) : Type 0 where
  pub dur : Num
  pub h1 : Num
  pub h2 : Num
  pub add : Num
  pub done : Num
  pub per_bonus : Num
  pub cap : Num
  pub code_vals : Text → Option Num

pub record Resolved : Type 0 where
  pub stop_at : ℕ
  pub none_mode : Text
  pub stop_mode : Text
  pub rejected_mode : Text

-- `How`; an override's kind is average or credit.
pub data How : Type 0 where
  by_none : How
  by_override : Bool → How
  by_refuse : How
  by_timeout : How
  by_code : How
  by_stop : How

pub data Standing : Type 0 where
  not_begun : Standing
  failed_level : Standing
  stopped_level : Standing
  hints_used : ℕ → Standing

-- How a level ended, and when; whether by its last code, and whether no row says so.
pub record End : Type 0 where
  pub how : How
  pub at : Option ℕ
  pub last_done : Bool
  pub implicit : Bool

pub record Cell (Num : Type 0) : Type 0 where
  pub issued : Option ℕ
  pub virtual_issue : Bool
  pub expires_at : Option ℕ
  pub spoiler_elapsed : Option Num
  pub end : End
  pub rejected_fix : Option (ℕ × ℕ)
  pub standing : Standing
  pub sec : Option Num
  pub count_sec : Num
  pub add_sec : Num
  pub bonus_sec : Num
  pub shown : Bool

abbrev pub ends : How → Option ℕ → End
ends how at = record { how = how; at = at; last_done = false; implicit = false }

unfoldable pub end_expired : Option ℕ → ℕ → ℕ → End
end_expired (some t) expires stop_at = ends by_timeout (some expires)
end_expired none expires stop_at =
    if leb expires stop_at
    then record { how = by_timeout; at = some expires; last_done = false; implicit = true }
    else ends by_stop none

unfoldable pub end_open : Option ℕ → Option ℕ → ℕ → ℕ → End
unfolding end_expired
end_open none timeout expires stop_at = end_expired timeout expires stop_at
end_open (some d) timeout expires stop_at =
    if leb d expires
    then record { how = by_code; at = some d; last_done = true; implicit = false }
    else end_expired timeout expires stop_at

unfoldable pub end_closed : Record → Option ℕ → Option ℕ → ℕ → ℕ → End
unfolding end_open timed_out
end_closed r done_at none expires stop_at = end_open done_at r.timeout_at expires stop_at
end_closed r done_at (some c) expires stop_at =
    if timed_out r.timeout_at c then ends by_timeout (some expires) else ends by_code (some c)

unfoldable pub end_refused : Record → Option ℕ → Option ℕ → ℕ → ℕ → End
unfolding end_closed
end_refused r done_at (some t) expires stop_at = ends by_refuse (some t)
end_refused r done_at none expires stop_at = end_closed r done_at r.closed_at expires stop_at

unfoldable pub end_of : Record → Option ℕ → Option Override → ℕ → ℕ → ℕ → End
unfolding end_refused
end_of r done_at none issued expires stop_at = end_refused r done_at r.refused_at expires stop_at
end_of r done_at (some ov) issued expires stop_at =
    if leb issued ov.at
    then ends (by_override ov.is_average) (some ov.at)
    else end_refused r done_at r.refused_at expires stop_at

-- A code after the stop does not count.
unfoldable pub late_code : How → Option ℕ → ℕ → Option Bool
late_code by_code none stop_at = none
late_code by_code (some t) stop_at = some (ltb stop_at t)
late_code how at stop_at = some false

unfoldable pub stop_late : Option Bool → End → Option End
stop_late none e = none
stop_late (some late) e = some (if late then record e { how = by_stop; at = none } else e)

unfoldable pub is_near : ℕ → ℕ → Bool
is_near a b = leb a (b + 2000) && leb b (a + 2000)

unfoldable pub is_fixed : Resolved → ℕ → ℕ → ℕ → Option ℕ → Bool
unfolding is_near
is_fixed r issued end rejected none = false
is_fixed r issued end rejected (some spoiler) =
    text_eq r.rejected_mode (codes "first")
    && (is_near end spoiler && (leb issued rejected && ltb rejected end))

-- A credit at the spoiler counts from the first code that was refused. Its end is the override's.
unfoldable pub rejected_fix_of :
    Resolved → Record → Option Code → ℕ → How → Option ℕ → Option (ℕ × ℕ)
unfolding is_fixed
rejected_fix_of r rec (some c) issued (by_override false) (some end) =
    if is_fixed r issued end c.at rec.spoiler_at then some (end, c.at) else none
rejected_fix_of r rec rejected issued how end = none

unfoldable pub fixed_end : Option (ℕ × ℕ) → Option ℕ → Option ℕ
fixed_end none end = end
fixed_end (some (from_time, to_time)) end = some to_time

module _ {Num : Type 0} (n : Numbers Num) where
  open n use {zero_num, of_nat, plus, times, less, milliseconds, seconds_between}

  abbrev pub minutes : Num → Num
  minutes m = times m (of_nat 60)

  abbrev pub largest : Num → Num → Num
  largest a b = if less a b then b else a

  abbrev pub least : Num → Num → Num
  least a b = if less b a then b else a

  unfoldable pub code_value_of : Rules Num → Option Num → Num
  code_value_of l none = l.per_bonus
  code_value_of l (some v) = v

  unfoldable pub bonus_codes : Rules Num → Num → Codes → Num
  unfolding code_value_of
  bonus_codes l sum [] = sum
  bonus_codes l sum ((key, c) ∷ cs) =
      bonus_codes l (plus sum (code_value_of l (l.code_vals key))) cs

  abbrev pub capped : Rules Num → Num → Num
  capped l b = if less zero_num l.cap then least b l.cap else b

  unfoldable pub none_cell : Rules Num → Resolved → Option ℕ → Bool → Cell Num
  none_cell l r issued virtual =
      let limited = text_eq r.none_mode (codes "limit") in
      record {
        issued = issued;
        virtual_issue = virtual;
        expires_at = none;
        spoiler_elapsed = none;
        end = ends by_none none;
        rejected_fix = none;
        standing = not_begun;
        sec = if limited then some (minutes l.dur) else none;
        count_sec = if limited then minutes l.dur else zero_num;
        add_sec = if limited || text_eq r.none_mode (codes "add") then minutes l.add else zero_num;
        bonus_sec = zero_num;
        shown = limited;
      }

  -- The hints that the time of a solution stands for.
  unfoldable pub hints_of : Rules Num → Num → ℕ
  hints_of l sec = if less sec (minutes l.h1) then 0 else if less sec (minutes l.h2) then 1 else 2

  unfoldable pub at_most_two : ℕ → ℕ
  at_most_two h = if ltb 2 h then 2 else h

  unfoldable pub stop_sec : Rules Num → Resolved → ℕ → Num
  stop_sec l r issued =
      if text_eq r.stop_mode (codes "limit")
      then minutes l.dur
      else least (largest zero_num (seconds_between r.stop_at issued)) (minutes l.dur)

  -- The standing, its seconds and what is added.
  abbrev pub Scored : Type 0
  Scored = Standing × Num × Num

  unfoldable pub solved : Rules Num → Record → ℕ → Option ℕ → Option Scored
  unfolding hints_of at_most_two larger
  solved l rec issued none = none
  solved l rec issued (some end) =
      let sec = seconds_between end issued in
      some (hints_used (larger (hints_of l sec) (at_most_two rec.hint_req)), sec, zero_num)

  unfoldable pub score : Rules Num → Resolved → Record → ℕ → How → Option ℕ → Option Scored
  unfolding solved stop_sec
  score l r rec issued by_timeout end = some (failed_level, minutes l.dur, minutes l.add)
  score l r rec issued by_refuse end = some (failed_level, minutes l.dur, minutes l.add)
  score l r rec issued by_stop end = some (stopped_level, stop_sec l r issued, minutes l.add)
  score l r rec issued how end = solved l rec issued end

  unfoldable pub bonus_of : Rules Num → Standing → Num → Num
  bonus_of l (hints_used h) b = plus b l.done
  bonus_of l s b = b

  unfoldable pub elapsed : Option ℕ → ℕ → Option Num
  elapsed none issued = none
  elapsed (some t) issued = some (seconds_between t issued)

  unfoldable pub cell_of :
      Rules Num → Record → ℕ → Bool → ℕ → End → Option (ℕ × ℕ) → Option Scored → Option (Cell Num)
  unfolding bonus_codes bonus_of elapsed
  cell_of l rec issued virtual expires e fix none = none
  cell_of l rec issued virtual expires e fix (some (standing, sec, add)) = some (record {
    issued = some issued;
    virtual_issue = virtual;
    expires_at = some expires;
    spoiler_elapsed = elapsed rec.spoiler_at issued;
    end = e;
    rejected_fix = fix;
    standing = standing;
    sec = some sec;
    count_sec = sec;
    add_sec = add;
    bonus_sec =
        minutes
          (largest zero_num (capped l (bonus_of l standing (bonus_codes l zero_num rec.bonus))));
    shown = true;
  })

  unfoldable pub eval_end :
      Rules Num → Resolved → Record → Option Code → ℕ → Bool → ℕ → Option End → Option (Cell Num)
  unfolding rejected_fix_of fixed_end score cell_of
  eval_end l r rec rejected issued virtual expires none = none
  eval_end l r rec rejected issued virtual expires (some e) =
      let fix = rejected_fix_of r rec rejected issued e.how e.at in
      let e' = record e { at = fixed_end fix e.at } in
      cell_of l rec issued virtual expires e' fix (score l r rec issued e.how e'.at)

  unfoldable pub eval_issued : Rules Num → Resolved → Record → Ending → ℕ → Bool → Option (Cell Num)
  unfolding end_of late_code stop_late eval_end
  eval_issued l r rec (done_at, rejected) issued virtual =
      let expires = issued + milliseconds (minutes l.dur) in
      let e = end_of rec done_at rec.override issued expires r.stop_at in
      eval_end l r rec rejected issued virtual expires
        (stop_late (late_code e.how e.at r.stop_at) e)

  -- A level that was credited after the stop counts as issued at the stop.
  unfoldable pub issue_of : Option ℕ → Option Override → ℕ → Option ℕ × Bool
  issue_of (some t) ov stop_at = (some t, false)
  issue_of none none stop_at = (none, false)
  issue_of none (some ov) stop_at =
      if leb stop_at ov.at then (some stop_at, true) else (none, false)

  unfoldable pub eval_from :
      Rules Num → Resolved → Record → Ending → Option ℕ × Bool → Option (Cell Num)
  unfolding none_cell eval_issued
  eval_from l r rec ending (none, virtual) = some (none_cell l r none virtual)
  eval_from l r rec ending (some t, virtual) =
      if ltb r.stop_at t
      then some (none_cell l r (some t) virtual)
      else eval_issued l r rec ending t virtual

  -- `evalLevel`
  unfoldable pub eval_level : Rules Num → Resolved → Option (Record × Ending) → Option (Cell Num)
  unfolding none_cell eval_from issue_of
  eval_level l r none = some (none_cell l r none false)
  eval_level l r (some (rec, ending)) =
      eval_from l r rec ending (issue_of rec.issued rec.override r.stop_at)
