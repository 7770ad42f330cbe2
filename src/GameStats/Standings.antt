-- ===== src/GameStats/Standings.antt =====
-- gamestats/compute.go: `evalThrough`, and the totals, the order and the places of `Compute`. The
-- cells of a row are given by `eval_level`.
pub mod Places
pub mod Fair
mod Tests
use dzzzr_cli.Base.{
  ℕ, zero, suc, ◌+◌, ◌≡◌, refl, Bool, true, false, not, ◌&&◌, ◌||◌, Option, none, some, List, [],
  ◌∷◌, map, ltb, leb, ◌==◌, if◌then◌else◌, length, Text, codes, text_eq,
}
use dzzzr_cli.GameStats.Records.{Record}
use dzzzr_cli.GameStats.Eval.{Numbers, Rules, Cell, minutes, largest, capped, bonus_codes}

-- `half_up` is `math.Floor(x + 0.5)`, `round_num` is `math.Round`, and `collates` says that the
-- Russian collation puts a name before another.
pub record Arithmetic (Num : Type 0) : Type 0 where
  pub minus : Num → Num → Num
  pub half_up : Num → Num
  pub round_num : Num → Num
  pub collates : Text → Text → Bool

-- What a level that runs through the game is worth.
pub record ThroughRules (Num : Type 0) : Type 0 where
  pub rules : Rules Num
  pub req_through : ℕ
  pub per_code : Num
  pub hint_pen : Num

pub record ThroughCell (Num : Type 0) : Type 0 where
  pub is_shown : Bool
  pub code_count : ℕ
  pub bonus_count : ℕ
  pub is_complete : Bool
  pub through_sec : Num

-- A cell of a row: of a level through the game, of a main level, or of another.
pub data RowCell (Num : Type 0) : Type 0 where
  through_cell : ThroughCell Num → RowCell Num
  main_cell : Cell Num → RowCell Num
  other_cell : Cell Num → RowCell Num

pub record Row (Num : Type 0) : Type 0 where
  pub team : Text
  pub clean : Num
  pub added : Num
  pub through : Num
  pub level_bonus : Num
  pub prequel : Num
  pub penalty : Num
  pub manual_bonus : Num

-- A stable sort: of two that are level the one that came first stays first.
unfoldable pub insert_by : {A : Type 0} → (A → A → Bool) → A → List A → List A
insert_by ahead r [] = r ∷ []
insert_by ahead r (q ∷ qs) =
    let rest = insert_by ahead r qs in if ahead q r then q ∷ rest else r ∷ q ∷ qs

unfoldable pub sort_by : {A : Type 0} → (A → A → Bool) → List A → List A
unfolding insert_by
sort_by ahead [] = []
sort_by ahead (r ∷ rs) = insert_by ahead r (sort_by ahead rs)

module _ {Num : Type 0} (n : Numbers Num) (a : Arithmetic Num) where
  open n use {zero_num, of_nat, plus, times, less}
  open a use {minus, half_up, round_num, collates}

  unfoldable pub through_value : ThroughRules Num → Record → Bool → Num
  unfolding bonus_codes
  through_value l rec complete =
      let coded =
        minus
          (plus (times (of_nat (length rec.codes_found)) l.per_code)
            (bonus_codes n l.rules zero_num rec.bonus))
          (times (of_nat rec.hint_req) l.hint_pen) in
      largest n zero_num (capped n l.rules (if complete then plus coded l.rules.done else coded))

  unfoldable pub eval_issued_through : ThroughRules Num → Record → Option ℕ → ThroughCell Num
  unfolding through_value
  eval_issued_through l rec none = record {
    is_shown = false;
    code_count = 0;
    bonus_count = 0;
    is_complete = false;
    through_sec = zero_num;
  }
  eval_issued_through l rec (some issued) =
      let complete = ltb 0 l.req_through && leb l.req_through (length rec.codes_found) in
      record {
        is_shown = true;
        code_count = length rec.codes_found;
        bonus_count = length rec.bonus;
        is_complete = complete;
        through_sec = minutes n (through_value l rec complete);
      }

  unfoldable pub eval_through : ThroughRules Num → Option Record → ThroughCell Num
  unfolding eval_issued_through
  eval_through l none = record {
    is_shown = false;
    code_count = 0;
    bonus_count = 0;
    is_complete = false;
    through_sec = zero_num;
  }
  eval_through l (some rec) = eval_issued_through l rec rec.issued

  unfoldable pub add_cell : RowCell Num → Row Num → Row Num
  add_cell (through_cell c) r = record r { through = plus r.through c.through_sec }
  add_cell (main_cell c) r = record r {
    level_bonus = plus r.level_bonus c.bonus_sec;
    clean = plus r.clean c.count_sec;
    added = plus r.added c.add_sec;
  }
  add_cell (other_cell c) r = record r { level_bonus = plus r.level_bonus c.bonus_sec }

  -- The loop over the levels that are not hidden.
  unfoldable pub add_cells : List (RowCell Num) → Row Num → Row Num
  unfolding add_cell
  add_cells [] r = r
  add_cells (c ∷ cs) r = add_cells cs (add_cell c r)

  unfoldable pub bonus_other : Row Num → Num
  bonus_other r = plus (plus r.level_bonus r.prequel) r.manual_bonus

  unfoldable pub total_of : Row Num → Num
  unfolding bonus_other
  total_of r = minus (minus (plus (plus r.clean r.added) r.penalty) r.through) (bonus_other r)

  -- The row of a team, in seconds, of its cells, its penalty and bonus in minutes, and the minutes of
  -- the prequel if it played that.
  unfoldable pub row_of : Text → Num → Num → Option Num → List (RowCell Num) → Row Num
  unfolding add_cells
  row_of team penalty_min bonus_min prequel_min cells = add_cells cells (record {
    team = team;
    clean = zero_num;
    added = zero_num;
    through = zero_num;
    level_bonus = zero_num;
    prequel = minutes_or prequel_min;
    penalty = minutes n penalty_min;
    manual_bonus = minutes n bonus_min;
  })
    where
      minutes_or : Option Num → Num
      minutes_or none = zero_num
      minutes_or (some m) = minutes n m

  -- The comparison that orders the rows.
  unfoldable pub is_ahead : Row Num → Row Num → Bool
  unfolding total_of
  is_ahead r q =
      if less (total_of r) (total_of q)
      then true
      else if less (total_of q) (total_of r)
      then false
      else if less r.clean q.clean
      then true
      else if less q.clean r.clean
      then false
      else collates r.team q.team

  unfoldable pub sort_rows : List (Row Num) → List (Row Num)
  unfolding sort_by is_ahead
  sort_rows rows = sort_by is_ahead rows

  unfoldable pub sort_clean : List (Row Num) → List (Row Num)
  unfolding sort_by
  sort_clean rows = sort_by (λ r q. less r.clean q.clean) rows

  unfoldable pub is_same : Num → Num → Bool
  is_same x y = not (less x y) && not (less y x)

  -- The places from the index `i` on, after a row with that key and place.
  unfoldable pub places_after : ℕ → Num → ℕ → List Num → List ℕ
  unfolding is_same
  places_after i key place [] = []
  places_after i key place (k ∷ ks) =
      let next = if is_same k key then place else suc i in next ∷ places_after (suc i) k next ks

  unfoldable pub places : List Num → List ℕ
  unfolding places_after
  places [] = []
  places (k ∷ ks) = 1 ∷ places_after 1 k 1 ks

  -- The places by total, of sorted rows.
  unfoldable pub places_of : List (Row Num) → List ℕ
  unfolding places total_of
  places_of rows = places (map (λ r. half_up (total_of r)) rows)

  -- The places by the clean time, of rows sorted by it.
  unfoldable pub places_clean : List (Row Num) → List ℕ
  unfolding places
  places_clean rows = places (map (λ r. round_num r.clean) rows)

  -- What a row is behind the first, and behind the row before it; none for the first.
  unfoldable pub gaps_after : Num → Num → List (Row Num) → List (Option (Num × Num))
  unfolding total_of
  gaps_after leader before [] = []
  gaps_after leader before (r ∷ rs) =
      some (minus (total_of r) leader, minus (total_of r) before)
      ∷ gaps_after leader (total_of r) rs

  unfoldable pub gaps : List (Row Num) → List (Option (Num × Num))
  unfolding gaps_after total_of
  gaps [] = []
  gaps (r ∷ rs) = none ∷ gaps_after (total_of r) (total_of r) rs
