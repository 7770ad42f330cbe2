-- ===== src/GameStats/Standings/Tests.antt =====
-- Three teams, of which two are level.
use dzzzr_cli.Base.{ℕ, ◌+◌, ◌-◌, ◌*◌, ◌≡◌, refl, false, List, [], ◌∷◌, map, arith, ltb, Text, codes}
use dzzzr_cli.GameStats.Eval.{Numbers}
use dzzzr_cli.GameStats.Standings.{Arithmetic, Row, total_of, sort_rows, places_of}
use dzzzr_cli.GameStats.Standings.Places.{IsOrder, IsMonotone}
use dzzzr_cli.GameStats.Standings.Fair.{rank, places_of_lem}

abbrev numbers : Numbers ℕ
numbers = record {
  zero_num = 0;
  of_nat = λ n. n;
  plus = λ n m. n + m;
  times = λ n m. n * m;
  less = ltb;
  milliseconds = λ n. n * 1000;
  seconds_between = λ a b. a - b;
}

abbrev arithmetic : Arithmetic ℕ
arithmetic = record {
  minus = λ n m. n - m;
  half_up = λ n. n;
  round_num = λ n. n;
  collates = λ s t. false;
}

is_order : IsOrder ltb
is_order = record {
  asymmetric = λ x y h. ground (arith, h);
  negatively_transitive = λ x y z h g. ground (arith, h, g);
}

is_monotone : IsMonotone ltb (λ n. n)
unfolding IsMonotone
is_monotone x y h = h

abbrev team_row : Text → ℕ → Row ℕ
team_row team clean = record {
  team = team;
  clean = clean;
  added = 0;
  through = 0;
  level_bonus = 0;
  prequel = 0;
  penalty = 0;
  manual_bonus = 0;
}

abbrev rows : List (Row ℕ)
rows = team_row (codes "A") 9 ∷ team_row (codes "B") 5 ∷ team_row (codes "C") 5 ∷ []

three_places : places_of numbers arithmetic (sort_rows numbers arithmetic rows) ≡ 1 ∷ 1 ∷ 3 ∷ []
unfolding places_of sort_rows
three_places = refl

places_of_lem_example :
    places_of numbers arithmetic (sort_rows numbers arithmetic rows)
    ≡ map
        (rank numbers arithmetic is_order (λ r. total_of numbers arithmetic r) rows)
        (sort_rows numbers arithmetic rows)
places_of_lem_example = places_of_lem numbers arithmetic is_order is_monotone rows
