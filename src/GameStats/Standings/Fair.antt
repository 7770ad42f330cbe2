-- ===== src/GameStats/Standings/Fair.antt =====
-- The places of a game by total and by clean time.
use dzzzr_cli.Base.{
  ℕ, suc, ◌≡◌, refl, ap, ◌∙◌, Bool, true, false, inl, inr, List, [], ◌∷◌, map, Bool-cases,
}
use dzzzr_cli.GameStats.Eval.{Numbers}
use dzzzr_cli.GameStats.Standings.{
  Arithmetic, Row, sort_by, total_of, is_ahead, sort_rows, sort_clean, places, places_of,
  places_clean,
}
use dzzzr_cli.GameStats.Standings.Places.{
  count_below, IsOrder, IsMonotone, places_lem, sort_by-Ascending, count_below-sort_by,
}

map_both :
    {A B C : Type 0} (f : A → B) (g h : B → C) (xs : List A)
    → ((y : B) → g y ≡ h y)
    → map g (map f xs) ≡ map (λ x. h (f x)) xs
map_both f g h [] e = refl
map_both f g h (x ∷ xs) e =
    let first = e (f x) in let rest = map_both f g h xs e in cc (first, rest)

module _ {Num : Type 0} (n : Numbers Num) (a : Arithmetic Num) (order : IsOrder n.less) where
  open n use {less}
  open a use {half_up, round_num}

  -- One more than the number of rows whose key is below that of `r`.
  unfoldable pub rank : (Row Num → Num) → List (Row Num) → Row Num → ℕ
  rank key rows r = suc (count_below less (key r) (map key rows))

  module _ (key : Row Num → Num) (ahead : Row Num → Row Num → Bool)
      (before : (q r : Row Num) → ahead q r ≡ true → less (key r) (key q) ≡ false)
      (behind : (q r : Row Num) → ahead q r ≡ false → less (key q) (key r) ≡ false) where
    places-sort_by :
        (rows : List (Row Num))
        → places n a (map key (sort_by ahead rows)) ≡ map (rank key rows) (sort_by ahead rows)
    unfolding rank
    places-sort_by rows =
        places_lem n a order (map key (sort_by ahead rows))
          (sort_by-Ascending less order ahead key before behind rows)
        ∙ map_both key _ (λ k. suc (count_below less k (map key rows))) (sort_by ahead rows)
            (λ k. ap suc (count_below-sort_by less order ahead key before behind k rows))

  ahead_before :
      (q r : Row Num) → is_ahead n a q r ≡ true → less (total_of n a r) (total_of n a q) ≡ false
  unfolding is_ahead
  ahead_before q r h = elim (Bool-cases (less (total_of n a q) (total_of n a r))) [
    | inl lower ↦ order.asymmetric (total_of n a q) (total_of n a r) lower
    | inr level ↦ elim (Bool-cases (less (total_of n a r) (total_of n a q))) [
      | inl higher ↦ cc (rw (level, higher) at h)
      | inr other ↦ other
    ]
  ]

  ahead_behind :
      (q r : Row Num) → is_ahead n a q r ≡ false → less (total_of n a q) (total_of n a r) ≡ false
  unfolding is_ahead
  ahead_behind q r h = elim (Bool-cases (less (total_of n a q) (total_of n a r))) [
    | inl lower ↦ cc (rw lower at h)
    | inr level ↦ level
  ]

  -- In the order of the results the place of a team is one more than the number of teams whose rounded
  -- total is strictly smaller, if the comparison is an order that the rounding keeps.
  pub places_of_lem :
      (mono : IsMonotone less half_up) (rows : List (Row Num))
      → places_of n a (sort_rows n a rows)
        ≡ map (rank (λ r. half_up (total_of n a r)) rows) (sort_rows n a rows)
  unfolding places_of sort_rows IsMonotone
  places_of_lem mono rows =
      places-sort_by (λ r. half_up (total_of n a r)) (is_ahead n a)
        (λ q r h. mono _ _ (ahead_before q r h)) (λ q r h. mono _ _ (ahead_behind q r h)) rows

  -- The same of the places by clean time, in the order by it.
  pub places_clean_lem :
      (mono : IsMonotone less round_num) (rows : List (Row Num))
      → places_clean n a (sort_clean n a rows)
        ≡ map (rank (λ r. round_num r.clean) rows) (sort_clean n a rows)
  unfolding places_clean sort_clean IsMonotone
  places_clean_lem mono rows =
      places-sort_by (λ r. round_num r.clean) (λ r q. less r.clean q.clean)
        (λ q r h. mono _ _ (order.asymmetric q.clean r.clean h)) (λ q r h. mono _ _ h) rows
