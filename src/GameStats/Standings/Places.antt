-- ===== src/GameStats/Standings/Places.antt =====
-- The place of a row is one more than the number of rows that are strictly ahead of it.
use dzzzr_cli.Base.{
  ℕ, suc, ◌+◌, ◌≡◌, refl, Bool, true, false, not, ◌&&◌, inl, inr, List, [], ◌∷◌, map, arith, All,
  if◌then◌else◌, length, Bool-cases,
}
use dzzzr_cli.GameStats.Eval.{Numbers}
use dzzzr_cli.GameStats.Standings.{Arithmetic, insert_by, sort_by, is_same, places_after, places}

-- How many keys are below one.
unfoldable pub count_below : {Num : Type 0} → (Num → Num → Bool) → Num → List Num → ℕ
count_below less k [] = 0
count_below less k (m ∷ ms) = (if less m k then 1 else 0) + count_below less k ms

-- What the comparison of numbers other than NaN does, and that rounding keeps the order.
pub record IsOrder {Num : Type 0} (less : Num → Num → Bool) : Type 0 where
  pub asymmetric : (x y : Num) → less x y ≡ true → less y x ≡ false
  pub negatively_transitive : (x y z : Num) → less x y ≡ false → less y z ≡ false → less x z ≡ false

unfoldable pub IsMonotone : {Num : Type 0} → (Num → Num → Bool) → (Num → Num) → Type 0
IsMonotone {Num = Num} less f = (x y : Num) → less x y ≡ false → less (f x) (f y) ≡ false

module _ {Num : Type 0} (less : Num → Num → Bool) (order : IsOrder less) where
  -- No later key is below an earlier one.
  unfoldable pub Ascending : List Num → Type 0
  Ascending [] = Unit
  Ascending (k ∷ ks) = All (λ m. less m k ≡ false) ks × Ascending ks

  irreflexive : (x : Num) → less x x ≡ false
  irreflexive x = elim (Bool-cases (less x x)) [
    | inl below ↦ order.asymmetric x x below
    | inr ge ↦ ge
  ]

  none_below :
      (k : Num) (ms : List Num) → All (λ m. less m k ≡ false) ms → count_below less k ms ≡ 0
  unfolding count_below
  none_below k [] h = refl
  none_below k (m ∷ ms) h = rw h.0 (let rest = none_below k ms h.1 in omega (arith, rest))

  count_below-length :
      (key k : Num) (ms : List Num)
      → less key k ≡ true
      → All (λ m. less key m ≡ false) ms
      → count_below less k ms ≡ length ms
  unfolding count_below
  count_below-length key k [] lt h = refl
  count_below-length key k (m ∷ ms) lt h = elim (Bool-cases (less m k)) [
    | inl below ↦ rw below (let rest = count_below-length key k ms lt h.1 in omega (arith, rest))
    | inr ge ↦ cc (lt, order.negatively_transitive key m k h.0 ge)
  ]

  below_same :
      (x y : Num) (ms : List Num)
      → less x y ≡ false
      → less y x ≡ false
      → count_below less x ms ≡ count_below less y ms
  unfolding count_below
  below_same x y [] h g = refl
  below_same x y (m ∷ ms) h g =
      let rest : count_below less x ms ≡ count_below less y ms = below_same x y ms h g in
      elim (Bool-cases (less m x)) [
        | inl mx ↦ elim (Bool-cases (less m y)) [
          | inl my ↦ rw (mx, my, rest) refl
          | inr my ↦ cc (mx, order.negatively_transitive m y x my g)
        ]
        | inr mx ↦ elim (Bool-cases (less m y)) [
          | inl my ↦ cc (my, order.negatively_transitive m x y mx h)
          | inr my ↦ rw (mx, my, rest) refl
        ]
      ]

  stays_below :
      (key k : Num) (ms : List Num)
      → less k key ≡ false
      → All (λ m. less key m ≡ false) ms
      → All (λ m. less k m ≡ false) ms
  stays_below key k [] lt h = tt
  stays_below key k (m ∷ ms) lt h =
      (order.negatively_transitive k key m lt h.0, stays_below key k ms lt h.1)

module _ {Num : Type 0} (n : Numbers Num) (a : Arithmetic Num) (order : IsOrder n.less) where
  open n use {less}

  same_test :
      (x y : Num) (b c : Bool) → less x y ≡ b → less y x ≡ c → is_same n a x y ≡ (not b && not c)
  unfolding is_same
  same_test x y b c h g = rw (h, g) refl

  -- The keys `before` have places already, the last of them is `key`; `rank` counts below in all.
  places_after_lem :
      (ks before : List Num) (key : Num) (place : ℕ) (rank : Num → ℕ)
      → All (λ m. less key m ≡ false) before
      → All (λ m. less m key ≡ false) ks
      → Ascending less order ks
      → place ≡ suc (rank key)
      → ((j : Num) → rank j ≡ count_below less j before + count_below less j ks)
      → places_after n a (length before) key place ks ≡ map (λ k. suc (rank k)) ks
  unfolding places_after Ascending count_below
  places_after_lem [] before key place rank low high asc at counts = refl
  places_after_lem (k ∷ ks) before key place rank low high asc at counts =
      let next : ℕ = if is_same n a k key then place else suc (length before) in
      let below : All (λ m. less k m ≡ false) before =
        stays_below less order key k before high.0 low in
      let first : next ≡ suc (rank k) = next_lem in
      let later : places_after n a (suc (length before)) k next ks ≡ map (λ j. suc (rank j)) ks =
        places_after_lem ks (k ∷ before) k next rank (irreflexive less order k, below) asc.0 asc.1
          first (λ j. let all = counts j in omega (arith, all)) in
      cc (first, later)
    where
      ranked : rank k ≡ count_below less k before
      ranked =
          let all = counts k in
          let none_later = none_below less order k (k ∷ ks) (irreflexive less order k, asc.0) in
          omega (arith, all, none_later)

      next_lem : (if is_same n a k key then place else suc (length before)) ≡ suc (rank k)
      next_lem = elim (Bool-cases (less key k)) [
        | inl ahead ↦
            let other : is_same n a k key ≡ false = same_test k key false true high.0 ahead in
            let all = count_below-length less order key k before ahead low in
            rw other (omega (arith, ranked, all))
        | inr level ↦
            let same : is_same n a k key ≡ true = same_test k key false false high.0 level in
            let all = counts key in
            let none_later = none_below less order key (k ∷ ks) high in
            let equal = below_same less order key k before level high.0 in
            rw same (omega (arith, at, all, none_later, equal, ranked))
      ]

  pub places_lem :
      (ks : List Num)
      → Ascending less order ks
      → places n a ks ≡ map (λ k. suc (count_below less k ks)) ks
  unfolding places Ascending count_below
  places_lem [] asc = refl
  places_lem (k ∷ ks) asc =
      let none_first = none_below less order k (k ∷ ks) (irreflexive less order k, asc.0) in
      let first : 1 ≡ suc (count_below less k (k ∷ ks)) = omega (arith, none_first) in
      let later =
        places_after_lem ks (k ∷ []) k 1 (λ j. count_below less j (k ∷ ks))
          (irreflexive less order k, tt) asc.0 asc.1 first (λ j. omega arith) in
      cc (first, later)

module _ {Num A : Type 0} (less : Num → Num → Bool) (order : IsOrder less) (ahead : A → A → Bool)
    (key : A → Num) (before : (q r : A) → ahead q r ≡ true → less (key r) (key q) ≡ false)
    (behind : (q r : A) → ahead q r ≡ false → less (key q) (key r) ≡ false) where
  insert_by-All :
      (k : Num) (r : A) (qs : List A)
      → less (key r) k ≡ false
      → All (λ m. less m k ≡ false) (map key qs)
      → All (λ m. less m k ≡ false) (map key (insert_by ahead r qs))
  unfolding insert_by
  insert_by-All k r [] h g = (h, tt)
  insert_by-All k r (q ∷ qs) h g = elim (Bool-cases (ahead q r)) [
    | inl first ↦ rw first (g.0, insert_by-All k r qs h g.1)
    | inr later ↦ rw later (h, g)
  ]

  insert_by-Ascending :
      (r : A) (qs : List A)
      → Ascending less order (map key qs)
      → Ascending less order (map key (insert_by ahead r qs))
  unfolding insert_by Ascending
  insert_by-Ascending r [] asc = (tt, tt)
  insert_by-Ascending r (q ∷ qs) asc = elim (Bool-cases (ahead q r)) [
    | inl first ↦
        rw first
          (insert_by-All (key q) r qs (before q r first) asc.0, insert_by-Ascending r qs asc.1)
    | inr later ↦
        rw later ((behind q r later, lower q r (map key qs) (behind q r later) asc.0), asc)
  ]
    where
      lower :
          (q r : A) (ms : List Num)
          → less (key q) (key r) ≡ false
          → All (λ m. less m (key q) ≡ false) ms
          → All (λ m. less m (key r) ≡ false) ms
      lower q r [] h g = tt
      lower q r (m ∷ ms) h g =
          (order.negatively_transitive m (key q) (key r) g.0 h, lower q r ms h g.1)

  pub sort_by-Ascending : (rs : List A) → Ascending less order (map key (sort_by ahead rs))
  unfolding sort_by Ascending
  sort_by-Ascending [] = tt
  sort_by-Ascending (r ∷ rs) = insert_by-Ascending r (sort_by ahead rs) (sort_by-Ascending rs)

  count_below-insert_by :
      (k : Num) (r : A) (qs : List A)
      → count_below less k (map key (insert_by ahead r qs)) ≡ count_below less k (map key (r ∷ qs))
  unfolding insert_by count_below
  count_below-insert_by k r [] = refl
  count_below-insert_by k r (q ∷ qs) = elim (Bool-cases (ahead q r)) [
    | inl first ↦ rw first (let rest = count_below-insert_by k r qs in omega (arith, rest))
    | inr later ↦ rw later refl
  ]

  pub count_below-sort_by :
      (k : Num) (rs : List A)
      → count_below less k (map key (sort_by ahead rs)) ≡ count_below less k (map key rs)
  unfolding sort_by count_below
  count_below-sort_by k [] = refl
  count_below-sort_by k (r ∷ rs) =
      let rest = count_below-sort_by k rs in
      let inserted = count_below-insert_by k r (sort_by ahead rs) in omega (arith, rest, inserted)
