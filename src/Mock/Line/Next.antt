-- ===== src/Mock/Line/Next.antt =====
-- What `next_main_order` finds: the least order of a main level that was not issued.
use dzzzr_cli.Base.{
  ℕ, ◌≤◌, ◌≡◌, ◌≢◌, refl, sym, inl, inr, Bool, true, false, not, ◌&&◌, ◌||◌, List, [], ◌∷◌, ◌++◌,
  arith, leb, ◌==◌, keep, any, All, ◌∙◌, Bool-cases, ==_refl, ==_iff,
}
use dzzzr_cli.Mock.State.{LevelDef, GameState}
use dzzzr_cli.Mock.Line.{
  insert_level, sort_levels, main_line, contains, first_unissued, next_main_order,
}

-- Some main level has this order.
unfoldable pub is_main : List LevelDef → ℕ → Bool
is_main ls n = any (λ l. not l.bonus && l.order == n) ls

-- `contains` by its two clauses.
pub contains-append :
    (n : ℕ) (xs ys : List ℕ) → contains n (xs ++ ys) ≡ (contains n xs || contains n ys)
unfolding contains any
contains-append n [] ys = refl
contains-append n (x ∷ xs) ys = ground (arith, contains-append n xs ys)

abbrev has_order : ℕ → LevelDef → Bool
has_order n l = l.order == n

any-insert :
    (n : ℕ) (l : LevelDef) (ls : List LevelDef)
    → any (has_order n) (insert_level l ls) ≡ (l.order == n || any (has_order n) ls)
unfolding any insert_level
any-insert n l [] = refl
any-insert n l (m ∷ ms) = ground (arith, any-insert n l ms)

any-sort : (n : ℕ) (ls : List LevelDef) → any (has_order n) (sort_levels ls) ≡ any (has_order n) ls
unfolding any sort_levels
any-sort n [] = refl
any-sort n (l ∷ ls) = ground (arith, any-insert n l (sort_levels ls), any-sort n ls)

any-keep :
    (n : ℕ) (ls : List LevelDef) → any (has_order n) (keep (λ l. not l.bonus) ls) ≡ is_main ls n
unfolding any keep is_main
any-keep n [] = refl
any-keep n (l ∷ ls) = ground (arith, any-keep n ls)

any-main_line : (g : GameState) (n : ℕ) → any (has_order n) (main_line g) ≡ is_main g.levels n
unfolding main_line
any-main_line g n = any-sort n (keep (λ l. not l.bonus) g.levels) ∙ any-keep n g.levels

-- Orders that do not fall along the list.
abbrev Sorted : List LevelDef → Type 0
Sorted [] = Unit {0}
Sorted (l ∷ ls) = All (λ m. l.order ≤ m.order) ls × Sorted ls

All-le-insert :
    (n : ℕ) (l : LevelDef) (ls : List LevelDef)
    → n ≤ l.order
    → All (λ m. n ≤ m.order) ls
    → All (λ m. n ≤ m.order) (insert_level l ls)
unfolding insert_level
All-le-insert n l [] h a = (h, tt)
All-le-insert n l (m ∷ ms) h a = ground (arith, All-le-insert n l ms)

All-le_mono :
    (n k : ℕ) (ls : List LevelDef) → n ≤ k → All (λ m. k ≤ m.order) ls → All (λ m. n ≤ m.order) ls
All-le_mono n k [] h a = tt
All-le_mono n k (m ∷ ms) h a = (omega arith, All-le_mono n k ms h a.1)

insert-Sorted : (l : LevelDef) (ls : List LevelDef) → Sorted ls → Sorted (insert_level l ls)
unfolding insert_level
insert-Sorted l [] s = (tt, tt)
insert-Sorted l (m ∷ ms) s = elim (Bool-cases (leb l.order m.order)) [
  | inl e ↦ rw e ((ground arith, All-le_mono l.order m.order ms (ground arith) s.0), s)
  | inr e ↦ rw e (All-le-insert m.order l ms (ground arith) s.0, insert-Sorted l ms s.1)
]

sort-Sorted : (ls : List LevelDef) → Sorted (sort_levels ls)
unfolding sort_levels
sort-Sorted [] = tt
sort-Sorted (l ∷ ls) = insert-Sorted l (sort_levels ls) (sort-Sorted ls)

least_any :
    (n k : ℕ) (ls : List LevelDef) → All (λ m. n ≤ m.order) ls → any (has_order k) ls ≡ true → n ≤ k
unfolding any
least_any n k [] a h = cc
least_any n k (l ∷ ls) a h = ground (arith, least_any n k ls a.1)

-- What is found is on the list and was not issued.
first_unissued_found :
    (issued : List ℕ) (ls : List LevelDef)
    → first_unissued issued ls ≢ 0
    → (any (has_order (first_unissued issued ls)) ls ≡ true)
      × (contains (first_unissued issued ls) issued ≡ false)
unfolding first_unissued any
first_unissued_found issued [] h = absurd (h refl)
first_unissued_found issued (l ∷ ls) h =
    ground (arith, first_unissued_found issued ls, ==_refl l.order)

-- No order on the list that was not issued is smaller.
first_unissued_least :
    (issued : List ℕ) (ls : List LevelDef) (k : ℕ)
    → Sorted ls
    → any (has_order k) ls ≡ true
    → contains k issued ≡ false
    → first_unissued issued ls ≤ k
unfolding first_unissued any
first_unissued_least issued [] k s h u = cc
first_unissued_least issued (l ∷ ls) k s h u = elim (Bool-cases (contains l.order issued)) [
  | inl e ↦ elim (Bool-cases (l.order == k)) [
    | inl here ↦ cc (u, e, (==_iff l.order k).0 here)
    | inr there ↦ rw e (first_unissued_least issued ls k s.1 (rw there at h) u)
  ]
  | inr e ↦ rw e (least_any l.order k (l ∷ ls) (omega arith, s.0) h)
]

-- Nothing is found when every order on the list was issued.
first_unissued_none :
    (issued : List ℕ) (ls : List LevelDef) (k : ℕ)
    → any (has_order 0) ls ≡ false
    → first_unissued issued ls ≡ 0
    → any (has_order k) ls ≡ true
    → contains k issued ≡ true
unfolding first_unissued any
first_unissued_none issued [] k z e h = cc
first_unissued_none issued (l ∷ ls) k z e h =
    ground (arith, first_unissued_none issued ls k, ==_iff l.order k)

pub is_main→has_order :
    (ls : List LevelDef) (n : ℕ) → is_main ls n ≡ true → any (λ l. l.order == n) ls ≡ true
unfolding is_main any
is_main→has_order [] n h = cc
is_main→has_order (l ∷ ls) n h = ground (arith, is_main→has_order ls n)

main_of_zero : (ls : List LevelDef) → any (has_order 0) ls ≡ false → is_main ls 0 ≡ false
unfolding is_main any
main_of_zero [] h = refl
main_of_zero (l ∷ ls) h = ground (arith, main_of_zero ls)

-- The order found is that of a main level that was not issued.
pub next_main_order_open :
    (g : GameState)
    → next_main_order g ≢ 0
    → (is_main g.levels (next_main_order g) ≡ true)
      × (contains (next_main_order g) g.issued ≡ false)
unfolding next_main_order
next_main_order_open g h =
    let found = first_unissued_found g.issued (main_line g) h in
    (sym (any-main_line g (first_unissued g.issued (main_line g))) ∙ found.0, found.1)

pub next_main_order_least :
    (g : GameState) (k : ℕ)
    → is_main g.levels k ≡ true
    → contains k g.issued ≡ false
    → next_main_order g ≤ k
unfolding next_main_order main_line
next_main_order_least g k m u =
    first_unissued_least g.issued (sort_levels (keep (λ l. not l.bonus) g.levels)) k
      (sort-Sorted (keep (λ l. not l.bonus) g.levels)) (any-main_line' k ∙ m) u
  where
    any-main_line' :
        (n : ℕ)
        → any (has_order n) (sort_levels (keep (λ l. not l.bonus) g.levels)) ≡ is_main g.levels n
    any-main_line' n = any-main_line g n

-- The line is over exactly when every main level was issued.
pub next_main_order_over :
    (g : GameState) (k : ℕ)
    → any (λ l. l.order == 0) g.levels ≡ false
    → next_main_order g ≡ 0
    → is_main g.levels k ≡ true
    → contains k g.issued ≡ true
unfolding next_main_order
next_main_order_over g k z e m =
    first_unissued_none g.issued (main_line g) k (any-main_line g 0 ∙ main_of_zero g.levels z) e
      (any-main_line g k ∙ m)
