-- ===== src/GameStats/Finish/Done.antt =====
-- When a team has done a level.
use dzzzr_cli.Base.{
  ℕ, zero, suc, ◌+◌, ◌-◌, ◌≤◌, ◌<◌, ◌≡◌, refl, ap, ◌∙◌, subst, Bool, true, false, ◌&&◌, some, inl,
  inr, List, [], ◌∷◌, arith, ltb, leb, if◌then◌else◌, is_some, length, get_elem?, Bool-cases,
  &&-eq-true, All,
}
use dzzzr_cli.GameStats.Records.{Codes, Record}
use dzzzr_cli.GameStats.Finish.{
  insert_time, sort_times, times_of, is_counted, found_count, fewer_codes, required_codes, done_at,
}

-- How many times pass a test.
unfoldable pub count : (ℕ → Bool) → List ℕ → ℕ
count p [] = 0
count p (t ∷ ts) = (if p t then 1 else 0) + count p ts

count-insert_time :
    (p : ℕ → Bool) (t : ℕ) (ts : List ℕ) → count p (insert_time t ts) ≡ count p (t ∷ ts)
unfolding insert_time count
count-insert_time p t [] = refl
count-insert_time p t (u ∷ us) = elim (Bool-cases (leb t u)) [
  | inl c ↦ rw c refl
  | inr c ↦ rw c (rw (count-insert_time p t us) (omega arith))
]

count-sort_times : (p : ℕ → Bool) (ts : List ℕ) → count p (sort_times ts) ≡ count p ts
unfolding sort_times count
count-sort_times p [] = refl
count-sort_times p (t ∷ ts) =
    count-insert_time p t (sort_times ts)
    ∙ ap (λ n. (if p t then 1 else 0) + n) (count-sort_times p ts)

unfoldable Sorted : ℕ → List ℕ → Type 0
Sorted low [] = Unit
Sorted low (t ∷ ts) = (low ≤ t) × Sorted t ts

insert_time-Sorted :
    (low t : ℕ) (ts : List ℕ) → low ≤ t → Sorted low ts → Sorted low (insert_time t ts)
unfolding insert_time Sorted
insert_time-Sorted low t [] h k = (h, tt)
insert_time-Sorted low t (u ∷ us) h k = elim (Bool-cases (leb t u)) [
  | inl c ↦ rw c (h, (ground (arith, c), k.1))
  | inr c ↦ rw c (k.0, insert_time-Sorted u t us (ground (arith, c)) k.1)
]

sort_times-Sorted : (ts : List ℕ) → Sorted 0 (sort_times ts)
unfolding sort_times Sorted
sort_times-Sorted [] = tt
sort_times-Sorted (t ∷ ts) =
    insert_time-Sorted 0 t (sort_times ts) (omega arith) (sort_times-Sorted ts)

count_none : (t low : ℕ) (ts : List ℕ) → Sorted low ts → t ≤ low → count (λ u. ltb u t) ts ≡ 0
unfolding count Sorted
count_none t low [] h k = refl
count_none t low (u ∷ us) h k =
    ground (arith, h.0, k, count_none t u us h.1 (omega (arith, h.0, k)))

Sorted-get_elem? :
    (low : ℕ) (ts : List ℕ) (i t : ℕ) → Sorted low ts → get_elem? ts i ≡ some t → low ≤ t
unfolding Sorted
Sorted-get_elem? low [] i t h e = cc e
Sorted-get_elem? low (u ∷ us) zero t h e = subst (λ x. low ≤ x) (cc e) h.0
Sorted-get_elem? low (u ∷ us) (suc i) t h e = omega (arith, h.0, Sorted-get_elem? u us i t h.1 e)

-- The entry `i` of a sorted list: more than `i` entries are at most it, and at most `i` are below it.
rank_lem :
    (low : ℕ) (ts : List ℕ) (i t : ℕ)
    → Sorted low ts
    → get_elem? ts i ≡ some t
    → (i < count (λ u. leb u t) ts) × (count (λ u. ltb u t) ts ≤ i)
unfolding count Sorted
rank_lem low [] i t h e = cc e
rank_lem low (u ∷ us) zero t h e =
    let same : u ≡ t = cc e in
    let equal : leb u t ≡ true = ground (arith, same) in
    let apart : ltb u t ≡ false = ground (arith, same) in
    rw (equal, apart, count_none t u us h.1 (omega (arith, same))) (omega arith, omega arith)
rank_lem low (u ∷ us) (suc i) t h e =
    let (more, less) = rank_lem u us i t h.1 e in
    let below = Sorted-get_elem? u us i t h.1 e in
    let before : leb u t ≡ true = ground (arith, below) in
    (
      rw before (omega (arith, more)),
      elim (Bool-cases (ltb u t)) [
        | inl c ↦ rw c (omega (arith, less))
        | inr c ↦ rw c (omega (arith, less))
      ],
    )

length-insert_time : (t : ℕ) (ts : List ℕ) → length (insert_time t ts) ≡ suc (length ts)
unfolding insert_time
length-insert_time t [] = refl
length-insert_time t (u ∷ us) = elim (Bool-cases (leb t u)) [
  | inl c ↦ rw c refl
  | inr c ↦ rw c (ap suc (length-insert_time t us))
]

length-sort_times : (ts : List ℕ) → length (sort_times ts) ≡ length ts
unfolding sort_times
length-sort_times [] = refl
length-sort_times (t ∷ ts) = length-insert_time t (sort_times ts) ∙ ap suc (length-sort_times ts)

length-times_of : (cs : Codes) → length (times_of cs) ≡ length cs
unfolding times_of
length-times_of [] = refl
length-times_of ((key, c) ∷ cs) = ap suc (length-times_of cs)

get_elem?_some : (ts : List ℕ) (i : ℕ) → i < length ts → is_some (get_elem? ts i) ≡ true
get_elem?_some [] i h = absurd (omega (arith, h))
get_elem?_some (t ∷ ts) zero h = refl
get_elem?_some (t ∷ ts) (suc i) h = get_elem?_some ts i (omega (arith, h))

-- A level's time of being done is that of the last of the codes that it requires: the team found as
-- many as required by then, and fewer before.
pub done_at_lem :
    (required : ℕ) (r : Record) (t : ℕ)
    → done_at required r ≡ some t
    → (required ≤ count (λ u. leb u t) (times_of r.codes_found))
      × (count (λ u. ltb u t) (times_of r.codes_found) < required)
unfolding done_at
done_at_lem required r t h = elim (Bool-cases (ltb 0 required && leb required (found_count r))) [
  | inr c ↦ cc (rw c at h)
  | inl c ↦
      let (some_required, enough) = &&-eq-true (ltb 0 required) (leb required (found_count r)) c in
      let positive : 0 < required = ground (arith, some_required) in
      let times = times_of r.codes_found in
      let (more, less) =
        rank_lem 0 (sort_times times) (required - 1) t (sort_times-Sorted times) (rw c at h) in
      let all_more = count-sort_times (λ u. leb u t) times in
      let all_less = count-sort_times (λ u. ltb u t) times in
      (omega (arith, more, all_more, positive), omega (arith, less, all_less, positive))
]

fewer_codes_le :
    (n required : ℕ) → 0 < n → (0 < fewer_codes n required) × (fewer_codes n required ≤ n)
unfolding fewer_codes
fewer_codes_le n required h = ground (arith, h)

fewer_codes_keeps :
    (n required : ℕ)
    → 0 < required
    → (0 < fewer_codes n required) × (fewer_codes n required ≤ required)
unfolding fewer_codes
fewer_codes_keeps n required h = ground (arith, h)

required_codes_le :
    (required : ℕ) (rs : List Record)
    → 0 < required
    → (0 < required_codes required rs) × (required_codes required rs ≤ required)
unfolding required_codes
required_codes_le required [] h = (h, omega arith)
required_codes_le required (r ∷ rs) h = elim (Bool-cases (is_counted r)) [
  | inr c ↦ rw c (required_codes_le required rs h)
  | inl c ↦
      let (positive, small) = fewer_codes_keeps (found_count r) required h in
      let (positive', small') =
        required_codes_le (fewer_codes (found_count r) required) rs positive in
      rw c (positive', omega (arith, small, small'))
]

-- A record whose codes count requires no more than it has, and at least one.
abbrev Bounds : ℕ → Record → Type 0
Bounds required r =
    is_counted r ≡ true → 0 < found_count r → (0 < required) × (required ≤ found_count r)

required_codes-Bounds :
    (required : ℕ) (rs : List Record) → All (Bounds (required_codes required rs)) rs
unfolding required_codes
required_codes-Bounds required [] = tt
required_codes-Bounds required (r ∷ rs) = (
  first,
  required_codes-Bounds (if is_counted r then fewer_codes (found_count r) required else required)
      rs,
)
  where
    first : Bounds (required_codes required (r ∷ rs)) r
    first c h =
        let (positive, small) = fewer_codes_le (found_count r) required h in
        let (positive', small') =
          required_codes_le (fewer_codes (found_count r) required) rs positive in
        rw c (positive', omega (arith, small, small'))

-- The team has a time at which it had done the level.
abbrev pub IsDone : List Record → Record → Type 0
IsDone rs r =
    is_counted r ≡ true → 0 < found_count r → is_some (done_at (required_codes 0 rs) r) ≡ true

done_at_some :
    (required : ℕ) (r : Record)
    → 0 < required
    → required ≤ found_count r
    → is_some (done_at required r) ≡ true
unfolding done_at
done_at_some required r h k =
    let there : ltb 0 required ≡ true = ground (arith, h) in
    let enough : leb required (found_count r) ≡ true = ground (arith, k) in
    let same = length-sort_times (times_of r.codes_found) in
    let same' = length-times_of r.codes_found in
    rw (there, enough)
      (get_elem?_some (sort_times (times_of r.codes_found)) (required - 1)
        (omega (arith, same, same', h, k)))

All-IsDone :
    (required : ℕ) (rs : List Record)
    → All (Bounds required) rs
    → All (λ r. is_counted r ≡ true → 0 < found_count r → is_some (done_at required r) ≡ true) rs
All-IsDone required [] h = tt
All-IsDone required (r ∷ rs) h = (
  (λ c n. let (positive, small) = h.0 c n in done_at_some required r positive small),
  All-IsDone required rs h.1,
)

-- Of the records of a level, each that closed it in time with some code has a time of being done,
-- whatever the other records are.
pub required_codes-IsDone : (rs : List Record) → All (IsDone rs) rs
required_codes-IsDone rs = All-IsDone (required_codes 0 rs) rs (required_codes-Bounds 0 rs)
