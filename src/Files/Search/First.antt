-- ===== src/Files/Search/First.antt =====
-- A search that stops early gives the first of the matches.
use dzzzr_cli.Base.{
  ℕ, zero, suc, ◌+◌, ◌≤◌, ◌<◌, ◌≡◌, refl, sym, ap, ◌∙◌, subst, Bool, true, false, inl, inr, ◌⊎◌,
  List, [], ◌∷◌, ◌++◌, arith, leb, if◌then◌else◌, Text, codes, ℤ, pos, negsuc, length,
  length-append, Bool-cases,
}
use dzzzr_cli.Tools.Arguments.{Argument}
use dzzzr_cli.Files.Args.{require_string, int_or, clamp}
use dzzzr_cli.Files.Root.{Paths}
use dzzzr_cli.Files.Read.{take, FileInfo, FileSystem}
use dzzzr_cli.Files.Search.{
  Visit, Walker, SearchMatch, snippet_of, lines_in, is_hit, search_lines, unless_enough,
  search_visits, search_in, search_stat, search_at, search_for, search_files, SearchResult,
  default_matches, max_matches,
}

append_assoc : {A : Type 0} (xs ys zs : List A) → (xs ++ ys) ++ zs ≡ xs ++ (ys ++ zs)
append_assoc [] ys zs = refl
append_assoc (x ∷ xs) ys zs = ap (λ t. x ∷ t) (append_assoc xs ys zs)

append_nil : {A : Type 0} (xs : List A) → xs ++ [] ≡ xs
append_nil [] = refl
append_nil (x ∷ xs) = ap (λ t. x ∷ t) (append_nil xs)

take_append : {A : Type 0} (xs ys : List A) → take (length xs) (xs ++ ys) ≡ xs
take_append [] ys = refl
take_append (x ∷ xs) ys = ap (λ t. x ∷ t) (take_append xs ys)

take_all : {A : Type 0} (n : ℕ) (xs : List A) → length xs ≤ n → take n xs ≡ xs
take_all zero [] h = refl
take_all zero (x ∷ xs) h = absurd (omega (arith, h))
take_all (suc n) [] h = refl
take_all (suc n) (x ∷ xs) h = ap (λ t. x ∷ t) (take_all n xs (omega (arith, h)))

just_enough : (limit n l : ℕ) → leb limit l ≡ true → n < limit → l ≡ n + 1 → l ≡ limit
just_enough limit n l enough few long = ground arith

lt_of_leb : (limit l : ℕ) → leb limit l ≡ false → l < limit
lt_of_leb limit l more = ground arith

at_least : (limit n : ℕ) → n ≡ limit → leb limit n ≡ true
at_least limit n h = ground arith

at_least_more : (limit n k l : ℕ) → n ≡ limit → l ≡ n + k → leb limit l ≡ true
at_least_more limit n k l h g = ground arith

-- Stopped with just as many as asked for and the rest left out, or with all and fewer.
IsFirst : ℕ → List SearchMatch → List SearchMatch × Bool → Type 0
IsFirst limit all (found, true) =
    (length found ≡ limit) × ((rest : List SearchMatch) × (all ≡ found ++ rest))
IsFirst limit all (found, false) = (found ≡ all) × (length found < limit)

IsFirst-take :
    (limit : ℕ) (all : List SearchMatch) (r : List SearchMatch × Bool)
    → IsFirst limit all r
    → r.0 ≡ take limit all
unfolding IsFirst
IsFirst-take limit all (found, true) (full, (rest, e)) =
    sym (subst (λ n. take n all ≡ found) full (ap (take (length found)) e ∙ take_append found rest))
IsFirst-take limit all (found, false) (e, few) =
    e ∙ sym (take_all limit all (let same = ap length e in omega (arith, same, few)))

IsFirst-leb :
    (limit : ℕ) (all : List SearchMatch) (r : List SearchMatch × Bool)
    → IsFirst limit all r
    → leb limit (length r.0) ≡ leb limit (length all)
unfolding IsFirst
IsFirst-leb limit all (found, true) (full, (rest, e)) =
    let long : length all ≡ length found + length rest = ap length e ∙ length-append found rest in
    at_least limit _ full ∙ sym (at_least_more limit (length found) (length rest) _ full long)
IsFirst-leb limit all (found, false) (e, few) = ap (λ xs. leb limit (length xs)) e

module _ (p : Paths) (fs : FileSystem) (w : Walker) (root : Text) where
  -- Every line that has the needle, with its number.
  unfoldable pub hits_from : Text → Text → ℕ → List Text → List SearchMatch
  hits_from needle full n [] = []
  hits_from needle full n (text ∷ texts) =
      let rest = hits_from needle full (suc n) texts in
      if is_hit p fs w root needle text
      then record { path = full; line = n; snippet = snippet_of text } ∷ rest
      else rest

  -- Every match in every file that is searched.
  unfoldable pub all_hits : Text → Text → List Visit → List SearchMatch
  unfolding hits_from
  all_hits needle glob [] = []
  all_hits needle glob (v ∷ vs) =
      hits_from needle v.full 1 (lines_in p fs w root glob v) ++ all_hits needle glob vs

  search_lines-IsFirst :
      (limit : ℕ) (needle full : Text) (n : ℕ) (texts : List Text) (found : List SearchMatch)
      → length found < limit
      → IsFirst limit
          (found ++ hits_from needle full n texts)
          (search_lines p fs w root limit needle full n texts found)
  unfolding search_lines IsFirst hits_from
  search_lines-IsFirst limit needle full n [] found few = (sym (append_nil found), few)
  search_lines-IsFirst limit needle full n (text ∷ texts) found few =
      elim (Bool-cases (is_hit p fs w root needle text)) [
        | inr miss ↦ rw miss (search_lines-IsFirst limit needle full (suc n) texts found few)
        | inl hit ↦ elim (Bool-cases (leb limit (length (found ++ (here ∷ []))))) [
          | inl enough ↦
              rw (hit, enough)
                (
                  just_enough limit (length found) _ enough few (length-append found (here ∷ [])),
                  (hits_from needle full (suc n) texts, sym (append_assoc found (here ∷ []) _)),
                )
          | inr more ↦
              rw (hit, more)
                (subst
                  (λ all. IsFirst limit all (
                    search_lines p fs w root limit needle full (suc n) texts
                      (found ++ (here ∷ []))))
                  (append_assoc found (here ∷ []) _)
                  (search_lines-IsFirst limit needle full (suc n) texts (found ++ (here ∷ []))
                    (lt_of_leb limit _ more)))
        ]
      ]
    where
      here : SearchMatch
      here = record { path = full; line = n; snippet = snippet_of text }

  -- A search that goes on with more files.
  IsFirst-append :
      (limit : ℕ) (all later : List SearchMatch) (r : List SearchMatch × Bool)
      (next : List SearchMatch → List SearchMatch × Bool)
      → IsFirst limit all r
      → ((found : List SearchMatch)
          → length found < limit
          → IsFirst limit (found ++ later) (next found))
      → IsFirst limit (all ++ later) (unless_enough p fs w root r next)
  unfolding IsFirst unless_enough
  IsFirst-append limit all later (found, true) next (full, (rest, e)) g =
      (full, (rest ++ later, ap (λ xs. xs ++ later) e ∙ append_assoc found rest later))
  IsFirst-append limit all later (found, false) next (e, few) g =
      subst (λ xs. IsFirst limit (xs ++ later) (next found)) e (g found few)

  search_visits-IsFirst :
      (limit : ℕ) (needle glob : Text) (vs : List Visit) (found : List SearchMatch)
      → length found < limit
      → IsFirst limit
          (found ++ all_hits needle glob vs)
          (search_visits p fs w root limit needle glob vs found)
  unfolding search_visits IsFirst all_hits
  search_visits-IsFirst limit needle glob [] found few = (sym (append_nil found), few)
  search_visits-IsFirst limit needle glob (v ∷ vs) found few =
      subst (λ xs. IsFirst limit xs (search_visits p fs w root limit needle glob (v ∷ vs) found))
        (append_assoc found _ _)
        (IsFirst-append limit (found ++ hits_from needle v.full 1 (lines_in p fs w root glob v))
          (all_hits needle glob vs) _ _
          (search_lines-IsFirst limit needle v.full 1 (lines_in p fs w root glob v) found few)
          λ more lt. search_visits-IsFirst limit needle glob vs more lt)

  -- What a result is, for the limit it was asked with.
  unfoldable pub IsSearch : ℕ → SearchResult → Type 0
  IsSearch limit r =
      (r.found ≡ take limit (all_hits (w.lower_text r.pattern) r.glob (w.walk r.search_root)))
      × ((r.count ≡ length r.found)
          × (r.is_truncated
              ≡ leb limit
                  (length (all_hits (w.lower_text r.pattern) r.glob (w.walk r.search_root)))))

  search_in-IsSearch :
      (pattern glob : Text) (limit : ℕ) (start : Text)
      → 1 ≤ limit
      → IsSearch limit (search_in p fs w root pattern glob limit start)
  unfolding search_in IsSearch
  search_in-IsSearch pattern glob limit start one =
      let first =
        search_visits-IsFirst limit (w.lower_text pattern) glob (w.walk start) []
          (omega (arith, one)) in
      (IsFirst-take limit _ _ first, (refl, IsFirst-leb limit _ _ first))

  search_at-IsSearch :
      (pattern glob : Text) (limit : ℕ) (abs : Text ⊎ Text) (r : SearchResult)
      → 1 ≤ limit
      → search_at p fs w root pattern glob limit abs ≡ inr r
      → IsSearch limit r
  unfolding search_at search_stat
  search_at-IsSearch pattern glob limit (inl err) r one h = cc h
  search_at-IsSearch pattern glob limit (inr abs) r one h = by_stat (fs.stat abs) h
    where
      by_stat :
          (i : Text ⊎ FileInfo)
          → search_stat p fs w root pattern glob limit abs i ≡ inr r
          → IsSearch limit r
      by_stat (inl err) h = cc h
      by_stat (inr info) h =
          let same : search_in p fs w root pattern glob limit
                (if info.is_dir then abs else w.dir_of abs)
              ≡ r =
            cc h in
          subst (IsSearch limit) same (search_in-IsSearch pattern glob limit _ one)

  clamp_pos : (v : ℤ) → 1 ≤ clamp v 1 max_matches
  unfolding clamp
  clamp_pos (pos n) = ground arith
  clamp_pos (negsuc n) = omega arith

  -- A search that succeeds gives the first matches, as many as were asked for and from 1 to 200, of all
  -- the matches in the files that are searched, in the order of the walk; and it says that it is
  -- truncated when there are that many.
  pub search_files-IsSearch :
      {Float : Type 0}
      → (truncate : Float → ℤ) (quote : Text → Text) (a : Text → Argument Float) (r : SearchResult)
      → search_files p fs w root truncate quote a ≡ inr r
      → IsSearch
          (clamp
            (int_or truncate quote a (codes "max_matches") (pos default_matches))
            1
            max_matches)
          r
  unfolding search_files search_for
  search_files-IsSearch truncate quote a r h =
      by_pattern (require_string truncate quote a (codes "pattern")) h
    where
      by_pattern :
          (s : Text ⊎ Text)
          → search_for p fs w root truncate quote a s ≡ inr r
          → IsSearch
              (clamp
                (int_or truncate quote a (codes "max_matches") (pos default_matches))
                1
                max_matches)
              r
      by_pattern (inl err) h = cc h
      by_pattern (inr pattern) h =
          search_at-IsSearch pattern _ _ _ r
            (clamp_pos (int_or truncate quote a (codes "max_matches") (pos default_matches))) h
