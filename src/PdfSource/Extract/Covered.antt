-- ===== src/PdfSource/Extract/Covered.antt =====
-- pdfsource/mapping.go, `Extract`: no line of the pages is left out.
use dzzzr_cli.Base.{
  ℕ, zero, suc, ◌<◌, ◌≡◌, refl, true, not, ◌&&◌, ◌||◌, inl, inr, List, [], ◌∷◌, ◌++◌, arith, ltb,
  length, Text, is_empty, trim_space, Bool-cases,
}
use dzzzr_cli.PdfSource.Pages.{Pages, page_at, Mark, is_marked, Progress}
use dzzzr_cli.PdfSource.Missing.{lines_of, missing_lines, is_unread, missing_pages}

-- A line that is blank, or marked.
unfoldable pub IsAccounted : Progress → ℕ → ℕ → Text → Type 0
IsAccounted s n i line =
    (is_empty (trim_space line) || (is_marked s.used (n, i) || is_marked s.ignored (n, i))) ≡ true

-- Each of the lines from number `k` on is.
unfoldable pub AreAccounted : Progress → ℕ → ℕ → List Text → Type 0
unfolding IsAccounted
AreAccounted s n k [] = Unit
AreAccounted s n k (line ∷ lines) = IsAccounted s n k line × AreAccounted s n (suc k) lines

-- Each line of the `left` pages from number `n` on is.
unfoldable pub IsCovered : Pages → Progress → ℕ → ℕ → Type 0
unfolding AreAccounted
IsCovered ps s zero n = Unit
IsCovered ps s (suc left) n =
    AreAccounted s n 1 (lines_of (page_at ps n)) × IsCovered ps s left (suc n)

append-nil : {A : Type 0} (xs ys : List A) → xs ++ ys ≡ [] → (xs ≡ []) × (ys ≡ [])
append-nil [] ys e = (refl, e)
append-nil (x ∷ xs) ys e = cc e

module _ (ps : Pages) (s : Progress) where
  missing_lines-nil :
      (n k : ℕ) (line : Text) (lines : List Text) (found : ℕ)
      → found < 20
      → missing_lines s.used s.ignored n k (line ∷ lines) found ≡ []
      → IsAccounted s n k line × (missing_lines s.used s.ignored n (suc k) lines found ≡ [])
  unfolding missing_lines IsAccounted
  missing_lines-nil n k line lines found few e =
      elim (Bool-cases (
        not (is_empty (trim_space line))
        && (not (is_marked s.used (n, k)) && not (is_marked s.ignored (n, k))))) [
          | inl missing ↦
              let room : ltb found 20 ≡ true = ground arith in cc (rw (missing, room) at e)
          | inr none_missing ↦ (ground (arith, none_missing), rw none_missing at e)
        ]

  missing_lines-AreAccounted :
      (n k : ℕ) (lines : List Text) (found : ℕ)
      → found < 20
      → missing_lines s.used s.ignored n k lines found ≡ []
      → AreAccounted s n k lines
  unfolding AreAccounted
  missing_lines-AreAccounted n k [] found few e = tt
  missing_lines-AreAccounted n k (line ∷ lines) found few e =
      let (here, later) = missing_lines-nil n k line lines found few e in
      (here, missing_lines-AreAccounted n (suc k) lines found few later)

  pub missing_pages-IsCovered :
      (left n : ℕ) (found : List Mark)
      → missing_pages ps s left n found ≡ inr []
      → (found ≡ []) × IsCovered ps s left n
  unfolding missing_pages IsCovered
  missing_pages-IsCovered zero n found e = (cc e, tt)
  missing_pages-IsCovered (suc left) n found e =
      elim (Bool-cases (is_unread s.image_pages n (page_at ps n))) [
        | inl unread ↦ cc (rw unread at e)
        | inr readable ↦
            let (all, later) = missing_pages-IsCovered left (suc n) _ (rw readable at e) in
            let (before, here) = append-nil found _ all in
            let few : length found < 20 = rw before (omega arith) in
            (before, (missing_lines-AreAccounted n 1 _ (length found) few here, later))
      ]
