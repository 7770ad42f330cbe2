-- ===== src/PdfSource/Missing.antt =====
-- pdfsource/mapping.go, `Extract`: the lines that no selector and no ignored range marks.
use dzzzr_cli.Base.{
  ℕ, zero, suc, Bool, false, not, ◌&&◌, Option, none, some, inl, inr, ◌⊎◌, List, [], ◌∷◌, ◌++◌, any,
  ltb, ◌==◌, if◌then◌else◌, length, Text, codes, is_empty, trim_space, itoa,
}
use dzzzr_cli.PdfSource.Pages.{IndexedPage, Pages, page_at, Mark, is_marked, Progress}

unfoldable pub lines_of : Option IndexedPage → List Text
lines_of none = []
lines_of (some p) = p.lines

unfoldable pub missing_lines : List Mark → List Mark → ℕ → ℕ → List Text → ℕ → List Mark
unfolding is_marked
missing_lines used ignored page n [] found = []
missing_lines used ignored page n (line ∷ lines) found =
    let is_missing =
      not (is_empty (trim_space line))
      && (not (is_marked used (page, n)) && not (is_marked ignored (page, n))) in
    let rest =
      missing_lines used ignored page (suc n) lines (if is_missing then suc found else found) in
    if is_missing && ltb found 20 then (page, n) ∷ rest else rest

unfoldable pub is_unread : List ℕ → ℕ → Option IndexedPage → Bool
is_unread image_pages n none = false
is_unread image_pages n (some p) =
    p.requires_ocr && (ltb 0 (length p.images) && not (any (λ k. k == n) image_pages))

unfoldable pub unread_error : ℕ → Text
unread_error n =
    codes "page "
    ++ (itoa n
        ++ codes
            " has image content without readable text: OCR required, or explicitly preserve it using an image selector")

-- The last loop: the missing lines of the pages from `n` on, `left` pages in all.
unfoldable pub missing_pages : Pages → Progress → ℕ → ℕ → List Mark → Text ⊎ List Mark
unfolding is_unread unread_error missing_lines lines_of page_at
missing_pages ps s zero n found = inr found
missing_pages ps s (suc left) n found =
    let more = missing_lines s.used s.ignored n 1 (lines_of (page_at ps n)) (length found) in
    let rest = missing_pages ps s left (suc n) (found ++ more) in
    if is_unread s.image_pages n (page_at ps n) then inl (unread_error n) else rest

unfoldable pub marks_text : List Mark → List Text
marks_text [] = []
marks_text ((p, n) ∷ marks) = (itoa p ++ (codes ":" ++ itoa n)) ∷ marks_text marks
