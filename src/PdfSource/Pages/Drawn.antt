-- ===== src/PdfSource/Pages/Drawn.antt =====
-- The parts of lines that a range selects, and the lines that it marks.
use dzzzr_cli.Base.{
  ℕ, zero, suc, ◌+◌, ◌-◌, ◌≤◌, ◌<◌, ◌≡◌, refl, sym, ap, ◌∙◌, subst, Bool, true, false, not, Option,
  none, some, List, [], ◌∷◌, arith, All, length, get_elem?, Text, join,
}
use native.Mathlib.Nat.{zero-add, suc-add}
use dzzzr_cli.Files.Read.{take, drop}
use dzzzr_cli.PdfSource.Run.{Gives}
use dzzzr_cli.PdfSource.Run.Rules.{
  Gives-pure, Gives-fail, Gives-bind, Gives-require, Gives-labelled,
}
use dzzzr_cli.PdfSource.Pages.{
  max_mapping_bytes, Range, IndexedPage, Pages, page_at, Mark, Progress, Marking, as_used,
  as_ignored, mark, Span, slice_of, select_lines, is_span, column_from, column_to, select_page,
  select_span, select_range, ignore_all,
}

-- A line of a page that can be read.
unfoldable pub IsLine : Pages → Mark → Type 0
IsLine ps (n, i) =
    (p : IndexedPage) × ((page_at ps n ≡ some p)
      × ((p.requires_ocr ≡ false) × ((1 ≤ i) × (i ≤ length p.lines))))

-- A part of a line of such a page.
unfoldable pub IsPart : Pages → Text → Type 0
IsPart ps s =
    (n : ℕ) × (p : IndexedPage) × (i : ℕ) × (line : Text) × (from : ℕ) × (to : ℕ) × (page_at ps n
      ≡ some p)
    × (p.requires_ocr ≡ false)
    × (get_elem? p.lines i ≡ some line)
    × (s ≡ slice_of from to line)

-- The counts are within their limits, and what is marked are lines.
unfoldable pub Within : Pages → Progress → Type 0
unfolding IsLine
Within ps s =
    (s.nodes ≤ 20000)
    × ((s.emitted ≤ max_mapping_bytes) × (All (IsLine ps) s.used × All (IsLine ps) s.ignored))

mark-Within :
    (ps : Pages) (kind : Marking) (k : Mark)
    → IsLine ps k
    → Gives (Within ps) (λ _. Unit {0}) (mark kind k)
unfolding mark Within
mark-Within ps as_used k h = record {
  at = λ s w a s' e.
      let same : record s { used = k ∷ s.used } ≡ s' = cc e in
      (tt, subst (Within ps) same (w.0, (w.1.0, ((h, w.1.1.0), w.1.1.1))));
}
mark-Within ps as_ignored k h = record {
  at = λ s w a s' e.
      let same : record s { ignored = k ∷ s.ignored } ≡ s' = cc e in
      (tt, subst (Within ps) same (w.0, (w.1.0, (w.1.1.0, (h, w.1.1.1)))));
}

get_elem?-lt : {A : Type 0} (xs : List A) (i : ℕ) (x : A) → get_elem? xs i ≡ some x → i < length xs
get_elem?-lt [] i x e = cc e
get_elem?-lt (y ∷ ys) zero x e = omega arith
get_elem?-lt (y ∷ ys) (suc i) x e = omega (arith, get_elem?-lt ys i x e)

get_elem?-drop :
    {A : Type 0} (k : ℕ) (xs : List A) (i : ℕ) (x : A)
    → get_elem? (drop k xs) i ≡ some x
    → get_elem? xs (k + i) ≡ some x
get_elem?-drop zero xs i x e = rw (zero-add i) e
get_elem?-drop (suc k) [] i x e = cc e
get_elem?-drop (suc k) (y ∷ ys) i x e = rw (suc-add k i) (get_elem?-drop k ys i x e)

get_elem?-take :
    {A : Type 0} (m : ℕ) (xs : List A) (i : ℕ) (x : A)
    → get_elem? (take m xs) i ≡ some x
    → get_elem? xs i ≡ some x
get_elem?-take zero xs i x e = cc e
get_elem?-take (suc m) [] i x e = cc e
get_elem?-take (suc m) (y ∷ ys) zero x e = e
get_elem?-take (suc m) (y ∷ ys) (suc i) x e = get_elem?-take m ys i x e

module _ (ps : Pages) (kind : Marking) (r : Span) (p : IndexedPage)
    (here : page_at ps r.page ≡ some p) (readable : p.requires_ocr ≡ false) where
  select_lines-IsPart :
      (k : ℕ) (lines : List Text)
      → ((i : ℕ) (line : Text)
          → get_elem? lines i ≡ some line
          → get_elem? p.lines (k + i) ≡ some line)
      → Gives (Within ps) (All (IsPart ps)) (select_lines kind r (suc k) lines)
  unfolding select_lines IsLine IsPart
  select_lines-IsPart k [] h = Gives-pure [] tt
  select_lines-IsPart k (line ∷ lines) h = Gives-require _ _ _ λ c.
      Gives-bind _ _
        (mark-Within ps kind (r.page, suc k)
          (
            p,
            (
              here,
              (
                readable,
                (omega arith, omega (arith, get_elem?-lt p.lines (k + 0) line (h 0 line refl))),
              ),
            ),
          ))
        λ _ _.
          Gives-bind _ _
            (select_lines-IsPart (suc k) lines
              λ i x e. ap (get_elem? p.lines) (omega arith) ∙ h (suc i) x e)
            λ later parts. Gives-pure _ (
              (
                r.page,
                p,
                k,
                line,
                column_from r (suc k),
                column_to r (suc k) line,
                here,
                readable,
                ap (get_elem? p.lines) (omega arith) ∙ h 0 line refl,
                refl,
              ),
              parts,
            )

-- Parts of lines, joined by line breaks.
unfoldable pub IsSelected : Pages → Text → Type 0
IsSelected ps s = (parts : List Text) × (All (IsPart ps) parts × (s ≡ join (10 ∷ []) parts))

is_span-first : (r : Span) (p : IndexedPage) → is_span r p ≡ true → r.first ≡ suc (r.first - 1)
unfolding is_span
is_span-first r p h = ground arith

module _ (ps : Pages) (kind : Marking) where
  select_page-IsSelected :
      (r : Span) (found : Option IndexedPage)
      → page_at ps r.page ≡ found
      → Gives (Within ps) (IsSelected ps) (select_page kind r found)
  unfolding select_page IsSelected
  select_page-IsSelected r none h = Gives-fail _
  select_page-IsSelected r (some p) h = Gives-require _ _ _ λ span. Gives-require _ _ _ λ readable.
      Gives-bind _ _
        (subst
          (λ n.
            Gives (Within ps) (All (IsPart ps))
              (select_lines kind r n (take (suc (r.last - r.first)) (drop (r.first - 1) p.lines))))
          (sym (is_span-first r p span))
          (select_lines-IsPart ps kind r p h (not_true readable) (r.first - 1) _ λ i x e.
            get_elem?-drop (r.first - 1) p.lines i x
              (get_elem?-take (suc (r.last - r.first)) _ i x e)))
        λ lines parts. Gives-pure _ (lines, (parts, refl))
    where
      not_true : {b : Bool} → not b ≡ true → b ≡ false
      not_true {b = true} h = cc h
      not_true {b = false} h = refl

  select_span-IsSelected :
      (r : Option Span) → Gives (Within ps) (IsSelected ps) (select_span kind ps r)
  unfolding select_span
  select_span-IsSelected none = Gives-fail _
  select_span-IsSelected (some r) = select_page-IsSelected r (page_at ps r.page) refl

  pub select_range-IsSelected :
      (r : Range) → Gives (Within ps) (IsSelected ps) (select_range kind ps r)
  unfolding select_range
  select_range-IsSelected r = select_span-IsSelected _

pub ignore_all-Within :
    (ps : Pages) (rs : List Range) → Gives (Within ps) (λ _. Unit {0}) (ignore_all ps rs)
unfolding ignore_all
ignore_all-Within ps [] = Gives-pure tt tt
ignore_all-Within ps (r ∷ rs) =
    Gives-bind _ _ (Gives-labelled _ _ (select_range-IsSelected ps as_ignored r))
      λ _ _. ignore_all-Within ps rs
