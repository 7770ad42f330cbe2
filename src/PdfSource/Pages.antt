-- ===== src/PdfSource/Pages.antt =====
-- pdfsource/index.go and mapping.go: the indexed pages, and the lines that a range selects. A text is
-- its code points. An error is its wording without the values put into it.
pub mod Drawn
use dzzzr_cli.Base.{
  ℕ, zero, suc, ◌+◌, ◌-◌, ◌≡◌, refl, Bool, true, false, not, ◌&&◌, ◌||◌, Option, none, some, inl,
  inr, ◌⊎◌, List, [], ◌∷◌, ◌++◌, map, any, ltb, leb, ◌==◌, if◌then◌else◌, is_some, length, ℤ, pos,
  negsuc, Text, codes, text_eq, is_empty, split_on, join,
}
use dzzzr_cli.Files.Read.{take, drop}
use dzzzr_cli.PdfSource.Run.{Run, pure, fail, lift, labelled, require, ◌>>=◌, ◌>>◌}

abbrev pub max_mapping_bytes : ℕ
max_mapping_bytes = 4194304

-- The bytes of a text in UTF-8.
unfoldable pub utf8_length : Text → ℕ
utf8_length [] = 0
utf8_length (c ∷ s) =
    (if ltb c 0x80 then 1 else if ltb c 0x800 then 2 else if ltb c 0x10000 then 3 else 4)
    + utf8_length s

pub record Range : Type 0 where
  pub page : ℤ
  pub start_line : ℤ
  pub end_line : ℤ
  pub start_column : ℤ
  pub end_column : ℤ

-- What `Read` gives of a page, of which the third-party PDF libraries know more; `images` are hashed.
pub record PdfPage : Type 0 where
  pub number : ℕ
  pub text : Text
  pub links : List Text
  pub images : List Text
  pub requires_ocr : Bool

-- The lines of a page are numbered from 1; a link is its URI and an image its id.
pub record IndexedPage : Type 0 where
  pub number : ℕ
  pub lines : List Text
  pub links : List Text
  pub images : List Text
  pub requires_ocr : Bool

unfoldable pub text_lines : Text → List Text
text_lines text = split_on 10 [] text

-- `Index`; `hash` is `SourceHash`.
unfoldable pub index_page : (Text → Text) → PdfPage → IndexedPage
unfolding text_lines
index_page hash p = record {
  number = p.number;
  lines = text_lines p.text;
  links = p.links;
  images = map hash p.images;
  requires_ocr = p.requires_ocr;
}

-- Go's map of pages: a page that is met later takes the place of one with the same number.
abbrev pub Pages : Type 0
Pages = List IndexedPage

unfoldable pub page_at : Pages → ℕ → Option IndexedPage
page_at [] n = none
page_at (p ∷ ps) n = let rest = page_at ps n in if p.number == n then some p else rest

unfoldable pub page_of : Pages → ℤ → Option IndexedPage
unfolding page_at
page_of ps (pos n) = page_at ps n
page_of ps (negsuc n) = none

-- A page and the number of one of its lines.
abbrev pub Mark : Type 0
Mark = ℕ × ℕ

unfoldable pub mark_eq : Mark → Mark → Bool
mark_eq (p, n) (q, m) = (p == q) && (n == m)

unfoldable pub is_marked : List Mark → Mark → Bool
unfolding mark_eq
is_marked marks k = any (mark_eq k) marks

-- The variables of `Extract` that change while it runs.
pub record Progress : Type 0 where
  pub nodes : ℕ
  pub emitted : ℕ
  pub selectors : ℕ
  pub used : List Mark
  pub ignored : List Mark
  pub image_pages : List ℕ

-- `used` or `ignored`
pub data Marking : Type 0 where
  as_used : Marking
  as_ignored : Marking

unfoldable pub mark : Marking → Mark → Run Progress (Unit {0})
mark as_used k s = inr (tt, record s { used = k ∷ s.used })
mark as_ignored k s = inr (tt, record s { ignored = k ∷ s.ignored })

-- A range whose numbers are not negative.
pub record Span : Type 0 where
  pub page : ℕ
  pub first : ℕ
  pub last : ℕ
  pub from_column : ℕ
  pub to_column : ℕ

unfoldable pub natural : ℤ → Option ℕ
natural (pos n) = some n
natural (negsuc n) = none

unfoldable pub span_of : Option ℕ → Option ℕ → Option ℕ → Option ℕ → Option ℕ → Option Span
span_of (some p) (some a) (some b) (some c) (some d) =
    some (record { page = p; first = a; last = b; from_column = c; to_column = d })
span_of p a b c d = none

-- The end of the part of a line: exclusive, as in a slice_of.
unfoldable pub column_from : Span → ℕ → ℕ
column_from r n = if (n == r.first) && ltb 0 r.from_column then r.from_column - 1 else 0

unfoldable pub column_to : Span → ℕ → Text → ℕ
column_to r n line = if (n == r.last) && ltb 0 r.to_column then r.to_column else length line

unfoldable pub is_column_range : Span → ℕ → Text → Bool
unfolding column_from column_to
is_column_range r n line =
    leb (column_from r n) (column_to r n line)
    && (leb (column_to r n line) (length line)
        && not ((n == r.first) && (ltb 0 r.from_column && leb (length line) (column_from r n))))

-- `line[from:to]`
unfoldable pub slice_of : ℕ → ℕ → Text → Text
slice_of from to line = take (to - from) (drop from line)

-- The loop over the lines from the number `n` on.
unfoldable pub select_lines : Marking → Span → ℕ → List Text → Run Progress (List Text)
unfolding is_column_range slice_of mark column_from column_to
select_lines kind r n [] = pure []
select_lines kind r n (line ∷ lines) = do
  require (is_column_range r n line) (codes "invalid columns")
  mark kind (r.page, n)
  later ← select_lines kind r (suc n) lines
  pure (slice_of (column_from r n) (column_to r n line) line ∷ later)

unfoldable pub is_span : Span → IndexedPage → Bool
is_span r p = leb 1 r.first && (leb r.first r.last && leb r.last (length p.lines))

unfoldable pub select_page : Marking → Span → Option IndexedPage → Run Progress Text
unfolding is_span select_lines
select_page kind r none = fail (codes "invalid source range")
select_page kind r (some p) = do
  require (is_span r p) (codes "invalid source range")
  require (not p.requires_ocr) (codes "page requires OCR")
  lines ← select_lines kind r r.first (take (suc (r.last - r.first)) (drop (r.first - 1) p.lines))
  pure (join (10 ∷ []) lines)

unfoldable pub select_span : Marking → Pages → Option Span → Run Progress Text
unfolding select_page page_at
select_span kind ps none = fail (codes "invalid source range")
select_span kind ps (some r) = select_page kind r (page_at ps r.page)

-- `selectRange`
unfoldable pub select_range : Marking → Pages → Range → Run Progress Text
unfolding select_span span_of natural
select_range kind ps r = select_span kind ps (
    span_of (natural r.page) (natural r.start_line) (natural r.end_line) (natural r.start_column)
      (natural r.end_column))

-- The loop over `mapping.Ignored`.
unfoldable pub ignore_all : Pages → List Range → Run Progress (Unit {0})
unfolding select_range
ignore_all ps [] = pure tt
ignore_all ps (r ∷ rs) = do
  _ ← labelled (codes "ignored") (select_range as_ignored ps r)
  ignore_all ps rs
