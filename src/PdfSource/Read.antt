-- ===== src/PdfSource/Read.antt =====
-- pdfsource/pdf.go, `Read`: the range of pages of one call. The two PDF libraries are parameters: how
-- many pages there are, and what is on one of them.
pub mod Ranges
use dzzzr_cli.Base.{
  ℕ, zero, suc, ◌+◌, ◌-◌, ◌≡◌, refl, Bool, true, false, not, ◌&&◌, ◌||◌, inl, inr, ◌⊎◌, List, [],
  ◌∷◌, ltb, leb, ◌==◌, if◌then◌else◌, length, Text, codes, has_prefix,
}
use dzzzr_cli.PdfSource.Run.{with_label}
use dzzzr_cli.PdfSource.Pages.{PdfPage}

abbrev pub max_pdf_bytes : ℕ
max_pdf_bytes = 33554432

abbrev pub max_pages : ℕ
max_pages = 10

pub record PdfDocument : Type 0 where
  pub page_count : ℕ
  pub start_page : ℕ
  pub end_page : ℕ
  pub has_more : Bool
  pub pages : List PdfPage

-- `page` has the bytes of images so far, and those after it.
pub record PdfLibrary : Type 0 where
  pub open_pdf : Text → Text ⊎ ℕ
  pub page : Text → ℕ → ℕ → Text ⊎ (PdfPage × ℕ)

unfoldable pub is_page_range : ℕ → ℕ → Bool
is_page_range start last =
    leb 1 start && (last == 0 || (leb start last && ltb (last - start) max_pages))

unfoldable pub is_pdf : Text → Bool
is_pdf content = not (length content == 0 || ltb max_pdf_bytes (length content))

unfoldable pub last_page : ℕ → ℕ → ℕ → ℕ
last_page total start last =
    let ten = start + max_pages - 1 in
    if last == 0 then (if ltb total ten then total else ten) else last

unfoldable pub from_one : ℕ → ℕ
from_one zero = 1
from_one (suc start) = suc start

module _ (lib : PdfLibrary) where
  open lib use {open_pdf, page}

  unfoldable pub page_then :
      ℕ → Text ⊎ (PdfPage × ℕ) → (ℕ → Text ⊎ List PdfPage) → Text ⊎ List PdfPage
  page_then n (inl err) later = inl err
  page_then n (inr (p, images)) later = elim (later images) [
    | inl err ↦ inl err
    | inr ps ↦ inr (record p { number = n } ∷ ps)
  ]

  -- The loop over the pages: `left` of them, from `n` on.
  unfoldable pub read_pages : Text → ℕ → ℕ → ℕ → Text ⊎ List PdfPage
  unfolding page_then
  read_pages content zero n images = inr []
  read_pages content (suc left) n images =
      page_then n (page content n images) (read_pages content left (suc n))

  unfoldable pub document_of : ℕ → ℕ → ℕ → Text ⊎ List PdfPage → Text ⊎ PdfDocument
  document_of total start last (inl err) = inl err
  document_of total start last (inr ps) = inr (record {
    page_count = total;
    start_page = start;
    end_page = last;
    has_more = ltb last total;
    pages = ps;
  })

  unfoldable pub read_range : Text → ℕ → ℕ → Text ⊎ ℕ → Text ⊎ PdfDocument
  unfolding last_page document_of read_pages
  read_range content start last (inl err) = inl err
  read_range content start last (inr total) =
      let end = last_page total start last in
      if not (leb start end && leb end total)
      then inl (codes "page range does not select existing pages")
      else document_of total start end (read_pages content (suc end - start) start 0)

  -- `Read`; a `last` of 0 is for up to ten pages.
  unfoldable pub read : Text → ℕ → ℕ → Text ⊎ PdfDocument
  unfolding is_pdf is_page_range read_range from_one
  read content start last =
      if not (is_pdf content)
      then inl (codes "PDF size must be between 1 and 33554432 bytes")
      else if not (has_prefix (codes "%PDF-") content)
      then inl (codes "input does not have a PDF header")
      else if not (is_page_range (from_one start) last)
      then inl (codes "invalid page range: select at most ten pages, 1-based inclusive")
      else read_range content (from_one start) last (open_pdf content)
