-- ===== src/PdfSource/Read/Ranges.antt =====
-- What a document that was read has: the pages of its range, in their order.
use dzzzr_cli.Base.{
  ℕ, suc, ◌-◌, ◌≤◌, ◌≡◌, refl, sym, ap, ◌&&◌, inl, inr, ◌⊎◌, List, ◌∷◌, arith, ltb, leb, Text,
  codes, has_prefix, Bool-cases,
}
use dzzzr_cli.PdfSource.Pages.{PdfPage}
use dzzzr_cli.PdfSource.Read.{
  PdfDocument, PdfLibrary, is_page_range, is_pdf, last_page, from_one, page_then, read_pages,
  document_of, read_range, read,
}

-- What stands behind a document: the number of pages, the last page of the range, and the pages.
pub record IsDocument (lib : PdfLibrary) (content : Text) (start last : ℕ) (doc : PdfDocument)
    : Type 0 where
  pub total : ℕ
  pub end : ℕ
  pub opened : lib.open_pdf content ≡ inr total
  pub ends : last_page total start last ≡ end
  pub start_end : start ≤ end
  pub end_total : end ≤ total
  pub counted : doc.page_count ≡ total
  pub more : doc.has_more ≡ ltb end total
  pub read_all : read_pages lib content (suc end - start) start 0 ≡ inr doc.pages

module _ (lib : PdfLibrary) (content : Text) where
  document_of-inr :
      (total start end : ℕ) (r : Text ⊎ List PdfPage) (doc : PdfDocument)
      → document_of lib total start end r ≡ inr doc
      → (doc.page_count ≡ total) × ((doc.has_more ≡ ltb end total) × (r ≡ inr doc.pages))
  unfolding document_of
  document_of-inr total start end (inl err) doc h = cc h
  document_of-inr total start end (inr ps) doc h =
      let made : PdfDocument = record {
        page_count = total;
        start_page = start;
        end_page = end;
        has_more = ltb end total;
        pages = ps;
      } in
      let same : made ≡ doc = cc h in
      (
        sym (ap (λ d. d.page_count) same),
        (sym (ap (λ d. d.has_more) same), ap (λ d. inr d.pages) same),
      )

  read_range-IsDocument :
      (start last : ℕ) (r : Text ⊎ ℕ) (doc : PdfDocument)
      → lib.open_pdf content ≡ r
      → read_range lib content start last r ≡ inr doc
      → IsDocument lib content start last doc
  unfolding read_range
  read_range-IsDocument start last (inl err) doc o h = cc h
  read_range-IsDocument start last (inr total) doc o h =
      let end = last_page total start last in
      elim (Bool-cases (leb start end && leb end total)) [
        | inr none_selected ↦ cc (rw none_selected at h)
        | inl selects ↦
            let (counted, (more, all)) = document_of-inr total start end _ doc (rw selects at h) in
            record {
              total = total;
              end = end;
              opened = o;
              ends = refl;
              start_end = ground (arith, selects);
              end_total = ground (arith, selects);
              counted = counted;
              more = more;
              read_all = all;
            }
      ]

  pub read-IsDocument :
      (start last : ℕ) (doc : PdfDocument)
      → read lib content (suc start) last ≡ inr doc
      → IsDocument lib content (suc start) last doc
  unfolding read from_one
  read-IsDocument start last doc h = elim (Bool-cases (is_pdf content)) [
    | inr bad ↦ cc (rw bad at h)
    | inl good ↦ elim (Bool-cases (has_prefix (codes "%PDF-") content)) [
      | inr bad ↦ cc (rw (good, bad) at h)
      | inl headed ↦ elim (Bool-cases (is_page_range (suc start) last)) [
        | inr bad ↦ cc (rw (good, headed, bad) at h)
        | inl range ↦
            read_range-IsDocument (suc start) last _ doc refl (rw (good, headed, range) at h)
      ]
    ]
  ]

  pub page_then-inr :
      (n : ℕ) (r : Text ⊎ (PdfPage × ℕ)) (later : ℕ → Text ⊎ List PdfPage) (docs : List PdfPage)
      → page_then lib n r later ≡ inr docs
      → (p : PdfPage) × (images : ℕ) × (rest : List PdfPage) × (r ≡ inr (p, images))
        × (later images ≡ inr rest)
        × (record p { number = n } ∷ rest ≡ docs)
  unfolding page_then
  page_then-inr n (inl err) later docs h = cc h
  page_then-inr n (inr (p, images)) later docs h = go (later images) refl h
    where
      go :
          (r : Text ⊎ List PdfPage)
          → later images ≡ r
          → (elim r [ inl err ↦ inl err | inr ps ↦ inr (record p { number = n } ∷ ps) ]) ≡ inr docs
          → (q : PdfPage) × (i : ℕ) × (rest : List PdfPage) × (◌≡◌ {A = Text ⊎ (PdfPage × ℕ)}
              (inr (p, images))
              (inr (q, i)))
            × (later i ≡ inr rest)
            × (record q { number = n } ∷ rest ≡ docs)
      go (inl err) e x = cc x
      go (inr ps) e x = (p, images, ps, refl, e, cc x)
