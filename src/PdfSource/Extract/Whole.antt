-- ===== src/PdfSource/Extract/Whole.antt =====
-- The pages that are indexed are those of the document, all of them.
use dzzzr_cli.Base.{
  ℕ, zero, suc, ◌+◌, ◌-◌, ◌≤◌, ◌<◌, ◌≡◌, refl, sym, ap, ◌∙◌, subst, Bool, true, false, Option, some,
  inl, inr, ◌⊎◌, List, [], ◌∷◌, arith, ltb, ◌==◌, Text, Bool-cases,
}
use dzzzr_cli.PdfSource.Pages.{PdfPage, Pages, page_at, index_page}
use dzzzr_cli.PdfSource.Read.{max_pages, PdfDocument, read_pages, read}
use dzzzr_cli.PdfSource.Read.Ranges.{IsDocument, read-IsDocument, page_then-inr}
use dzzzr_cli.PdfSource.Select.{Reader}
use dzzzr_cli.PdfSource.Extract.{
  Tools, Indexed, max_document_pages, max_indexed_bytes, add_pages, round_end, index_pages,
  pages_length, after_round, unless_last, round_then, read_then, index_rounds,
}
use dzzzr_cli.PdfSource.Extract.Rounds.{more-ten}

suc-shift : (n left : ℕ) → suc n + left ≡ n + suc left
suc-shift n left = omega arith

module _ (o : Reader) (t : Tools) (content : Text) where
  -- Page `n` was read, and is the one that is indexed under that number.
  unfoldable pub IsIndexed : Pages → ℕ → Type 0
  IsIndexed ps n =
      (p : PdfPage) × (images : ℕ) × (images' : ℕ) × (t.pdf.page content n images
        ≡ inr (p, images'))
      × (page_at ps n ≡ some (index_page t.hash (record p { number = n })))

  -- Each page before number `n` is.
  UpTo : Pages → ℕ → Type 0
  UpTo ps n = (j : ℕ) → 1 ≤ j → j < n → IsIndexed ps j

  UpTo-suc :
      (ps : Pages) (n images images' : ℕ) (p : PdfPage)
      → t.pdf.page content n images ≡ inr (p, images')
      → UpTo ps n
      → UpTo (index_page t.hash (record p { number = n }) ∷ ps) (suc n)
  unfolding UpTo IsIndexed page_at index_page
  UpTo-suc ps n images images' p h before j one lt = elim (Bool-cases (n == j)) [
    | inl here ↦
        let same : n ≡ j = ground (arith, here) in
        subst (IsIndexed (index_page t.hash (record p { number = n }) ∷ ps)) same
          (p, images, images', h, (let this : (n == n) ≡ true = ground arith in rw this refl))
    | inr there ↦
        let (q, i, i', r, e) = before j one (ground (arith, there)) in (q, i, i', r, rw there e)
  ]

  read_pages-UpTo :
      (left n images : ℕ) (docs : List PdfPage) (ps : Pages)
      → read_pages t.pdf content left n images ≡ inr docs
      → UpTo ps n
      → UpTo (add_pages (index_pages o t docs) ps) (n + left)
  unfolding read_pages add_pages index_pages
  read_pages-UpTo zero n images docs ps h before =
      let none_left : [] ≡ docs = cc h in
      let at : n ≡ n + 0 = omega arith in
      subst (λ d. UpTo (add_pages (index_pages o t d) ps) (n + 0)) none_left
        (subst (UpTo ps) at before)
  read_pages-UpTo (suc left) n images docs ps h before =
      let (p, images', rest, r, later, same) = page_then-inr t.pdf content n _ _ docs h in
      subst (λ d. UpTo (add_pages (index_pages o t d) ps) (n + suc left)) same
        (subst
          (UpTo
            (add_pages (index_pages o t rest) (index_page t.hash (record p { number = n }) ∷ ps)))
          (suc-shift n left)
          (read_pages-UpTo left (suc n) images' rest _ later
            (UpTo-suc ps n images images' p r before)))

  after_round-pages :
      (doc : PdfDocument) (bytes : ℕ) (ps : Pages) (indexed' : Indexed)
      → after_round o t doc (bytes, ps) ≡ inr indexed'
      → add_pages (index_pages o t doc.pages) ps ≡ indexed'.1
  unfolding after_round
  after_round-pages doc bytes ps indexed' h =
      elim (Bool-cases (ltb max_document_pages doc.page_count)) [
        | inl many ↦ cc (rw many at h)
        | inr few ↦
            elim (Bool-cases
              (ltb max_indexed_bytes (bytes + pages_length (index_pages o t doc.pages)))) [
                | inl long ↦ cc (rw (few, long) at h)
                | inr fits ↦
                    let same : (
                      bytes + pages_length (index_pages o t doc.pages),
                      add_pages (index_pages o t doc.pages) ps,
                    )
                        ≡ indexed' =
                      cc (rw (few, fits) at h) in
                    ap (λ i. i.1) same
              ]
      ]

  -- After a round, the pages up to the last one of its range.
  round-UpTo :
      (start last bytes : ℕ) (ps : Pages) (doc : PdfDocument) (indexed' : Indexed)
      → (d : IsDocument t.pdf content (suc start) last doc)
      → after_round o t doc (bytes, ps) ≡ inr indexed'
      → UpTo ps (suc start)
      → UpTo indexed'.1 (suc d.end)
  round-UpTo start last bytes ps doc indexed' d h before =
      let at : suc start + (suc d.end - suc start) ≡ suc d.end = omega (arith, d.start_end) in
      subst (λ q. UpTo q (suc d.end)) (after_round-pages doc bytes ps indexed' h)
        (subst (UpTo (add_pages (index_pages o t doc.pages) ps)) at
          (read_pages-UpTo (suc d.end - suc start) (suc start) 0 doc.pages ps d.read_all before))

  WholeFrom : ℕ → Type 0
  WholeFrom fuel =
      (start count : ℕ) (indexed : Indexed)
      → (count ≡ 0) ⊎ (t.pdf.open_pdf content ≡ inr count)
      → UpTo indexed.1 (suc start)
      → (total : ℕ) (ps : Pages)
      → index_rounds o t content fuel (suc start) count indexed ≡ some (inr (total, ps))
      → (t.pdf.open_pdf content ≡ inr total) × UpTo ps (suc total)

  index_rounds-UpTo : (fuel : ℕ) → WholeFrom fuel
  unfolding index_rounds WholeFrom
  index_rounds-UpTo zero start count indexed c before total ps h = cc h
  index_rounds-UpTo (suc fuel) start count indexed c before total ps h =
      reading (index_rounds-UpTo fuel)
        (read t.pdf content (suc start) (round_end (suc start) count)) refl h
    where
      next : PdfDocument → Indexed → Option (Text ⊎ (ℕ × Pages))
      next doc i = index_rounds o t content fuel (suc start + max_pages) doc.page_count i

      Whole : Type 0
      Whole = (t.pdf.open_pdf content ≡ inr total) × UpTo ps (suc total)

      more :
          WholeFrom fuel
          → (doc : PdfDocument) (i : Indexed) (b : Bool)
          → (d : IsDocument t.pdf content (suc start) (round_end (suc start) count) doc)
          → UpTo i.1 (suc d.end)
          → doc.has_more ≡ b
          → unless_last o t b (inr (doc.page_count, i.1)) (next doc i) ≡ some (inr (total, ps))
          → Whole
      more later doc i false d now e x =
          let last : ltb d.end d.total ≡ false = sym d.more ∙ e in
          let ends : d.end ≡ d.total = ground (arith, last, d.end_total) in
          let counts : doc.page_count ≡ total = cc x in
          let at : suc d.end ≡ suc total = ap suc (ends ∙ sym d.counted ∙ counts) in
          let same : i.1 ≡ ps = cc x in
          (
            d.opened ∙ ap inr (sym d.counted ∙ counts),
            subst (λ q. UpTo q (suc total)) same (subst (UpTo i.1) at now),
          )
      more later doc i true d now e x =
          let (before, ten) = more-ten o t content start count doc c d e in
          let opened : t.pdf.open_pdf content ≡ inr doc.page_count =
            d.opened ∙ ap inr (sym d.counted) in
          let same : suc start + max_pages ≡ suc (start + max_pages) = omega arith in
          later (start + max_pages) doc.page_count i (inr opened)
            (subst (UpTo i.1) (sym ten ∙ same) now) total ps
            (subst (λ n. index_rounds o t content fuel n doc.page_count i ≡ some (inr (total, ps)))
              same x)

      round :
          WholeFrom fuel
          → (doc : PdfDocument) (r : Text ⊎ Indexed)
          → read t.pdf content (suc start) (round_end (suc start) count) ≡ inr doc
          → after_round o t doc indexed ≡ r
          → round_then o t doc r next ≡ some (inr (total, ps))
          → Whole
      round later doc (inl err) r e x = cc x
      round later doc (inr i) r e x =
          let d = read-IsDocument t.pdf content start _ doc r in
          more later doc i doc.has_more d (round-UpTo start _ indexed.0 indexed.1 doc i d e before)
            refl x

      reading :
          WholeFrom fuel
          → (r : Text ⊎ PdfDocument)
          → read t.pdf content (suc start) (round_end (suc start) count) ≡ r
          → read_then o t r indexed next ≡ some (inr (total, ps))
          → Whole
      reading later (inl err) r x = cc x
      reading later (inr doc) r x = round later doc (after_round o t doc indexed) r refl x

  UpTo-zero : UpTo [] 1
  unfolding UpTo
  UpTo-zero j one lt = absurd (omega arith)

  -- When the rounds end without an error, their count is the document's, and each page from 1 to it was
  -- read and is the one indexed under its number.
  pub index_rounds-IsIndexed :
      (fuel count : ℕ) (ps : Pages)
      → index_rounds o t content fuel 1 0 (0, []) ≡ some (inr (count, ps))
      → (n : ℕ) → 1 ≤ n
      → n ≤ count
      → (t.pdf.open_pdf content ≡ inr count) × IsIndexed ps n
  unfolding WholeFrom UpTo
  index_rounds-IsIndexed fuel count ps h n one le =
      let (opened, up) = index_rounds-UpTo fuel 0 0 (0, []) (inl refl) UpTo-zero count ps h in
      (opened, up n one (omega arith))
