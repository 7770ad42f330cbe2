-- ===== src/PdfSource/Extract/Rounds.antt =====
-- The rounds of ten pages come to an end: the pages of a document are all read.
use dzzzr_cli.Base.{
  ℕ, zero, suc, ◌+◌, ◌*◌, ◌≤◌, ◌<◌, ◌≡◌, refl, sym, ap, ◌∙◌, subst, Bool, true, false, not, ◌&&◌,
  Option, none, some, inl, inr, ◌⊎◌, [], arith, ltb, if◌then◌else◌, length, Text, text_eq,
  Bool-cases,
}
use dzzzr_cli.PdfSource.Pages.{max_mapping_bytes, Pages}
use dzzzr_cli.PdfSource.Read.{max_pages, PdfDocument, last_page, read}
use dzzzr_cli.PdfSource.Read.Ranges.{IsDocument, read-IsDocument}
use dzzzr_cli.PdfSource.Select.{Reader}
use dzzzr_cli.PdfSource.Extract.{
  Mapping, Tools, Extraction, Indexed, max_document_pages, round_end, after_round, unless_last,
  round_then, read_then, index_rounds, max_rounds, is_version_one, are_upload_urls, after_rounds,
  extract_mapping, extract_decoded, extract,
}

-- A round that is not the last is of ten pages, which all come before the last page.
pub last_page-ten :
    (start count total : ℕ)
    → (count ≡ 0) ⊎ (count ≡ total)
    → (end : ℕ) → last_page total (suc start) (round_end (suc start) count) ≡ end
    → ltb end total ≡ true
    → (suc start + max_pages ≤ total) × (suc start + max_pages ≡ suc end)
unfolding last_page round_end
last_page-ten start count total (inl c) end e h = (ground arith, ground arith)
last_page-ten start count total (inr c) end e h = (ground arith, ground arith)

abbrev Returns : {A : Type 0} → Option A → Type 0
Returns {A = A} r = (x : A) × (r ≡ some x)

Returns-if :
    {A : Type 0} (b : Bool) (x y : Option A) → Returns x → Returns y → Returns (if b then x else y)
Returns-if true x y ex ey = ex
Returns-if false x y ex ey = ey

module _ (o : Reader) (t : Tools) (content : Text) where
  after_round-few :
      (doc : PdfDocument) (indexed indexed' : Indexed)
      → after_round o t doc indexed ≡ inr indexed'
      → doc.page_count ≤ max_document_pages
  unfolding after_round
  after_round-few doc (bytes, ps) indexed' h =
      elim (Bool-cases (ltb max_document_pages doc.page_count)) [
        | inl many ↦ cc (rw many at h)
        | inr few ↦ ground (arith, few)
      ]

  count_of :
      (count total : ℕ)
      → t.pdf.open_pdf content ≡ inr total
      → (count ≡ 0) ⊎ (t.pdf.open_pdf content ≡ inr count)
      → (count ≡ 0) ⊎ (count ≡ total)
  count_of count total h (inl z) = inl z
  count_of count total h (inr c) = inr (cc (c, h))

  pub more-ten :
      (start count : ℕ) (doc : PdfDocument)
      → (count ≡ 0) ⊎ (t.pdf.open_pdf content ≡ inr count)
      → (d : IsDocument t.pdf content (suc start) (round_end (suc start) count) doc)
      → doc.has_more ≡ true
      → (suc start + max_pages ≤ doc.page_count) × (suc start + max_pages ≡ suc d.end)
  more-ten start count doc c d e =
      let (before, all) =
        last_page-ten start count d.total (count_of count d.total d.opened c) d.end d.ends
          (sym d.more ∙ e) in
      (subst (λ n. suc start + max_pages ≤ n) (sym d.counted) before, all)

  -- That the loop ends from each later round on.
  EndsWith : ℕ → Type 0
  EndsWith fuel =
      (start count : ℕ) (indexed : Indexed)
      → (count ≡ 0) ⊎ (t.pdf.open_pdf content ≡ inr count)
      → start < 512
      → 512 ≤ start + 10 * fuel
      → (r : Text ⊎ (ℕ × Pages)) × (index_rounds o t content fuel (suc start) count indexed
          ≡ some r)

  index_rounds-some : (fuel : ℕ) → EndsWith fuel
  unfolding index_rounds EndsWith
  index_rounds-some zero start count indexed c few enough = absurd (omega arith)
  index_rounds-some (suc fuel) start count indexed c few enough =
      reading (index_rounds-some fuel)
        (read t.pdf content (suc start) (round_end (suc start) count)) refl
    where
      next : PdfDocument → Indexed → Option (Text ⊎ (ℕ × Pages))
      next doc i = index_rounds o t content fuel (suc start + max_pages) doc.page_count i

      more :
          EndsWith fuel
          → (doc : PdfDocument) (i : Indexed) (b : Bool) (all : Text ⊎ (ℕ × Pages))
          → IsDocument t.pdf content (suc start) (round_end (suc start) count) doc
          → doc.page_count ≤ max_document_pages
          → doc.has_more ≡ b
          → Returns (unless_last o t b all (next doc i))
      more later doc i false all d fits e = (all, refl)
      more later doc i true all d fits e =
          let before : suc start + max_pages ≤ doc.page_count =
            (more-ten start count doc c d e).0 in
          let opened : t.pdf.open_pdf content ≡ inr doc.page_count =
            d.opened ∙ ap inr (sym d.counted) in
          let same : suc (start + max_pages) ≡ suc start + max_pages = omega arith in
          subst (λ n. Returns (index_rounds o t content fuel n doc.page_count i)) same
            (later (start + max_pages) doc.page_count i (inr opened) (omega arith) (omega arith))

      round :
          EndsWith fuel
          → (doc : PdfDocument) (r : Text ⊎ Indexed)
          → read t.pdf content (suc start) (round_end (suc start) count) ≡ inr doc
          → after_round o t doc indexed ≡ r
          → Returns (round_then o t doc r next)
      round later doc (inl err) h e = (inl err, refl)
      round later doc (inr i) h e =
          more later doc i doc.has_more _ (read-IsDocument t.pdf content start _ doc h)
            (after_round-few doc indexed i e) refl

      reading :
          EndsWith fuel
          → (r : Text ⊎ PdfDocument)
          → read t.pdf content (suc start) (round_end (suc start) count) ≡ r
          → Returns (read_then o t r indexed next)
      reading later (inl err) h = (inl err, refl)
      reading later (inr doc) h = round later doc (after_round o t doc indexed) h refl

  after_rounds-some :
      (m : Mapping) (r : Option (Text ⊎ (ℕ × Pages))) → Returns r → Returns (after_rounds o t m r)
  unfolding after_rounds
  after_rounds-some m none (x, e) = cc e
  after_rounds-some m (some all) h = (_, refl)

  extract_mapping-some : (m : Mapping) → Returns (extract_mapping o t content m)
  unfolding extract_mapping EndsWith
  extract_mapping-some m =
      Returns-if (not (is_version_one m.version && text_eq m.source_sha256 (t.hash content))) _ _
        (_, refl)
        (Returns-if (not (are_upload_urls o t m.image_urls)) _ _ (_, refl)
          (after_rounds-some m _
            (index_rounds-some max_rounds 0 0 (0, []) (inl refl) (omega arith) (omega arith))))

  extract_decoded-some : (r : Text ⊎ Mapping) → Returns (extract_decoded o t content r)
  unfolding extract_decoded
  extract_decoded-some (inl err) = (_, refl)
  extract_decoded-some (inr m) = extract_mapping-some m

  -- For any content and mapping an extraction returns, with a result or an error: the rounds do not
  -- run out.
  pub extract_terminates :
      (mapping_json : Text) → (r : Text ⊎ Extraction) × (extract o t content mapping_json ≡ some r)
  unfolding extract
  extract_terminates mapping_json =
      Returns-if (ltb max_mapping_bytes (length mapping_json)) _ _ (_, refl)
        (extract_decoded-some (t.decode_mapping mapping_json))
