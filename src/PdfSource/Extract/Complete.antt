-- ===== src/PdfSource/Extract/Complete.antt =====
-- What an extraction leaves no line of the pages out of, and where its content is from.
use dzzzr_cli.Base.{
  ℕ, ◌≤◌, ◌<◌, ◌≡◌, refl, sym, ap, subst, true, ◌&&◌, Option, none, some, inl, inr, ◌⊎◌, List, [],
  ◌∷◌, arith, &&-eq-true, ltb, ◌==◌, length, Text, text_eq, Bool-cases,
}
use dzzzr_cli.PdfSource.Run.{Gives}
use dzzzr_cli.PdfSource.Run.Rules.{Gives-bind, Gives-fail}
use dzzzr_cli.PdfSource.Pages.{max_mapping_bytes, utf8_length, Pages, Mark, Progress}
use dzzzr_cli.PdfSource.Pages.Drawn.{Within, ignore_all-Within}
use dzzzr_cli.PdfSource.Json.{JsonTree, Extracted}
use dzzzr_cli.PdfSource.Select.{Reader, Source}
use dzzzr_cli.PdfSource.Resolve.Sourced.{IsSourced}
use dzzzr_cli.PdfSource.Resolve.Selected.{visit-Within}
use dzzzr_cli.PdfSource.Resolve.Provenance.{resolve-IsSourced}
use dzzzr_cli.PdfSource.Extract.Covered.{IsCovered, missing_pages-IsCovered}
use dzzzr_cli.PdfSource.Missing.{missing_pages}
use dzzzr_cli.PdfSource.Extract.{
  Mapping, Tools, Extraction, is_version_one, new_progress, are_upload_urls, first_absent,
  index_rounds, resolve_output, resolve_all, extraction_of, unless_missing, finish_extract,
  source_of, extract_bound, extract_pages_of, max_rounds, count_distinct, after_rounds,
  extract_mapping, extract_decoded, extract,
}

resolve_output-IsSourced :
    (o : Reader) (t : Tools) (src : Source) (output : Option JsonTree)
    → Gives (Within src.pages) (IsSourced o src) (resolve_output o t src output)
unfolding resolve_output
resolve_output-IsSourced o t src none = Gives-bind _ _ (visit-Within o src 0) λ _ _. Gives-fail _
resolve_output-IsSourced o t src (some output) = resolve-IsSourced o src output 0

resolve_all-IsSourced :
    (o : Reader) (t : Tools) (src : Source) (m : Mapping)
    → Gives (Within src.pages) (IsSourced o src) (resolve_all o t src m)
unfolding resolve_all
resolve_all-IsSourced o t src m =
    Gives-bind _ _ (ignore_all-Within src.pages m.ignored)
      λ _ _. resolve_output-IsSourced o t src m.output

new_progress-Within : (ps : Pages) → Within ps new_progress
unfolding Within
new_progress-Within ps = (omega arith, (omega arith, (tt, tt)))

-- What stands behind an extraction: the mapping, the pages that were indexed, what was resolved, and
-- how far the resolution had come.
pub record IsExtraction (o : Reader) (t : Tools) (content mapping_json : Text) (e : Extraction)
    : Type 0 where
  pub m : Mapping
  pub count : ℕ
  pub ps : Pages
  pub value : Extracted
  pub s : Progress
  pub decoded : t.decode_mapping mapping_json ≡ inr m
  pub of_content : text_eq m.source_sha256 (t.hash content) ≡ true
  pub indexed : index_rounds o t content max_rounds 1 0 (0, []) ≡ some (inr (count, ps))
  pub are_uploads : are_upload_urls o t m.image_urls ≡ true
  pub are_bound : first_absent ps m.image_urls ≡ none
  pub resolved : resolve_all o t (source_of o t m ps) m new_progress ≡ inr (value, s)
  pub encoded : t.encode value ≡ inr e.content
  pub fits : utf8_length e.content ≤ max_mapping_bytes
  pub counted :
      (e.page_count ≡ count)
      × ((e.referenced_lines ≡ count_distinct s.used)
          × (e.ignored_lines ≡ count_distinct s.ignored))
  pub has_selector : 0 < s.selectors
  pub is_sourced : IsSourced o (source_of o t m ps) value
  pub within : Within ps s
  pub is_covered : IsCovered ps s count 1

module _ (o : Reader) (t : Tools) (m : Mapping) (count : ℕ) (ps : Pages) where
  extraction_of-inr :
      (s : Progress) (r : Text ⊎ Text) (e : Extraction)
      → extraction_of o t m count s r ≡ inr e
      → (r ≡ inr e.content)
        × ((utf8_length e.content ≤ max_mapping_bytes)
            × ((e.page_count ≡ count)
                × ((e.referenced_lines ≡ count_distinct s.used)
                    × (e.ignored_lines ≡ count_distinct s.ignored))))
  unfolding extraction_of
  extraction_of-inr s (inl err) e h = cc h
  extraction_of-inr s (inr content) e h =
      elim (Bool-cases (ltb max_mapping_bytes (utf8_length content))) [
        | inl long ↦ cc (rw long at h)
        | inr fits ↦
            let made : Extraction = record {
              content = content;
              source_sha256 = m.source_sha256;
              page_count = count;
              referenced_lines = count_distinct s.used;
              ignored_lines = count_distinct s.ignored;
            } in
            let same : made ≡ e = cc (rw fits at h) in
            let few : utf8_length content ≤ max_mapping_bytes = ground (arith, fits) in
            (
              ap (λ x. inr x.content) same,
              (
                subst (λ x. utf8_length x.content ≤ max_mapping_bytes) same few,
                (
                  sym (ap (λ x. x.page_count) same),
                  (sym (ap (λ x. x.referenced_lines) same), sym (ap (λ x. x.ignored_lines) same)),
                ),
              ),
            )
      ]

  unless_missing-inr :
      (value : Extracted) (s : Progress) (r : Text ⊎ List Mark) (e : Extraction)
      → unless_missing o t m count value s r ≡ inr e
      → (r ≡ inr []) × (extraction_of o t m count s (t.encode value) ≡ inr e)
  unfolding unless_missing
  unless_missing-inr value s (inl err) e h = cc h
  unless_missing-inr value s (inr []) e h = (refl, h)
  unless_missing-inr value s (inr (k ∷ ks)) e h = cc h

  finish_extract-inr :
      (r : Text ⊎ (Extracted × Progress)) (e : Extraction)
      → finish_extract o t m count ps r ≡ inr e
      → (value : Extracted) × (s : Progress) × (r ≡ inr (value, s))
        × (0 < s.selectors)
        × (unless_missing o t m count value s (missing_pages ps s count 1 []) ≡ inr e)
  unfolding finish_extract
  finish_extract-inr (inl err) e h = cc h
  finish_extract-inr (inr (value, s)) e h = elim (Bool-cases (s.selectors == 0)) [
    | inl no_selector ↦ cc (rw no_selector at h)
    | inr selectors ↦ (value, s, refl, ground (arith, selectors), rw selectors at h)
  ]

module _ (o : Reader) (t : Tools) (content mapping_json : Text) (e : Extraction) where
  extract_bound-IsExtraction :
      (m : Mapping) (count : ℕ) (ps : Pages) (unbound : Option Text)
      → are_upload_urls o t m.image_urls ≡ true
      → first_absent ps m.image_urls ≡ unbound
      → t.decode_mapping mapping_json ≡ inr m
      → text_eq m.source_sha256 (t.hash content) ≡ true
      → index_rounds o t content max_rounds 1 0 (0, []) ≡ some (inr (count, ps))
      → extract_bound o t m count ps unbound ≡ inr e
      → IsExtraction o t content mapping_json e
  unfolding extract_bound source_of
  extract_bound-IsExtraction m count ps (some id) a b d c i h = cc h
  extract_bound-IsExtraction m count ps none a b d c i h =
      let (value, s, r, some_selector, u) = finish_extract-inr o t m count ps _ e h in
      let (no_missing, x) = unless_missing-inr o t m count ps value s _ e u in
      let (content_of, (few, counts)) = extraction_of-inr o t m count ps s _ e x in
      let (sourced, inside) =
        (resolve_all-IsSourced o t (source_of o t m ps) m).at new_progress (new_progress-Within ps)
          value s r in
      record {
        m = m;
        count = count;
        ps = ps;
        value = value;
        s = s;
        decoded = d;
        of_content = c;
        indexed = i;
        are_uploads = a;
        are_bound = b;
        resolved = r;
        encoded = content_of;
        fits = few;
        counted = counts;
        has_selector = some_selector;
        is_sourced = sourced;
        within = inside;
        is_covered = (missing_pages-IsCovered ps s count 1 [] no_missing).1;
      }

  extract_pages_of-IsExtraction :
      (m : Mapping) (r : Text ⊎ (ℕ × Pages))
      → are_upload_urls o t m.image_urls ≡ true
      → t.decode_mapping mapping_json ≡ inr m
      → text_eq m.source_sha256 (t.hash content) ≡ true
      → index_rounds o t content max_rounds 1 0 (0, []) ≡ some r
      → extract_pages_of o t m r ≡ inr e
      → IsExtraction o t content mapping_json e
  unfolding extract_pages_of
  extract_pages_of-IsExtraction m (inl err) a d c i h = cc h
  extract_pages_of-IsExtraction m (inr (count, ps)) a d c i h =
      extract_bound-IsExtraction m count ps _ a refl d c i h

  extract_mapping-IsExtraction :
      (m : Mapping)
      → t.decode_mapping mapping_json ≡ inr m
      → extract_mapping o t content m ≡ some (inr e)
      → IsExtraction o t content mapping_json e
  unfolding extract_mapping after_rounds
  extract_mapping-IsExtraction m d h =
      elim (Bool-cases (is_version_one m.version && text_eq m.source_sha256 (t.hash content))) [
        | inr other ↦ cc (rw other at h)
        | inl current ↦ elim (Bool-cases (are_upload_urls o t m.image_urls)) [
          | inr bad ↦ cc (rw (current, bad) at h)
          | inl good ↦
              by_rounds good (&&-eq-true _ _ current).1
                (index_rounds o t content max_rounds 1 0 (0, [])) refl (rw (current, good) at h)
        ]
      ]
    where
      by_rounds :
          are_upload_urls o t m.image_urls ≡ true
          → text_eq m.source_sha256 (t.hash content) ≡ true
          → (r : Option (Text ⊎ (ℕ × Pages))) → index_rounds o t content max_rounds 1 0 (0, []) ≡ r
          → after_rounds o t m r ≡ some (inr e)
          → IsExtraction o t content mapping_json e
      by_rounds a c none i x = cc x
      by_rounds a c (some r) i x = extract_pages_of-IsExtraction m r a d c i (cc x)

  -- When an extraction succeeds, its content encodes a value whose every text, integer and truth value
  -- is drawn, through some selector, from the pages that were indexed, or from the address that the
  -- mapping gives to an image of these pages, where all such addresses are absolute ones of HTTP or
  -- HTTPS and given to images of the pages; each line of each page from 1 to
  -- the last that is not blank is marked as used or ignored, and what is marked are lines of readable
  -- pages; the mapping is for this content, and the content, what was emitted and the nodes visited
  -- are within their limits.
  pub extract-IsExtraction :
      extract o t content mapping_json ≡ some (inr e) → IsExtraction o t content mapping_json e
  unfolding extract extract_decoded
  extract-IsExtraction h = elim (Bool-cases (ltb max_mapping_bytes (length mapping_json))) [
    | inl long ↦ cc (rw long at h)
    | inr fits ↦ by_decoder (t.decode_mapping mapping_json) refl (rw fits at h)
  ]
    where
      by_decoder :
          (r : Text ⊎ Mapping)
          → t.decode_mapping mapping_json ≡ r
          → extract_decoded o t content r ≡ some (inr e)
          → IsExtraction o t content mapping_json e
      by_decoder (inl err) d x = cc x
      by_decoder (inr m) d x = extract_mapping-IsExtraction m d x
