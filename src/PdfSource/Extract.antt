-- ===== src/PdfSource/Extract.antt =====
-- pdfsource/mapping.go, `Extract`. The decoder and the encoder of JSON, the hash, `url.Parse` and the
-- PDF libraries are parameters.
pub mod Covered
pub mod Complete
pub mod Rounds
pub mod Whole
use dzzzr_cli.Base.{
  ℕ, zero, suc, ◌+◌, ◌-◌, ◌≡◌, refl, Bool, true, false, not, ◌&&◌, ◌||◌, Option, none, some, inl,
  inr, ◌⊎◌, List, [], ◌∷◌, ◌++◌, map, any, ltb, leb, ◌==◌, if◌then◌else◌, is_some, length, ℤ, pos,
  negsuc, Text, codes, text_eq, is_empty, trim_space, join, itoa,
}
use dzzzr_cli.PdfSource.Run.{Run, pure, fail, lift, labelled, require, ◌>>=◌, ◌>>◌}
use dzzzr_cli.PdfSource.Pages.{
  max_mapping_bytes, utf8_length, Range, PdfPage, IndexedPage, index_page, Pages, page_at, Mark,
  is_marked, mark_eq, Progress, ignore_all,
}
use dzzzr_cli.PdfSource.Missing.{
  lines_of, missing_lines, is_unread, unread_error, missing_pages, marks_text,
}
use dzzzr_cli.PdfSource.Read.{max_pages, PdfDocument, PdfLibrary, read}
use dzzzr_cli.PdfSource.Json.{JsonTree, Extracted}
use dzzzr_cli.PdfSource.Select.{Reader, Source}
use dzzzr_cli.PdfSource.Resolve.{visit, resolve}

-- `output` is none where the mapping has none.
pub record Mapping : Type 0 where
  pub version : ℤ
  pub source_sha256 : Text
  pub output : Option JsonTree
  pub ignored : List Range
  pub image_urls : List (Text × Text)

pub record Url : Type 0 where
  pub scheme : Text
  pub host : Text
  pub has_user : Bool

pub record Tools : Type 0 where
  pub decode_mapping : Text → Text ⊎ Mapping
  pub hash : Text → Text
  pub parse_url : Text → Option Url
  pub pdf : PdfLibrary
  pub encode : Extracted → Text ⊎ Text

pub record Extraction : Type 0 where
  pub content : Text
  pub source_sha256 : Text
  pub page_count : ℕ
  pub referenced_lines : ℕ
  pub ignored_lines : ℕ

abbrev pub max_document_pages : ℕ
max_document_pages = 512

abbrev pub max_indexed_bytes : ℕ
max_indexed_bytes = 8388608

unfoldable pub is_upload_url : Option Url → Bool
is_upload_url none = false
is_upload_url (some u) =
    (text_eq u.scheme (codes "https") || text_eq u.scheme (codes "http"))
    && (not (is_empty u.host) && not u.has_user)

unfoldable pub lines_length : List Text → ℕ
unfolding utf8_length
lines_length [] = 0
lines_length (line ∷ lines) = utf8_length line + lines_length lines

unfoldable pub pages_length : List IndexedPage → ℕ
unfolding lines_length
pages_length [] = 0
pages_length (p ∷ ps) = lines_length p.lines + pages_length ps

unfoldable pub has_image : Text → Pages → Bool
has_image id [] = false
has_image id (p ∷ ps) = any (text_eq id) p.images || has_image id ps

unfoldable pub first_absent : Pages → List (Text × Text) → Option Text
unfolding has_image
first_absent ps [] = none
first_absent ps ((id, url) ∷ urls) =
    let rest = first_absent ps urls in if has_image id ps then rest else some id

-- The pages that were indexed so far, and the bytes of their lines.
abbrev pub Indexed : Type 0
Indexed = ℕ × Pages

-- The pages of a round go on the map, those that come later in front.
unfoldable pub add_pages : List IndexedPage → Pages → Pages
add_pages [] ps = ps
add_pages (p ∷ more) ps = add_pages more (p ∷ ps)

-- The last page that a round asks for.
unfoldable pub round_end : ℕ → ℕ → ℕ
round_end start count =
    let last = start + max_pages - 1 in
    if start == 1 then 0 else if ltb 0 count && ltb count last then count else last

unfoldable pub is_version_one : ℤ → Bool
is_version_one (pos n) = n == 1
is_version_one (negsuc n) = false

-- `map[[2]int]bool`: how many different marks there are.
unfoldable pub count_distinct : List Mark → ℕ
unfolding is_marked
count_distinct [] = 0
count_distinct (m ∷ ms) = (if is_marked ms m then 0 else 1) + count_distinct ms

-- Enough rounds for 512 pages.
abbrev pub max_rounds : ℕ
max_rounds = 52

abbrev pub new_progress : Progress
new_progress = record {
  nodes = 0;
  emitted = 0;
  selectors = 0;
  used = [];
  ignored = [];
  image_pages = [];
}

module _ (o : Reader) (t : Tools) where
  open t use {decode_mapping, hash, parse_url, pdf, encode}

  unfoldable pub are_upload_urls : List (Text × Text) → Bool
  unfolding is_upload_url
  are_upload_urls [] = true
  are_upload_urls ((id, url) ∷ urls) =
      (length id == 64) && (is_upload_url (parse_url url) && are_upload_urls urls)

  unfoldable pub index_pages : List PdfPage → List IndexedPage
  unfolding index_page
  index_pages ps = map (index_page hash) ps

  -- What one round leaves: an error, all pages, or that it goes on.
  unfoldable pub after_round : PdfDocument → Indexed → Text ⊎ Indexed
  unfolding index_pages pages_length add_pages
  after_round doc (bytes, ps) =
      let total = bytes + pages_length (index_pages doc.pages) in
      if ltb max_document_pages doc.page_count
      then inl (codes "mapping supports at most 512 pages")
      else if ltb max_indexed_bytes total
      then inl (codes "indexed source exceeds 8 MiB")
      else inr (total, add_pages (index_pages doc.pages) ps)

  unfoldable pub unless_last :
      Bool → Text ⊎ (ℕ × Pages) → Option (Text ⊎ (ℕ × Pages)) → Option (Text ⊎ (ℕ × Pages))
  unless_last true all next = next
  unless_last false all next = some all

  unfoldable pub round_then :
      PdfDocument
      → Text ⊎ Indexed
      → (PdfDocument → Indexed → Option (Text ⊎ (ℕ × Pages)))
      → Option (Text ⊎ (ℕ × Pages))
  unfolding unless_last
  round_then doc (inl err) next = some (inl err)
  round_then doc (inr indexed) next =
      unless_last doc.has_more (inr (doc.page_count, indexed.1)) (next doc indexed)

  unfoldable pub read_then :
      Text ⊎ PdfDocument
      → Indexed
      → (PdfDocument → Indexed → Option (Text ⊎ (ℕ × Pages)))
      → Option (Text ⊎ (ℕ × Pages))
  unfolding round_then after_round
  read_then (inl err) indexed next = some (inl err)
  read_then (inr doc) indexed next = round_then doc (after_round doc indexed) next

  -- The loop of `Extract` over the rounds of ten pages; none is that the fuel ran out.
  unfoldable pub index_rounds : Text → ℕ → ℕ → ℕ → Indexed → Option (Text ⊎ (ℕ × Pages))
  unfolding read_then round_end read
  index_rounds content zero start count indexed = none
  index_rounds content (suc fuel) start count indexed =
      read_then (read pdf content start (round_end start count)) indexed
        λ doc indexed'. index_rounds content fuel (start + max_pages) doc.page_count indexed'

  unfoldable pub resolve_output : Source → Option JsonTree → Run Progress Extracted
  unfolding resolve visit
  resolve_output src none = visit o src 0 >> fail (codes "missing output")
  resolve_output src (some output) = resolve o src output 0

  -- The ignored ranges, then the output.
  unfoldable pub resolve_all : Source → Mapping → Run Progress Extracted
  unfolding ignore_all resolve_output
  resolve_all src m = ignore_all src.pages m.ignored >> resolve_output src m.output

  unfoldable pub extraction_of : Mapping → ℕ → Progress → Text ⊎ Text → Text ⊎ Extraction
  unfolding count_distinct
  extraction_of m count s (inl err) = inl err
  extraction_of m count s (inr content) =
      if ltb max_mapping_bytes (utf8_length content)
      then inl (codes "extracted output exceeds 4 MiB")
      else inr (record {
        content = content;
        source_sha256 = m.source_sha256;
        page_count = count;
        referenced_lines = count_distinct s.used;
        ignored_lines = count_distinct s.ignored;
      })

  unfoldable pub unless_missing :
      Mapping → ℕ → Extracted → Progress → Text ⊎ List Mark → Text ⊎ Extraction
  unfolding extraction_of marks_text
  unless_missing m count value s (inl err) = inl err
  unless_missing m count value s (inr []) = extraction_of m count s (encode value)
  unless_missing m count value s (inr (k ∷ ks)) = inl (
      codes "unmapped nonempty lines (page:line): "
      ++ (join (codes ", ") (marks_text (k ∷ ks))
          ++ codes "; map fields or explicitly mark structural/unused lines in ignored"))

  unfoldable pub finish_extract :
      Mapping → ℕ → Pages → Text ⊎ (Extracted × Progress) → Text ⊎ Extraction
  unfolding unless_missing missing_pages
  finish_extract m count ps (inl err) = inl err
  finish_extract m count ps (inr (value, s)) =
      if s.selectors == 0
      then inl (codes "mapping output must contain at least one $source selector")
      else unless_missing m count value s (missing_pages ps s count 1 [])

  unfoldable pub source_of : Mapping → Pages → Source
  source_of m ps = record { pages = ps; sha256 = m.source_sha256; image_urls = m.image_urls }

  unfoldable pub extract_bound : Mapping → ℕ → Pages → Option Text → Text ⊎ Extraction
  unfolding finish_extract resolve_all source_of
  extract_bound m count ps (some id) =
      inl (codes "image_urls references image " ++ (id ++ codes " absent from this PDF"))
  extract_bound m count ps none =
      finish_extract m count ps (resolve_all (source_of m ps) m new_progress)

  unfoldable pub extract_pages_of : Mapping → Text ⊎ (ℕ × Pages) → Text ⊎ Extraction
  unfolding extract_bound first_absent
  extract_pages_of m (inl err) = inl err
  extract_pages_of m (inr (count, ps)) = extract_bound m count ps (first_absent ps m.image_urls)

  unfoldable pub after_rounds : Mapping → Option (Text ⊎ (ℕ × Pages)) → Option (Text ⊎ Extraction)
  unfolding extract_pages_of
  after_rounds m none = none
  after_rounds m (some indexed) = some (extract_pages_of m indexed)

  unfoldable pub extract_mapping : Text → Mapping → Option (Text ⊎ Extraction)
  unfolding are_upload_urls index_rounds after_rounds
  extract_mapping content m =
      if not (is_version_one m.version && text_eq m.source_sha256 (hash content))
      then some (inl (codes "mapping version or source_sha256 mismatch; index this PDF again"))
      else if not (are_upload_urls m.image_urls)
      then some
          (inl (codes "image_urls must bind SHA-256 image IDs to absolute HTTP(S) upload URLs"))
      else after_rounds m (index_rounds content max_rounds 1 0 (0, []))

  unfoldable pub extract_decoded : Text → Text ⊎ Mapping → Option (Text ⊎ Extraction)
  unfolding extract_mapping
  extract_decoded content (inl err) = some (inl (codes "mapping: " ++ err))
  extract_decoded content (inr m) = extract_mapping content m

  -- `Extract`, of the PDF's bytes and the mapping's.
  unfoldable pub extract : Text → Text → Option (Text ⊎ Extraction)
  unfolding extract_decoded
  extract content mapping_json =
      if ltb max_mapping_bytes (length mapping_json)
      then some (inl (codes "mapping exceeds 4 MiB"))
      else extract_decoded content (decode_mapping mapping_json)
