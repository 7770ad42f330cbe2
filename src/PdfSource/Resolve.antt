-- ===== src/PdfSource/Resolve.antt =====
-- pdfsource/mapping.go: the output of a mapping, resolved against the pages.
pub mod Sourced
pub mod Selected
pub mod Provenance
use dzzzr_cli.Base.{
  ℕ, zero, suc, ◌+◌, ◌-◌, ◌≡◌, refl, Bool, true, false, not, ◌&&◌, ◌||◌, Option, none, some, inl,
  inr, ◌⊎◌, List, [], ◌∷◌, ◌++◌, any, ltb, leb, ◌==◌, if◌then◌else◌, is_some, length, get_elem?, ℤ,
  pos, negsuc, Text, codes, text_eq, is_empty, trim_space, join, itoa, atoi,
}
use dzzzr_cli.PdfSource.Run.{Run, pure, fail, lift, labelled, require, ◌>>=◌, ◌>>◌}
use dzzzr_cli.PdfSource.Pages.{
  max_mapping_bytes, utf8_length, Range, IndexedPage, Pages, page_of, Progress, as_used,
  select_range,
}
use dzzzr_cli.PdfSource.Json.{
  JsonTree, null, scalar, array, object, Elements, no_elements, element, Members, no_members,
  member, Extracted, nothing, extracted_text, extracted_int, extracted_bool, extracted_list,
  extracted_object, ExtractedList, empty_list, list_item, ExtractedObject, empty_object,
  object_field,
}
use dzzzr_cli.PdfSource.Select.{
  is_none_int, is_no_range, entry_at, link_at, bound_url, image_reference, mark_image_page,
  count_selector, emit, breaks_of, says_true, says_false, int_or_error, text_of, has_member,
  captured, one_match, truth_of, image_html, formatted, link_of, select_image, media_of_page,
  is_media, is_plain_media, select_media, select_ranges, matched, by_pattern, select_text,
  select_source, resolve_source, Selector, Reader, Source,
}

module _ (o : Reader) (src : Source) where
  open o use {ctx_err}

  unfoldable pub visit_node : ℕ → Option Text → Run Progress (Unit {0})
  visit_node depth (some err) s = inl err
  visit_node depth none s =
      if ltb 64 depth || ltb 20000 (s.nodes + 1)
      then inl (codes "mapping complexity limit exceeded")
      else inr (tt, record s { nodes = s.nodes + 1 })

  -- The checks that each call of `resolve` begins with.
  unfoldable pub visit : ℕ → Run Progress (Unit {0})
  unfolding visit_node
  visit depth s = visit_node depth (ctx_err s.nodes) s

  -- An object, by what its members say; the other two parts are for a concatenation and for fields.
  unfoldable pub resolve_object :
      Members → Run Progress Extracted → Run Progress ExtractedObject → Run Progress Extracted
  unfolding resolve_source has_member
  resolve_object ms concatenated fields =
      if has_member (codes "$concat") ms
      then concatenated
      else if has_member (codes "$source") ms
      then resolve_source o src ms
      else fields >>= λ out. pure (extracted_object out)

  unfoldable mutual
    unfolding visit resolve_object utf8_length text_of

    pub resolve : JsonTree → ℕ → Run Progress Extracted
    resolve null depth = do visit depth; pure nothing
    resolve scalar depth = do
      visit depth
      fail (
          codes
            "literal scalar forbidden: use a $source selector, null or an empty container; do not regenerate document content")
    resolve (array items) depth = do
      visit depth
      out ← resolve_elements items (suc depth) 0
      pure (extracted_list out)
    resolve (object ms) depth =
        visit depth
        >> resolve_object ms (resolve_concat ms (suc depth)) (resolve_members ms (suc depth))

    pub resolve_elements : Elements → ℕ → ℕ → Run Progress ExtractedList
    resolve_elements no_elements depth i = pure empty_list
    resolve_elements (element item items) depth i = do
      value ← labelled (codes "[" ++ (itoa i ++ codes "]")) (resolve item depth)
      later ← resolve_elements items depth (suc i)
      pure (list_item value later)

    pub resolve_members : Members → ℕ → Run Progress ExtractedObject
    resolve_members no_members depth = pure empty_object
    resolve_members (member key item items) depth = do
      value ← labelled key (resolve item depth)
      later ← resolve_members items depth
      pure (object_field key value later)

    pub resolve_concat : Members → ℕ → Run Progress Extracted
    resolve_concat (member key parts no_members) depth = concat_parts parts depth
    resolve_concat (member key parts (member key' parts' ms)) depth =
        fail (codes "$concat cannot have sibling members")
    resolve_concat no_members depth = fail (codes "$concat cannot have sibling members")

    pub concat_parts : JsonTree → ℕ → Run Progress Extracted
    concat_parts (array (element item items)) depth =
        concat_elements (element item items) depth [] >>= λ joined. pure (extracted_text joined)
    concat_parts (array no_elements) depth =
        fail (codes "$concat requires source fragments; use null for an absent field")
    concat_parts null depth =
        fail (codes "$concat requires source fragments; use null for an absent field")
    concat_parts scalar depth = fail (codes "json: cannot unmarshal into []jsontext.Value")
    concat_parts (object ms) depth = fail (codes "json: cannot unmarshal into []jsontext.Value")

    pub concat_elements : Elements → ℕ → Text → Run Progress Text
    concat_elements no_elements depth joined = pure joined
    concat_elements (element item items) depth joined = do
      value ← resolve item depth
      s ← lift (text_of value)
      require (leb (utf8_length joined + utf8_length s) max_mapping_bytes)
          (codes "concatenation exceeds 4 MiB")
      concat_elements items depth (joined ++ s)
