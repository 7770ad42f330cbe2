-- ===== src/PdfSource/Select.antt =====
-- pdfsource/mapping.go, `resolve`: what a `$source` selector gives, and how it is formatted.
use dzzzr_cli.Base.{
  ℕ, zero, suc, ◌+◌, Bool, true, false, not, ◌&&◌, ◌||◌, Option, none, some, inl, inr, ◌⊎◌, List,
  [], ◌∷◌, ◌++◌, any, ltb, leb, ◌==◌, if◌then◌else◌, get_elem?, ℤ, pos, negsuc, Text, codes,
  text_eq, is_empty, trim_space, join, itoa, atoi,
}
use dzzzr_cli.PdfSource.Run.{Run, pure, fail, lift, require, ◌>>=◌, ◌>>◌}
use dzzzr_cli.PdfSource.Pages.{
  max_mapping_bytes, utf8_length, Range, IndexedPage, Pages, page_of, Progress, as_used,
  select_range,
}
use dzzzr_cli.PdfSource.Json.{
  JsonTree, Members, no_members, member, Extracted, nothing, extracted_text, extracted_int,
  extracted_bool, extracted_list, extracted_object,
}

pub record Selector : Type 0 where
  pub ranges : List Range
  pub format : Text
  pub pattern : Text
  pub group : ℤ
  pub page : ℤ
  pub link : ℤ
  pub image_id : Text

-- The context's error when so many nodes were visited, the JSON decoder of a selector, the matches
-- that `FindAllStringSubmatch(selected, 2)` gives or the error of the pattern, lower case, and
-- `html.EscapeString`.
pub record Reader : Type 0 where
  pub ctx_err : ℕ → Option Text
  pub decode_selector : JsonTree → Text ⊎ Selector
  pub find_matches : Text → Text → Text ⊎ List (List Text)
  pub lower : Text → Text
  pub escape_html : Text → Text

-- What `Extract` has at hand when it resolves the output.
pub record Source : Type 0 where
  pub pages : Pages
  pub sha256 : Text
  pub image_urls : List (Text × Text)

unfoldable pub is_none_int : ℤ → Bool
is_none_int (pos n) = n == 0
is_none_int (negsuc n) = false

unfoldable pub is_no_range : List Range → Bool
is_no_range [] = true
is_no_range (r ∷ rs) = false

-- Entry `i` from 0 on, if there is one.
unfoldable pub entry_at : {A : Type 0} → List A → ℤ → Option A
entry_at xs (pos i) = get_elem? xs i
entry_at xs (negsuc i) = none

-- Entry `i` from 1 on.
unfoldable pub link_at : List Text → ℤ → Option Text
link_at links (pos zero) = none
link_at links (pos (suc i)) = get_elem? links i
link_at links (negsuc i) = none

unfoldable pub bound_url : Text → List (Text × Text) → Text → Text
bound_url id [] otherwise = otherwise
bound_url id ((key, url) ∷ urls) otherwise =
    let rest = bound_url id urls otherwise in if text_eq key id then url else rest

unfoldable pub image_reference : Text → ℕ → Text → Text
image_reference sha page id =
    codes "pdf-image://" ++ (sha ++ (codes "/" ++ (itoa page ++ (codes "/" ++ id))))

unfoldable pub mark_image_page : ℕ → Run Progress (Unit {0})
mark_image_page page s = inr (tt, record s { image_pages = page ∷ s.image_pages })

unfoldable pub count_selector : Run Progress (Unit {0})
count_selector s = inr (tt, record s { selectors = s.selectors + 1 })

-- `emitted += len(selected)` and its limit.
unfoldable pub emit : Text → Run Progress (Unit {0})
unfolding utf8_length
emit text s =
    let total = s.emitted + utf8_length text in
    if ltb max_mapping_bytes total
    then inl (codes "extracted text exceeds 4 MiB")
    else inr (tt, record s { emitted = total })

unfoldable pub breaks_of : Text → Text
breaks_of [] = []
breaks_of (c ∷ s) = (if c == 10 then codes "<br>\n" else c ∷ []) ++ breaks_of s

unfoldable pub says_true : Text → Bool
says_true s =
    text_eq s (codes "да")
    || (text_eq s (codes "true") || (text_eq s (codes "yes") || text_eq s (codes "1")))

unfoldable pub says_false : Text → Bool
says_false s =
    text_eq s (codes "нет")
    || (text_eq s (codes "false") || (text_eq s (codes "no") || text_eq s (codes "0")))

unfoldable pub int_or_error : ℤ × Bool → Text ⊎ Extracted
int_or_error (n, true) = inr (extracted_int n)
int_or_error (n, false) = inl (codes "integer: invalid syntax")

unfoldable pub text_of : Extracted → Text ⊎ Text
text_of (extracted_text s) = inr s
text_of nothing = inl (codes "$concat accepts source strings only")
text_of (extracted_int n) = inl (codes "$concat accepts source strings only")
text_of (extracted_bool b) = inl (codes "$concat accepts source strings only")
text_of (extracted_list xs) = inl (codes "$concat accepts source strings only")
text_of (extracted_object xs) = inl (codes "$concat accepts source strings only")

unfoldable pub has_member : Text → Members → Bool
has_member key no_members = false
has_member key (member k v ms) = text_eq k key || has_member key ms

-- The one match, and the group of it that is asked for.
unfoldable pub captured : Option Text → Text ⊎ Text
captured none = inl (codes "pattern must match exactly once and group must exist")
captured (some []) =
    inl (codes "pattern capture must select nonempty source text; use null for an absent field")
captured (some (c ∷ s)) = inr (c ∷ s)

unfoldable pub one_match : ℤ → List (List Text) → Text ⊎ Text
unfolding captured entry_at
one_match group (groups ∷ []) = captured (entry_at groups group)
one_match group matches = inl (codes "pattern must match exactly once and group must exist")

module _ (o : Reader) (src : Source) where
  open o use {decode_selector, find_matches, lower, escape_html}

  unfoldable pub truth_of : Text → Text ⊎ Extracted
  unfolding says_true says_false
  truth_of s =
      if says_true s
      then inr (extracted_bool true)
      else if says_false s
      then inr (extracted_bool false)
      else inl (codes "invalid source boolean")

  unfoldable pub image_html : Text → Text → Text ⊎ Extracted
  image_html [] selected = inl (codes "image_html requires an image_id")
  image_html (c ∷ id) selected =
      inr (extracted_text (codes "<img src=\"" ++ (escape_html selected ++ codes "\">")))

  unfoldable pub formatted : Selector → Text → Text ⊎ Extracted
  unfolding int_or_error truth_of breaks_of image_html
  formatted s selected =
      if is_empty s.format || text_eq s.format (codes "text")
      then inr (extracted_text selected)
      else if text_eq s.format (codes "trim")
      then inr (extracted_text (trim_space selected))
      else if text_eq s.format (codes "integer")
      then int_or_error (atoi (trim_space selected))
      else if text_eq s.format (codes "boolean")
      then truth_of (lower (trim_space selected))
      else if text_eq s.format (codes "html")
      then inr (extracted_text (breaks_of (escape_html selected)))
      else if text_eq s.format (codes "image_html")
      then image_html s.image_id selected
      else inl (codes "unknown source format")

  unfoldable pub link_of : Option Text → Text ⊎ Text
  link_of none = inl (codes "unknown link index")
  link_of (some uri) = inr uri

  unfoldable pub select_image : ℕ → IndexedPage → Text → Run Progress Text
  unfolding mark_image_page bound_url image_reference
  select_image page p id = do
    require (any (text_eq id) p.images) (codes "unknown image_id")
    mark_image_page page
    pure (bound_url id src.image_urls (image_reference src.sha256 page id))

  unfoldable pub media_of_page : Selector → ℤ → Option IndexedPage → Run Progress Text
  unfolding link_of link_at select_image is_none_int
  media_of_page s (pos page) (some p) =
      if not (is_none_int s.link)
      then lift (link_of (link_at p.links s.link))
      else select_image page p s.image_id
  media_of_page s page found = fail (codes "unknown media page")

  unfoldable pub is_media : Selector → Bool
  unfolding is_none_int
  is_media s = not (is_none_int s.link) || not (is_empty s.image_id)

  unfoldable pub is_plain_media : Selector → Bool
  unfolding is_none_int is_no_range
  is_plain_media s =
      is_no_range s.ranges
      && (not (not (is_none_int s.link) && not (is_empty s.image_id))
          && (is_empty s.pattern && is_none_int s.group))

  unfoldable pub select_media : Selector → Run Progress Text
  unfolding is_plain_media media_of_page page_of
  select_media s = do
    require (is_plain_media s) (codes "ambiguous link/image selector")
    media_of_page s s.page (page_of src.pages s.page)

  -- The chunks of the ranges, and the bytes selected so far.
  unfoldable pub select_ranges : ℕ → List Range → Run Progress (List Text)
  unfolding select_range utf8_length
  select_ranges bytes [] = pure []
  select_ranges bytes (r ∷ rs) = do
    value ← select_range as_used src.pages r
    require (leb (bytes + utf8_length value + 1) max_mapping_bytes)
        (codes "selected text exceeds 4 MiB")
    later ← select_ranges (bytes + utf8_length value + 1) rs
    pure (value ∷ later)

  unfoldable pub matched : Selector → Text → Text ⊎ List (List Text) → Text ⊎ Text
  unfolding one_match
  matched s selected (inl err) = inl (codes "pattern: " ++ err)
  matched s selected (inr matches) = one_match s.group matches

  unfoldable pub by_pattern : Selector → Text → Text ⊎ Text
  unfolding matched is_none_int
  by_pattern s selected =
      if not (is_empty s.pattern)
      then matched s selected (find_matches s.pattern selected)
      else if is_none_int s.group
      then inr selected
      else inl (codes "group requires pattern")

  unfoldable pub select_text : Selector → Run Progress Text
  unfolding select_ranges by_pattern is_no_range is_none_int
  select_text s = do
    require (not (is_no_range s.ranges) && is_none_int s.page) (codes "source ranges required")
    chunks ← select_ranges 0 s.ranges
    lift (by_pattern s (join (10 ∷ []) chunks))

  unfoldable pub select_source : Selector → Run Progress Extracted
  unfolding is_media select_media select_text emit formatted
  select_source s = do
    selected ← if is_media s then select_media s else select_text s
    emit selected
    lift (formatted s selected)

  unfoldable pub resolve_source : Members → Run Progress Extracted
  unfolding count_selector select_source
  resolve_source (member key value no_members) = do
    count_selector
    s ← lift (decode_selector value)
    select_source s
  resolve_source ms = fail (codes "$source cannot have sibling members")
