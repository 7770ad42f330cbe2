-- ===== src/PdfSource/Resolve/Sourced.antt =====
-- Whatever is extracted is drawn from the pages, or a bound address of one of their images.
use dzzzr_cli.Base.{
  ℕ, ◌≡◌, true, some, inr, ◌⊎◌, List, [], ◌∷◌, ◌++◌, any, ℤ, Text, codes, text_eq, trim_space, atoi,
}
use dzzzr_cli.PdfSource.Pages.{IndexedPage, page_at}
use dzzzr_cli.PdfSource.Pages.Drawn.{IsSelected}
use dzzzr_cli.PdfSource.Json.{
  Extracted, nothing, extracted_text, extracted_int, extracted_bool, extracted_list,
  extracted_object, ExtractedList, empty_list, list_item, ExtractedObject, empty_object,
  object_field,
}
use dzzzr_cli.PdfSource.Select.{
  Reader, Source, entry_at, link_at, image_reference, breaks_of, says_true, says_false,
}

-- The mapping gives the image this address.
unfoldable pub Binds : Text → Text → List (Text × Text) → Type 0
Binds id url [] = ⊥
Binds id url ((key, bound) ∷ urls) = ((text_eq key id ≡ true) × (bound ≡ url)) ⊎ Binds id url urls

module _ (o : Reader) (src : Source) where
  -- A text that comes from the pages: parts of their lines, the targets of their links, references to
  -- their images, and what the formats make of these. The one text that the pages do not have is an
  -- address that the mapping itself gives to one of their images.
  pub data Drawn : Text → Type 0 where
    selected : {s : Text} → IsSelected src.pages s → Drawn s
    nothing_selected : Drawn []
    chunk : {s t : Text} → Drawn s → Drawn t → Drawn (s ++ (10 ∷ t))
    link :
        {uri : Text} (n : ℕ) (p : IndexedPage) (i : ℤ)
        → page_at src.pages n ≡ some p
        → link_at p.links i ≡ some uri
        → Drawn uri
    image :
        (n : ℕ) (p : IndexedPage) (id : Text)
        → page_at src.pages n ≡ some p
        → any (text_eq id) p.images ≡ true
        → Drawn (image_reference src.sha256 n id)
    uploaded :
        {url : Text} (n : ℕ) (p : IndexedPage) (id : Text)
        → page_at src.pages n ≡ some p
        → any (text_eq id) p.images ≡ true
        → Binds id url src.image_urls
        → Drawn url
    capture :
        {s t : Text} (pattern : Text) (groups : List Text) (i : ℤ)
        → Drawn s
        → o.find_matches pattern s ≡ inr (groups ∷ [])
        → entry_at groups i ≡ some t
        → Drawn t
    appended : {s t : Text} → Drawn s → Drawn t → Drawn (s ++ t)
    trimmed : {s : Text} → Drawn s → Drawn (trim_space s)
    as_html : {s : Text} → Drawn s → Drawn (breaks_of (o.escape_html s))
    as_image :
        {s : Text} → Drawn s → Drawn (codes "<img src=\"" ++ (o.escape_html s ++ codes "\">"))

  -- An integer and a truth value are read from such a text.
  unfoldable pub IsRead : Extracted → Type 0
  unfolding says_true says_false
  IsRead nothing = Unit
  IsRead (extracted_text s) = Drawn s
  IsRead (extracted_int n) = (s : Text) × (Drawn s × (atoi (trim_space s) ≡ (n, true)))
  IsRead (extracted_bool b) = (s : Text) × (Drawn s × (says_true (o.lower (trim_space s)) ≡ b))
  IsRead (extracted_list xs) = ⊥
  IsRead (extracted_object xs) = ⊥

  unfoldable mutual
    unfolding IsRead

    pub IsSourced : Extracted → Type 0
    IsSourced nothing = Unit
    IsSourced (extracted_text s) = IsRead (extracted_text s)
    IsSourced (extracted_int n) = IsRead (extracted_int n)
    IsSourced (extracted_bool b) = IsRead (extracted_bool b)
    IsSourced (extracted_list xs) = AreSourced xs
    IsSourced (extracted_object xs) = FieldsAreSourced xs

    pub AreSourced : ExtractedList → Type 0
    AreSourced empty_list = Unit
    AreSourced (list_item x xs) = IsSourced x × AreSourced xs

    pub FieldsAreSourced : ExtractedObject → Type 0
    FieldsAreSourced empty_object = Unit
    FieldsAreSourced (object_field key x xs) = IsSourced x × FieldsAreSourced xs
