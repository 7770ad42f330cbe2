-- ===== src/PdfSource/Resolve/Selected.antt =====
-- A selector gives what is drawn from the pages or bound to their images, within the limits.
use dzzzr_cli.Base.{
  ℕ, ◌+◌, ◌≡◌, refl, subst, Bool, true, false, not, ◌||◌, Option, none, some, inl, inr, ◌⊎◌, List,
  [], ◌∷◌, arith, All, ltb, if◌then◌else◌, ℤ, pos, negsuc, Text, codes, text_eq, is_empty,
  trim_space, atoi, join, Bool-cases,
}
use dzzzr_cli.PdfSource.Run.{Gives}
use dzzzr_cli.PdfSource.Run.Rules.{
  Gives-pure, Gives-fail, Gives-bind, Gives-require, Gives-lift, Gives-lifted, Gives-if,
}
use dzzzr_cli.PdfSource.Pages.{
  max_mapping_bytes, utf8_length, Range, IndexedPage, Pages, page_of, as_used,
}
use dzzzr_cli.PdfSource.Pages.Drawn.{Within, select_range-IsSelected}
use dzzzr_cli.PdfSource.Json.{
  Members, no_members, member, Extracted, extracted_text, extracted_int, extracted_bool,
}
use dzzzr_cli.PdfSource.Select.{
  Selector, Reader, Source, entry_at, bound_url, mark_image_page, count_selector, emit, breaks_of,
  says_true, says_false, int_or_error, captured, one_match, truth_of, image_html, formatted,
  link_of, select_image, media_of_page, is_media, select_media, select_ranges, matched, by_pattern,
  select_text, select_source, resolve_source, is_none_int,
}
use dzzzr_cli.PdfSource.Resolve.{visit_node, visit}
use dzzzr_cli.PdfSource.Resolve.Sourced.{
  Drawn, selected, nothing_selected, chunk, link, image, uploaded, Binds, capture, trimmed, as_html,
  as_image, IsRead,
}

mark_image_page-Within :
    (ps : Pages) (n : ℕ) → Gives (Within ps) (λ _. Unit {0}) (mark_image_page n)
unfolding mark_image_page Within
mark_image_page-Within ps n = record {
  at = λ s w a s' e.
      let same : record s { image_pages = n ∷ s.image_pages } ≡ s' = cc e in
      (tt, subst (Within ps) same w);
}

count_selector-Within : (ps : Pages) → Gives (Within ps) (λ _. Unit {0}) count_selector
unfolding count_selector Within
count_selector-Within ps = record {
  at = λ s w a s' e.
      let same : record s { selectors = s.selectors + 1 } ≡ s' = cc e in
      (tt, subst (Within ps) same w);
}

emit-Within : (ps : Pages) (text : Text) → Gives (Within ps) (λ _. Unit {0}) (emit text)
unfolding emit Within
emit-Within ps text = record {
  at = λ s w a s' e. elim (Bool-cases (ltb max_mapping_bytes (s.emitted + utf8_length text))) [
    | inl over ↦ cc (rw over at e)
    | inr fits ↦
        let same : record s { emitted = s.emitted + utf8_length text } ≡ s' = cc (rw fits at e) in
        (tt, subst (Within ps) same (w.0, (ground (arith, fits), w.1.1)))
  ];
}

module _ (o : Reader) (src : Source) where
  visit_node-Within :
      (depth : ℕ) (err : Option Text)
      → Gives (Within src.pages) (λ _. Unit {0}) (visit_node o src depth err)
  unfolding visit_node Within
  visit_node-Within depth (some err) = record { at = λ s w a s' e. cc e }
  visit_node-Within depth none = record {
    at = λ s w a s' e. elim (Bool-cases (ltb 64 depth || ltb 20000 (s.nodes + 1))) [
      | inl over ↦ cc (rw over at e)
      | inr fits ↦
          let same : record s { nodes = s.nodes + 1 } ≡ s' = cc (rw fits at e) in
          (tt, subst (Within src.pages) same (ground (arith, fits), w.1))
    ];
  }

  pub visit-Within : (depth : ℕ) → Gives (Within src.pages) (λ _. Unit {0}) (visit o src depth)
  unfolding visit
  visit-Within depth = record {
    at = λ s w a s' e. (visit_node-Within depth (o.ctx_err s.nodes)).at s w a s' e;
  }

  Reads-if :
      (b : Bool) (m n : Text ⊎ Extracted)
      → (b ≡ true → (x : Extracted) → m ≡ inr x → IsRead o src x)
      → (b ≡ false → (x : Extracted) → n ≡ inr x → IsRead o src x)
      → (x : Extracted) → (if b then m else n) ≡ inr x
      → IsRead o src x
  Reads-if true m n f g = f refl
  Reads-if false m n f g = g refl

  reads :
      (y x : Extracted)
      → IsRead o src y
      → ◌≡◌ {A = Text ⊎ Extracted} (inr y) (inr x)
      → IsRead o src x
  reads y x r e = let same : y ≡ x = cc e in subst (IsRead o src) same r

  no_result :
      (err : Text) (x : Extracted) → ◌≡◌ {A = Text ⊎ Extracted} (inl err) (inr x) → IsRead o src x
  no_result err x e = cc e

  formatted-IsRead :
      (s : Selector) (text : Text)
      → Drawn o src text
      → (x : Extracted) → formatted o src s text ≡ inr x
      → IsRead o src x
  unfolding formatted IsRead truth_of
  formatted-IsRead s text d =
      Reads-if (is_empty s.format || text_eq s.format (codes "text")) _ _
        (λ _ x. reads (extracted_text text) x d)
        λ _.
          Reads-if (text_eq s.format (codes "trim")) _ _
            (λ _ x. reads (extracted_text (trim_space text)) x (trimmed d))
            λ _.
              Reads-if (text_eq s.format (codes "integer")) _ _ (λ _. whole _ refl)
                λ _.
                  Reads-if (text_eq s.format (codes "boolean")) _ _ (λ _. truth)
                    λ _.
                      Reads-if (text_eq s.format (codes "html")) _ _
                        (λ _ x.
                          reads (extracted_text (breaks_of (o.escape_html text))) x (as_html d))
                        λ _.
                          Reads-if (text_eq s.format (codes "image_html")) _ _
                            (λ _. html s.image_id) λ _. no_result _
    where
      whole :
          (r : ℤ × Bool)
          → atoi (trim_space text) ≡ r
          → (x : Extracted) → int_or_error r ≡ inr x
          → IsRead o src x
      whole (n, true) same x e = reads (extracted_int n) x (text, (d, same)) e
      whole (n, false) same x e = cc e

      truth : (x : Extracted) → truth_of o src (o.lower (trim_space text)) ≡ inr x → IsRead o src x
      truth =
          Reads-if (says_true (o.lower (trim_space text))) _ _
            (λ yes x. reads (extracted_bool true) x (text, (d, yes)))
            λ no.
              Reads-if (says_false (o.lower (trim_space text))) _ _
                (λ _ x. reads (extracted_bool false) x (text, (d, no))) λ _. no_result _

      html : (id : Text) (x : Extracted) → image_html o src id text ≡ inr x → IsRead o src x
      html [] x e = cc e
      html (c ∷ id) x e = reads _ x (as_image d) e

  join-Drawn : (chunks : List Text) → All (Drawn o src) chunks → Drawn o src (join (10 ∷ []) chunks)
  unfolding join
  join-Drawn [] h = nothing_selected
  join-Drawn (s ∷ []) h = h.0
  join-Drawn (s ∷ t ∷ chunks) h = chunk h.0 (join-Drawn (t ∷ chunks) h.1)

  select_ranges-Drawn :
      (bytes : ℕ) (rs : List Range)
      → Gives (Within src.pages) (All (Drawn o src)) (select_ranges o src bytes rs)
  unfolding select_ranges
  select_ranges-Drawn bytes [] = Gives-pure [] tt
  select_ranges-Drawn bytes (r ∷ rs) =
      Gives-bind _ _ (select_range-IsSelected src.pages as_used r) λ value drawn.
        Gives-require _ _ _ λ fits.
          Gives-bind _ _ (select_ranges-Drawn (bytes + utf8_length value + 1) rs)
            λ later h. Gives-pure _ (selected drawn, h)

  by_pattern-Drawn :
      (s : Selector) (text : Text)
      → Drawn o src text
      → (t : Text) → by_pattern o src s text ≡ inr t
      → Drawn o src t
  unfolding by_pattern matched one_match captured
  by_pattern-Drawn s text d t e = elim (Bool-cases (is_empty s.pattern)) [
    | inl plain ↦ elim (Bool-cases (is_none_int s.group)) [
      | inl no_group ↦
          let same : text ≡ t = cc (rw (plain, no_group) at e) in subst (Drawn o src) same d
      | inr group ↦ cc (rw (plain, group) at e)
    ]
    | inr pattern ↦ by_match (o.find_matches s.pattern text) refl (rw pattern at e)
  ]
    where
      of_group :
          (groups : List Text) (found : Option Text)
          → o.find_matches s.pattern text ≡ inr (groups ∷ [])
          → entry_at groups s.group ≡ found
          → captured found ≡ inr t
          → Drawn o src t
      of_group groups none m f c = cc c
      of_group groups (some []) m f c = cc c
      of_group groups (some (x ∷ xs)) m f c =
          let same : x ∷ xs ≡ t = cc c in
          subst (Drawn o src) same (capture s.pattern groups s.group d m f)

      by_match :
          (r : Text ⊎ List (List Text))
          → o.find_matches s.pattern text ≡ r
          → matched o src s text r ≡ inr t
          → Drawn o src t
      by_match (inl err) m c = cc c
      by_match (inr []) m c = cc c
      by_match (inr (groups ∷ [])) m c = of_group groups (entry_at groups s.group) m refl c
      by_match (inr (g ∷ h ∷ more)) m c = cc c

  select_text-Drawn : (s : Selector) → Gives (Within src.pages) (Drawn o src) (select_text o src s)
  unfolding select_text
  select_text-Drawn s = Gives-require _ _ _ λ is_ranges.
      Gives-bind _ _ (select_ranges-Drawn 0 s.ranges)
        λ chunks h. Gives-lifted _ (by_pattern-Drawn s _ (join-Drawn chunks h))

  link_of-some :
      (found : Option Text) (uri : Text) → link_of o src found ≡ inr uri → found ≡ some uri
  unfolding link_of
  link_of-some none uri e = cc e
  link_of-some (some u) uri e = cc e

  bound_url_lem :
      (id : Text) (urls : List (Text × Text)) (otherwise : Text) (P : Text → Type 0)
      → P otherwise
      → ((url : Text) → Binds id url urls → P url)
      → P (bound_url id urls otherwise)
  unfolding bound_url Binds
  bound_url_lem id [] otherwise P p q = p
  bound_url_lem id ((key, url) ∷ urls) otherwise P p q =
      by_key (text_eq key id) refl (bound_url_lem id urls otherwise P p (λ u b. q u (inr b)))
    where
      by_key :
          (b : Bool)
          → text_eq key id ≡ b
          → P (bound_url id urls otherwise)
          → P (if b then url else bound_url id urls otherwise)
      by_key true e rest = q url (inl (e, refl))
      by_key false e rest = rest

  media_of_page-Drawn :
      (s : Selector) (page : ℤ) (found : Option IndexedPage)
      → page_of src.pages page ≡ found
      → Gives (Within src.pages) (Drawn o src) (media_of_page o src s page found)
  unfolding media_of_page select_image page_of
  media_of_page-Drawn s (negsuc n) found h = Gives-fail _
  media_of_page-Drawn s (pos n) none h = Gives-fail _
  media_of_page-Drawn s (pos n) (some p) h =
      Gives-if (not (is_none_int s.link)) _ _
        (λ _. Gives-lifted _ λ uri e. link n p s.link h (link_of-some _ uri e))
        λ _. Gives-require _ _ _ λ known. Gives-bind _ _ (mark_image_page-Within src.pages n) λ _ _.
          Gives-pure _ (
            bound_url_lem s.image_id src.image_urls _ (Drawn o src) (image n p s.image_id h known)
              (λ url. uploaded n p s.image_id h known))

  select_media-Drawn :
      (s : Selector) → Gives (Within src.pages) (Drawn o src) (select_media o src s)
  unfolding select_media
  select_media-Drawn s = Gives-require _ _ _ λ is_plain. media_of_page-Drawn s s.page _ refl

  select_source-IsRead :
      (s : Selector) → Gives (Within src.pages) (IsRead o src) (select_source o src s)
  unfolding select_source
  select_source-IsRead s =
      Gives-bind _ _
        (Gives-if (is_media o src s) _ _ (λ _. select_media-Drawn s) λ _. select_text-Drawn s)
        λ text drawn.
          Gives-bind _ _ (emit-Within src.pages text)
            λ _ _. Gives-lifted _ (formatted-IsRead s text drawn)

  pub resolve_source-IsRead :
      (ms : Members) → Gives (Within src.pages) (IsRead o src) (resolve_source o src ms)
  unfolding resolve_source
  resolve_source-IsRead no_members = Gives-fail _
  resolve_source-IsRead (member key value no_members) =
      Gives-bind _ _ (count_selector-Within src.pages)
        λ _ _. Gives-lift _ _ λ s e. select_source-IsRead s
  resolve_source-IsRead (member key value (member key' value' ms)) = Gives-fail _
