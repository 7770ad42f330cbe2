-- ===== src/PdfSource/Resolve/Provenance.antt =====
-- The whole output is drawn from the pages, or is a bound address of one of their images.
use dzzzr_cli.Base.{ℕ, suc, ◌≡◌, subst, inr, [], ◌++◌, Text, codes}
use dzzzr_cli.PdfSource.Run.{Run, Gives}
use dzzzr_cli.PdfSource.Run.Rules.{
  Gives-pure, Gives-fail, Gives-bind, Gives-require, Gives-labelled, Gives-lift, Gives-if,
}
use dzzzr_cli.PdfSource.Pages.{Progress}
use dzzzr_cli.PdfSource.Pages.Drawn.{Within}
use dzzzr_cli.PdfSource.Json.{
  JsonTree, null, scalar, array, object, Elements, no_elements, element, Members, no_members,
  member, Extracted, nothing, extracted_text, extracted_int, extracted_bool, extracted_list,
  extracted_object, ExtractedObject,
}
use dzzzr_cli.PdfSource.Select.{Reader, Source, text_of, has_member}
use dzzzr_cli.PdfSource.Resolve.{
  resolve_object, resolve, resolve_elements, resolve_members, resolve_concat, concat_parts,
  concat_elements,
}
use dzzzr_cli.PdfSource.Resolve.Sourced.{
  Drawn, nothing_selected, appended, IsRead, IsSourced, AreSourced, FieldsAreSourced,
}
use dzzzr_cli.PdfSource.Resolve.Selected.{visit-Within, resolve_source-IsRead}

module _ (o : Reader) (src : Source) where
  IsRead-IsSourced : (x : Extracted) → IsRead o src x → IsSourced o src x
  unfolding IsRead IsSourced
  IsRead-IsSourced nothing r = tt
  IsRead-IsSourced (extracted_text s) r = r
  IsRead-IsSourced (extracted_int n) r = r
  IsRead-IsSourced (extracted_bool b) r = r
  IsRead-IsSourced (extracted_list xs) r = elim r [ ]
  IsRead-IsSourced (extracted_object xs) r = elim r [ ]

  Gives-IsSourced :
      (m : Run Progress Extracted)
      → Gives (Within src.pages) (IsRead o src) m
      → Gives (Within src.pages) (IsSourced o src) m
  Gives-IsSourced m g = record {
    at = λ s w x s' e. let (r, w') = g.at s w x s' e in (IsRead-IsSourced x r, w');
  }

  text_of-Drawn : (x : Extracted) (s : Text) → IsSourced o src x → text_of x ≡ inr s → Drawn o src s
  unfolding text_of IsSourced
  text_of-Drawn nothing s h e = cc e
  text_of-Drawn (extracted_text t) s h e = let same : t ≡ s = cc e in subst (Drawn o src) same h
  text_of-Drawn (extracted_int n) s h e = cc e
  text_of-Drawn (extracted_bool b) s h e = cc e
  text_of-Drawn (extracted_list xs) s h e = cc e
  text_of-Drawn (extracted_object xs) s h e = cc e

  resolve_object-IsSourced :
      (ms : Members) (concatenated : Run Progress Extracted) (fields : Run Progress ExtractedObject)
      → Gives (Within src.pages) (IsSourced o src) concatenated
      → Gives (Within src.pages) (FieldsAreSourced o src) fields
      → Gives (Within src.pages) (IsSourced o src) (resolve_object o src ms concatenated fields)
  unfolding resolve_object IsSourced
  resolve_object-IsSourced ms concatenated fields g h =
      Gives-if (has_member (codes "$concat") ms) _ _ (λ _. g)
        λ _.
          Gives-if (has_member (codes "$source") ms) _ _
            (λ _. Gives-IsSourced _ (resolve_source-IsRead o src ms))
            λ _. Gives-bind _ _ h λ out are. Gives-pure _ are

  mutual
    unfolding resolve IsSourced

    pub resolve-IsSourced :
        (v : JsonTree) (depth : ℕ)
        → Gives (Within src.pages) (IsSourced o src) (resolve o src v depth)
    resolve-IsSourced null depth = Gives-bind _ _ (visit-Within o src depth) λ _ _. Gives-pure _ tt
    resolve-IsSourced scalar depth = Gives-bind _ _ (visit-Within o src depth) λ _ _. Gives-fail _
    resolve-IsSourced (array items) depth = Gives-bind _ _ (visit-Within o src depth) λ _ _.
        Gives-bind _ _ (resolve_elements-AreSourced items (suc depth) 0) λ out are. Gives-pure _ are
    resolve-IsSourced (object ms) depth = Gives-bind _ _ (visit-Within o src depth) λ _ _.
        resolve_object-IsSourced ms _ _ (resolve_concat-IsSourced ms (suc depth))
          (resolve_members-FieldsAreSourced ms (suc depth))

    resolve_elements-AreSourced :
        (items : Elements) (depth i : ℕ)
        → Gives (Within src.pages) (AreSourced o src) (resolve_elements o src items depth i)
    resolve_elements-AreSourced no_elements depth i = Gives-pure _ tt
    resolve_elements-AreSourced (element item items) depth i =
        Gives-bind _ _ (Gives-labelled _ _ (resolve-IsSourced item depth)) λ x is.
          Gives-bind _ _ (resolve_elements-AreSourced items depth (suc i))
            λ xs are. Gives-pure _ (is, are)

    resolve_members-FieldsAreSourced :
        (items : Members) (depth : ℕ)
        → Gives (Within src.pages) (FieldsAreSourced o src) (resolve_members o src items depth)
    resolve_members-FieldsAreSourced no_members depth = Gives-pure _ tt
    resolve_members-FieldsAreSourced (member key item items) depth =
        Gives-bind _ _ (Gives-labelled _ _ (resolve-IsSourced item depth)) λ x is.
          Gives-bind _ _ (resolve_members-FieldsAreSourced items depth)
            λ xs are. Gives-pure _ (is, are)

    resolve_concat-IsSourced :
        (ms : Members) (depth : ℕ)
        → Gives (Within src.pages) (IsSourced o src) (resolve_concat o src ms depth)
    resolve_concat-IsSourced no_members depth = Gives-fail _
    resolve_concat-IsSourced (member key parts no_members) depth =
        concat_parts-IsSourced parts depth
    resolve_concat-IsSourced (member key parts (member key' parts' ms)) depth = Gives-fail _

    concat_parts-IsSourced :
        (parts : JsonTree) (depth : ℕ)
        → Gives (Within src.pages) (IsSourced o src) (concat_parts o src parts depth)
    concat_parts-IsSourced null depth = Gives-fail _
    concat_parts-IsSourced scalar depth = Gives-fail _
    concat_parts-IsSourced (array no_elements) depth = Gives-fail _
    concat_parts-IsSourced (array (element item items)) depth =
        Gives-bind _ _ (concat_elements-Drawn (element item items) depth [] nothing_selected)
          λ s d. Gives-pure _ d
    concat_parts-IsSourced (object ms) depth = Gives-fail _

    concat_elements-Drawn :
        (items : Elements) (depth : ℕ) (joined : Text)
        → Drawn o src joined
        → Gives (Within src.pages) (Drawn o src) (concat_elements o src items depth joined)
    concat_elements-Drawn no_elements depth joined d = Gives-pure _ d
    concat_elements-Drawn (element item items) depth joined d =
        Gives-bind _ _ (resolve-IsSourced item depth) λ x is. Gives-lift _ _ λ s e.
          Gives-require _ _ _ λ fits.
            concat_elements-Drawn items depth (joined ++ s) (appended d (text_of-Drawn x s is e))
