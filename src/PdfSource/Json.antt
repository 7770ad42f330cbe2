-- ===== src/PdfSource/Json.antt =====
-- The JSON of a mapping's output, and what is extracted. A JSON value is a tree with its members in
-- their order; Go goes through them in an order that is not fixed.
use dzzzr_cli.Base.{Bool, ℤ, Text}

mutual
  pub data JsonTree : Type 0 where
    null : JsonTree
    scalar : JsonTree
    array : Elements → JsonTree
    object : Members → JsonTree

  pub data Elements : Type 0 where
    no_elements : Elements
    element : JsonTree → Elements → Elements

  pub data Members : Type 0 where
    no_members : Members
    member : Text → JsonTree → Members → Members

mutual
  pub data Extracted : Type 0 where
    nothing : Extracted
    extracted_text : Text → Extracted
    extracted_int : ℤ → Extracted
    extracted_bool : Bool → Extracted
    extracted_list : ExtractedList → Extracted
    extracted_object : ExtractedObject → Extracted

  pub data ExtractedList : Type 0 where
    empty_list : ExtractedList
    list_item : Extracted → ExtractedList → ExtractedList

  pub data ExtractedObject : Type 0 where
    empty_object : ExtractedObject
    object_field : Text → Extracted → ExtractedObject → ExtractedObject
