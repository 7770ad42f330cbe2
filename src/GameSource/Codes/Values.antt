-- ===== src/GameSource/Codes/Values.antt =====
-- The values of a level that validates can be written to the engine.
use dzzzr_cli.Base.{
  ℕ, ◌+◌, ◌≡◌, refl, false, Option, none, some, inl, inr, [], ◌++◌, ℤ, pos, negsuc, Text, codes,
  itoa, contains_text, Bool-cases,
}
use dzzzr_cli.GameSource.Level.{
  LevelParams, Value, text_value, int_value, passed_over, struct, slice, Fields, no_fields, field,
  Items, no_items, item, image_errors, walk_text, walk_int, walk, walk_fields, walk_items,
  unencodable, params_value,
}
use dzzzr_cli.GameSource.Codes.{Outside, validate_params}
use dzzzr_cli.GameSource.Codes.Keys.{append-eq-nil}

module _ (encode_error : Text → Option Text) where
  -- Every text inside can be encoded and names no image of a PDF, and every number is at least 0.
  unfoldable mutual
    pub IsWritable : Value → Type 0
    IsWritable (text_value s) =
        (encode_error s ≡ none) × (contains_text (codes "pdf-image://") s ≡ false)
    IsWritable (int_value n) = (k : ℕ) × (n ≡ pos k)
    IsWritable passed_over = Unit
    IsWritable (struct fs) = FieldsWritable fs
    IsWritable (slice xs) = ItemsWritable xs

    pub FieldsWritable : Fields → Type 0
    FieldsWritable no_fields = Unit
    FieldsWritable (field name v fs) = IsWritable v × FieldsWritable fs

    pub ItemsWritable : Items → Type 0
    ItemsWritable no_items = Unit
    ItemsWritable (item v vs) = IsWritable v × ItemsWritable vs

  unencodable-nil :
      (path : Text) (e : Option Text) → unencodable encode_error path e ≡ [] → e ≡ none
  unfolding unencodable
  unencodable-nil path none h = refl
  unencodable-nil path (some e) h = cc h

  walk_text-IsWritable :
      (s path : Text) → walk_text encode_error s path ≡ [] → IsWritable (text_value s)
  unfolding walk_text image_errors IsWritable
  walk_text-IsWritable s path h =
      let (no_image, encoded) =
        append-eq-nil (image_errors s path) (unencodable encode_error path (encode_error s)) h in
      elim (Bool-cases (contains_text (codes "pdf-image://") s)) [
        | inl e ↦ cc (rw e at no_image)
        | inr e ↦ (unencodable-nil path (encode_error s) encoded, e)
      ]

  walk_int-IsWritable :
      (n : ℤ) (path : Text) → walk_int encode_error n path ≡ [] → IsWritable (int_value n)
  unfolding walk_int IsWritable
  walk_int-IsWritable (pos k) path h = (k, refl)
  walk_int-IsWritable (negsuc k) path h = cc h

  mutual
    unfolding walk IsWritable

    walk-IsWritable : (v : Value) (path : Text) → walk encode_error v path ≡ [] → IsWritable v
    walk-IsWritable (text_value s) path h = walk_text-IsWritable s path h
    walk-IsWritable (int_value n) path h = walk_int-IsWritable n path h
    walk-IsWritable passed_over path h = tt
    walk-IsWritable (struct fs) path h = walk_fields-FieldsWritable fs path h
    walk-IsWritable (slice xs) path h = walk_items-ItemsWritable xs path 0 h

    walk_fields-FieldsWritable :
        (fs : Fields) (path : Text) → walk_fields encode_error fs path ≡ [] → FieldsWritable fs
    walk_fields-FieldsWritable no_fields path h = tt
    walk_fields-FieldsWritable (field name v fs) path h =
        let (here, later) =
          append-eq-nil (walk encode_error v (path ++ (codes "." ++ name)))
            (walk_fields encode_error fs path) h in
        (
          walk-IsWritable v (path ++ (codes "." ++ name)) here,
          walk_fields-FieldsWritable fs path later,
        )

    walk_items-ItemsWritable :
        (xs : Items) (path : Text) (i : ℕ)
        → walk_items encode_error xs path i ≡ []
        → ItemsWritable xs
    walk_items-ItemsWritable no_items path i h = tt
    walk_items-ItemsWritable (item v vs) path i h =
        let at = path ++ (codes "[" ++ (itoa i ++ codes "]")) in
        let (here, later) =
          append-eq-nil (walk encode_error v at) (walk_items encode_error vs path (i + 1)) h in
        (walk-IsWritable v at here, walk_items-ItemsWritable vs path (i + 1) later)

-- In a level that validates every text, at any depth, can be encoded as Windows-1251 and names no
-- image of a PDF, and no number is negative.
pub validate_params-IsWritable :
    {Float : Type 0} (o : Outside Float) (p : LevelParams)
    → validate_params o p ≡ []
    → IsWritable o.encode_error (params_value p)
unfolding validate_params
validate_params-IsWritable o p h =
    let (a, rest) = append-eq-nil _ _ h in
    let (b, c) = append-eq-nil _ _ rest in
    walk-IsWritable o.encode_error (params_value p) (codes "params") b
