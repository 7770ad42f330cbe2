-- ===== src/GameSource/Level.antt =====
-- dzzzr/admin_levels.go, `LevelParams`, and the walk over its values in gamesource/plan.go,
-- `validateParams`. A pointer is an Option; a reflected value is a tree.
use dzzzr_cli.Base.{
  ℕ, ◌+◌, Bool, Option, none, some, List, [], ◌∷◌, ◌++◌, if◌then◌else◌, ℤ, pos, negsuc, Text, codes,
  itoa, contains_text,
}

pub record LevelCode : Type 0 where
  pub code : Text
  pub synonyms : Text
  pub danger : Text
  pub sector : ℤ

pub record BonusCode : Type 0 where
  pub code : Text
  pub synonyms : Text
  pub danger : Text
  pub minutes : ℤ

pub record FakeCode : Type 0 where
  pub code : Text
  pub synonyms : Text
  pub penalty : ℤ

pub record SpoilerParams : Type 0 where
  pub text : Text
  pub code : Text
  pub synonyms : Text
  pub penalty : ℤ

pub record LevelParams : Type 0 where
  pub title : Text
  pub subtitle : Text
  pub question : Text
  pub hint1 : Text
  pub hint2 : Text
  pub location : Text
  pub location_comment : Text
  pub comment : Option Text
  pub time_add_bonus_all : Option ℤ
  pub level_codes : List LevelCode
  pub sector_names : List Text
  pub bonus_codes : List BonusCode
  pub fake_codes : List FakeCode
  pub spoilers : List SpoilerParams
  pub clue_min : ℤ
  pub clue_min2 : ℤ
  pub clue_min3 : ℤ
  pub hint1_on_request : Option Bool
  pub hint1_interval : ℤ
  pub hint1_penalty : ℤ
  pub hint2_on_request : Option Bool
  pub hint2_interval : ℤ
  pub hint2_penalty : ℤ
  pub code_count : ℤ
  pub try_limit : ℤ
  pub penalty : Option ℤ
  pub no_master_code : Option Bool
  pub is_sabotage : Option Bool
  pub bonus : Option Bool
  pub bonus_time : ℤ
  pub skvoz : Option Bool
  pub skvoz_min : ℤ
  pub skvoz_start : Text
  pub lat : Text
  pub lon : Text
  pub radius : Text
  pub show_coord_hint2 : Option Bool
  pub no_break : Option Bool
  pub clue_before : Option Bool
  pub reserve : Option Bool
  pub publish : Option Bool
  pub greeting : Text
  pub clear : List Text

-- A reflected value: a text, an integer, a truth value or nil, a struct with its JSON names, a slice.
mutual
  pub data Value : Type 0 where
    text_value : Text → Value
    int_value : ℤ → Value
    passed_over : Value
    struct : Fields → Value
    slice : Items → Value

  pub data Fields : Type 0 where
    no_fields : Fields
    field : Text → Value → Fields → Fields

  pub data Items : Type 0 where
    no_items : Items
    item : Value → Items → Items

unfoldable pub items_of {ℓ} : {A : Type ℓ} → (A → Value) → List A → Items
items_of f [] = no_items
items_of f (x ∷ xs) = item (f x) (items_of f xs)

abbrev pub pointer_value {ℓ} : {A : Type ℓ} → (A → Value) → Option A → Value
pointer_value f none = passed_over
pointer_value f (some x) = f x

abbrev pub bool_value : Bool → Value
bool_value b = passed_over

unfoldable pub code_value : LevelCode → Value
code_value c = struct (
    field (codes "code") (text_value c.code) (
      field (codes "synonyms") (text_value c.synonyms) (
        field (codes "danger") (text_value c.danger)
          (field (codes "sector") (int_value c.sector) no_fields))))

unfoldable pub bonus_value : BonusCode → Value
bonus_value c = struct (
    field (codes "code") (text_value c.code) (
      field (codes "synonyms") (text_value c.synonyms) (
        field (codes "danger") (text_value c.danger)
          (field (codes "minutes") (int_value c.minutes) no_fields))))

unfoldable pub fake_value : FakeCode → Value
fake_value c = struct (
    field (codes "code") (text_value c.code) (
      field (codes "synonyms") (text_value c.synonyms)
        (field (codes "penalty") (int_value c.penalty) no_fields)))

unfoldable pub spoiler_value : SpoilerParams → Value
spoiler_value c = struct (
    field (codes "text") (text_value c.text) (
      field (codes "code") (text_value c.code) (
        field (codes "synonyms") (text_value c.synonyms)
          (field (codes "penalty") (int_value c.penalty) no_fields))))

unfoldable pub later_fields : LevelParams → Fields
later_fields p = field (codes "hint2_interval") (int_value p.hint2_interval) (
    field (codes "hint2_penalty") (int_value p.hint2_penalty) (
      field (codes "code_count") (int_value p.code_count) (
        field (codes "try_limit") (int_value p.try_limit) (
          field (codes "penalty") (pointer_value int_value p.penalty) (
            field (codes "no_master_code") (pointer_value bool_value p.no_master_code) (
              field (codes "is_sabotage") (pointer_value bool_value p.is_sabotage) (
                field (codes "bonus") (pointer_value bool_value p.bonus) (
                  field (codes "bonus_time") (int_value p.bonus_time) (
                    field (codes "skvoz") (pointer_value bool_value p.skvoz) (
                      field (codes "skvoz_min") (int_value p.skvoz_min) (
                        field (codes "skvoz_start") (text_value p.skvoz_start) (
                          field (codes "lat") (text_value p.lat) (
                            field (codes "lon") (text_value p.lon) (
                              field (codes "radius") (text_value p.radius) (
                                field (codes "show_coord_with_hint2")
                                  (pointer_value bool_value p.show_coord_hint2)
                                  (field (codes "no_break") (pointer_value bool_value p.no_break) (
                                    field (codes "clue_before")
                                      (pointer_value bool_value p.clue_before)
                                      (field (codes "reserve") (pointer_value bool_value p.reserve)
                                        (field (codes "publish")
                                          (pointer_value bool_value p.publish)
                                          (field (codes "greeting") (text_value p.greeting) (
                                            field (codes "clear")
                                              (slice (items_of text_value p.clear))
                                              no_fields)))))))))))))))))))))

unfoldable pub params_value : LevelParams → Value
unfolding later_fields items_of code_value bonus_value fake_value spoiler_value
params_value p = struct (
    field (codes "title") (text_value p.title) (
      field (codes "subtitle") (text_value p.subtitle) (
        field (codes "question") (text_value p.question) (
          field (codes "hint1") (text_value p.hint1) (
            field (codes "hint2") (text_value p.hint2) (
              field (codes "location") (text_value p.location) (
                field (codes "location_comment") (text_value p.location_comment) (
                  field (codes "comment") (pointer_value text_value p.comment) (
                    field (codes "time_add_bonus_all")
                      (pointer_value int_value p.time_add_bonus_all)
                      (field (codes "codes") (slice (items_of code_value p.level_codes)) (
                        field (codes "sector_names") (slice (items_of text_value p.sector_names)) (
                          field (codes "bonus_codes") (slice (items_of bonus_value p.bonus_codes)) (
                            field (codes "fake_codes") (slice (items_of fake_value p.fake_codes)) (
                              field (codes "spoilers") (slice (items_of spoiler_value p.spoilers)) (
                                field (codes "clue_min") (int_value p.clue_min) (
                                  field (codes "clue_min2") (int_value p.clue_min2) (
                                    field (codes "clue_min3") (int_value p.clue_min3) (
                                      field (codes "hint1_on_request")
                                        (pointer_value bool_value p.hint1_on_request)
                                        (field (codes "hint1_interval") (int_value p.hint1_interval)
                                          (field (codes "hint1_penalty") (int_value p.hint1_penalty)
                                            (field (codes "hint2_on_request")
                                              (pointer_value bool_value p.hint2_on_request)
                                              (later_fields p))))))))))))))))))))))

unfoldable pub image_errors : Text → Text → List Text
image_errors s path =
    if contains_text (codes "pdf-image://") s
    then (path
        ++ codes
            " contains an unresolved pdf-image:// reference; bind uploaded image URLs in the PDF mapping and re-extract before importing")
      ∷ []
    else []

-- Windows-1251: the encoder's error for a text, if it has one.
module _ (encode_error : Text → Option Text) where
  unfoldable pub unencodable : Text → Option Text → List Text
  unencodable path none = []
  unencodable path (some e) = (path ++ (codes " cannot be encoded as Windows-1251: " ++ e)) ∷ []

  unfoldable pub walk_text : Text → Text → List Text
  unfolding unencodable image_errors
  walk_text s path = image_errors s path ++ unencodable path (encode_error s)

  unfoldable pub walk_int : ℤ → Text → List Text
  walk_int (pos n) path = []
  walk_int (negsuc n) path = (path ++ codes " must not be negative") ∷ []

  -- The errors of a value, in the order of the walk.
  unfoldable mutual
    unfolding walk_text walk_int

    pub walk : Value → Text → List Text
    walk (text_value s) path = walk_text s path
    walk (int_value n) path = walk_int n path
    walk passed_over path = []
    walk (struct fs) path = walk_fields fs path
    walk (slice xs) path = walk_items xs path 0

    pub walk_fields : Fields → Text → List Text
    walk_fields no_fields path = []
    walk_fields (field name v fs) path = walk v (path ++ (codes "." ++ name)) ++ walk_fields fs path

    pub walk_items : Items → Text → ℕ → List Text
    walk_items no_items path i = []
    walk_items (item v vs) path i =
        walk v (path ++ (codes "[" ++ (itoa i ++ codes "]"))) ++ walk_items vs path (i + 1)
