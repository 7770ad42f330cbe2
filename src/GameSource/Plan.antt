-- ===== src/GameSource/Plan.antt =====
-- gamesource/plan.go: a plan and its validation. The errors are those that `errors.Join` joins.
pub mod Valid
use dzzzr_cli.Base.{
  ℕ, suc, ◌+◌, ◌≡◌, refl, Bool, true, false, not, ◌&&◌, ◌||◌, Option, none, some, List, [], ◌∷◌,
  ◌++◌, if◌then◌else◌, map, ℤ, pos, negsuc, Text, codes, text_eq, any, ◌==◌,
}
use dzzzr_cli.GameSource.Level.{LevelParams}
use dzzzr_cli.GameSource.Codes.{Outside, indexed, error_if, validate_params}

pub record PlannedLevel : Type 0 where
  pub id : ℤ
  pub params : LevelParams

pub record Plan : Type 0 where
  pub game_id : ℤ
  pub mode : Text
  pub levels : List PlannedLevel

unfoldable pub int_eq : ℤ → ℤ → Bool
int_eq (pos a) (pos b) = a == b
int_eq (pos a) (negsuc b) = false
int_eq (negsuc a) (pos b) = false
int_eq (negsuc a) (negsuc b) = a == b

unfoldable pub is_positive : ℤ → Bool
is_positive (pos n) = not (n == 0)
is_positive (negsuc n) = false

abbrev pub creates : Text → Bool
creates mode = text_eq mode (codes "create")

abbrev pub updates : Text → Bool
updates mode = text_eq mode (codes "update")

unfoldable pub is_no_level : List PlannedLevel → Bool
is_no_level [] = true
is_no_level (l ∷ ls) = false

unfoldable pub at_level : ℕ → Text → Text
at_level i e = indexed (codes "levels") i ++ (codes ": " ++ e)

module _ {Float : Type 0} (o : Outside Float) (int_text : ℤ → Text) where
  unfoldable pub update_errors : List ℤ → ℤ → List Text
  unfolding error_if is_positive int_eq
  update_errors ids id =
      error_if (not (is_positive id)) (codes "id must be positive for update")
      ++ error_if (any (int_eq id) ids) (codes "duplicate id " ++ int_text id)

  unfoldable pub level_errors : Text → List ℤ → PlannedLevel → List Text
  unfolding update_errors error_if
  level_errors mode ids l =
      error_if (creates mode && not (int_eq l.id (pos 0))) (codes "id must be zero for create")
      ++ ((if updates mode then update_errors ids l.id else []) ++ validate_params o l.params)

  unfoldable pub all_level_errors : Text → List ℤ → ℕ → List PlannedLevel → List Text
  unfolding level_errors
  all_level_errors mode ids i [] = []
  all_level_errors mode ids i (l ∷ ls) =
      map (at_level i) (level_errors mode ids l)
      ++ all_level_errors mode (if updates mode then l.id ∷ ids else ids) (i + 1) ls

  -- `Validate`; no error is nil.
  unfoldable pub validate : Plan → List Text
  unfolding all_level_errors error_if
  validate p =
      error_if (not (is_positive p.game_id)) (codes "game_id must be positive")
      ++ (error_if (not (creates p.mode || updates p.mode)) (codes "mode must be create or update")
          ++ (error_if (is_no_level p.levels) (codes "levels must not be empty")
              ++ all_level_errors p.mode [] 0 p.levels))
