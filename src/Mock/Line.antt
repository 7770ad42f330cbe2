-- ===== src/Mock/Line.antt =====
-- The order of the main levels: `mainLine` and `nextMainOrder` of cmd/dzzzr-mock/state.go.
pub mod Next
use dzzzr_cli.Base.{
  ℕ, ◌≡◌, refl, Bool, true, false, not, Option, none, some, List, [], ◌∷◌, arith, leb, ◌==◌,
  if◌then◌else◌, keep, any, find,
}
use dzzzr_cli.Mock.State.{LevelDef, GameState, LevelProgress}

-- `sort.Slice` by order, as insertion.
unfoldable pub insert_level : LevelDef → List LevelDef → List LevelDef
insert_level l [] = l ∷ []
insert_level l (m ∷ ms) =
    let deeper = m ∷ insert_level l ms in if leb l.order m.order then l ∷ m ∷ ms else deeper

unfoldable pub sort_levels : List LevelDef → List LevelDef
sort_levels [] = []
sort_levels (l ∷ ls) = insert_level l (sort_levels ls)

unfoldable pub main_line : GameState → List LevelDef
main_line g = sort_levels (keep (λ l. not l.bonus) g.levels)

unfoldable pub contains : ℕ → List ℕ → Bool
contains n ns = any (λ m. m == n) ns

unfoldable pub first_unissued : List ℕ → List LevelDef → ℕ
first_unissued issued [] = 0
first_unissued issued (l ∷ ls) =
    let rest = first_unissued issued ls in if contains l.order issued then rest else l.order

-- The order of the level to hand over next, 0 when the line is over.
unfoldable pub next_main_order : GameState → ℕ
next_main_order g = first_unissued g.issued (main_line g)
