-- ===== src/Mock/Step.antt =====
-- What every change of the game keeps: the invariant, and what only ever grows.
pub mod Parts
pub mod Moves
pub mod Entries
pub mod Captain
pub mod Posts
use dzzzr_cli.Base.{
  ℕ, suc, ◌+◌, ◌≤◌, ◌<◌, ◌≡◌, ◌≢◌, refl, sym, ◌∙◌, ◌⊎◌, inl, inr, Bool, true, false, not, ◌&&◌,
  ◌||◌, Option, none, some, List, [], ◌∷◌, ◌++◌, arith, leb, ltb, ◌==◌, if◌then◌else◌, any, find,
  is_some, keep, Text, Bool-cases, ==_refl, ==_iff,
}
use dzzzr_cli.Mock.State.{LevelDef, LevelProgress, LogEntry, GameState}
use dzzzr_cli.Mock.Line.{contains, first_unissued, sort_levels}

-- No level was handed over twice.
unfoldable pub distinct : List ℕ → Bool
distinct [] = true
distinct (n ∷ ns) = not (contains n ns) && distinct ns

-- The invariant of a game, over the fields that it speaks of.
pub record Sound (levels : List LevelDef) (issued : List ℕ) (current : ℕ) (finished : Bool)
    (progress : ℕ → Option LevelProgress) (breaks abandons : ℕ) : Type 0 where
  -- A level that is being played exists, has progress, and the game is not over.
  pub playing :
      current ≢ 0
      → (any (λ l. l.order == current) levels ≡ true)
        × (is_some (progress current) ≡ true)
        × (finished ≡ false)
  -- Every level handed over has progress, and none was handed over twice.
  pub recorded : (n : ℕ) → contains n issued ≡ true → is_some (progress n) ≡ true
  pub once : distinct issued ≡ true
  -- The game ends only when every main level was handed over.
  pub over :
      finished ≡ true → first_unissued issued (sort_levels (keep (λ l. not l.bonus) levels)) ≡ 0
  pub numbered : any (λ l. l.order == 0) levels ≡ false
  pub breaks_capped : breaks ≤ 2
  pub abandons_capped : abandons ≤ 2

abbrev pub IsSound : GameState → Type 0
IsSound g = Sound g.levels g.issued g.current g.finished g.progress g.breaks g.abandons

abbrev pub Extends {ℓ} : {A : Type ℓ} → List A → List A → Type ℓ
Extends {A} xs ys = (zs : List A) × (ys ≡ xs ++ zs)

-- From `g` to `h` the levels and the captain stay, the log and the list of issued levels are only
-- appended to, and what is over or used up stays so.
pub record Step (g h : GameState) : Type 0 where
  pub sound : IsSound g → IsSound h
  pub levels_kept : h.levels ≡ g.levels
  pub captain_kept : h.captain ≡ g.captain
  pub log_grows : Extends g.log h.log
  pub issued_grows : Extends g.issued h.issued
  pub finished_stays : g.finished ≡ true → h.finished ≡ true
  pub master_stays : g.master_used ≡ true → h.master_used ≡ true
