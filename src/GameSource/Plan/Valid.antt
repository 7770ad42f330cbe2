-- ===== src/GameSource/Plan/Valid.antt =====
-- What a plan that validates is.
use dzzzr_cli.Base.{
  ℕ, ◌+◌, ◌≡◌, refl, ap, inl, inr, ◌⊎◌, Bool, true, false, not, ◌&&◌, ◌||◌, List, [], ◌∷◌,
  if◌then◌else◌, map, ℤ, pos, negsuc, Text, codes, text_eq, eq_of-text_eq, any, ==_iff, All,
  ||-eq-true,
}
use dzzzr_cli.GameSource.Codes.{Outside, error_if, validate_params}
use dzzzr_cli.GameSource.Codes.Keys.{append-eq-nil}
use dzzzr_cli.GameSource.Plan.{
  PlannedLevel, Plan, int_eq, is_positive, creates, updates, is_no_level, at_level, update_errors,
  level_errors, all_level_errors, validate,
}

-- Each id is positive and not among `ids` or those before it.
unfoldable pub ids_apart : List ℤ → List PlannedLevel → Bool
ids_apart ids [] = true
ids_apart ids (l ∷ ls) =
    is_positive l.id && (not (any (int_eq l.id) ids) && ids_apart (l.id ∷ ids) ls)

pub record IsValid {Float : Type 0} (o : Outside Float) (p : Plan) : Type 0 where
  pub game : is_positive p.game_id ≡ true
  pub not_empty : is_no_level p.levels ≡ false
  pub params : All (λ l. validate_params o l.params ≡ []) p.levels
  pub ids :
      ((creates p.mode ≡ true) × All (λ l. l.id ≡ pos 0) p.levels)
      ⊎ ((updates p.mode ≡ true) × (ids_apart [] p.levels ≡ true))

error_if-nil : (b : Bool) (e : Text) → error_if b e ≡ [] → b ≡ false
unfolding error_if
error_if-nil true e h = cc h
error_if-nil false e h = refl

map-nil : (i : ℕ) (xs : List Text) → map (at_level i) xs ≡ [] → xs ≡ []
map-nil i [] h = refl
map-nil i (x ∷ xs) h = cc h

not-false : (b : Bool) → not b ≡ false → b ≡ true
not-false true h = refl
not-false false h = cc h

eq_of-int_eq_zero : (n : ℤ) → int_eq n (pos 0) ≡ true → n ≡ pos 0
unfolding int_eq
eq_of-int_eq_zero (pos n) h = ap pos ((==_iff n 0).0 h)
eq_of-int_eq_zero (negsuc n) h = cc h

pub create-not-update : (mode : Text) → creates mode ≡ true → updates mode ≡ false
create-not-update mode h = rw (eq_of-text_eq mode (codes "create") h) (unfold text_eq in refl)

module _ {Float : Type 0} (o : Outside Float) (int_text : ℤ → Text) where
  level_params :
      (mode : Text) (ids : List ℤ) (l : PlannedLevel)
      → level_errors o int_text mode ids l ≡ []
      → validate_params o l.params ≡ []
  unfolding level_errors
  level_params mode ids l h =
      let (a, rest) = append-eq-nil (error_if (creates mode && not (int_eq l.id (pos 0))) _) _ h in
      (append-eq-nil (if updates mode then update_errors o int_text ids l.id else []) _ rest).1

  All-params :
      (mode : Text) (ids : List ℤ) (i : ℕ) (ls : List PlannedLevel)
      → all_level_errors o int_text mode ids i ls ≡ []
      → All (λ l. validate_params o l.params ≡ []) ls
  unfolding all_level_errors
  All-params mode ids i [] h = tt
  All-params mode ids i (l ∷ ls) h =
      let (here, later) =
        append-eq-nil (map (at_level i) (level_errors o int_text mode ids l)) _ h in
      (
        level_params mode ids l (map-nil i _ here),
        All-params mode (if updates mode then l.id ∷ ids else ids) (i + 1) ls later,
      )

  created_ids :
      (mode : Text) (ids : List ℤ) (i : ℕ) (ls : List PlannedLevel)
      → creates mode ≡ true
      → all_level_errors o int_text mode ids i ls ≡ []
      → All (λ l. l.id ≡ pos 0) ls
  unfolding all_level_errors level_errors
  created_ids mode ids i [] c h = tt
  created_ids mode ids i (l ∷ ls) c h =
      let (here, later) =
        append-eq-nil (map (at_level i) (level_errors o int_text mode ids l)) _ h in
      let (a, rest) =
        append-eq-nil (error_if (creates mode && not (int_eq l.id (pos 0))) _) _
          (map-nil i (level_errors o int_text mode ids l) here) in
      let zero_id = error_if-nil (creates mode && not (int_eq l.id (pos 0))) _ a in
      (
        eq_of-int_eq_zero l.id (not-false (int_eq l.id (pos 0)) (rw c at zero_id)),
        created_ids mode (if updates mode then l.id ∷ ids else ids) (i + 1) ls c later,
      )

  updated_ids :
      (mode : Text) (ids : List ℤ) (i : ℕ) (ls : List PlannedLevel)
      → updates mode ≡ true
      → all_level_errors o int_text mode ids i ls ≡ []
      → ids_apart ids ls ≡ true
  unfolding all_level_errors level_errors update_errors ids_apart
  updated_ids mode ids i [] u h = refl
  updated_ids mode ids i (l ∷ ls) u h =
      let (here, later) =
        append-eq-nil (map (at_level i) (level_errors o int_text mode ids l)) _ h in
      let (a, rest) =
        append-eq-nil (error_if (creates mode && not (int_eq l.id (pos 0))) _) _
          (map-nil i (level_errors o int_text mode ids l) here) in
      let (b, c) =
        append-eq-nil (if updates mode then update_errors o int_text ids l.id else []) _ rest in
      let (not_pos, dup) = append-eq-nil (error_if (not (is_positive l.id)) _) _ (rw u at b) in
      rw
        (
          not-false (is_positive l.id) (error_if-nil _ _ not_pos),
          error_if-nil (any (int_eq l.id) ids) _ dup,
        )
        (updated_ids mode (l.id ∷ ids) (i + 1) ls u (rw u at later))

  -- A plan that validates has a positive game and at least one level, every level's parameters
  -- validate, and either it creates and every id is 0, or it updates and the ids are positive and all
  -- different.
  pub validate-IsValid : (p : Plan) → validate o int_text p ≡ [] → IsValid o p
  unfolding validate
  validate-IsValid p h =
      let (a, h1) = append-eq-nil (error_if (not (is_positive p.game_id)) _) _ h in
      let (b, h2) = append-eq-nil (error_if (not (creates p.mode || updates p.mode)) _) _ h1 in
      let (c, d) = append-eq-nil (error_if (is_no_level p.levels) _) _ h2 in
      record {
        game = not-false (is_positive p.game_id) (error_if-nil _ _ a);
        not_empty = error_if-nil (is_no_level p.levels) _ c;
        params = All-params p.mode [] 0 p.levels d;
        ids =
            elim (||-eq-true (creates p.mode) (updates p.mode)
              (not-false (creates p.mode || updates p.mode) (error_if-nil _ _ b))) [
                | inl m ↦ inl (m, created_ids p.mode [] 0 p.levels m d)
                | inr m ↦ inr (m, updated_ids p.mode [] 0 p.levels m d)
              ];
      }
