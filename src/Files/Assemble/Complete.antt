-- ===== src/Files/Assemble/Complete.antt =====
-- What an assembly that succeeds has put together.
use dzzzr_cli.Base.{
  ℕ, zero, suc, ◌+◌, ◌≡◌, refl, ap, ◌∙◌, subst, Option, none, some, inl, inr, ◌⊎◌, List, [], ◌∷◌,
  map, arith, Text, codes, text_eq, eq_of-text_eq, is_some, length, Bool-cases,
}
use dzzzr_cli.Files.Assemble.{
  Object, Storage, ◌>>=◌, ◌>>◌, wrapped, guard, read_object, key_of, Positions, position_of,
  positions_from, Slots, empty_slots, slot_at, set_slot, place_at, place, place_parts, missing,
  filled, complete, is_count, is_object_or_none, assemble_levels, max_json_bytes,
}

⊎-cases : {A B : Type 0} (m : A ⊎ B) → ((a : A) × (m ≡ inl a)) ⊎ ((b : B) × (m ≡ inr b))
⊎-cases (inl a) = inl (a, refl)
⊎-cases (inr b) = inr (b, refl)

-- A key is what an object says it is, or the error of reading it.
abbrev Key : Type 0
Key = Text ⊎ Text

unfoldable key_at : List Key → ℕ → Option Key
key_at [] i = none
key_at (k ∷ ks) zero = some k
key_at (k ∷ ks) (suc i) = key_at ks i

module _ (s : Storage) where
  -- A slot that is filled holds an object with the key of its place.
  unfoldable Fits : List Key → Slots → Type 0
  Fits [] [] = Unit {0}
  Fits [] (x ∷ xs) = ⊥
  Fits (k ∷ ks) [] = ⊥
  Fits (k ∷ ks) (none ∷ xs) = Fits ks xs
  Fits (k ∷ ks) (some o ∷ xs) = (key_of s o ≡ k) × Fits ks xs

  empty_slots-Fits : (items : List Object) → Fits (map (key_of s) items) (empty_slots items)
  unfolding Fits empty_slots
  empty_slots-Fits [] = tt
  empty_slots-Fits (item ∷ items) = empty_slots-Fits items

  set_slot-Fits :
      (ks : List Key) (xs : Slots) (i : ℕ) (o : Object)
      → Fits ks xs
      → key_at ks i ≡ some (key_of s o)
      → Fits ks (set_slot xs i o)
  unfolding Fits set_slot key_at
  set_slot-Fits [] [] i o h k = tt
  set_slot-Fits [] (x ∷ xs) i o h k = absurd h
  set_slot-Fits (c ∷ ks) [] i o h k = absurd h
  set_slot-Fits (c ∷ ks) (none ∷ xs) zero o h k = (cc k, h)
  set_slot-Fits (c ∷ ks) (some x ∷ xs) zero o h k = (cc k, h.1)
  set_slot-Fits (c ∷ ks) (none ∷ xs) (suc i) o h k = set_slot-Fits ks xs i o h k
  set_slot-Fits (c ∷ ks) (some x ∷ xs) (suc i) o h k = (h.0, set_slot-Fits ks xs i o h.1 k)

  filled_lem :
      (items : List Object) (xs : Slots)
      → Fits (map (key_of s) items) xs
      → missing s items xs ≡ []
      → map (key_of s) (filled xs) ≡ map (key_of s) items
  unfolding Fits missing filled
  filled_lem [] [] h e = refl
  filled_lem [] (x ∷ xs) h e = absurd h
  filled_lem (item ∷ items) [] h e = absurd h
  filled_lem (item ∷ items) (none ∷ xs) h e = cc e
  filled_lem (item ∷ items) (some o ∷ xs) h e = rw (h.0, filled_lem items xs h.1 e) refl

  complete-filled :
      (items : List Object) (xs : Slots) (ks : List Text) (objects : List Object)
      → complete items xs ks ≡ inr objects
      → (ks ≡ []) × (objects ≡ filled xs)
  unfolding complete
  complete-filled items xs [] objects h = (refl, cc h)
  complete-filled items xs (k ∷ ks) objects h = cc h

  -- Every position is that of its key.
  abbrev Finds : Positions → List Key → Type 0
  Finds ps ks = (key : Text) (i : ℕ) → position_of key ps ≡ some i → key_at ks i ≡ some (inr key)

  Finds-none : (ks : List Key) → Finds [] ks
  unfolding position_of
  Finds-none ks key i h = cc h

  extend-Finds :
      (ks : List Key) (key : Text) (i : ℕ) (ps : Positions)
      → key_at ks i ≡ some (inr key)
      → Finds ps ks
      → Finds ((key, i) ∷ ps) ks
  unfolding position_of
  extend-Finds ks key i ps here f key' j e = elim (Bool-cases (text_eq key key')) [
    | inl t ↦ cc (here, eq_of-text_eq key key' t, rw t at e)
    | inr t ↦ f key' j (rw t at e)
  ]

  -- Where the list of all keys goes on with these items, the positions from `i` on are right too.
  positions_from-Finds :
      (ks : List Key) (i : ℕ) (items : List Object) (ps ps' : Positions)
      → ((d : ℕ) → key_at ks (i + d) ≡ key_at (map (key_of s) items) d)
      → Finds ps ks
      → positions_from s i items ps ≡ inr ps'
      → Finds ps' ks
  unfolding positions_from wrapped guard key_at
  positions_from-Finds ks i [] ps ps' g f h = subst (λ p. Finds p ks) (cc h) f
  positions_from-Finds ks i (item ∷ items) ps ps' g f h = elim (⊎-cases (key_of s item)) [
    | inl (err, e) ↦ cc (rw (e) at h)
    | inr (key, e) ↦ elim (Bool-cases (is_some (position_of key ps))) [
      | inl t ↦ cc (rw (e, t) at h)
      | inr t ↦
          positions_from-Finds ks (suc i) items ((key, i) ∷ ps) ps'
            (λ d. ap (key_at ks) (omega arith) ∙ g (suc d))
            (extend-Finds ks key i ps (ap (key_at ks) (omega arith) ∙ g zero ∙ ap some e) f)
            (rw (e, t) at h)
    ]
  ]

  place_at-Fits :
      (ks : List Key) (key : Text) (part : Object) (xs xs' : Slots) (found : Option ℕ)
      → ((i : ℕ) → found ≡ some i → key_at ks i ≡ some (key_of s part))
      → Fits ks xs
      → place_at s key part xs found ≡ inr xs'
      → Fits ks xs'
  unfolding place_at
  place_at-Fits ks key part xs xs' none f h e = cc e
  place_at-Fits ks key part xs xs' (some i) f h e = elim (Bool-cases (is_some (slot_at xs i))) [
    | inl t ↦ cc (rw t at e)
    | inr t ↦ subst (Fits ks) (cc (rw t at e)) (set_slot-Fits ks xs i part h (f i refl))
  ]

  place_parts-Fits :
      (ks : List Key) (ps : Positions) (i : ℕ) (paths : List Text) (left : ℕ) (xs xs' : Slots)
      → Finds ps ks
      → Fits ks xs
      → place_parts s ps i paths left xs ≡ inr xs'
      → Fits ks xs'
  unfolding place_parts place wrapped
  place_parts-Fits ks ps i [] left xs xs' f h e = subst (Fits ks) (cc e) h
  place_parts-Fits ks ps i (path ∷ paths) left xs xs' f h e =
      elim (⊎-cases (read_object s path left)) [
        | inl (err, r) ↦ cc (rw (r) at e)
        | inr ((part, left'), r) ↦ elim (⊎-cases (key_of s part)) [
          | inl (err, k) ↦ cc (rw (r, k) at e)
          | inr (key, k) ↦ elim (⊎-cases (place_at s key part xs (position_of key ps))) [
            | inl (err, p) ↦ cc (rw (r, k, p) at e)
            | inr (xs1, p) ↦
                place_parts-Fits ks ps (suc i) paths left' xs1 xs' f
                  (place_at-Fits ks key part xs xs1 (position_of key ps)
                    (λ j at_j. rw k (f key j at_j)) h p)
                  (rw (r, k, p) at e)
          ]
        ]
      ]

  finished :
      (paths : List Text) (left : ℕ) (inventory objects : List Object) (ps : Positions) (xs : Slots)
      → positions_from s 0 inventory [] ≡ inr ps
      → place_parts s ps 0 paths left (empty_slots inventory) ≡ inr xs
      → complete inventory xs (missing s inventory xs) ≡ inr objects
      → map (key_of s) objects ≡ map (key_of s) inventory
  finished paths left inventory objects ps xs p q h =
      let (none_left, e) = complete-filled inventory xs (missing s inventory xs) objects h in
      rw e (
        filled_lem inventory xs
          (place_parts-Fits (map (key_of s) inventory) ps 0 paths left (empty_slots inventory) xs
            (positions_from-Finds (map (key_of s) inventory) 0 inventory [] ps
              (λ d. ap (key_at (map (key_of s) inventory)) (omega arith))
              (Finds-none (map (key_of s) inventory)) p)
            (empty_slots-Fits inventory) q)
          none_left)

  -- Where the manifest could be read, with its list of levels, a finished assembly has exactly the
  -- manifest's keys, in the manifest's order: no level is missing and none stands twice.
  pub assemble_levels_lem :
      (manifest_path : Text) (paths : List Text) (manifest : Object) (left : ℕ)
      (inventory objects : List Object)
      → read_object s manifest_path max_json_bytes ≡ inr (manifest, left)
      → s.decode_levels (manifest (codes "levels")) ≡ inr inventory
      → assemble_levels s manifest_path paths ≡ inr objects
      → map (key_of s) objects ≡ map (key_of s) inventory
  unfolding assemble_levels wrapped guard
  assemble_levels_lem manifest_path paths manifest left inventory objects r d h =
      elim (Bool-cases (is_count (length paths))) [
        | inr c ↦ cc (rw c at h)
        | inl c ↦ elim (Bool-cases (is_count (length inventory))) [
          | inr n ↦ cc (rw (c, r, d, n) at h)
          | inl n ↦ go (rw (c, r, d, n) at h)
        ]
      ]
    where
      go :
          (do
            ps ← positions_from s 0 inventory []
            guard
                (is_object_or_none (manifest (codes "metadata")))
                (codes "manifest.metadata должен быть объектом")
            slots ← place_parts s ps 0 paths left (empty_slots inventory)
            complete inventory slots (missing s inventory slots))
            ≡ inr objects
          → map (key_of s) objects ≡ map (key_of s) inventory
      go h = elim (⊎-cases (positions_from s 0 inventory [])) [
        | inl (err, p) ↦ cc (rw p at h)
        | inr (ps, p) ↦ elim (Bool-cases (is_object_or_none (manifest (codes "metadata")))) [
          | inr m ↦ cc (rw (p, m) at h)
          | inl m ↦ elim (⊎-cases (place_parts s ps 0 paths left (empty_slots inventory))) [
            | inl (err, q) ↦ cc (rw (p, m, q) at h)
            | inr (xs, q) ↦ finished paths left inventory objects ps xs p q (rw (p, m, q) at h)
          ]
        ]
      ]
