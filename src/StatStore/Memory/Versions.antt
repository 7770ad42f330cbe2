-- ===== src/StatStore/Memory/Versions.antt =====
-- The versions of a log in memory: they only grow, so of two updates of one version one is refused.
use dzzzr_cli.Base.{
  ℕ, ◌+◌, ◌≤◌, ◌≡◌, refl, sym, ap, ◌∙◌, subst, Bool, true, not, Option, some, inl, inr, ◌⊎◌, List,
  [], ◌∷◌, arith, All, ltb, ◌==◌, length, Text, text_eq, eq_of-text_eq, Bool-cases,
}
use dzzzr_cli.StatStore.Logs.{StoredLog, Services, RoundTrips, max_log_bytes}
use dzzzr_cli.StatStore.Memory.{
  Memory, bytes_at, save_bytes, save, create_drawn, create_built, create, load_bytes, load,
  update_built, update_loaded, update,
}

module _ {Config : Type 0} (v : Services Config) where
  -- What is stored under an identifier decodes to a log that has it.
  unfoldable pub IsStored : Text × Text → Type 0
  IsStored (id, b) = (l : StoredLog Config) × ((v.decode b ≡ inr l) × (l.id ≡ id))

  -- A log is there, and its version is at least `n`.
  unfoldable pub IsFrom : Text → ℕ → Memory → Type 0
  IsFrom id n s = (l : StoredLog Config) × ((load v id s ≡ inr l) × (n ≤ l.revision))

  pub data Request : Type 0 where
    creates : (name content : Text) (cfg : Option Config) (drawn : Text ⊎ Text) → Request
    updates : (id : Text) (revision : ℕ) (cfg : Config) → Request

  unfoldable pub handle : Request → Memory → Memory
  unfolding create update
  handle (creates name content cfg drawn) s = (create v name content cfg drawn s).1
  handle (updates id revision cfg) s = (update v id revision cfg s).1

  unfoldable pub handle_all : List Request → Memory → Memory
  unfolding handle
  handle_all [] s = s
  handle_all (q ∷ qs) s = handle_all qs (handle q s)

  unfoldable pub draws_other : Text → Text ⊎ Text → Bool
  draws_other id (inl err) = true
  draws_other id (inr drawn) = not (text_eq drawn id)

  -- The request does not draw an identifier that is in use.
  unfoldable pub IsFresh : Text → Request → Type 0
  unfolding draws_other
  IsFresh id (creates name content cfg drawn) = draws_other id drawn ≡ true
  IsFresh id (updates id' revision cfg) = Unit

  module _ (codec : RoundTrips v) where
    save-IsStored :
        (l : StoredLog Config) (s : Memory) → All IsStored s → All IsStored (save v l s).1
    unfolding save save_bytes IsStored
    save-IsStored l s sound = go (v.encode l) refl
      where
        go : (r : Text ⊎ Text) → v.encode l ≡ r → All IsStored (save_bytes v l r s).1
        go (inl err) e = sound
        go (inr b) e = ((l, (codec.decode-encode l b e, refl)), sound)

    save-IsFrom :
        (l : StoredLog Config) (id : Text) (n : ℕ) (s : Memory)
        → (text_eq l.id id ≡ true → n ≤ l.revision)
        → IsFrom id n s
        → IsFrom id n (save v l s).1
    unfolding save save_bytes load bytes_at load_bytes IsFrom
    save-IsFrom l id n s le here = go (v.encode l) refl
      where
        go : (r : Text ⊎ Text) → v.encode l ≡ r → IsFrom id n (save_bytes v l r s).1
        go (inl err) e = here
        go (inr b) e = elim (Bool-cases (text_eq l.id id)) [
          | inl same ↦ (l, (rw same (codec.decode-encode l b e), le same))
          | inr other ↦ (here.0, (rw other here.1.0, here.1.1))
        ]

  -- A creation leaves the memory as it is, or saves the first version.
  create-cases :
      (P : Memory → Type 0) (name content : Text) (cfg : Option Config) (drawn : Text ⊎ Text)
      (s : Memory)
      → P s
      → ((id : Text) (config : Config)
          → drawn ≡ inr id
          → P
              (save v
                (record { id = id; name = name; content = content; config = config; revision = 1 })
                s).1)
      → P (create v name content cfg drawn s).1
  unfolding create create_built create_drawn
  create-cases P name content cfg drawn s same saved =
      elim (Bool-cases (ltb max_log_bytes (length content))) [
        | inl long ↦ rw long same
        | inr fits ↦ rw fits (built (v.build name content cfg) drawn refl)
      ]
    where
      built :
          (r : Text ⊎ Config) (d : Text ⊎ Text)
          → drawn ≡ d
          → P (create_built v name content r d s).1
      built (inl err) d e = same
      built (inr config) (inl err) e = same
      built (inr config) (inr id) e = saved id config e

  -- An update leaves it as it is, or saves the next version of what is there.
  update-cases :
      (P : Memory → Type 0) (id : Text) (revision : ℕ) (cfg : Config) (s : Memory)
      → P s
      → ((l : StoredLog Config) (config : Config)
          → load v id s ≡ inr l
          → l.revision ≡ revision
          → P (save v (record l { config = config; revision = l.revision + 1 }) s).1)
      → P (update v id revision cfg s).1
  unfolding update update_loaded update_built
  update-cases P id revision cfg s same saved = loaded (load v id s) refl
    where
      built :
          (l : StoredLog Config) (r : Text ⊎ Config)
          → load v id s ≡ inr l
          → l.revision ≡ revision
          → P (update_built v l r s).1
      built l (inl err) h e = same
      built l (inr config) h e = saved l config h e

      loaded :
          (r : Text ⊎ StoredLog Config) → load v id s ≡ r → P (update_loaded v revision cfg r s).1
      loaded (inl err) h = same
      loaded (inr l) h = elim (Bool-cases (l.revision == revision)) [
        | inr stale ↦ rw stale same
        | inl current ↦
            rw current (built l (v.build l.name l.content (some cfg)) h (ground (arith, current)))
      ]

  pub load-id :
      (id : Text) (s : Memory) (l : StoredLog Config)
      → All IsStored s
      → load v id s ≡ inr l
      → l.id ≡ id
  unfolding load load_bytes bytes_at IsStored
  load-id id [] l sound h = cc h
  load-id id ((key, b) ∷ s) l sound h = elim (Bool-cases (text_eq key id)) [
    | inl same ↦
        let (k, (decodes, has)) = sound.0 in
        let found : v.decode b ≡ inr l = rw same at h in
        let eq : k ≡ l = cc (decodes, found) in
        sym (ap (λ x. x.id) eq) ∙ has ∙ eq_of-text_eq key id same
    | inr other ↦ load-id id s l sound.1 (rw other at h)
  ]

  module _ (codec : RoundTrips v) where
    pub handle-IsStored : (q : Request) (s : Memory) → All IsStored s → All IsStored (handle q s)
    unfolding handle
    handle-IsStored (creates name content cfg drawn) s sound =
        create-cases (All IsStored) name content cfg drawn s sound
          λ id config e. save-IsStored codec _ s sound
    handle-IsStored (updates id revision cfg) s sound =
        update-cases (All IsStored) id revision cfg s sound
          λ l config h e. save-IsStored codec _ s sound

    handle-IsFrom :
        (id : Text) (n : ℕ) (q : Request) (s : Memory)
        → All IsStored s
        → IsFresh id q
        → IsFrom id n s
        → IsFrom id n (handle q s)
    unfolding handle IsFresh IsFrom draws_other
    handle-IsFrom id n (creates name content cfg drawn) s sound fresh from =
        create-cases (IsFrom id n) name content cfg drawn s from λ id' config e.
          save-IsFrom codec _ id n s
            (λ same. cc (rw same at (subst (λ d. draws_other id d ≡ true) e fresh))) from
    handle-IsFrom id n (updates id' revision cfg) s sound fresh from =
        update-cases (IsFrom id n) id' revision cfg s from λ l config h e.
          save-IsFrom codec _ id n s
            (λ same.
              let there : id' ≡ id = sym (load-id id' s l sound h) ∙ eq_of-text_eq l.id id same in
              let here : load v id s ≡ inr l = subst (λ i. load v i s ≡ inr l) there h in
              let eq : from.0 ≡ l = cc (from.1.0, here) in
              let le : n ≤ l.revision = subst (λ x. n ≤ x.revision) eq from.1.1 in
              omega (arith, le))
            from

    pub handle_all-IsFrom :
        (id : Text) (n : ℕ) (qs : List Request) (s : Memory)
        → All IsStored s
        → All (IsFresh id) qs
        → IsFrom id n s
        → IsFrom id n (handle_all qs s)
    unfolding handle_all
    handle_all-IsFrom id n [] s sound fresh from = from
    handle_all-IsFrom id n (q ∷ qs) s sound fresh from =
        handle_all-IsFrom id n qs (handle q s) (handle-IsStored q s sound) fresh.1
          (handle-IsFrom id n q s sound fresh.0 from)
