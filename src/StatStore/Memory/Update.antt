-- ===== src/StatStore/Memory/Update.antt =====
-- What an update does, and that no update is lost.
use dzzzr_cli.Base.{
  ℕ, ◌+◌, ◌≤◌, ◌≡◌, refl, sym, ap, ◌∙◌, subst, false, some, inl, inr, ◌⊎◌, List, [], ◌∷◌, arith,
  All, ◌==◌, Text, codes, text_eq, text_eq_refl, Bool-cases,
}
use dzzzr_cli.StatStore.Logs.{StoredLog, Services, RoundTrips}
use dzzzr_cli.StatStore.Memory.{
  Memory, bytes_at, save_bytes, save, load_bytes, load, update_built, update_loaded, update,
}
use dzzzr_cli.StatStore.Memory.Versions.{
  IsStored, IsFrom, Request, handle, handle_all, IsFresh, load-id, handle-IsStored,
  handle_all-IsFrom, updates,
}

module _ {Config : Type 0} (v : Services Config) (codec : RoundTrips v) where
  -- The next version of the log that was there, under the same identifier, and no other.
  pub record IsNext (id : Text) (revision : ℕ) (cfg : Config) (s : Memory) (l : StoredLog Config)
      (s' : Memory) (j : Text) : Type 0 where
    pub k : StoredLog Config
    pub config : Config
    pub was : load v id s ≡ inr k
    pub version : k.revision ≡ revision
    pub built : v.build k.name k.content (some cfg) ≡ inr config
    pub updated : l ≡ record k { config = config; revision = k.revision + 1 }
    pub now : load v id s' ≡ inr l
    pub others : load v j s' ≡ load v j s

  save-IsNext :
      (id : Text) (revision : ℕ) (cfg : Config) (s : Memory) (k : StoredLog Config)
      (config : Config) (l : StoredLog Config) (s' : Memory) (j : Text)
      → All (IsStored v) s
      → load v id s ≡ inr k
      → k.revision ≡ revision
      → v.build k.name k.content (some cfg) ≡ inr config
      → text_eq id j ≡ false
      → save v (record k { config = config; revision = k.revision + 1 }) s ≡ (inr l, s')
      → IsNext id revision cfg s l s' j
  unfolding save save_bytes load load_bytes bytes_at
  save-IsNext id revision cfg s k config l s' j sound was version built other h =
      go (v.encode next) refl h
    where
      next : StoredLog Config
      next = record k { config = config; revision = k.revision + 1 }

      go :
          (r : Text ⊎ Text)
          → v.encode next ≡ r
          → save_bytes v next r s ≡ (inr l, s')
          → IsNext id revision cfg s l s' j
      go (inl err) e x = cc (ap (λ y. y.0) x)
      go (inr b) e x =
          let eq : next ≡ l = cc (ap (λ y. y.0) x) in
          let mem : (k.id, b) ∷ s ≡ s' = ap (λ y. y.1) x in
          let at : k.id ≡ id = load-id v id s k sound was in
          let mem' : (id, b) ∷ s ≡ s' = subst (λ i. (i, b) ∷ s ≡ s') at mem in
          record {
            k = k;
            config = config;
            was = was;
            version = version;
            built = built;
            updated = sym eq;
            now =
                subst (λ m. load v id m ≡ inr l) mem'
                  (rw (text_eq_refl id) (codec.decode-encode next b e ∙ ap inr eq));
            others = subst (λ m. load v j m ≡ load v j s) mem' (rw other refl);
          }

  -- In a sound memory, with a codec that round-trips: an update that succeeds was of the version it
  -- names; the log it gives has the next version and the settings that were built, and can be loaded;
  -- any other identifier loads as before.
  pub update-IsNext :
      (id : Text) (revision : ℕ) (cfg : Config) (s : Memory) (l : StoredLog Config) (s' : Memory)
      (j : Text)
      → All (IsStored v) s
      → text_eq id j ≡ false
      → update v id revision cfg s ≡ (inr l, s')
      → IsNext id revision cfg s l s' j
  unfolding update update_loaded update_built
  update-IsNext id revision cfg s l s' j sound other h = loaded (load v id s) refl h
    where
      made :
          (k : StoredLog Config) (r : Text ⊎ Config)
          → load v id s ≡ inr k
          → k.revision ≡ revision
          → v.build k.name k.content (some cfg) ≡ r
          → update_built v k r s ≡ (inr l, s')
          → IsNext id revision cfg s l s' j
      made k (inl err) was version b x = cc (ap (λ y. y.0) x)
      made k (inr config) was version b x =
          save-IsNext id revision cfg s k config l s' j sound was version b other x

      loaded :
          (r : Text ⊎ StoredLog Config)
          → load v id s ≡ r
          → update_loaded v revision cfg r s ≡ (inr l, s')
          → IsNext id revision cfg s l s' j
      loaded (inl err) was x = cc (ap (λ y. y.0) x)
      loaded (inr k) was x = elim (Bool-cases (k.revision == revision)) [
        | inr stale ↦ cc (ap (λ y. y.0) (rw stale at x))
        | inl current ↦ made k _ was (ground (arith, current)) refl (rw current at x)
      ]

  text_eq_longer : (c : ℕ) (id : Text) → text_eq id (c ∷ id) ≡ false
  unfolding text_eq
  text_eq_longer c [] = refl
  text_eq_longer c (d ∷ id) =
      let rest : text_eq id (d ∷ id) ≡ false = text_eq_longer d id in ground (arith, rest)

  update-IsFrom :
      (id : Text) (revision : ℕ) (cfg : Config) (s : Memory) (l : StoredLog Config) (s' : Memory)
      → All (IsStored v) s
      → update v id revision cfg s ≡ (inr l, s')
      → All (IsStored v) s' × IsFrom v id (revision + 1) s'
  unfolding IsFrom handle
  update-IsFrom id revision cfg s l s' sound h =
      let next = update-IsNext id revision cfg s l s' (0 ∷ id) sound (text_eq_longer 0 id) h in
      let after : All (IsStored v) (update v id revision cfg s).1 =
        handle-IsStored v codec (updates id revision cfg) s sound in
      let same : (update v id revision cfg s).1 ≡ s' = ap (λ y. y.1) h in
      let grown : l.revision ≡ next.k.revision + 1 = ap (λ x. x.revision) next.updated in
      let was : next.k.revision ≡ revision = next.version in
      (subst (All (IsStored v)) same after, (l, (next.now, omega (arith, grown, was))))

  update-stale :
      (id : Text) (old n : ℕ) (cfg : Config) (s : Memory)
      → IsFrom v id n s
      → old + 1 ≤ n
      → (err : Text) × (update v id old cfg s ≡ (inl err, s))
  unfolding update update_loaded IsFrom
  update-stale id old n cfg s (l, (here, le)) lt =
      let stale : (l.revision == old) ≡ false = ground (arith, le, lt) in
      (codes "параметры изменились: перечитайте журнал", rw (here, stale) refl)

  -- After an update of a version has succeeded in a sound memory, and after any further requests that do
  -- not draw its identifier again, an update of that version or an older one is refused and changes
  -- nothing.
  pub update_stays :
      (id : Text) (revision : ℕ) (cfg : Config) (s : Memory) (l : StoredLog Config) (s' : Memory)
      → All (IsStored v) s
      → update v id revision cfg s ≡ (inr l, s')
      → (qs : List (Request v)) → All (IsFresh v id) qs
      → (old : ℕ) (later : Config) → old ≤ revision
      → (err : Text) × (update v id old later (handle_all v qs s') ≡ (inl err, handle_all v qs s'))
  update_stays id revision cfg s l s' sound h qs fresh old later le =
      let (after, from) = update-IsFrom id revision cfg s l s' sound h in
      update-stale id old (revision + 1) later _
        (handle_all-IsFrom v codec id (revision + 1) qs s' after fresh from) (omega (arith, le))
