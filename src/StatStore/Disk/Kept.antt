-- ===== src/StatStore/Disk/Kept.antt =====
-- Whatever fails, each log can be read as before, or is the one that was saved.
use dzzzr_cli.Base.{
  ℕ, ◌≡◌, refl, ap, ◌∙◌, subst, true, Option, none, some, inl, inr, ◌⊎◌, ◌==◌, ltb, length, Text,
  text_eq, Bool-cases,
}
use dzzzr_cli.StatStore.Logs.{StoredLog, Services, RoundTrips, max_log_bytes}
use dzzzr_cli.StatStore.Disk.{
  Directory, json_name, tmp_name, is_valid_id, save_renamed, save_written, save_opened,
  save_encoded, save_made, save_file, load_read, load_opened, load_file, Saved, create_file_built,
  create_file, update_file_built, update_file_loaded, update_file,
}
use dzzzr_cli.StatStore.Disk.Laws.{
  IsReadable, DirectoryLaws, tmp_name-json_name, json_name-injective,
}

module _ {W Config : Type 0} (d : Directory W) (v : Services Config) (laws : DirectoryLaws d) where
  -- The file of `j` with the bytes `k` reads as before, or it is the log saved, encoded.
  IsKept : Text → Text → Saved d v → Type 0
  IsKept j k (r, w) =
      IsReadable d (json_name j) k w
      ⊎ ((l : StoredLog Config) × (b : Text) × (r ≡ inr l)
          × (l.id ≡ j)
          × (v.encode l ≡ inr b)
          × IsReadable d (json_name j) b w)

  module _ (j k : Text) (l : StoredLog Config) (b : Text) (encodes : v.encode l ≡ inr b) where
    save_renamed-IsKept :
        (w : W)
        → IsReadable d (json_name j) k w
        → IsReadable d (tmp_name l.id) b w
        → IsKept j k (save_renamed d v l (d.rename (tmp_name l.id) (json_name l.id) w))
    unfolding save_renamed IsKept
    save_renamed-IsKept w old new = go _ refl
      where
        from : Text
        from = tmp_name l.id

        removed :
            (n c : Text) (w' : W)
            → IsReadable d (json_name n) c w'
            → IsReadable d (json_name n) c (d.remove from w')
        removed n c w' h = laws.remove_keeps from (json_name n) c w' (tmp_name-json_name l.id n) h

        go :
            (r : Option Text × W)
            → d.rename from (json_name l.id) w ≡ r
            → IsKept j k (save_renamed d v l r)
        go (some err, w') e = inl (
            removed j k w' (
              subst (IsReadable d (json_name j) k) (ap (λ x. x.1) e) (
                laws.rename_fails from (json_name l.id) (json_name j) k err w (ap (λ x. x.0) e)
                  old)))
        go (none, w') e = elim (Bool-cases (text_eq (json_name l.id) (json_name j))) [
          | inr other ↦ inl (
              removed j k w' (
                subst (IsReadable d (json_name j) k) (ap (λ x. x.1) e) (
                  laws.rename_keeps from (json_name l.id) (json_name j) k w
                    (tmp_name-json_name l.id j) other old)))
          | inl same ↦
              let at : l.id ≡ j = json_name-injective l.id j same in
              let here : IsReadable d (json_name l.id) b w' =
                subst (IsReadable d (json_name l.id) b) (ap (λ x. x.1) e)
                  (laws.rename_reads from (json_name l.id) b w (ap (λ x. x.0) e) new) in
              inr (
                l,
                b,
                refl,
                at,
                encodes,
                subst (λ n. IsReadable d (json_name n) b (d.remove from w')) at
                    (removed l.id b w' here),
              )
        ]

    save_written-IsKept :
        (w : W)
        → IsReadable d (json_name j) k w
        → IsKept j k (save_written d v l (d.write_file (tmp_name l.id) b w))
    unfolding save_written IsKept IsReadable
    save_written-IsKept w old = go _ refl
      where
        kept : IsReadable d (json_name j) k (d.write_file (tmp_name l.id) b w).1
        kept = laws.write_keeps (tmp_name l.id) b (json_name j) k w (tmp_name-json_name l.id j) old

        go :
            (r : Option Text × W)
            → d.write_file (tmp_name l.id) b w ≡ r
            → IsKept j k (save_written d v l r)
        go (some err, w') e = inl (subst (IsReadable d (json_name j) k) (ap (λ x. x.1) e) kept)
        go (none, w') e =
            save_renamed-IsKept w' (subst (IsReadable d (json_name j) k) (ap (λ x. x.1) e) kept) (
              subst (IsReadable d (tmp_name l.id) b) (ap (λ x. x.1) e)
                (laws.write_reads (tmp_name l.id) b w old.0 (ap (λ x. x.0) e)))

  save_file-IsKept :
      (j k : Text) (l : StoredLog Config) (w : W)
      → IsReadable d (json_name j) k w
      → IsKept j k (save_file d v l w)
  unfolding save_file save_made save_encoded save_opened IsKept
  save_file-IsKept j k l w old = made _ refl
    where
      opened :
          (b : Text) (w' : W) (r : Option Text)
          → v.encode l ≡ inr b
          → IsReadable d (json_name j) k w'
          → IsKept j k (save_opened d v l b r w')
      opened b w' (some err) e h = inl h
      opened b w' none e h = save_written-IsKept j k l b e w' h

      encoded :
          (w' : W) (r : Text ⊎ Text)
          → v.encode l ≡ r
          → IsReadable d (json_name j) k w'
          → IsKept j k (save_encoded d v l r w')
      encoded w' (inl err) e h = inl h
      encoded w' (inr b) e h = opened b w' (d.open_root w') e h

      made : (r : Option Text × W) → d.make_root w ≡ r → IsKept j k (save_made d v l r)
      made (some err, w') e =
          inl (
            subst (IsReadable d (json_name j) k) (ap (λ x. x.1) e) (laws.make_root_keeps _ k w old))
      made (none, w') e =
          encoded w' (v.encode l) refl (
            subst (IsReadable d (json_name j) k) (ap (λ x. x.1) e) (laws.make_root_keeps _ k w old))

  -- What changes the store.
  pub data Change : Type 0 where
    creation : (name base content : Text) (cfg : Option Config) (drawn : Text ⊎ Text) → Change
    revision_of : (id : Text) (revision : ℕ) (cfg : Config) → Change

  unfoldable pub changed : Change → W → Saved d v
  unfolding create_file update_file
  changed (creation name base content cfg drawn) w = create_file d v name base content cfg drawn w
  changed (revision_of id revision cfg) w = update_file d v id revision cfg w

  changed-IsKept :
      (j k : Text) (c : Change) (w : W) → IsReadable d (json_name j) k w → IsKept j k (changed c w)
  unfolding changed create_file create_file_built update_file update_file_loaded update_file_built
      IsKept
  changed-IsKept j k (creation name base content cfg drawn) w old =
      elim (Bool-cases (ltb max_log_bytes (length content))) [
        | inl long ↦ rw long (inl old)
        | inr fits ↦ rw fits (built (v.build name content cfg) drawn)
      ]
    where
      built :
          (r : Text ⊎ Config) (drawn' : Text ⊎ Text)
          → IsKept j k (create_file_built d v base content r drawn' w)
      built (inl err) drawn' = inl old
      built (inr config) (inl err) = inl old
      built (inr config) (inr id) = save_file-IsKept j k _ w old
  changed-IsKept j k (revision_of id revision cfg) w old = loaded (load_file d v id w)
    where
      built : (l : StoredLog Config) (r : Text ⊎ Config) → IsKept j k (update_file_built d v l r w)
      built l (inl err) = inl old
      built l (inr config) = save_file-IsKept j k _ w old

      loaded : (r : Text ⊎ StoredLog Config) → IsKept j k (update_file_loaded d v revision cfg r w)
      loaded (inl err) = inl old
      loaded (inr l) = elim (Bool-cases (revision == l.revision)) [
        | inr stale ↦ rw stale (inl old)
        | inl current ↦ rw current (built l (v.build l.name l.content (some cfg)))
      ]

  load_file-IsReadable :
      (j : Text) (w : W) (x : StoredLog Config)
      → load_file d v j w ≡ inr x
      → (k : Text) × (is_valid_id j ≡ true) × (v.decode k ≡ inr x) × IsReadable d (json_name j) k w
  unfolding load_file load_opened load_read IsReadable
  load_file-IsReadable j w x h = elim (Bool-cases (is_valid_id j)) [
    | inr bad ↦ cc (rw bad at h)
    | inl valid ↦
        opened valid (d.open_root w) (d.read_file (json_name j) w) refl refl (rw valid at h)
  ]
    where
      opened :
          is_valid_id j ≡ true
          → (o : Option Text) (r : Text ⊎ Text) → d.open_root w ≡ o
          → d.read_file (json_name j) w ≡ r
          → load_opened d v j o w ≡ inr x
          → (k : Text) × (is_valid_id j ≡ true)
            × (v.decode k ≡ inr x)
            × IsReadable d (json_name j) k w
      opened valid (some err) r eo er y = cc y
      opened valid none (inl err) eo er y = cc (rw er at y)
      opened valid none (inr k) eo er y = (k, valid, rw er at y, (eo, er))

  load_file-decode :
      (j k : Text) (w : W)
      → is_valid_id j ≡ true
      → IsReadable d (json_name j) k w
      → load_file d v j w ≡ v.decode k
  unfolding load_file load_opened load_read IsReadable
  load_file-decode j k w valid (o, r) = rw (valid, o, r) refl

  -- On a directory with the documented laws, a log that loads before a creation or an update loads
  -- after it the same, whatever fails on the way, or it is the log that the call returned without an
  -- error.
  pub load_file_keeps :
      (codec : RoundTrips v)
      → (c : Change) (j : Text) (w : W) (x : StoredLog Config) → load_file d v j w ≡ inr x
      → (load_file d v j (changed c w).1 ≡ inr x)
        ⊎ ((l : StoredLog Config) × ((changed c w).0 ≡ inr l)
            × (l.id ≡ j)
            × (load_file d v j (changed c w).1 ≡ inr l))
  unfolding IsKept
  load_file_keeps codec c j w x h =
      let (k, valid, decodes, old) = load_file-IsReadable j w x h in
      elim (changed-IsKept j k c w old) [
        | inl same ↦ inl (load_file-decode j k _ valid same ∙ decodes)
        | inr (l, b, r, at, encodes, new) ↦
            inr (l, r, at, load_file-decode j b _ valid new ∙ codec.decode-encode l b encodes)
      ]
