-- ===== src/StatStore/Tests.antt =====
-- One log, whose JSON is its version, in memory and on a disk that is a function.
use dzzzr_cli.Base.{
  ℕ, ◌≡◌, refl, Bool, true, false, ◌&&◌, Option, none, some, inl, inr, ◌⊎◌, List, [], ◌∷◌, ◌++◌,
  arith, ◌==◌, if◌then◌else◌, Text, codes, text_eq, Bool-cases, eq_of-text_eq, text_eq_refl, subst,
  sym, ap, All, &&-eq-true,
}
use dzzzr_cli.StatStore.Logs.{StoredLog, Services, RoundTrips}
use dzzzr_cli.StatStore.Memory.{Memory, update}
use dzzzr_cli.StatStore.Memory.Versions.{IsStored, Request, updates, handle_all, IsFresh}
use dzzzr_cli.StatStore.Memory.Update.{IsNext, update-IsNext, update_stays}
use dzzzr_cli.StatStore.Disk.{Directory, load_file}
use dzzzr_cli.StatStore.Disk.Laws.{IsReadable, DirectoryLaws}
use dzzzr_cli.StatStore.Disk.Kept.{revision_of, changed, load_file_keeps}

abbrev the_id : Text
the_id = codes "0123456789abcdef0123456789abcdef"

abbrev version : ℕ → StoredLog ℕ
version n = record { id = the_id; name = codes "n"; content = codes "c"; config = 7; revision = n }

is_the_log : StoredLog ℕ → Bool
is_the_log l =
    text_eq l.id the_id
    && (text_eq l.name (codes "n") && (text_eq l.content (codes "c") && (l.config == 7)))

decode_version : Text → Text ⊎ StoredLog ℕ
decode_version [] = inl []
decode_version (n ∷ s) = inr (version n)

abbrev services : Services ℕ
services = record {
  build = λ name content cfg. inr 7;
  encode = λ l. if is_the_log l then inr (l.revision ∷ []) else inl (codes "not encoded");
  decode = decode_version;
}

parts :
    (l : StoredLog ℕ)
    → is_the_log l ≡ true
    → (l.id ≡ the_id) × ((l.name ≡ codes "n") × ((l.content ≡ codes "c") × (l.config ≡ 7)))
unfolding is_the_log
parts l h =
    let (i, rest) = &&-eq-true _ _ h in
    let (n, rest') = &&-eq-true _ _ rest in
    let (c, g) = &&-eq-true _ _ rest' in
    (eq_of-text_eq _ _ i, (eq_of-text_eq _ _ n, (eq_of-text_eq _ _ c, ground (arith, g))))

is_the_log-version : (l : StoredLog ℕ) → is_the_log l ≡ true → version l.revision ≡ l
unfolding is_the_log
is_the_log-version l h =
    let (i, (n, (c, g))) = parts l h in
    λ k. record {
      id = sym i k;
      name = sym n k;
      content = sym c k;
      config = sym g k;
      revision = l.revision;
    }

codec : RoundTrips services
unfolding decode_version
codec = record {
  decode-encode = λ l b e. elim (Bool-cases (is_the_log l)) [
    | inr other ↦ cc (rw other at e)
    | inl same ↦
        let bytes : l.revision ∷ [] ≡ b = cc (rw same at e) in
        subst (λ c. decode_version c ≡ inr l) bytes (ap inr (is_the_log-version l same))
  ];
}

abbrev memory : Memory
memory = (the_id, 1 ∷ []) ∷ []

memory-IsStored : All (IsStored services) memory
unfolding IsStored decode_version
memory-IsStored = ((version 1, (refl, refl)), tt)

abbrev updated_memory : Memory
updated_memory = (the_id, 2 ∷ []) ∷ memory

updated : update services the_id 1 7 memory ≡ (inr (version 2), updated_memory)
unfolding update text_eq decode_version is_the_log
updated = refl

other_id : text_eq the_id (codes "other") ≡ false
unfolding text_eq
other_id = refl

update-IsNext_example :
    IsNext services codec the_id 1 7 memory (version 2) updated_memory (codes "other")
update-IsNext_example =
    update-IsNext services codec the_id 1 7 memory (version 2) updated_memory (codes "other")
      memory-IsStored other_id updated

abbrev requests : List (Request services)
requests = updates the_id 1 7 ∷ updates the_id 2 7 ∷ []

update_stays_example :
    (err : Text) × (update services the_id 1 7 (handle_all services requests updated_memory)
      ≡ (inl err, handle_all services requests updated_memory))
unfolding IsFresh
update_stays_example =
    update_stays services codec the_id 1 7 memory (version 2) updated_memory memory-IsStored updated
      requests (tt, (tt, tt)) 1 7 (omega arith)

abbrev Files : Type 0
Files = Text → Option Text

abbrev read_or : Option Text → Text ⊎ Text
read_or none = inl (codes "no such file")
read_or (some b) = inr b

abbrev moved : Text → Text → Files → Option Text → Option Text × Files
moved from to w none = (some (codes "no such file"), w)
moved from to w (some b) =
    (none, λ m. if text_eq to m then some b else if text_eq from m then none else w m)

abbrev directory : Directory Files
directory = record {
  make_root = λ w. (none, w);
  open_root = λ w. none;
  read_file = λ n w. read_or (w n);
  write_file = λ n b w. (none, λ m. if text_eq n m then some b else w m);
  rename = λ from to w. moved from to w (w from);
  remove = λ n w m. if text_eq n m then none else w m;
}

moved_keeps :
    (from to n b : Text) (w : Files) (r : Option Text)
    → text_eq from n ≡ false
    → text_eq to n ≡ false
    → read_or (w n) ≡ inr b
    → read_or ((moved from to w r).1 n) ≡ inr b
moved_keeps from to n b w none not_from not_to h = h
moved_keeps from to n b w (some c) not_from not_to h = rw (not_to, not_from) h

moved_fails :
    (from to n b err : Text) (w : Files) (r : Option Text)
    → (moved from to w r).0 ≡ some err
    → read_or (w n) ≡ inr b
    → read_or ((moved from to w r).1 n) ≡ inr b
moved_fails from to n b err w none e h = h
moved_fails from to n b err w (some c) e h = cc e

moved_reads :
    (from to b : Text) (w : Files) (r : Option Text)
    → (moved from to w r).0 ≡ none
    → read_or r ≡ inr b
    → read_or ((moved from to w r).1 to) ≡ inr b
moved_reads from to b w none e h = cc e
moved_reads from to b w (some c) e h = rw (text_eq_refl to) h

laws : DirectoryLaws directory
unfolding IsReadable
laws = record {
  make_root_keeps = λ n b w h. h;
  write_keeps = λ name c n b w other h. (refl, rw other h.1);
  write_reads = λ name c w o e. (refl, rw (text_eq_refl name) refl);
  rename_keeps = λ from to n b w not_from not_to h.
      (refl, moved_keeps from to n b w (w from) not_from not_to h.1);
  rename_fails = λ from to n b err w e h. (refl, moved_fails from to n b err w (w from) e h.1);
  rename_reads = λ from to b w e h. (refl, moved_reads from to b w (w from) e h.1);
  remove_keeps = λ name n b w other h. (refl, rw other h.1);
}

abbrev disk : Files
disk m = if text_eq (the_id ++ codes ".json") m then some (1 ∷ []) else none

stored : load_file directory services the_id disk ≡ inr (version 1)
unfolding load_file text_eq decode_version
stored = refl

load_file_keeps_example :
    (load_file directory services the_id
        (changed directory services laws (revision_of the_id 1 7) disk).1
      ≡ inr (version 1))
    ⊎ ((l : StoredLog ℕ) × ((changed directory services laws (revision_of the_id 1 7) disk).0
          ≡ inr l)
        × (l.id ≡ the_id)
        × (load_file directory services the_id
              (changed directory services laws (revision_of the_id 1 7) disk).1
            ≡ inr l))
load_file_keeps_example =
    load_file_keeps directory services laws codec (revision_of the_id 1 7) the_id disk (version 1)
      stored
