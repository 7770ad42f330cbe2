-- ===== src/Files/Read/Bounds.antt =====
-- Where a file that is read lies, and how much of it is returned.
use dzzzr_cli.Base.{
  ℕ, ◌+◌, ◌≤◌, ◌≡◌, refl, sym, subst, inl, inr, ◌⊎◌, Option, none, some, arith, ltb, Text, length,
  ℤ, pos, negsuc, Bool-cases,
}
use dzzzr_cli.Tools.Arguments.{Argument}
use dzzzr_cli.Files.Args.{require_string, int_or, clamp}
use dzzzr_cli.Files.Root.{Paths, IsUnder, resolve, resolve-IsUnder_root}
use dzzzr_cli.Files.Read.{
  FileInfo, OpenFile, FileSystem, ReadResult, max_read_bytes, take, drop, window, unless_error,
  read_open, read_opened, read_stat, read_at, resolve_named, read_file,
}
use dzzzr_cli.Files.Read.Pages.{length-take}

clamp-le : (v : ℤ) (lo hi : ℕ) → clamp v lo hi ≤ hi
unfolding clamp
clamp-le (pos n) lo hi = ground arith
clamp-le (negsuc n) lo hi = ground arith

window-le : (bytes : Text) (offset limit : ℕ) → length (window bytes offset limit).0 ≤ limit
unfolding window
window-le bytes offset limit =
    let found = take (limit + 1) (drop offset bytes) in
    elim (Bool-cases (ltb limit (length found))) [
      | inl longer ↦ rw (longer, length-take limit found) (ground arith)
      | inr fits ↦ rw fits (ground (arith, fits))
    ]

resolved-cases : (o : Text ⊎ Text) → ((e : Text) × (o ≡ inl e)) ⊎ ((t : Text) × (o ≡ inr t))
resolved-cases (inl e) = inl (e, refl)
resolved-cases (inr t) = inr (t, refl)

-- What a read may return, of which path and within which limit.
abbrev Reads : Text → ℕ → ℕ → Text ⊎ ReadResult → Type 0
Reads abs offset limit (inl err) = Unit
Reads abs offset limit (inr r) =
    (r.path ≡ abs) × (r.offset ≡ offset) × (r.read ≡ length r.content) × (r.read ≤ limit)

unless_error-Reads :
    (abs : Text) (offset limit : ℕ) (e : Option Text) (next : Text ⊎ ReadResult)
    → Reads abs offset limit next
    → Reads abs offset limit (unless_error e next)
unfolding unless_error
unless_error-Reads abs offset limit none next h = h
unless_error-Reads abs offset limit (some err) next h = tt

read_open-Reads :
    (abs : Text) (info : FileInfo) (offset limit : ℕ) (f : OpenFile)
    → Reads abs offset limit (read_open abs info offset limit f)
unfolding read_open
read_open-Reads abs info offset limit f = unless_error-Reads abs offset limit _ _ (
    unless_error-Reads abs offset limit f.read_error
      (inr (record {
        path = abs;
        size = info.size;
        offset = offset;
        read = length (window f.bytes offset limit).0;
        truncated = (window f.bytes offset limit).1;
        content = (window f.bytes offset limit).0;
      }))
      (refl, refl, refl, window-le f.bytes offset limit))

read_opened-Reads :
    (abs : Text) (info : FileInfo) (offset limit : ℕ) (f : Text ⊎ OpenFile)
    → Reads abs offset limit (read_opened abs info offset limit f)
unfolding read_opened
read_opened-Reads abs info offset limit (inl err) = tt
read_opened-Reads abs info offset limit (inr f) = read_open-Reads abs info offset limit f

read_stat-Reads :
    (fs : FileSystem) (abs : Text) (offset limit : ℕ) (info : Text ⊎ FileInfo)
    → Reads abs offset limit (read_stat fs abs offset limit info)
unfolding read_stat
read_stat-Reads fs abs offset limit (inl err) = tt
read_stat-Reads fs abs offset limit (inr info) = elim (Bool-cases info.is_dir) [
  | inl dir ↦ simp dir tt
  | inr file ↦ simp file (read_opened-Reads abs info offset limit (fs.open_file abs))
]

read_at_lem :
    (p : Paths) (fs : FileSystem) (root : Text) (named : Text ⊎ Text) (offset limit : ℕ)
    (r : ReadResult)
    → limit ≤ max_read_bytes
    → read_at fs offset limit (resolve_named p root named) ≡ inr r
    → IsUnder root r.path × (r.read ≡ length r.content) × (r.read ≤ max_read_bytes)
unfolding read_at resolve_named
read_at_lem p fs root (inl err) offset limit r k h = cc h
read_at_lem p fs root (inr path) offset limit r k h = elim (resolved-cases (resolve p root path)) [
  | inl (err, s) ↦ cc (rw (s, read_at) at h)
  | inr (abs, s) ↦
      let reads : Reads abs offset limit (inr r) =
        subst (Reads abs offset limit) (rw (s, read_at) at h)
          (read_stat-Reads fs abs offset limit (fs.stat abs)) in
      let (same, from_there, counted, small) = reads in
      (
        subst (IsUnder root) (sym same) (resolve-IsUnder_root p root path abs s),
        counted,
        omega (arith, small, k),
      )
]

-- A file that is read was found at a path that is the root or below it; at most 512 KiB are returned,
-- and their number is reported.
pub read_file-IsUnder :
    {Float : Type 0} (truncate : Float → ℤ) (quote : Text → Text) (p : Paths) (fs : FileSystem)
    (root : Text) (a : Text → Argument Float) (r : ReadResult)
    → read_file truncate quote p fs root a ≡ inr r
    → IsUnder root r.path × (r.read ≡ length r.content) × (r.read ≤ max_read_bytes)
unfolding read_file
read_file-IsUnder truncate quote p fs root a r h =
    read_at_lem p fs root (require_string truncate quote a _) _ _ r
      (clamp-le (int_or truncate quote a _ _) 1 max_read_bytes) h
