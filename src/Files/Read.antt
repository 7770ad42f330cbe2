-- ===== src/Files/Read.antt =====
-- agentfiles/tools.go, `readFile`. The file system is a parameter; a content is its bytes.
pub mod Pages
pub mod Bounds
use dzzzr_cli.Base.{
  ℕ, zero, suc, ◌+◌, ◌-◌, ◌≡◌, refl, Bool, true, false, Option, none, some, inl, inr, ◌⊎◌, List, [],
  ◌∷◌, ◌++◌, ltb, if◌then◌else◌, ℤ, pos, Text, codes, length,
}
use dzzzr_cli.Tools.Arguments.{Argument}
use dzzzr_cli.Files.Args.{require_string, int_or, clamp, at_least_zero}
use dzzzr_cli.Files.Root.{Paths, resolve}

abbrev pub default_read_bytes : ℕ
default_read_bytes = 65536

abbrev pub max_read_bytes : ℕ
max_read_bytes = 524288

pub record FileInfo : Type 0 where
  pub size : ℕ
  pub is_dir : Bool

-- An open file: its bytes, and the errors of a seek and of a read.
pub record OpenFile : Type 0 where
  pub bytes : Text
  pub seek_error : Option Text
  pub read_error : Option Text

pub record FileSystem : Type 0 where
  pub stat : Text → Text ⊎ FileInfo
  pub open_file : Text → Text ⊎ OpenFile

pub record ReadResult : Type 0 where
  pub path : Text
  pub size : ℕ
  pub offset : ℕ
  pub read : ℕ
  pub truncated : Bool
  pub content : Text

abbrev pub take {ℓ} : {A : Type ℓ} → ℕ → List A → List A
take zero xs = []
take (suc n) [] = []
take (suc n) (x ∷ xs) = x ∷ take n xs

abbrev pub drop {ℓ} : {A : Type ℓ} → ℕ → List A → List A
drop zero xs = xs
drop (suc n) [] = []
drop (suc n) (x ∷ xs) = drop n xs

-- At most `limit` bytes of what one byte more was read of, and whether there were more.
unfoldable pub window : Text → ℕ → ℕ → Text × Bool
window bytes offset limit =
    let found = take (limit + 1) (drop offset bytes) in
    if ltb limit (length found) then (take limit found, true) else (found, false)

unfoldable pub unless_error : Option Text → Text ⊎ ReadResult → Text ⊎ ReadResult
unless_error none next = next
unless_error (some err) next = inl err

unfoldable pub read_open : Text → FileInfo → ℕ → ℕ → OpenFile → Text ⊎ ReadResult
unfolding window unless_error
read_open abs info offset limit f =
    let (content, truncated) = window f.bytes offset limit in
    unless_error (if ltb 0 offset then f.seek_error else none) (
      unless_error f.read_error (
        inr (record {
          path = abs;
          size = info.size;
          offset = offset;
          read = length content;
          truncated = truncated;
          content = content;
        })))

unfoldable pub read_opened : Text → FileInfo → ℕ → ℕ → Text ⊎ OpenFile → Text ⊎ ReadResult
unfolding read_open
read_opened abs info offset limit (inl err) = inl err
read_opened abs info offset limit (inr f) = read_open abs info offset limit f

unfoldable pub read_stat : FileSystem → Text → ℕ → ℕ → Text ⊎ FileInfo → Text ⊎ ReadResult
unfolding read_opened
read_stat fs abs offset limit (inl err) = inl err
read_stat fs abs offset limit (inr info) =
    if info.is_dir
    then inl (codes "это каталог, используйте list_local_dir")
    else read_opened abs info offset limit (fs.open_file abs)

unfoldable pub read_at : FileSystem → ℕ → ℕ → Text ⊎ Text → Text ⊎ ReadResult
unfolding read_stat
read_at fs offset limit (inl err) = inl err
read_at fs offset limit (inr abs) = read_stat fs abs offset limit (fs.stat abs)

unfoldable pub resolve_named : Paths → Text → Text ⊎ Text → Text ⊎ Text
resolve_named p root (inl err) = inl err
resolve_named p root (inr path) = resolve p root path

-- `readFile`
unfoldable pub read_file :
    {Float : Type 0}
    → (Float → ℤ)
    → (Text → Text)
    → Paths
    → FileSystem
    → Text
    → (Text → Argument Float)
    → Text ⊎ ReadResult
unfolding read_at resolve_named
read_file truncate quote p fs root a =
    read_at fs (at_least_zero (int_or truncate quote a (codes "offset") (pos 0)))
      (clamp (int_or truncate quote a (codes "max_bytes") (pos default_read_bytes)) 1
        max_read_bytes)
      (resolve_named p root (require_string truncate quote a (codes "path")))
