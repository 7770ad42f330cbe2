-- ===== src/Files/Search.antt =====
-- agentfiles/tools.go, `searchFiles`. The walk, the matching of a glob, lower case and the lines of a
-- file are parameters.
pub mod First
mod Tests
use dzzzr_cli.Base.{
  ℕ, zero, suc, ◌+◌, ◌≡◌, refl, Bool, true, false, not, ◌&&◌, ◌||◌, inl, inr, ◌⊎◌, List, [], ◌∷◌,
  ◌++◌, ltb, leb, if◌then◌else◌, ℤ, pos, Text, codes, length, is_empty, trim_space, contains_text,
}
use dzzzr_cli.Tools.Arguments.{Argument}
use dzzzr_cli.Files.Args.{require_string, string_or, int_or, clamp}
use dzzzr_cli.Files.Root.{Paths, resolve}
use dzzzr_cli.Files.Read.{take, max_read_bytes, FileInfo, FileSystem}

abbrev pub default_matches : ℕ
default_matches = 50

abbrev pub max_matches : ℕ
max_matches = 200

abbrev pub snippet_runes : ℕ
snippet_runes = 240

-- What the walk hands over; `is_failed` is its error, and `is_link` the type of the entry.
pub record Visit : Type 0 where
  pub full : Text
  pub name : Text
  pub is_directory : Bool
  pub is_link : Bool
  pub is_failed : Bool

-- `scan` opens a file and scans its lines.
pub record Walker : Type 0 where
  pub walk : Text → List Visit
  pub glob_match : Text → Text → Bool
  pub lower_text : Text → Text
  pub dir_of : Text → Text
  pub scan : Text → Text ⊎ List Text

pub record SearchMatch : Type 0 where
  pub path : Text
  pub line : ℕ
  pub snippet : Text

pub record SearchResult : Type 0 where
  pub search_root : Text
  pub pattern : Text
  pub glob : Text
  pub count : ℕ
  pub is_truncated : Bool
  pub found : List SearchMatch

-- `truncate(strings.TrimSpace(text), snippetRunes)`
unfoldable pub snippet_of : Text → Text
snippet_of text =
    let s = trim_space text in
    if leb (length s) snippet_runes then s else take snippet_runes s ++ codes "…"

unfoldable pub is_inr : {A B : Type 0} → A ⊎ B → Bool
is_inr (inl a) = false
is_inr (inr b) = true

unfoldable pub lines_or_none : Text ⊎ List Text → List Text
lines_or_none (inl err) = []
lines_or_none (inr lines) = lines

unfoldable pub is_small : Text ⊎ FileInfo → Bool
is_small (inl err) = false
is_small (inr info) = leb info.size max_read_bytes

module _ (p : Paths) (fs : FileSystem) (w : Walker) (root : Text) where
  open w use {walk, glob_match, lower_text, dir_of, scan}

  -- What is skipped: what failed, a directory, another name, a link out of the root, a file that is
  -- gone or too large.
  unfoldable pub is_searched : Text → Visit → Bool
  unfolding is_inr is_small resolve
  is_searched glob v =
      not (v.is_failed || v.is_directory)
      && ((is_empty glob || glob_match glob v.name)
          && ((not v.is_link || is_inr (resolve p root v.full)) && is_small (fs.stat v.full)))

  unfoldable pub lines_in : Text → Visit → List Text
  unfolding is_searched lines_or_none
  lines_in glob v = if is_searched glob v then lines_or_none (scan v.full) else []

  unfoldable pub is_hit : Text → Text → Bool
  is_hit needle text = contains_text needle (lower_text text)

  -- The loop over the lines from number `n` on; true is `errEnough`.
  unfoldable pub search_lines :
      ℕ → Text → Text → ℕ → List Text → List SearchMatch → List SearchMatch × Bool
  unfolding is_hit snippet_of
  search_lines limit needle full n [] found = (found, false)
  search_lines limit needle full n (text ∷ texts) found =
      let more = found ++ (record { path = full; line = n; snippet = snippet_of text } ∷ []) in
      let after = search_lines limit needle full (suc n) texts more in
      let skipped = search_lines limit needle full (suc n) texts found in
      if not (is_hit needle text)
      then skipped
      else if leb limit (length more)
      then (more, true)
      else after

  unfoldable pub unless_enough :
      List SearchMatch × Bool
      → (List SearchMatch → List SearchMatch × Bool)
      → List SearchMatch × Bool
  unless_enough (found, true) next = (found, true)
  unless_enough (found, false) next = next found

  unfoldable pub search_visits :
      ℕ → Text → Text → List Visit → List SearchMatch → List SearchMatch × Bool
  unfolding search_lines lines_in unless_enough
  search_visits limit needle glob [] found = (found, false)
  search_visits limit needle glob (v ∷ vs) found =
      unless_enough (search_lines limit needle v.full 1 (lines_in glob v) found)
        λ more. search_visits limit needle glob vs more

  unfoldable pub search_in : Text → Text → ℕ → Text → SearchResult
  unfolding search_visits
  search_in pattern glob limit start =
      let (found, enough) = search_visits limit (lower_text pattern) glob (walk start) [] in
      record {
        search_root = start;
        pattern = pattern;
        glob = glob;
        count = length found;
        is_truncated = leb limit (length found);
        found = found;
      }

  unfoldable pub search_stat : Text → Text → ℕ → Text → Text ⊎ FileInfo → Text ⊎ SearchResult
  unfolding search_in
  search_stat pattern glob limit abs (inl err) = inl err
  search_stat pattern glob limit abs (inr info) =
      inr (search_in pattern glob limit (if info.is_dir then abs else dir_of abs))

  unfoldable pub search_at : Text → Text → ℕ → Text ⊎ Text → Text ⊎ SearchResult
  unfolding search_stat
  search_at pattern glob limit (inl err) = inl err
  search_at pattern glob limit (inr abs) = search_stat pattern glob limit abs (fs.stat abs)

  module _ {Float : Type 0} (truncate : Float → ℤ) (quote : Text → Text)
      (a : Text → Argument Float) where
    unfoldable pub search_for : Text ⊎ Text → Text ⊎ SearchResult
    unfolding search_at resolve string_or int_or clamp
    search_for (inl err) = inl err
    search_for (inr pattern) =
        search_at pattern (string_or truncate quote a (codes "glob") [])
          (clamp (int_or truncate quote a (codes "max_matches") (pos default_matches)) 1
            max_matches)
          (resolve p root (string_or truncate quote a (codes "path") (codes ".")))

    -- `searchFiles`
    unfoldable pub search_files : Text ⊎ SearchResult
    unfolding search_for require_string
    search_files = search_for (require_string truncate quote a (codes "pattern"))
