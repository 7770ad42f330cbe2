-- ===== src/Files/Search/Tests.antt =====
-- Two matches in one file, of which one is asked for.
use dzzzr_cli.Base.{
  ℕ, refl, true, false, inr, none, [], ◌∷◌, ◌++◌, pos, if◌then◌else◌, Text, codes, text_eq,
  has_prefix, trim_space, contains_text,
}
use dzzzr_cli.Tools.Arguments.{Argument, nil, int, string}
use dzzzr_cli.Files.Root.{Paths, within}
use dzzzr_cli.Files.Read.{FileSystem}
use dzzzr_cli.Files.Search.{Walker, SearchResult, search_files}
use dzzzr_cli.Files.Search.First.{IsSearch, search_files-IsSearch}

abbrev paths : Paths
paths = record {
  clean = λ s. s;
  is_abs = has_prefix (codes "/");
  join = λ a b. a ++ (b'/' ∷ b);
  abs = λ s. inr s;
  eval_symlinks = λ s. inr s;
}

abbrev files : FileSystem
files = record {
  stat = λ path. inr (record { size = 9; is_dir = text_eq path (codes "/r/d") });
  open_file = λ path. inr (record { bytes = []; seek_error = none; read_error = none });
}

abbrev walker : Walker
walker = record {
  walk = λ start.
      record {
        full = codes "/r/d/a";
        name = codes "a";
        is_directory = false;
        is_link = false;
        is_failed = false;
      }
      ∷ [];
  glob_match = λ glob name. true;
  lower_text = λ s. s;
  dir_of = λ s. s;
  scan = λ full. inr (codes "no" ∷ codes " ab " ∷ codes "abc" ∷ []);
}

abbrev arguments : Text → Argument ℕ
arguments key =
    if text_eq key (codes "pattern")
    then string (codes "ab")
    else if text_eq key (codes "path")
    then string (codes "d")
    else if text_eq key (codes "max_matches")
    then int (pos 1)
    else nil

abbrev result : SearchResult
result = record {
  search_root = codes "/r/d";
  pattern = codes "ab";
  glob = [];
  count = 1;
  is_truncated = true;
  found = record { path = codes "/r/d/a"; line = 2; snippet = codes "ab" } ∷ [];
}

search_files-IsSearch_example : IsSearch paths files walker (codes "/r") 1 result
unfolding search_files text_eq trim_space within has_prefix contains_text
search_files-IsSearch_example =
    search_files-IsSearch paths files walker (codes "/r") (λ n. pos n) (λ s. s) arguments result
      refl
