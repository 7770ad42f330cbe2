-- ===== src/PdfSource/Tests.antt =====
-- A document of one page, of which one line is extracted, one is blank and one is ignored.
use dzzzr_cli.Base.{
  text_eq, join, trim_space, any, has_prefix, split_on, ℕ, ◌≡◌, ◌⊎◌, refl, false, none, some, inr,
  [], ◌∷◌, pos, Text, codes, arith,
}
use dzzzr_cli.PdfSource.Run.{with_label, ◌>>=◌}
use dzzzr_cli.PdfSource.Pages.{Range, PdfPage, Pages}
use dzzzr_cli.PdfSource.Read.{PdfLibrary}
use dzzzr_cli.PdfSource.Json.{null, object, no_members, member}
use dzzzr_cli.PdfSource.Select.{Selector, Reader}
use dzzzr_cli.PdfSource.Extract.{Mapping, Tools, Extraction, extract, is_version_one, index_rounds}
use dzzzr_cli.PdfSource.Extract.Complete.{IsExtraction, extract-IsExtraction}
use dzzzr_cli.PdfSource.Extract.Rounds.{extract_terminates}
use dzzzr_cli.PdfSource.Extract.Whole.{IsIndexed, index_rounds-IsIndexed}

abbrev lines_range : ℕ → Range
lines_range n = record {
  page = pos 1;
  start_line = pos n;
  end_line = pos n;
  start_column = pos 0;
  end_column = pos 0;
}

abbrev selector : Selector
selector = record {
  ranges = lines_range 1 ∷ [];
  format = codes "trim";
  pattern = [];
  group = pos 0;
  page = pos 0;
  link = pos 0;
  image_id = [];
}

abbrev outside : Reader
outside = record {
  ctx_err = λ n. none;
  decode_selector = λ j. inr selector;
  find_matches = λ p s. inr [];
  lower = λ s. s;
  escape_html = λ s. s;
}

abbrev page : PdfPage
page = record {
  number = 0;
  text = codes " ab\n\ncd";
  links = [];
  images = [];
  requires_ocr = false;
}

abbrev library : PdfLibrary
library = record { open_pdf = λ s. inr 1; page = λ s n images. inr (page, images) }

abbrev mapping : Mapping
mapping = record {
  version = pos 1;
  source_sha256 = codes "h";
  output = some (object (member (codes "$source") null no_members));
  ignored = lines_range 3 ∷ [];
  image_urls = [];
}

abbrev tools : Tools
tools = record {
  decode_mapping = λ s. inr mapping;
  hash = λ s. codes "h";
  parse_url = λ s. none;
  pdf = library;
  encode = λ x. inr (codes "\"ab\"");
}

abbrev content : Text
content = codes "%PDF-1.7"

abbrev extraction : Extraction
extraction = record {
  content = codes "\"ab\"";
  source_sha256 = codes "h";
  page_count = 1;
  referenced_lines = 1;
  ignored_lines = 1;
}

extract-IsExtraction_example : IsExtraction outside tools content [] extraction
unfolding extract is_version_one text_eq has_prefix split_on ◌>>=◌ with_label join trim_space any
extract-IsExtraction_example = extract-IsExtraction outside tools content [] extraction refl

extract_terminates_example : (r : Text ⊎ Extraction) × (extract outside tools content [] ≡ some r)
extract_terminates_example = extract_terminates outside tools content []

abbrev pages : Pages
pages =
    record {
      number = 1;
      lines = codes " ab" ∷ [] ∷ codes "cd" ∷ [];
      links = [];
      images = [];
      requires_ocr = false;
    }
    ∷ []

index_rounds-IsIndexed_example :
    (◌≡◌ {A = Text ⊎ ℕ} (inr 1) (inr 1)) × IsIndexed outside tools content pages 1
unfolding index_rounds has_prefix split_on
index_rounds-IsIndexed_example =
    index_rounds-IsIndexed outside tools content 52 1 pages refl 1 (omega arith) (omega arith)
