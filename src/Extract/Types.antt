-- ===== src/Extract/Types.antt =====
-- The constants and the data of src/util/extract.rs, and what it uses of other crates.
use serica.Prelude.{ℕ, ◌*◌, Bool, Option, List, Text}

abbrev pub whole_doc_check_floor : ℕ
whole_doc_check_floor = 3000

abbrev pub healthy_markdown_floor : ℕ
healthy_markdown_floor = 1500

abbrev pub min_fallback_chars : ℕ
min_fallback_chars = 200

abbrev pub large_page_raw_bytes : ℕ
large_page_raw_bytes = 512 * 1024

-- 0.30 and 0.05, in hundredths
abbrev pub ratio_threshold : ℕ
ratio_threshold = 30

abbrev pub large_page_ratio_threshold : ℕ
large_page_ratio_threshold = 5

pub data ExtractMethod : Type 0 where
  markdown text_fallback whole_doc_fallback : ExtractMethod

pub record Metadata : Type 0 where
  pub title : Option Text
  pub author : Option Text
  pub date : Option Text
  pub sitename : Option Text
  pub page_type : Option Text
  pub excerpt : Option Text

-- The ratio is kept as the fraction whose quotient it is.
pub record ExtractOutcome : Type 0 where
  pub content : Option Text
  pub method : ExtractMethod
  pub metadata : Metadata
  pub ratio : Option (ℕ × ℕ)

-- What is set of `rs_trafilatura::Options`.
pub record Options : Type 0 where
  pub max_extracted_len : ℕ
  pub output_markdown : Bool
  pub include_images : Bool
  pub include_links : Bool

-- What is read of `rs_trafilatura::ExtractResult`; a date is held as `%Y-%m-%d` prints it.
pub record ExtractResult : Type 0 where
  pub content_markdown : Option Text
  pub content_text : Text
  pub metadata_title : Option Text
  pub metadata_author : Option Text
  pub metadata_date : Option Text
  pub metadata_sitename : Option Text
  pub metadata_page_type : Option Text
  pub metadata_description : Option Text

-- `rs_trafilatura::extract_with_options`, `none` for an error; the removal of elements and the text
-- chunks of `lol_html`; and `html_escape::decode_html_entities`.
pub record HtmlLib : Type 0 where
  pub extract_with_options : Text → Options → Option ExtractResult
  pub remove_elements : Text → Text → Text
  pub text_chunks : Text → List Text
  pub decode_html_entities : Text → Text
