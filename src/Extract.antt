-- ===== src/Extract.antt =====
-- src/util/extract.rs: from a page's HTML to the content that is served, by the cascade of fallbacks.
pub mod Types
pub mod Truncate
pub mod Cascade
pub mod Sentinels
pub mod Pipeline
pub mod Limiter
pub mod Tests
use mathlib.Core.Option
use serica.Prelude.{
  ℕ, ◌+◌, ◌*◌, Bool, true, false, not, ◌&&◌, ◌||◌, Option, none, some, List, [], ◌∷◌, ◌++◌, ltb,
  leb, if◌then◌else◌, is_empty, retain, Text, text, len_utf8, len, text_eq, is_whitespace, trim,
}
use serica.Config.{Config, ExtractConfig}
use serica.Codespan.{preserve_whitespace_only_spans, restore_whitespace_placeholders}
use serica.Codeblock.{preserve_code_block_line_breaks}
use serica.Gateway.{split}
use serica.Ssrf.Fetch.{unwrap_or}
pub use Types.*

unfoldable pub extract_options_from_config : Config → Options
extract_options_from_config config = record {
  max_extracted_len = config.extract.max_content_chars;
  output_markdown = text_eq config.extract.output_format (text "markdown");
  include_images = false;
  include_links = false;
}

-- `Metadata::none`
abbrev pub no_metadata : Metadata
no_metadata = record {
  title = none;
  author = none;
  date = none;
  sitename = none;
  page_type = none;
  excerpt = none;
}

abbrev pub from_result : ExtractResult → Metadata
from_result extract = record {
  title = extract.metadata_title;
  author = extract.metadata_author;
  date = extract.metadata_date;
  sitename = extract.metadata_sitename;
  page_type = extract.metadata_page_type;
  excerpt = extract.metadata_description;
}

-- The characters that end, behind `at` bytes, within `max_bytes`.
unfoldable pub take_while_within : ℕ → ℕ → Text → Text
take_while_within max_bytes at [] = []
take_while_within max_bytes at (c ∷ s) =
    let rest = take_while_within max_bytes (at + len_utf8 c) s in
    if leb (at + len_utf8 c) max_bytes then c ∷ rest else []

unfoldable pub truncate_at_char_boundary : Text → ℕ → Text
unfolding take_while_within
truncate_at_char_boundary s max_bytes =
    if leb (len s) max_bytes then s else take_while_within max_bytes 0 s

-- `split_whitespace`
unfoldable pub split_whitespace : Text → List Text
unfolding split is_whitespace
split_whitespace s = retain (λ word. not (is_empty word)) (split is_whitespace s)

-- `join(" ")`
unfoldable pub join_words : List Text → Text
join_words [] = []
join_words (word ∷ []) = word
join_words (word ∷ next ∷ words) = word ++ b' ' ∷ join_words (next ∷ words)

-- Each chunk with a space behind it.
unfoldable pub spaced : List Text → Text
spaced [] = []
spaced (chunk ∷ chunks) = chunk ++ b' ' ∷ spaced chunks

-- `Some(s)` unless `s` is blank.
unfoldable pub unless_blank : Text → Option Text
unless_blank s = if is_empty (trim s) then none else some s

abbrev pub is_healthy : Option Text → Bool
is_healthy none = false
is_healthy (some md) = not (is_empty (trim md))

-- What the extraction selected, before any fallback.
pub record Selection : Type 0 where
  pub chosen : Option Text
  pub method : ExtractMethod
  pub metadata : Metadata

abbrev pub chosen_len : Selection → ℕ
chosen_len s = elim s.chosen [ none ↦ 0 | some content ↦ len content ]

abbrev pub is_some {ℓ} : {A : Type ℓ} → Option A → Bool
is_some none = false
is_some (some a) = true

abbrev pub is_markdown : ExtractMethod → Bool
is_markdown markdown = true
is_markdown _ = false

module _ (lib : HtmlLib) where
  -- src/util/prune.rs
  unfoldable pub prune_scripts_styles : Text → Text
  prune_scripts_styles html = lib.remove_elements (text "script, style, noscript") html

  unfoldable pub whole_doc_text : Text → Text
  unfolding prune_scripts_styles spaced split_whitespace join_words
  whole_doc_text html = join_words (
      split_whitespace
        (lib.decode_html_entities (spaced (lib.text_chunks (prune_scripts_styles html)))))

  -- The arms of the match on the extraction's result.
  unfoldable pub select : Options → Option ExtractResult → Selection
  unfolding unless_blank
  select options none = record { chosen = none; method = text_fallback; metadata = no_metadata }
  select options (some extract) =
      if options.output_markdown && is_healthy extract.content_markdown
      then record {
        chosen = some (restore_whitespace_placeholders (unwrap_or extract.content_markdown []));
        method = markdown;
        metadata = from_result extract;
      }
      else record {
        chosen = unless_blank (restore_whitespace_placeholders extract.content_text);
        method = text_fallback;
        metadata = from_result extract;
      }

  unfoldable pub audit_needed : ExtractConfig → ℕ → Selection → Bool
  audit_needed config raw_bytes s =
      (ltb (chosen_len s) whole_doc_check_floor
        && not (is_markdown s.method && leb healthy_markdown_floor (chosen_len s)))
      || (leb large_page_raw_bytes raw_bytes
          && is_some s.chosen
          && ltb (chosen_len s) config.max_content_chars)

  abbrev pub threshold : ℕ → ℕ
  threshold raw_bytes =
      if leb large_page_raw_bytes raw_bytes then large_page_ratio_threshold else ratio_threshold

  -- The ratio check against the whole document's text; `computed_ratio < threshold` is multiplied out,
  -- where the source divides floating-point numbers; for texts below 2^48 bytes that is the same test.
  unfoldable pub audit : ℕ → Text → Selection → Selection × Option (ℕ × ℕ)
  audit raw_bytes whole_doc s =
      if is_empty whole_doc
      then (s, none)
      else if ltb (100 * chosen_len s) (threshold raw_bytes * len whole_doc)
      then (if leb min_fallback_chars (len whole_doc)
          then (
            record s { chosen = some whole_doc; method = whole_doc_fallback },
            some (chosen_len s, len whole_doc),
          )
          else (record s { chosen = none }, some (chosen_len s, len whole_doc)))
      else (s, some (chosen_len s, len whole_doc))

  abbrev pub patched : Bool → Text → Text
  patched prune html =
      preserve_code_block_line_breaks
        (preserve_whitespace_only_spans (if prune then prune_scripts_styles html else html))

  -- Step 5: the cap.
  unfoldable pub outcome : ExtractConfig → Selection × Option (ℕ × ℕ) → ExtractOutcome
  unfolding truncate_at_char_boundary
  outcome config (s, ratio) = record {
    content = Option.map (λ c. truncate_at_char_boundary c config.max_content_chars) s.chosen;
    method = s.method;
    metadata = s.metadata;
    ratio = ratio;
  }

  unfoldable pub extract_from_html_impl : Text → ℕ → Options → ExtractConfig → Bool → ExtractOutcome
  unfolding select audit_needed audit outcome whole_doc_text
  extract_from_html_impl html raw_bytes options config prune =
      let s = select options (lib.extract_with_options (patched prune html) options) in
      outcome config (
        if audit_needed config raw_bytes s
        then audit raw_bytes (whole_doc_text html) s
        else (s, none))

  unfoldable pub extract_from_html : Text → Options → ExtractConfig → ExtractOutcome
  unfolding extract_from_html_impl
  extract_from_html html options config = extract_from_html_impl html (len html) options config true
