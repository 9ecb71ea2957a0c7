-- ===== src/Extract/Tests.antt =====
-- The cascade and the pipeline of src/util/extract.rs in a small world.
use serica.Prelude.{
  ℕ, zero, suc, ◌≤◌, ◌≡◌, refl, true, false, Option, none, some, List, [], ◌∷◌, arith, All, Text,
  text, is_whitespace, trim,
}
use serica.Error.{err, extract_timeout}
use serica.Config.{default_config}
use serica.Codespan.{preserve_whitespace_only_spans, restore_whitespace_placeholders}
use serica.Codespan.Restore.{NotSentinel, restore-NotSentinel}
use serica.Codeblock.{preserve_code_block_line_breaks}
use serica.Ssrf.Fetch.{Network, received}
use serica.Extract.{
  HtmlLib, Options, markdown, chosen_len, truncate_at_char_boundary, extract_from_html_impl, select,
  whole_doc_text,
}
use serica.Extract.Cascade.{Served, selection, extract-Served}
use serica.Extract.Sentinels.{extract-NotSentinel}
use serica.Extract.Pipeline.{ExtractResponse, Env, Weather, run_extract}
use serica.Ssrf.Tests.{simple_urls, small_net, entry}

-- "é" has two bytes: of "aé" only "a" fits in two.
cut : truncate_at_char_boundary (97 ∷ 0xe9 ∷ []) 2 ≡ 97 ∷ []
unfolding truncate_at_char_boundary
cut = refl

abbrev article : ℕ → Text
article zero = []
article (suc n) = 97 ∷ article n

-- A library whose extraction takes the whole page for its markdown.
abbrev copying : HtmlLib
copying = record {
  extract_with_options = λ html options. some (record {
    content_markdown = some html;
    content_text = html;
    metadata_title = none;
    metadata_author = none;
    metadata_date = none;
    metadata_sitename = none;
    metadata_page_type = none;
    metadata_description = none;
  });
  remove_elements = λ names html. html;
  text_chunks = λ html. html ∷ [];
  decode_html_entities = λ html. html;
}

abbrev markdown_options : Options
markdown_options = record {
  max_extracted_len = 50000;
  output_markdown = true;
  include_images = false;
  include_links = false;
}

extract-Served_example :
    Served copying
      (article 5)
      5
      markdown_options
      default_config.extract
      false
      (extract_from_html_impl copying
        (article 5)
        5
        markdown_options
        default_config.extract
        false).method
      (extract_from_html_impl copying
        (article 5)
        5
        markdown_options
        default_config.extract
        false).content
extract-Served_example =
    extract-Served copying (article 5) 5 markdown_options default_config.extract false

-- A page with a span of whitespace only, which has a sentinel in it while it is extracted.
abbrev spaced_page : Text
spaced_page = text "a<code> </code>b"

abbrev spaced_content : Option Text
spaced_content =
    let o =
      extract_from_html_impl copying spaced_page 16 markdown_options default_config.extract false in
    o.content

served_page : spaced_content ≡ some spaced_page
unfolding extract_from_html_impl preserve_whitespace_only_spans preserve_code_block_line_breaks
    restore_whitespace_placeholders is_whitespace trim
served_page = refl

page_plain : All NotSentinel (whole_doc_text copying spaced_page)
unfolding whole_doc_text is_whitespace restore_whitespace_placeholders
page_plain = restore-NotSentinel spaced_page

extract-NotSentinel_example : All NotSentinel spaced_page
extract-NotSentinel_example =
    extract-NotSentinel copying spaced_page 16 markdown_options default_config.extract false
      spaced_page page_plain served_page

-- Markdown of 1500 bytes whose page is of any text.
abbrev fixed : HtmlLib
fixed = record copying {
  extract_with_options = λ html options. some (record {
    content_markdown = some (article 1500);
    content_text = [];
    metadata_title = none;
    metadata_author = none;
    metadata_date = none;
    metadata_sitename = none;
    metadata_page_type = none;
    metadata_description = none;
  });
}

is_markdown_method :
    (selection fixed (text "page") 4 markdown_options default_config.extract false).method
    ≡ markdown
unfolding select trim is_whitespace
is_markdown_method = refl

is_long :
    1500
    ≤ chosen_len (selection fixed (text "page") 4 markdown_options default_config.extract false)
unfolding select trim restore_whitespace_placeholders
is_long = omega arith

abbrev pub calm : Weather
calm = record { elapsed_ms = 7; times_out = false; begun = 0; panics = false }

abbrev pub stormy : Weather
stormy = record { elapsed_ms = 9; times_out = true; begun = 1; panics = false }

-- A network that answers each request by a short page.
abbrev page_net : Network simple_urls
page_net = record small_net {
  send = λ hop client url. some (record {
    status = 200;
    location = none;
    content_type = some (text "text/html");
    content_length = none;
    chunks = received (97 ∷ 98 ∷ []) ∷ [];
  });
}

abbrev pub empty_response : ExtractResponse
empty_response = record {
  url = text "a";
  title = none;
  author = none;
  date = none;
  sitename = none;
  page_type = none;
  content = some (text "ab");
  excerpt = none;
  timing_ms = 7;
  cached = false;
}

-- `serde_json` for this one response.
abbrev pub env : Env
env = record {
  U = simple_urls;
  net = page_net;
  unicode = record {
    is_alphanumeric = λ c. true;
    to_lowercase = λ s. s;
    from_utf8_lossy = λ bytes. bytes;
  };
  printer = record { show = λ n. [] };
  html = copying;
  hasher = λ written. [];
  from_slice = λ bytes. none;
  to_vec = λ response. none;
}

timed_out :
    (run_extract env default_config stormy (λ key. none) entry).result
    ≡ err (extract_timeout (text "extract exceeded ms"))
unfolding run_extract
timed_out = refl

-- `serde_json` for the one response.
abbrev serde_env : Env
serde_env = record env { from_slice = λ bytes. some empty_response; to_vec = λ response. some [] }

-- Nothing is cached yet.
abbrev no_store : List ℕ → Option (List ℕ)
no_store key = none
