-- ===== src/Fetch.antt =====
-- src/util/fetch.rs: which responses are read, and how much of them.
pub mod Bounds
mod Tests
use serica.Prelude.{
  ℕ, ◌+◌, ◌*◌, ◌/◌, Bool, true, false, ◌||◌, Option, none, some, List, [], ◌∷◌, ◌++◌, ltb, leb,
  if◌then◌else◌, length, Text, text, contains,
}
use serica.Error.{Result, ok, err, content_too_large, internal}
use serica.Ssrf.Fetch.{Response, Chunk, received, broken}

-- 4 MiB
abbrev pub default_max_extract_bytes : ℕ
default_max_extract_bytes = 4 * 1024 * 1024

-- What the standard library does with text that is not ASCII, and with bytes that are no UTF-8:
-- `char::is_alphanumeric`, `str::to_lowercase`, `String::from_utf8_lossy`.
pub record Unicode : Type 0 where
  pub is_alphanumeric : ℕ → Bool
  pub to_lowercase : Text → Text
  pub from_utf8_lossy : List ℕ → Text

module _ (unicode : Unicode) where
  unfoldable pub is_extractable_content_type : Text → Bool
  unfolding contains
  is_extractable_content_type content_type =
      let ct_lower = unicode.to_lowercase content_type in
      contains (text "text/html") ct_lower || contains (text "application/xhtml") ct_lower

  -- The header's value, `none` where it is missing or no text.
  unfoldable pub is_extractable_content_type_header : Option Text → Bool
  unfolding is_extractable_content_type
  is_extractable_content_type_header none = false
  is_extractable_content_type_header (some ct) = is_extractable_content_type ct

-- `{max_bytes}` is printed by the standard library.
pub record Printer : Type 0 where
  pub show : ℕ → Text

module _ (printer : Printer) (max_bytes : ℕ) where
  abbrev pub too_large : Text
  too_large = text "Response exceeds maximum size of " ++ (printer.show max_bytes ++ text " bytes")

  -- The loop over the stream.
  unfoldable pub read_chunks : List ℕ → List Chunk → Result (List ℕ)
  read_chunks buf [] = ok buf
  read_chunks buf (broken e ∷ stream) = err (internal (text "Failed to read response body: " ++ e))
  read_chunks buf (received chunk ∷ stream) =
      if ltb max_bytes (length (buf ++ chunk))
      then err (content_too_large too_large)
      else read_chunks (buf ++ chunk) stream

  -- `response.content_length()` is checked first, if the response states it.
  unfoldable pub length_ok : Option ℕ → Bool
  length_ok none = true
  length_ok (some n) = leb n max_bytes

  unfoldable pub read_capped_bytes : Response → Result (List ℕ)
  unfolding read_chunks length_ok
  read_capped_bytes response =
      if length_ok response.content_length
      then read_chunks [] response.chunks
      else err (content_too_large too_large)

abbrev pub map_ok {ℓ κ} : {A : Type ℓ} {B : Type κ} → (A → B) → Result A → Result B
map_ok f (ok a) = ok (f a)
map_ok f (err e) = err e

unfoldable pub read_capped_body : Unicode → Printer → Response → ℕ → Result Text
unfolding read_capped_bytes
read_capped_body unicode printer response max_bytes =
    map_ok unicode.from_utf8_lossy (read_capped_bytes printer max_bytes response)
