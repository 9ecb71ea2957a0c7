-- ===== src/Engine/Types.antt =====
-- The data of src/engines/duckduckgo.rs, and what it uses of other crates.
use serica.Prelude.{ℕ, Bool, Option, List, Text}
use serica.Gateway.{SearchResult}

pub data SearchError : Type 0 where
  blocked challenged : SearchError
  upstream : ℕ → SearchError
  transport : Text → SearchError
  parse_empty parse_panicked : SearchError

pub data SearchOutcome : Type 0 where
  found : List SearchResult → SearchOutcome
  failed : SearchError → SearchOutcome

-- The title's link, with its `href`, and the texts under it; and the texts under the snippet's link.
pub record Link : Type 0 where
  pub href : Option Text
  pub texts : List Text

pub record Container : Type 0 where
  pub title_link : Option Link
  pub snippet_texts : Option (List Text)

-- `form_urlencoded::byte_serialize`, the digits of a number, and the elements that `scraper` selects,
-- `none` where the task that parses panics.
pub record EngineLib : Type 0 where
  pub byte_serialize : Text → Text
  pub show : ℕ → Text
  pub select_containers : Text → Option (List Container)

-- The answer to a request: the error of `send`, or the status and the body, with the error of reading it.
pub data Answer : Type 0 where
  unsent : Text → Answer
  unread : ℕ → Text → Answer
  answered : ℕ → Text → Answer

pub record EngineHealth : Type 0 where
  pub healthy : Bool
  pub last_checked : ℕ
