-- ===== src/Error/Tests.antt =====
-- Runs of src/error.rs.
use serica.Prelude.{◌≡◌, refl, text}
use serica.Error.{invalid_safe_search, parts, to_http_parts}

safe_search_parts :
    to_http_parts (invalid_safe_search 250)
    ≡ parts 400 (text "INVALID_SAFE_SEARCH") (text "Invalid safe search value: 250")
unfolding to_http_parts
safe_search_parts = refl
