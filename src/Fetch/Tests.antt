-- ===== src/Fetch/Tests.antt =====
-- The size cap of src/util/fetch.rs on small bodies.
use serica.Prelude.{◌≤◌, ◌≡◌, ◌↔◌, none, [], ◌∷◌}
use serica.Error.{ok}
use serica.Ssrf.Fetch.{Response, received}
use serica.Fetch.{Printer, read_capped_bytes}
use serica.Fetch.Bounds.{StatedWithin, Carries, read_capped_bytes_iff}

abbrev plain : Printer
plain = record { show = λ n. [] }

abbrev body : Response
body = record {
  status = 200;
  location = none;
  content_type = none;
  content_length = none;
  chunks = received (1 ∷ 2 ∷ []) ∷ received (3 ∷ []) ∷ [];
}

read_capped_bytes_iff_example :
    (read_capped_bytes plain 3 body ≡ ok (1 ∷ 2 ∷ 3 ∷ []))
    ↔ (StatedWithin plain 3 none × Carries (1 ∷ 2 ∷ 3 ∷ []) body.chunks × (3 ≤ 3))
read_capped_bytes_iff_example = read_capped_bytes_iff plain 3 body (1 ∷ 2 ∷ 3 ∷ [])
