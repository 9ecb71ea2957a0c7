-- ===== src/Extract/Limiter/Detached.antt =====
-- What the permits of src/util/extract.rs do not bound: the parses that outlive their request.
use serica.Prelude.{ℕ, zero, suc, List, [], ◌∷◌}
use serica.Extract.Limiter.{Phase, parsing, detached, System}

-- One if a blocking task has the request's page, to parse it.
abbrev pub parse : Phase → ℕ
parse parsing = 1
parse detached = 1
parse _ = 0

abbrev all_detached : ℕ → List Phase
all_detached zero = []
all_detached (suc n) = detached ∷ all_detached n

abbrev left_behind : ℕ → ℕ → System
left_behind max_concurrent n = record { permits = max_concurrent; requests = all_detached n }
