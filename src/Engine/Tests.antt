-- ===== src/Engine/Tests.antt =====
-- src/engines/duckduckgo.rs on small answers.
use serica.Prelude.{◌≡◌, refl, false, none, some, [], ◌∷◌, text}
use serica.Engine.{Container, EngineLib, Answer, answered, probe_of}
use serica.Prelude.{true}
use serica.Engine.Client.{
  ClientLib, DuckDuckGoAdapter, adapter, settings, production_url, with_proxy, production,
}

abbrev pub plain : EngineLib
plain = record { byte_serialize = λ s. s; show = λ n. []; select_containers = λ body. some [] }

abbrev one : Container
one = record {
  title_link = some (record { href = some (text "//l"); texts = text "T" ∷ [] });
  snippet_texts = none;
}

abbrev puzzle : Answer
puzzle = answered 202 (text "<form id=challenge-form>")

-- An anti-bot page is a success by its status, and still no healthy answer.
puzzle_fails : probe_of puzzle ≡ false
unfolding probe_of
puzzle_fails = refl

-- `reqwest` builds every client.
abbrev building : ClientLib
building = record { proxy_error = λ url. none; build_error = λ settings. none }

abbrev proxied : DuckDuckGoAdapter
proxied = record { client = settings true (some (text "http://p")); search_url = production_url }

is_proxied : production building (some (text "http://p")) ≡ adapter proxied
unfolding with_proxy
is_proxied = refl
