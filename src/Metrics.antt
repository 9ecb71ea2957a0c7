-- ===== src/Metrics.antt =====
-- src/util/metrics.rs: the counters, each a 64-bit word that wraps around.
use serica.Prelude.{ℕ, ◌+◌, ◌%◌, ◌^◌, Option, none, some, ltb, if◌then◌else◌}

pub record MetricsCollector : Type 0 where
  pub total_searches : ℕ
  pub total_latency_ms : ℕ
  pub total_errors : ℕ
  pub total_blocked : ℕ
  pub total_challenged : ℕ
  pub total_empty_parses : ℕ

-- The average is kept as the fraction whose quotient it is, `none` for 0.0 before any search.
pub record MetricsSnapshot : Type 0 where
  pub total_searches : ℕ
  pub avg_latency_ms : Option (ℕ × ℕ)
  pub total_errors : ℕ
  pub total_blocked : ℕ
  pub total_challenged : ℕ
  pub total_empty_parses : ℕ

-- `MetricsCollector::new`
abbrev pub new_metrics : MetricsCollector
new_metrics = record {
  total_searches = 0;
  total_latency_ms = 0;
  total_errors = 0;
  total_blocked = 0;
  total_challenged = 0;
  total_empty_parses = 0;
}

-- `fetch_add`
abbrev pub fetch_add : ℕ → ℕ → ℕ
fetch_add n counter = (counter + n) % 2 ^ 64

unfoldable pub record_search : ℕ → MetricsCollector → MetricsCollector
record_search timing_ms self = record self {
  total_searches = fetch_add 1 self.total_searches;
  total_latency_ms = fetch_add timing_ms self.total_latency_ms;
}

unfoldable pub record_error : MetricsCollector → MetricsCollector
record_error self = record self { total_errors = fetch_add 1 self.total_errors }

unfoldable pub record_blocked : MetricsCollector → MetricsCollector
record_blocked self = record self { total_blocked = fetch_add 1 self.total_blocked }

unfoldable pub record_challenged : MetricsCollector → MetricsCollector
record_challenged self = record self { total_challenged = fetch_add 1 self.total_challenged }

unfoldable pub record_empty_parse : MetricsCollector → MetricsCollector
record_empty_parse self = record self { total_empty_parses = fetch_add 1 self.total_empty_parses }

unfoldable pub snapshot : MetricsCollector → MetricsSnapshot
snapshot self = record {
  total_searches = self.total_searches;
  avg_latency_ms =
      if ltb 0 self.total_searches then some (self.total_latency_ms, self.total_searches) else none;
  total_errors = self.total_errors;
  total_blocked = self.total_blocked;
  total_challenged = self.total_challenged;
  total_empty_parses = self.total_empty_parses;
}
