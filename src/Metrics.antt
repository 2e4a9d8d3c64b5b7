-- ===== src/Metrics.antt =====
-- browser/metrics.go: the counters of a pool and its window of latencies. A counter is an int64 that
-- only grows; it is a number, and the wrap at 2^63 is left out.
pub mod Snapshot
pub mod Window
use gox_browser.Prelude.{
  ℕ, ◌+◌, List, [], ◌∷◌, ◌++◌, none, some, length, drop, lookup, insert, leb, if◌then◌else◌,
}
use gox_browser.Types.{BrowserType}

pub record Metrics : Type 0 where
  pub acquire_total : ℕ
  pub acquire_success : ℕ
  pub acquire_fail : ℕ
  pub create_total : ℕ
  pub release_total : ℕ
  pub evict_total : ℕ
  pub reuse_total : ℕ
  pub fetch_total : ℕ
  pub fetch_success : ℕ
  pub fetch_blocked : ℕ
  pub fetch_fallback : ℕ
  pub fetch_all_fail : ℕ
  pub fetch_by_type : List (BrowserType × ℕ)
  pub block_by_type : List (BrowserType × ℕ)
  pub latencies : List ℕ

-- `NewMetrics`.
abbrev pub new_metrics : Metrics
new_metrics = record {
  acquire_total = 0;
  acquire_success = 0;
  acquire_fail = 0;
  create_total = 0;
  release_total = 0;
  evict_total = 0;
  reuse_total = 0;
  fetch_total = 0;
  fetch_success = 0;
  fetch_blocked = 0;
  fetch_fallback = 0;
  fetch_all_fail = 0;
  fetch_by_type = [];
  block_by_type = [];
  latencies = [];
}

abbrev pub max_latency_samples : ℕ
max_latency_samples = 1000

-- `m.latencies` after one more sample.
unfoldable pub push_latency : ℕ → List ℕ → List ℕ
push_latency d ls =
    if leb max_latency_samples (length ls) then drop 1 ls ++ d ∷ [] else ls ++ d ∷ []

unfoldable pub record_latency : ℕ → Metrics → Metrics
record_latency d m = record m { latencies = push_latency d m.latencies }

-- `m[t]++` on a map whose missing entries read as 0.
unfoldable pub bump : BrowserType → List (BrowserType × ℕ) → List (BrowserType × ℕ)
bump t m = elim (lookup t m) [ none ↦ insert t 1 m | some n ↦ insert t (n + 1) m ]

unfoldable pub record_fetch_by_type : BrowserType → Metrics → Metrics
unfolding bump
record_fetch_by_type t m = record m { fetch_by_type = bump t m.fetch_by_type }

unfoldable pub record_block_by_type : BrowserType → Metrics → Metrics
unfolding bump
record_block_by_type t m = record m { block_by_type = bump t m.block_by_type }

-- `m.AcquireTotal.Add(1)` and its like.
abbrev pub add_acquire_total : Metrics → Metrics
add_acquire_total m = record m { acquire_total = m.acquire_total + 1 }

abbrev pub add_acquire_success : Metrics → Metrics
add_acquire_success m = record m { acquire_success = m.acquire_success + 1 }

abbrev pub add_acquire_fail : Metrics → Metrics
add_acquire_fail m = record m { acquire_fail = m.acquire_fail + 1 }

abbrev pub add_create_total : Metrics → Metrics
add_create_total m = record m { create_total = m.create_total + 1 }

abbrev pub add_release_total : Metrics → Metrics
add_release_total m = record m { release_total = m.release_total + 1 }

abbrev pub add_evict_total : Metrics → Metrics
add_evict_total m = record m { evict_total = m.evict_total + 1 }

abbrev pub add_reuse_total : Metrics → Metrics
add_reuse_total m = record m { reuse_total = m.reuse_total + 1 }

abbrev pub add_fetch_total : Metrics → Metrics
add_fetch_total m = record m { fetch_total = m.fetch_total + 1 }

abbrev pub add_fetch_success : Metrics → Metrics
add_fetch_success m = record m { fetch_success = m.fetch_success + 1 }

abbrev pub add_fetch_blocked : Metrics → Metrics
add_fetch_blocked m = record m { fetch_blocked = m.fetch_blocked + 1 }

abbrev pub add_fetch_fallback : Metrics → Metrics
add_fetch_fallback m = record m { fetch_fallback = m.fetch_fallback + 1 }

abbrev pub add_fetch_all_fail : Metrics → Metrics
add_fetch_all_fail m = record m { fetch_all_fail = m.fetch_all_fail + 1 }
