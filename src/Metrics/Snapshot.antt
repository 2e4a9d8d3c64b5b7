-- ===== src/Metrics/Snapshot.antt =====
-- `Metrics.Snapshot` (browser/metrics.go). A rate is the fraction that the source divides as floats,
-- and a percentile is named by its hundredth: the product of the source's float with a length below
-- 1000 has the same integer part.
pub mod Percentiles
use gox_browser.Prelude.{
  ◌*◌, ◌+◌, ◌-◌, ◌/◌, List, [], get_elem?, if◌then◌else◌, leb, length, ltb, none, some, ℕ, ◌∷◌,
}
use gox_browser.Metrics.{Metrics}

pub record Fraction : Type 0 where
  pub num : ℕ
  pub den : ℕ

pub record MetricsSnapshot : Type 0 where
  pub counters : Metrics
  pub avg_latency : ℕ
  pub p50_latency : ℕ
  pub p95_latency : ℕ
  pub p99_latency : ℕ
  pub success_rate : Fraction
  pub fallback_rate : Fraction

unfoldable pub insert_sorted : ℕ → List ℕ → List ℕ
insert_sorted d [] = d ∷ []
insert_sorted d (x ∷ xs) = if leb d x then d ∷ x ∷ xs else x ∷ insert_sorted d xs

-- `slices.SortFunc` on durations.
unfoldable pub sort : List ℕ → List ℕ
unfolding insert_sorted
sort [] = []
sort (x ∷ xs) = insert_sorted x (sort xs)

abbrev pub sum : List ℕ → ℕ
sum [] = 0
sum (x ∷ xs) = x + sum xs

-- `percentile`, for `p` hundredths.
unfoldable pub percentile : List ℕ → ℕ → ℕ
percentile sorted p = elim (get_elem? sorted ((length sorted - 1) * p / 100)) [
  | none ↦ 0
  | some d ↦ d
]

abbrev pub rate : ℕ → ℕ → Fraction
rate a total = if ltb 0 total then record { num = a; den = total } else record { num = 0; den = 1 }

unfoldable pub snapshot : Metrics → MetricsSnapshot
unfolding sort percentile
snapshot m =
    let sorted = sort m.latencies in
    record {
      counters = m;
      avg_latency = if ltb 0 (length sorted) then sum sorted / length sorted else 0;
      p50_latency = percentile sorted 50;
      p95_latency = percentile sorted 95;
      p99_latency = percentile sorted 99;
      success_rate = rate m.fetch_success m.fetch_total;
      fallback_rate = rate m.fetch_fallback m.fetch_total;
    }
