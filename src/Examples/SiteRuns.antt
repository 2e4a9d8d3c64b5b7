-- ===== src/Examples/SiteRuns.antt =====
-- Examples for the metrics, the router, the fingerprints and the navigation.
use mathlib.Core.List.{Memᴰ}
use gox_browser.Prelude.{
  ◌%◌, ◌+◌, ◌==◌, Bool, List, [], arith, false, get_elem?, if◌then◌else◌, none, refl, some, true, ℕ,
  ◌∷◌, ◌≡◌, ◌≤◌, ◌-◌, ◌^◌,
}
use gox_browser.Router.Health.{Asked, has_error, health_check_all-Asked}
use gox_browser.Router.{
  Endpoint, Http, Router, health_check_all, least_load, new_router, pick_least_load,
  pick_round_robin, round_robin,
}
use gox_browser.Router.Load.{IsLeastBusy, pick_least_load_lem}
use gox_browser.Metrics.{Metrics, new_metrics}
use gox_browser.Prelude.Text.{codes}
use gox_browser.Detector.{check_waf}
use gox_browser.Errors.{err, is_ok, ok, plain}
use gox_browser.Navigate.{navigate_and_check, with_wait_stable}
use gox_browser.Navigate.Checked.{navigate_and_check-ok}
use gox_browser.Examples.{pass, test_io}
use gox_browser.Prelude.Int.{pos, wrap_int, ◌+ℤ◌}
use gox_browser.Metrics.Window.{record_latencies, record_latency-window}
use gox_browser.Metrics.Snapshot.{snapshot}
use gox_browser.Metrics.Snapshot.Percentiles.{snapshot_percentiles}
use gox_browser.Router.Turn.{IsHealthyPick, count_healthy, pick_round_robin-IsHealthyPick, steps}

record_latency-window_example :
    (record_latencies (3 ∷ 1 ∷ 2 ∷ []) new_metrics).latencies ≡ 3 ∷ 1 ∷ 2 ∷ []
record_latency-window_example = record_latency-window (3 ∷ 1 ∷ 2 ∷ [])

abbrev sampled : Metrics
sampled = record new_metrics { latencies = 30 ∷ 10 ∷ 20 ∷ [] }

snapshot_percentiles_example :
    Memᴰ (snapshot sampled).p50_latency (30 ∷ 10 ∷ 20 ∷ [])
    × Memᴰ (snapshot sampled).p95_latency (30 ∷ 10 ∷ 20 ∷ [])
    × Memᴰ (snapshot sampled).p99_latency (30 ∷ 10 ∷ 20 ∷ [])
    × ((snapshot sampled).p50_latency ≤ (snapshot sampled).p95_latency)
    × ((snapshot sampled).p95_latency ≤ (snapshot sampled).p99_latency)
snapshot_percentiles_example = snapshot_percentiles sampled (omega arith)

abbrev idle_node : ℕ → Bool → Endpoint
idle_node n up = record {
  url = codes "http://node/";
  token = [];
  weight = pos 1;
  healthy = up;
  pressure = record {
    cpu = pos 0;
    memory = pos 0;
    running = pos n;
    queued = pos 1;
    max_concurrent = pos 5;
    is_available = up;
  };
}

abbrev nodes : List Endpoint
nodes = idle_node 0 false ∷ idle_node 4 true ∷ idle_node 2 true ∷ []

pick_least_load_lem_example :
    (i : ℕ) × (best : Endpoint) × (pick_least_load nodes ≡ some i)
    × (get_elem? nodes i ≡ some best)
    × (best.healthy ≡ true)
    × IsLeastBusy best nodes
unfolding ◌+ℤ◌
pick_least_load_lem_example =
    pick_least_load_lem nodes 1 (idle_node 4 true)
      ((omega arith, omega arith), ((omega arith, omega arith), ((omega arith, omega arith), tt)))
      refl refl refl

-- A service that reports the largest integer as its running requests, and one more that waits, has
-- the least load.
load_wraps : pick_least_load (idle_node 0 true ∷ idle_node (2 ^ 63 - 1) true ∷ []) ≡ some 1
unfolding pick_least_load least_load ◌+ℤ◌ wrap_int
load_wraps = refl

-- A service that answers every second request.
abbrev test_http : Http ℕ Unit
test_http = record {
  with_timeout = λ c d. c;
  build_error = λ s. none;
  send = λ w c s. (w + 1, if w % 2 == 0 then ok 200 else err (plain (codes "i/o timeout")));
  read_body = λ w. (w, codes "{}", none);
  decode = λ s. ok ((idle_node 1 true).pressure);
  decimal = λ n. codes "n";
}

abbrev test_router : Router
test_router = new_router nodes (codes "least-load") (pos 0)

health_check_all-Asked_example :
    Asked test_http tt nodes
      (health_check_all test_http tt test_router 0).1.endpoints
      (has_error (health_check_all test_http tt test_router 0).2)
      0
unfolding new_router
health_check_all-Asked_example = health_check_all-Asked test_http tt test_router 0

navigate_and_check-ok_example :
    is_ok
      (navigate_and_check test_io
        (λ w c d. (w + 2, none))
        pass
        tt
        3
        (codes "u")
        (with_wait_stable ∷ [])
        5).1
    ≡ true
unfolding check_waf
navigate_and_check-ok_example =
    navigate_and_check-ok test_io (λ w c d. (w + 2, none)) pass tt 3 (codes "u")
      (with_wait_stable ∷ []) 5

-- Another pick takes one step before the last round.
abbrev one_step : ℕ → ℕ
one_step k = if k == 0 then 1 else 0

pick_round_robin-IsHealthyPick_example : IsHealthyPick nodes (pick_round_robin nodes one_step 6).1
unfolding steps count_healthy
pick_round_robin-IsHealthyPick_example =
    pick_round_robin-IsHealthyPick nodes one_step 6 (omega arith) (omega arith)

-- Of one unhealthy and one healthy endpoint, two picks that take steps in turn can each see one of
-- them twice: this pick gives the unhealthy one.
picks_race : pick_round_robin (idle_node 0 false ∷ idle_node 0 true ∷ []) one_step 0 ≡ (3, some 0)
unfolding pick_round_robin round_robin
picks_race = refl
