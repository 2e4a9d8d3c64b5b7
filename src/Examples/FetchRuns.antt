-- ===== src/Examples/FetchRuns.antt =====
-- Examples for the fetch.
use gox_browser.Types.{BrowserType, type_camoufox, type_surf, type_name}
use gox_browser.Errors.{Error, is, message, plain, wrap, is_connection_error}
use gox_browser.Fetch.{
  FetchResult, fetch_with_fallback, fetch_loop, after_release, failed, judged, round_rest, settle,
  try_fetch,
}
use gox_browser.Pool.Balance.{IsOpen}
use gox_browser.Prelude.{List, Option, [], refl, ℕ, ◌∷◌, ◌≡◌, false, none, some}
use gox_browser.Pool.{Pool, Wake, cancelled, finished, new_pool}
use gox_browser.Prelude.Text.{codes}
use gox_browser.Fetch.Balance.{fetch_returns}
use gox_browser.Examples.{fresh_pool, pass, test_io, long_page}
use gox_browser.Prelude.Int.{pos, dec, inc}
use gox_browser.Fetch.Attempts.{Report, fetch-Report}
use gox_browser.Pool.Acquire.{acquire, acquire_rest, acquire_section, create_section, reuse}
use gox_browser.Metrics.{bump, new_metrics, push_latency, record_fetch_by_type, record_latency}
use gox_browser.Pool.Release.{release, release_keep}

abbrev chain_of_two : List BrowserType
chain_of_two = type_camoufox ∷ type_surf ∷ []

abbrev patient : ℕ → List (Wake ℕ (Pool ℕ ℕ))
patient i = cancelled ∷ []

fetch_returns_example :
    (x : ℕ × Pool ℕ ℕ × FetchResult × Option Error) × (fetch_with_fallback test_io pass tt
        (codes "u")
        patient
        chain_of_two
        5
        fresh_pool
      ≡ finished x)
    × IsOpen x.1
    × (x.1.in_use ≡ pos 0)
unfolding new_pool
fetch_returns_example =
    fetch_returns test_io pass tt (codes "u") patient chain_of_two 5 fresh_pool (λ k. tt)
      (refl, λ k. cc k)

-- The fetch falls from camoufox, which creates nothing, to surf.
abbrev pool_after : Pool ℕ ℕ
pool_after = record fresh_pool {
  instances = some ((type_surf, record { browser = 6; last_used = 11 } ∷ []) ∷ []);
  total = pos 1;
  metrics = record new_metrics {
    acquire_total = 2;
    acquire_success = 1;
    acquire_fail = 1;
    create_total = 1;
    release_total = 1;
    fetch_total = 1;
    fetch_success = 1;
    fetch_fallback = 1;
    fetch_by_type = (type_surf, 1) ∷ [];
    latencies = 6 ∷ [];
  };
}

abbrev result_after : FetchResult
result_after = record {
  html = long_page;
  title = codes "title";
  final_type = type_surf;
  attempts =
      record {
        kind = type_camoufox;
        duration = 1;
        blocked = false;
        reason = codes "browser: create camoufox instance: no browser";
        error =
            some (wrap (codes "browser: create camoufox instance") (plain (codes "no browser")));
      }
      ∷ record { kind = type_surf; duration = 5; blocked = false; reason = []; error = none }
      ∷ [];
  total_latency = 6;
}

fetch-Report_example : Report test_io pass tt (codes "u") chain_of_two [] (result_after, none)
unfolding new_pool fetch_with_fallback fetch_loop round_rest after_release settle try_fetch failed
    judged acquire acquire_section acquire_rest create_section reuse release release_keep
    record_latency record_fetch_by_type push_latency bump message is type_name dec inc
    is_connection_error
fetch-Report_example =
    fetch-Report test_io pass tt (codes "u") patient chain_of_two 5 fresh_pool 11 pool_after
      result_after none refl
