-- ===== src/Examples/PoolRuns.antt =====
-- Examples for the pool.
use gox_browser.Prelude.{◌+◌, [], false, none, refl, some, true, ℕ, ◌∷◌, ◌≡◌}
use gox_browser.Pool.Accounts.{Counts, acquire-Counts, timeout_uncounted}
use gox_browser.Pool.{
  Ends, cancelled, count_idle, finished, idle_of, new_pool, panicked, register, set_idle, stats,
  tick, waiting,
}
use gox_browser.Pool.Reuse.{Found, reuse_newest, reuse-none}
use gox_browser.Pool.Steps.Stats.{Reach-panicked, Reach-stats, close_then_release_panics}
use gox_browser.Pool.Steps.{System, clears, closes, entered, enters, here, next, registers, start}
use gox_browser.Pool.Acquire.{acquire, acquire_section, reuse, wait_for_instance}
use gox_browser.Pool.Evict.{close, close_section, evict_idle}
use gox_browser.Pool.Closing.{close_final}
use gox_browser.Prelude.Text.{codes}
use gox_browser.Types.{default_pool_config, type_surf}
use gox_browser.Examples.{entry_of, fresh_pool, full_pool, idle_pool, surf_opts, test_io}
use gox_browser.Errors.{err, is_ok, plain, sentinel, pool_closed}
use gox_browser.Pool.Eviction.{evict_idle_keeps, is_fresh, keep}
use gox_browser.Metrics.{new_metrics}
use gox_browser.Prelude.Int.{pos, ◌≤ℤ◌}
use gox_browser.Pool.Release.{release, release_keep}
use gox_browser.Pool.Waiting.{wait_starves}

abbrev opened : System ℕ ℕ ℕ
opened = record (start 0 default_pool_config) {
  pool = register test_io type_surf (new_pool default_pool_config);
}

abbrev one_creating : System ℕ ℕ ℕ
one_creating = entered test_io tt surf_opts opened

Reach-stats_example :
    ((stats one_creating.pool).total ≤ℤ pos 8)
    × (one_creating.pool.closed ≡ false
        → ((stats one_creating.pool).in_use ≡ pos 1)
          × ((stats one_creating.pool).total ≡ pos (1 + (stats one_creating.pool).available)))
unfolding start new_pool acquire_section register reuse
Reach-stats_example =
    Reach-stats test_io 0 default_pool_config one_creating
      (next (next here (registers type_surf refl)) (enters tt surf_opts refl))

abbrev shut_down : System ℕ ℕ ℕ
shut_down =
    let s = start 0 default_pool_config in
    record s { pool = record (s.pool) { closed = true; done = true } }

abbrev cleared : System ℕ ℕ ℕ
cleared = record shut_down {
  world = (close_section test_io shut_down.world shut_down.pool).0;
  pool = (close_section test_io shut_down.world shut_down.pool).1;
  shut = shut_down.shut + count_idle shut_down.pool;
}

Reach-panicked_example : cleared.pool.closed ≡ true
unfolding start new_pool close_section release_keep
Reach-panicked_example =
    Reach-panicked test_io 0 default_pool_config cleared 3
      (next (next here (closes refl refl)) (clears refl refl)) refl

close_then_release_panics_example :
    release_keep test_io 7 5 (close test_io 2 idle_pool).1 ≡ panicked
unfolding new_pool
close_then_release_panics_example = close_then_release_panics test_io 2 7 idle_pool 5 refl

reuse_newest_example :
    Found test_io tt idle_pool type_surf
      (entry_of 9 ∷ [])
      []
      (reuse test_io tt type_surf (entry_of 9 ∷ entry_of 1 ∷ []) 5 idle_pool)
      (entry_of 1)
unfolding new_pool
reuse_newest_example =
    reuse_newest test_io tt type_surf (entry_of 9 ∷ []) (entry_of 1) [] 5 idle_pool refl
      (λ h. cc h, tt) refl

reuse-none_example :
    let r =
      reuse test_io tt type_surf
        (entry_of 9 ∷ [])
        5
        (set_idle type_surf (entry_of 9 ∷ []) idle_pool) in
    (r.2 ≡ none) × (idle_of r.1 type_surf ≡ []) × (r.1.metrics.evict_total ≡ 1)
unfolding new_pool
reuse-none_example =
    reuse-none test_io tt type_surf (entry_of 9 ∷ []) 5
      (set_idle type_surf (entry_of 9 ∷ []) idle_pool) refl (λ h. cc h, tt)

acquire-Counts_example :
    Ends (Counts test_io tt new_metrics) (acquire test_io tt surf_opts [] 5 idle_pool)
unfolding new_pool acquire_section reuse
acquire-Counts_example = acquire-Counts test_io tt surf_opts [] 5 idle_pool refl (λ h. cc h)

timeout_uncounted_example :
    Ends
      (λ x.
        (x.1.metrics.acquire_total ≡ 1)
        × (x.1.metrics.acquire_success ≡ 0)
        × (x.1.metrics.acquire_fail ≡ 0)
        × (is_ok x.2 ≡ false))
      (acquire test_io tt surf_opts (cancelled ∷ []) 5 full_pool)
unfolding new_pool acquire_section reuse
timeout_uncounted_example = timeout_uncounted test_io tt surf_opts [] 5 full_pool refl refl

close_final_example :
    let q = (close test_io 5 idle_pool).1 in
    ((stats q).available ≡ 0)
    × (acquire test_io tt surf_opts [] 8 q ≡ finished (8, q, err (sentinel pool_closed)))
    × (release test_io 9 none 8 q ≡ finished (9, q, some (plain (codes "write: broken pipe"))))
    × (close test_io 8 q ≡ (8, q))
unfolding new_pool
close_final_example = close_final test_io 5 8 idle_pool tt surf_opts [] 9 none refl

evict_idle_keeps_example :
    idle_of (evict_idle test_io 5 idle_pool).1 type_surf
    ≡ keep (is_fresh idle_pool.cfg.idle_timeout 5) (entry_of 9 ∷ entry_of 1 ∷ [])
unfolding new_pool
evict_idle_keeps_example = evict_idle_keeps test_io 5 idle_pool type_surf

wait_starves_example :
    wait_for_instance test_io tt type_surf (tick (λ w p. (w + 1, fresh_pool)) ∷ []) 5 fresh_pool
    ≡ waiting
unfolding new_pool
wait_starves_example =
    wait_starves test_io tt type_surf (tick (λ w p. (w + 1, fresh_pool)) ∷ []) 5 fresh_pool
      (λ w p. refl, tt)
