-- ===== src/Pool/Acquire.antt =====
-- `Acquire` and `waitForInstance` (browser/pool.go).
use gox_browser.Pool.{
  Entry, Pool, Outcome, finished, waiting, Section, Wake, counted, set_idle, no_provider,
  add_acquire_fail, cancelled, discard, idle_of, must_create, must_wait, reused, tick,
}
use gox_browser.Io.{Io}
use gox_browser.Types.{BrowserType, AcquireOpts, type_name}
use gox_browser.Errors.{
  Result, ok, err, acquire_timeout, pool_closed, provider_not_found, sentinel, wrap,
}
use gox_browser.Prelude.{List, Option, lookup, ◌∷◌, none, ◌++◌, [], if◌then◌else◌, some}
use gox_browser.Metrics.{
  add_acquire_fail, add_create_total, add_acquire_success, add_acquire_total, add_reuse_total,
}
use gox_browser.Prelude.Text.{codes}
use gox_browser.Prelude.Int.{dec, inc, leb_ℤ}

module _ {W B P C : Type 0} (io : Io W B P C) where
  -- The loop of `Acquire` and `waitForInstance` over the idle instances of a type, which are the list:
  -- the first one that answers the ping is taken, those before it are closed.
  unfoldable pub reuse : C → BrowserType → List (Entry B) → W → Pool B P → W × Pool B P × Option B
  reuse ctx t [] w p = (w, p, none)
  reuse ctx t (e ∷ rest) w p =
      let popped = set_idle t rest p in
      let ping = io.title w (io.with_timeout ctx p.cfg.ping_timeout) e.browser in
      let dropped = reuse ctx t rest (io.close ping.0 e.browser).0 (discard popped) in
      elim ping.2 [
        | some error ↦ dropped
        | none ↦ (ping.0, record popped { in_use = inc popped.in_use }, some e.browser)
      ]

  -- `Acquire` from the lock to the unlock.
  unfoldable pub acquire_section : C → AcquireOpts → W → Pool B P → W × Pool B P × Section B P
  acquire_section ctx opts w p = elim (lookup opts.browser_type p.providers) [
    | none ↦ (w, p, no_provider)
    | some x ↦
        let (w1, p1, found) = reuse ctx opts.browser_type (idle_of p opts.browser_type) w p in
        elim found [
          | some b ↦ (w1, p1, reused b)
          | none ↦
              if leb_ℤ p1.cfg.max_instances p1.total
              then (w1, p1, must_wait)
              else (w1, record p1 { total = inc p1.total; in_use = inc p1.in_use }, must_create x)
        ]
  ]

  -- `Acquire` behind the call of `Create`.
  unfoldable pub create_section : BrowserType → Result B → Pool B P → Pool B P × Result B
  create_section t (ok b) p = (counted (λ m. add_create_total (add_acquire_success m)) p, ok b)
  create_section t (err e) p = (
    record p { total = dec p.total; in_use = dec p.in_use; metrics = add_acquire_fail p.metrics },
    err (wrap (codes "browser: create " ++ type_name t ++ codes " instance") e),
  )

  -- `waitForInstance` over the wake-ups that it gets.
  unfoldable pub wait_for_instance :
      C → BrowserType → List (Wake W (Pool B P)) → W → Pool B P → Outcome (W × Pool B P × Result B)
  wait_for_instance ctx t [] w p = waiting
  wait_for_instance ctx t (cancelled ∷ wakes) w p = finished (
    w,
    p,
    err (
        wrap (codes "browser: wait for " ++ type_name t ++ codes " instance")
          (sentinel acquire_timeout)),
  )
  wait_for_instance ctx t (tick others ∷ wakes) w p =
      let (w1, p1) = others w p in
      let (w2, p2, found) = reuse ctx t (idle_of p1 t) w1 p1 in
      let later = wait_for_instance ctx t wakes w2 p2 in
      elim found [ some b ↦ finished (w2, p2, ok b) | none ↦ later ]

  -- What `Acquire` does with the decision of its locked section.
  unfoldable pub acquire_rest :
      C
      → AcquireOpts
      → List (Wake W (Pool B P))
      → W
      → Pool B P
      → Section B P
      → Outcome (W × Pool B P × Result B)
  acquire_rest ctx opts wakes w p no_provider = finished (
    w,
    counted add_acquire_fail p,
    err (
        wrap (codes "browser: acquire type " ++ type_name opts.browser_type)
          (sentinel provider_not_found)),
  )
  acquire_rest ctx opts wakes w p (reused b) =
      finished (w, counted (λ m. add_reuse_total (add_acquire_success m)) p, ok b)
  acquire_rest ctx opts wakes w p must_wait = wait_for_instance ctx opts.browser_type wakes w p
  acquire_rest ctx opts wakes w p (must_create x) =
      let made = io.create w ctx x opts in
      let (p1, r) = create_section opts.browser_type made.1 p in finished (made.0, p1, r)

  unfoldable pub acquire :
      C → AcquireOpts → List (Wake W (Pool B P)) → W → Pool B P → Outcome (W × Pool B P × Result B)
  acquire ctx opts wakes w p =
      if p.closed
      then finished (w, p, err (sentinel pool_closed))
      else let (w1, p1, s) = acquire_section ctx opts w (counted add_acquire_total p) in
        acquire_rest ctx opts wakes w1 p1 s
