-- ===== src/Pool/Accounts.antt =====
-- Which of the counters of `Acquire` a call moves (browser/pool.go, browser/metrics.go).
use gox_browser.Prelude.{
  ◌+◌, List, Option-cases, [], arith, false, if_false, inl, inr, refl, subst, sym, ◌∷◌, ◌≡◌, ◌≢◌,
}
use gox_browser.Types.{AcquireOpts, BrowserType}
use gox_browser.Pool.{
  Ends, Entry, Pool, Section, Wake, cancelled, counted, discard, idle_of, must_create, must_wait,
  no_provider, reused, set_idle,
}
use gox_browser.Io.{Io}
use gox_browser.Metrics.{Metrics, add_acquire_total}
use gox_browser.Errors.{Result, err, is_ok, ok}
use gox_browser.Pool.Acquire.{
  acquire, acquire_rest, acquire_section, create_section, reuse, wait_for_instance,
}

-- The three counters of acquisitions.
pub record SameAccounts (m n : Metrics) : Type 0 where
  pub total_eq : n.acquire_total ≡ m.acquire_total
  pub success_eq : n.acquire_success ≡ m.acquire_success
  pub fail_eq : n.acquire_fail ≡ m.acquire_fail

module _ {W B P C : Type 0} (io : Io W B P C) (ctx : C) where
  reuse-SameAccounts :
      (t : BrowserType) (es : List (Entry B)) (w : W) (p : Pool B P)
      → SameAccounts p.metrics (reuse io ctx t es w p).1.metrics
  unfolding reuse
  reuse-SameAccounts t [] w p = omega arith
  reuse-SameAccounts t (e ∷ rest) w p =
      let ping = io.title w (io.with_timeout ctx p.cfg.ping_timeout) e.browser in
      let ih =
        reuse-SameAccounts t rest (io.close ping.0 e.browser).0 (discard (set_idle t rest p)) in
      elim (Option-cases ping.2) [
        | inl alive ↦ rw (alive, reuse) (omega arith)
        | inr (error, dead) ↦
            rw (dead, reuse)
              (record { total_eq = ih.total_eq; success_eq = ih.success_eq; fail_eq = ih.fail_eq })
      ]

  acquire_section-SameAccounts :
      (opts : AcquireOpts) (w : W) (p : Pool B P)
      → SameAccounts p.metrics (acquire_section io ctx opts w p).1.metrics
  unfolding acquire_section
  acquire_section-SameAccounts opts w p =
      ground (arith, reuse-SameAccounts opts.browser_type (idle_of p opts.browser_type) w p)

  -- What a returned `Acquire` has counted since the counters `m`.
  abbrev pub Counts : Metrics → W × Pool B P × Result B → Type 0
  Counts m (w, q, ok b) =
      (q.metrics.acquire_total ≡ m.acquire_total + 1)
      × (q.metrics.acquire_success ≡ m.acquire_success + 1)
      × (q.metrics.acquire_fail ≡ m.acquire_fail)
  Counts m (w, q, err e) =
      (q.metrics.acquire_total ≡ m.acquire_total + 1)
      × (q.metrics.acquire_success ≡ m.acquire_success)
      × (q.metrics.acquire_fail ≡ m.acquire_fail + 1)

  create_section-Counts :
      (w : W) (t : BrowserType) (r : Result B) (p : Pool B P) (m : Metrics)
      → SameAccounts (add_acquire_total m) p.metrics
      → Counts m (w, (create_section io t r p).0, (create_section io t r p).1)
  unfolding create_section
  create_section-Counts w t (ok b) p m s = omega arith
  create_section-Counts w t (err e) p m s = omega arith

  acquire_rest-Counts :
      (opts : AcquireOpts) (wakes : List (Wake W (Pool B P))) (w : W) (p : Pool B P)
      (s : Section B P) (m : Metrics)
      → SameAccounts (add_acquire_total m) p.metrics
      → s ≢ must_wait
      → Ends (Counts m) (acquire_rest io ctx opts wakes w p s)
  unfolding acquire_rest
  acquire_rest-Counts opts wakes w p no_provider m same h = omega arith
  acquire_rest-Counts opts wakes w p (reused b) m same h = omega arith
  acquire_rest-Counts opts wakes w p must_wait m same h = absurd (h refl)
  acquire_rest-Counts opts wakes w p (must_create x) m same h =
      create_section-Counts (io.create w ctx x opts).0 opts.browser_type (io.create w ctx x opts).1
        p m same

  -- On an open pool an `Acquire` that need not wait returns, and counts one acquisition in all, with
  -- one success if it gives a browser and one failure if it gives an error.
  pub acquire-Counts :
      (opts : AcquireOpts) (wakes : List (Wake W (Pool B P))) (w : W) (p : Pool B P)
      → p.closed ≡ false
      → (acquire_section io ctx opts w (counted add_acquire_total p)).2 ≢ must_wait
      → Ends (Counts p.metrics) (acquire io ctx opts wakes w p)
  unfolding acquire
  acquire-Counts opts wakes w p o h =
      let q = counted add_acquire_total p in
      let r = acquire_section io ctx opts w q in
      subst (Ends (Counts p.metrics)) (sym (if_false p.closed _ _ o)) (
        acquire_rest-Counts opts wakes r.0 r.1 r.2 p.metrics (acquire_section-SameAccounts opts w q)
          h)

  -- An `Acquire` that waits and is cancelled first is counted, but neither as a success nor as a
  -- failure, although it returns an error.
  pub timeout_uncounted :
      (opts : AcquireOpts) (wakes : List (Wake W (Pool B P))) (w : W) (p : Pool B P)
      → p.closed ≡ false
      → (acquire_section io ctx opts w (counted add_acquire_total p)).2 ≡ must_wait
      → Ends
          (λ x.
            (x.1.metrics.acquire_total ≡ p.metrics.acquire_total + 1)
            × (x.1.metrics.acquire_success ≡ p.metrics.acquire_success)
            × (x.1.metrics.acquire_fail ≡ p.metrics.acquire_fail)
            × (is_ok x.2 ≡ false))
          (acquire io ctx opts (cancelled ∷ wakes) w p)
  unfolding acquire acquire_rest wait_for_instance
  timeout_uncounted opts wakes w p o h =
      let q = counted add_acquire_total p in
      let r = acquire_section io ctx opts w q in
      let same = acquire_section-SameAccounts opts w q in
      subst (Ends _) (sym (if_false p.closed _ _ o))
        (rw (h, acquire_rest) (same.total_eq, same.success_eq, same.fail_eq, refl))
