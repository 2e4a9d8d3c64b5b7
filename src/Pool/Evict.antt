-- ===== src/Pool/Evict.antt =====
-- `evictIdle` and `Close` (browser/pool.go).
use gox_browser.Pool.{Entry, Pool, discard}
use gox_browser.Io.{Io}
use gox_browser.Prelude.{ℕ, List, if◌then◌else◌, ℕ, ◌∷◌, [], none, some, true}
use gox_browser.Types.{BrowserType}
use gox_browser.Prelude.Int.{ltb_ℤ, sub_ℕ}

module _ {W B P C : Type 0} (io : Io W B P C) where
  -- The loop of `evictIdle` over one slice, from its front: the state, the pool, what is kept.
  unfoldable pub evict_entries : ℕ → List (Entry B) → W → Pool B P → W × Pool B P × List (Entry B)
  evict_entries now [] w p = (w, p, [])
  evict_entries now (e ∷ older) w p =
      let (w1, p1, alive) = evict_entries now older w p in
      if ltb_ℤ p.cfg.idle_timeout (sub_ℕ now e.last_used)
      then ((io.close w1 e.browser).0, discard p1, alive)
      else (w1, p1, e ∷ alive)

  unfoldable pub evict_types :
      ℕ
      → List (BrowserType × List (Entry B))
      → W
      → Pool B P
      → W × Pool B P × List (BrowserType × List (Entry B))
  evict_types now [] w p = (w, p, [])
  evict_types now ((t, entries) ∷ m) w p =
      let (w1, p1, alive) = evict_entries now entries w p in
      let (w2, p2, rest) = evict_types now m w1 p1 in (w2, p2, (t, alive) ∷ rest)

  unfoldable pub evict_idle : W → Pool B P → W × Pool B P
  evict_idle w p = elim p.instances [
    | none ↦ (w, p)
    | some m ↦
        let (w1, p1, alive) = evict_types (io.now w) m w p in
        (w1, record p1 { instances = some alive })
  ]

  unfoldable pub close_entries : List (Entry B) → W → W
  close_entries [] w = w
  close_entries (e ∷ older) w = (io.close (close_entries older w) e.browser).0

  unfoldable pub close_instances : List (BrowserType × List (Entry B)) → W → W
  close_instances [] w = w
  close_instances ((t, entries) ∷ m) w = close_instances m (close_entries entries w)

  unfoldable pub close_providers : List (BrowserType × P) → W → W
  close_providers [] w = w
  close_providers ((t, x) ∷ m) w = close_providers m (io.close_provider w x).0

  -- `Close` from the lock to the unlock.
  unfoldable pub close_section : W → Pool B P → W × Pool B P
  close_section w p = (
    close_providers p.providers (elim p.instances [ none ↦ w | some m ↦ close_instances m w ]),
    record p { instances = none },
  )

  -- `Close`, which returns nil always.
  unfoldable pub close : W → Pool B P → W × Pool B P
  unfolding close_section
  close w p = if p.closed then (w, p) else close_section w (record p { closed = true; done = true })
