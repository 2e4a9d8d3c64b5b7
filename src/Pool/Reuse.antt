-- ===== src/Pool/Reuse.antt =====
-- Which idle instance `Acquire` hands out (browser/pool.go).
use gox_browser.Prelude.{
  ◌+◌, ◌++◌, List, Option, Option-cases, [], arith, inl, inr, length, none, refl, some, ◌∙◌, ◌∷◌,
  ◌≡◌, ◌≢◌,
}
use gox_browser.Types.{BrowserType}
use gox_browser.Pool.{Entry, Pool, discard, idle_of, set_idle}
use gox_browser.Io.{Io}
use gox_browser.Pool.Count.{count_idle-pop}
use gox_browser.Prelude.Int.{inc, ℤ}
use gox_browser.Pool.Acquire.{reuse}

module _ {W B P C : Type 0} (io : Io W B P C) (ctx : C) where
  -- The state after the entries were pinged and closed.
  abbrev pub after_dead : ℤ → List (Entry B) → W → W
  after_dead limit [] w = w
  after_dead limit (e ∷ es) w =
      after_dead limit es
        (io.close (io.title w (io.with_timeout ctx limit) e.browser).0 e.browser).0

  -- Every entry fails its ping, when they are pinged and closed in turn.
  abbrev pub Dead : ℤ → List (Entry B) → W → Type 0
  Dead limit [] w = Unit
  Dead limit (e ∷ es) w =
      ((io.title w (io.with_timeout ctx limit) e.browser).2 ≢ none)
      × Dead limit es (io.close (io.title w (io.with_timeout ctx limit) e.browser).0 e.browser).0

  abbrev pub AliveAt : ℤ → W → Entry B → Type 0
  AliveAt limit w e = (io.title w (io.with_timeout ctx limit) e.browser).2 ≡ none

  -- What a search over `ds` dead entries and the entry `e` above `rest` leaves.
  pub record Found (p : Pool B P) (t : BrowserType) (ds : List (Entry B)) (rest : List (Entry B))
      (r : W × Pool B P × Option B) (e : Entry B) : Type 0 where
    pub browser_eq : r.2 ≡ some e.browser
    pub idle_eq : idle_of r.1 t ≡ rest
    pub in_use_eq : r.1.in_use ≡ inc p.in_use
    pub evicted_eq : r.1.metrics.evict_total ≡ p.metrics.evict_total + length ds

  -- `Acquire` takes the instance that was released last among those that still answer: the dead
  -- ones above it are thrown away and counted as evicted, those below stay idle.
  pub reuse_newest :
      (t : BrowserType) (ds : List (Entry B)) (e : Entry B) (rest : List (Entry B)) (w : W)
      (p : Pool B P)
      → idle_of p t ≡ ds ++ e ∷ rest
      → Dead p.cfg.ping_timeout ds w
      → AliveAt p.cfg.ping_timeout (after_dead p.cfg.ping_timeout ds w) e
      → Found p t ds rest (reuse io ctx t (ds ++ e ∷ rest) w p) e
  unfolding reuse
  reuse_newest t [] e rest w p h dead alive =
      rw (alive, reuse)
        (record {
          browser_eq = refl;
          idle_eq = (count_idle-pop p t e rest h).1;
          in_use_eq = refl;
          evicted_eq = omega arith;
        })
  reuse_newest t (d ∷ ds) e rest w p h (failed, dead) alive =
      let ping = io.title w (io.with_timeout ctx p.cfg.ping_timeout) d.browser in
      elim (Option-cases ping.2) [
        | inl answered ↦ absurd (failed answered)
        | inr (error, some_error) ↦
            let ih =
              reuse_newest t ds e rest (io.close ping.0 d.browser).0
                (discard (set_idle t (ds ++ e ∷ rest) p))
                (count_idle-pop p t d (ds ++ e ∷ rest) h).1 dead alive in
            rw (some_error, reuse)
              (record {
                browser_eq = ih.browser_eq;
                idle_eq = ih.idle_eq;
                in_use_eq = ih.in_use_eq;
                evicted_eq = ih.evicted_eq ∙ omega arith;
              })
      ]

  -- Where no idle instance answers, all of them are thrown away and none is handed out.
  pub reuse-none :
      (t : BrowserType) (es : List (Entry B)) (w : W) (p : Pool B P)
      → idle_of p t ≡ es
      → Dead p.cfg.ping_timeout es w
      → let r = reuse io ctx t es w p in
        (r.2 ≡ none)
        × (idle_of r.1 t ≡ [])
        × (r.1.metrics.evict_total ≡ p.metrics.evict_total + length es)
  unfolding reuse
  reuse-none t [] w p h dead = (refl, h, omega arith)
  reuse-none t (d ∷ ds) w p h (failed, dead) =
      let ping = io.title w (io.with_timeout ctx p.cfg.ping_timeout) d.browser in
      elim (Option-cases ping.2) [
        | inl answered ↦ absurd (failed answered)
        | inr (error, some_error) ↦
            let (found, idle, evicted) =
              reuse-none t ds (io.close ping.0 d.browser).0 (discard (set_idle t ds p))
                (count_idle-pop p t d ds h).1 dead in
            rw (some_error, reuse) (found, idle, evicted ∙ omega arith)
      ]
