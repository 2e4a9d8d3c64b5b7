-- ===== src/Pool/Waiting.antt =====
-- What a goroutine gets that waits for an instance (browser/pool.go).
use gox_browser.Types.{BrowserType}
use gox_browser.Io.{Io}
use gox_browser.Prelude.{List, [], refl, ◌∷◌, ◌≡◌}
use gox_browser.Pool.{Pool, Wake, cancelled, idle_of, tick, waiting}
use gox_browser.Pool.Acquire.{reuse, wait_for_instance}

-- The goroutine is woken by ticks only, and never finds an idle instance of its type.
abbrev pub NeverIdle : {W B P : Type 0} → BrowserType → List (Wake W (Pool B P)) → Type 0
NeverIdle t [] = Unit {0}
NeverIdle t (cancelled ∷ wakes) = ⊥
NeverIdle {W} {B} {P} t (tick others ∷ wakes) =
    ((w : W) (p : Pool B P) → idle_of (others w p).1 t ≡ []) × NeverIdle t wakes

module _ {W B P C : Type 0} (io : Io W B P C) where
  -- A waiting `Acquire` never creates an instance, however far the pool is below its limit: as long
  -- as no instance of its type becomes idle it waits on, for any number of ticks.
  pub wait_starves :
      (ctx : C) (t : BrowserType) (wakes : List (Wake W (Pool B P))) (w : W) (p : Pool B P)
      → NeverIdle t wakes
      → wait_for_instance io ctx t wakes w p ≡ waiting
  unfolding wait_for_instance reuse
  wait_starves ctx t [] w p h = refl
  wait_starves ctx t (cancelled ∷ wakes) w p h = absurd h
  wait_starves ctx t (tick others ∷ wakes) w p (never, h) =
      let x = others w p in
      let r = reuse io ctx t (idle_of x.1 t) x.0 x.1 in
      rw (never w p, wait_for_instance) (wait_starves ctx t wakes r.0 r.1 h)
