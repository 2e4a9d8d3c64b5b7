-- ===== src/Surf/Idle.antt =====
-- What becomes of idle surf browsers in a pool (browser/surf/browser.go, browser/pool.go).
-- Every entry holds a surf browser.
use gox_browser.Prelude.{◌+◌, List, Option, [], ap, length, none, ◌∷◌, ◌≡◌}
use gox_browser.Pool.Reuse.{Dead, reuse-none}
use gox_browser.Pool.{Entry, Pool, idle_of}
use gox_browser.Errors.{Error}
use gox_browser.Io.{Io}
use gox_browser.Surf.{SurfBrowser, SurfLibrary, surf_title}
use gox_browser.Prelude.Text.{Text}
use gox_browser.Pool.Acquire.{reuse}
use gox_browser.Types.{type_surf}
use gox_browser.Prelude.Int.{ℤ}

abbrev pub IsSurf :
    {W P C K : Type 0} → Io W (SurfBrowser K) P C → List (Entry (SurfBrowser K)) → Type 0
IsSurf io [] = Unit
IsSurf io (e ∷ es) = (io.browser_type e.browser ≡ type_surf) × IsSurf io es

module _ {W P C K : Type 0} (surf : SurfLibrary W K C) (io : Io W (SurfBrowser K) P C) (ctx : C)
    (titles : (w : W) (c : C) (b : SurfBrowser K)
      → io.browser_type b ≡ type_surf
      → io.title w c b ≡ surf_title surf c b w) where
  surf-Dead :
      (limit : ℤ) (es : List (Entry (SurfBrowser K))) (w : W)
      → IsSurf io es
      → Dead io ctx limit es w
  surf-Dead limit [] w h = tt
  surf-Dead limit (e ∷ es) w (first, h) =
      let failed =
        ap (λ (x : W × Text × Option Error). x.2)
          (titles w (io.with_timeout ctx limit) e.browser first) in
      ((λ k. absurd (cc (k, failed))), surf-Dead limit es _ h)

  -- In a pool whose surf browsers answer `Title` as the surf driver does, `Acquire` never reuses an
  -- idle one: all idle surf browsers are evicted, and none is handed out.
  pub surf_never_reused :
      (es : List (Entry (SurfBrowser K))) (w : W) (p : Pool (SurfBrowser K) P)
      → idle_of p type_surf ≡ es
      → IsSurf io es
      → let r = reuse io ctx type_surf es w p in
        (r.2 ≡ none)
        × (idle_of r.1 type_surf ≡ [])
        × (r.1.metrics.evict_total ≡ p.metrics.evict_total + length es)
  surf_never_reused es w p h s =
      reuse-none io ctx type_surf es w p h (surf-Dead p.cfg.ping_timeout es w s)
