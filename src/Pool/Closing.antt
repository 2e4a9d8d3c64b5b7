-- ===== src/Pool/Closing.antt =====
-- What `Close` leaves (browser/pool.go).
use gox_browser.Types.{AcquireOpts}
use gox_browser.Errors.{Error, err, pool_closed, sentinel}
use gox_browser.Io.{Io}
use gox_browser.Prelude.{List, Option, false, refl, ◌≡◌}
use gox_browser.Pool.{Pool, Wake, finished, stats}
use gox_browser.Pool.Acquire.{acquire}
use gox_browser.Pool.Evict.{close}
use gox_browser.Pool.Release.{release}

module _ {W B P C : Type 0} (io : Io W B P C) where
  -- `Close` is final: in the pool that it leaves nothing is idle, `Acquire` gives the error for a
  -- closed pool and changes nothing, `Release` closes the browser that it is given and changes
  -- nothing else, and a second `Close` does nothing.
  pub close_final :
      (w v : W) (p : Pool B P) (ctx : C) (opts : AcquireOpts) (wakes : List (Wake W (Pool B P)))
      (b : B) (last : Option Error)
      → p.closed ≡ false
      → let q = (close io w p).1 in
        ((stats q).available ≡ 0)
        × (acquire io ctx opts wakes v q ≡ finished (v, q, err (sentinel pool_closed)))
        × (release io b last v q ≡ finished ((io.close v b).0, q, (io.close v b).1))
        × (close io v q ≡ (v, q))
  unfolding close acquire release stats
  close_final w v p ctx opts wakes b last o = simp o (refl, refl, refl, refl)
