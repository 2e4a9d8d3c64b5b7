-- ===== src/Pool/Steps/Stats.antt =====
-- What the counters say of the pool, in every state that its callers can reach (browser/pool.go).
use gox_browser.Prelude.{
  ◌+◌, Option-cases, ap, arith, false, inl, inr, length, refl, true, ◌∙◌, ◌≡◌,
}
use gox_browser.Pool.Steps.Counted.{Counted, Step-Counted}
use gox_browser.Io.{Io}
use gox_browser.Pool.{Pool, new_pool, panicked, stats}
use gox_browser.Types.{PoolConfig}
use gox_browser.Pool.Steps.{Reach, System, here, next, start}
use gox_browser.Pool.Evict.{close}
use gox_browser.Prelude.Int.{pos, pos_part, ◌≤ℤ◌}
use gox_browser.Pool.Release.{release_keep}
use gox_browser.Pool.Tallies.{release_keep_open}

module _ {W B P C : Type 0} (io : Io W B P C) where
  start-Counted : (w : W) (cfg : PoolConfig) → Counted (start {B = B} {P = P} w cfg)
  unfolding start new_pool
  start-Counted w cfg = record {
    tally = record { in_use_eq = refl; total_eq = refl };
    within = omega arith;
    open_late = λ k. refl;
    open_shut = λ k. refl;
    open_map = λ k. cc k;
  }

  pub Reach-Counted :
      (w : W) (cfg : PoolConfig) (s : System W B P) → Reach io (start w cfg) s → Counted s
  Reach-Counted w cfg s here = start-Counted w cfg
  Reach-Counted w cfg s (next {t} r st) = Step-Counted io t s st (Reach-Counted w cfg t r)

  -- Whatever the callers, the eviction and `Close` do and in whatever order their locked sections
  -- run: the pool never counts more instances than its limit; and as long as it is open, the
  -- `InUse` of its statistics is exact, that is the browsers that callers hold, that are being
  -- created and that are on their way back, and `Total` is these and the `Available` ones.
  pub Reach-stats :
      (w : W) (cfg : PoolConfig) (s : System W B P)
      → Reach io (start w cfg) s
      → ((stats s.pool).total ≤ℤ pos (pos_part s.pool.cfg.max_instances))
        × (s.pool.closed ≡ false
            → let used = s.creating + length s.held + length s.returning + length s.broken in
              ((stats s.pool).in_use ≡ pos used)
              × ((stats s.pool).total ≡ pos (used + (stats s.pool).available)))
  unfolding stats
  Reach-stats w cfg s r =
      let c = Reach-Counted w cfg s r in
      (
        rw c.tally.total_eq (omega (arith, c.within)),
        λ o. (
          c.tally.in_use_eq ∙ ap pos (omega (arith, c.open_late o)),
          c.tally.total_eq ∙ ap pos (omega (arith, c.open_late o, c.open_shut o)),
        ),
      )

  -- However the calls interleave, the write of `Release` to the map of idle instances panics only
  -- once `Close` has been called.
  pub Reach-panicked :
      (w : W) (cfg : PoolConfig) (s : System W B P) (b : B)
      → Reach io (start w cfg) s
      → release_keep io s.world b s.pool ≡ panicked
      → s.pool.closed ≡ true
  Reach-panicked w cfg s b r h = elim (Option-cases s.pool.instances) [
    | inl nil ↦ (Reach-Counted w cfg s r).open_map nil
    | inr (m, some_m) ↦ absurd (cc (h, release_keep_open io s.world b s.pool m some_m))
  ]

  -- And it does panic then: a browser whose `Release` passed the test of `closed` before `Close`
  -- ran, and takes the lock after it, hits the nil map.
  pub close_then_release_panics :
      (w v : W) (p : Pool B P) (b : B)
      → p.closed ≡ false
      → release_keep io v b (close io w p).1 ≡ panicked
  unfolding close release_keep
  close_then_release_panics w v p b o = simp o
