-- ===== src/Pool/Steps.antt =====
-- The pool under concurrent calls (browser/pool.go): the goroutines interleave between the sections
-- that run under the mutex. `creating` goroutines stand between `Acquire` and the end of `Create`;
-- `held` browsers are with callers; those in `returning` and `broken` have passed the first test of
-- `Release`, and wait for the lock; `broken` ones are closed already. `late` counts the browsers
-- that `Release` closed in a closed pool, `shut` those that `Close` closed: the counters of the pool
-- keep them.
mod Counted
pub mod Stats
use gox_browser.Prelude.{◌+◌, ◌++◌, List, Option, [], false, none, some, true, ℕ, ◌∷◌, ◌≡◌}
use gox_browser.Types.{AcquireOpts, BrowserType, PoolConfig}
use gox_browser.Errors.{Error, err, ok}
use gox_browser.Io.{Io}
use gox_browser.Pool.{
  Pool, Section, count_idle, counted, finished, idle_of, must_create, must_wait, new_pool,
  no_provider, register, reused,
}
use gox_browser.Pool.Acquire.{acquire_section, create_section, reuse}
use gox_browser.Metrics.{
  add_acquire_fail, add_acquire_success, add_acquire_total, add_release_total, add_reuse_total,
}
use gox_browser.Pool.Evict.{close_section, evict_idle}
use gox_browser.Pool.Release.{release_drop, release_keep}

pub record System (W B P : Type 0) : Type 0 where
  pub world : W
  pub pool : Pool B P
  pub creating : ℕ
  pub held : List B
  pub returning : List B
  pub broken : List B
  pub late : ℕ
  pub shut : ℕ

unfoldable pub start : {W B P : Type 0} → W → PoolConfig → System W B P
start w cfg = record {
  world = w;
  pool = new_pool cfg;
  creating = 0;
  held = [];
  returning = [];
  broken = [];
  late = 0;
  shut = 0;
}

module _ {W B P : Type 0} where
  -- The end of `Acquire`'s locked section, with the counters that follow it.
  abbrev pub settled : Section B P → System W B P → System W B P
  settled no_provider s = record s { pool = counted add_acquire_fail s.pool }
  settled (reused b) s = record s {
    held = b ∷ s.held;
    pool = counted (λ m. add_reuse_total (add_acquire_success m)) s.pool;
  }
  settled must_wait s = s
  settled (must_create x) s = record s { creating = s.creating + 1 }

abbrev pub handed {ℓ} : {B : Type ℓ} → Option B → List B → List B
handed none bs = bs
handed (some b) bs = b ∷ bs

module _ {W B P C : Type 0} (io : Io W B P C) where
  abbrev pub entered : C → AcquireOpts → System W B P → System W B P
  entered ctx opts s =
      let r = acquire_section io ctx opts s.world (counted add_acquire_total s.pool) in
      settled r.2 (record s { world = r.0; pool = r.1 })

  -- A tick of `waitForInstance`.
  abbrev pub polled : C → BrowserType → System W B P → System W B P
  polled ctx t s =
      let r = reuse io ctx t (idle_of s.pool t) s.world s.pool in
      record s { world = r.0; pool = r.1; held = handed r.2 s.held }

  pub data Step (s u : System W B P) : Type 0 where
    outside : (w : W) → u ≡ record s { world = w } → Step s u
    registers : (x : P) → u ≡ record s { pool = register io x s.pool } → Step s u
    enters : (ctx : C) (opts : AcquireOpts) → u ≡ entered ctx opts s → Step s u
    polls : (ctx : C) (t : BrowserType) → u ≡ polled ctx t s → Step s u
    creates :
        (t : BrowserType) (b : B) (n : ℕ)
        → s.creating ≡ n + 1
        → u ≡ record s {
          creating = n;
          held = b ∷ s.held;
          pool = (create_section io t (ok b) s.pool).0;
        }
        → Step s u
    create_fails :
        (t : BrowserType) (e : Error) (n : ℕ)
        → s.creating ≡ n + 1
        → u ≡ record s { creating = n; pool = (create_section io t (err e) s.pool).0 }
        → Step s u
    gives_back :
        (b : B) (pre post : List B)
        → s.held ≡ pre ++ b ∷ post
        → s.pool.closed ≡ false
        → u ≡ record s {
          held = pre ++ post;
          returning = b ∷ s.returning;
          pool = counted add_release_total s.pool;
        }
        → Step s u
    gives_back_broken :
        (b : B) (pre post : List B)
        → s.held ≡ pre ++ b ∷ post
        → s.pool.closed ≡ false
        → u ≡ record s {
          world = (io.close s.world b).0;
          held = pre ++ post;
          broken = b ∷ s.broken;
          pool = counted add_release_total s.pool;
        }
        → Step s u
    gives_back_late :
        (b : B) (pre post : List B)
        → s.held ≡ pre ++ b ∷ post
        → s.pool.closed ≡ true
        → u ≡ record s { world = (io.close s.world b).0; held = pre ++ post; late = s.late + 1 }
        → Step s u
    keeps :
        (b : B) (pre post : List B) (p : Pool B P)
        → s.returning ≡ pre ++ b ∷ post
        → release_keep io s.world b s.pool ≡ finished p
        → u ≡ record s { returning = pre ++ post; pool = p }
        → Step s u
    drops :
        (b : B) (pre post : List B)
        → s.broken ≡ pre ++ b ∷ post
        → u ≡ record s { broken = pre ++ post; pool = release_drop s.pool }
        → Step s u
    evicts :
        u ≡ record s {
          world = (evict_idle io s.world s.pool).0;
          pool = (evict_idle io s.world s.pool).1;
        }
        → Step s u
    closes :
        s.pool.closed ≡ false
        → u ≡ record s { pool = record (s.pool) { closed = true; done = true } }
        → Step s u
    clears :
        s.pool.closed ≡ true
        → u ≡ record s {
          world = (close_section io s.world s.pool).0;
          pool = (close_section io s.world s.pool).1;
          shut = s.shut + count_idle s.pool;
        }
        → Step s u

  pub data Reach (s : System W B P) : System W B P → Type 0 where
    here : Reach s s
    next : {t u : System W B P} → Reach s t → Step t u → Reach s u
