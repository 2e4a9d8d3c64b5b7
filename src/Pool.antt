-- ===== src/Pool.antt =====
-- browser/pool.go: the pool's state and its operations, without `FetchWithFallback` (Fetch). What runs
-- under the mutex is one function here; Pool/Steps interleaves those functions. The list of a type's idle
-- instances has the back of the Go slice at its head.
pub mod Acquire
pub mod Release
pub mod Evict
mod Count
pub mod Tallies
pub mod Steps
pub mod Reuse
pub mod Eviction
pub mod Closing
pub mod Balance
pub mod Waiting
pub mod Accounts
use gox_browser.Prelude.Int.{ℤ, pos, inc, dec, sub_ℕ, ltb_ℤ, leb_ℤ}
use gox_browser.Metrics.{add_evict_total, Metrics, add_acquire_fail, add_release_total, new_metrics}
use gox_browser.Types.{PoolConfig, BrowserType, PoolStats, AcquireOpts, default_pool_config}
use gox_browser.Prelude.{
  ℕ, List, Option, none, insert, [], Bool, ◌∷◌, length, lookup, false, ◌+◌, if◌then◌else◌, some,
  true, map, inl, inr, refl, ◌≡◌, ◌⊎◌,
}
use gox_browser.Io.{Io}
use gox_browser.Errors.{Result, Error, err, wrap}
use gox_browser.Prelude.Text.{codes}

pub record Entry (B : Type 0) : Type 0 where
  pub browser : B
  pub last_used : ℕ

-- `instances` is `none` for the nil map that `Close` leaves; `done` tells that the channel is closed.
pub record Pool (B P : Type 0) : Type 0 where
  pub cfg : PoolConfig
  pub providers : List (BrowserType × P)
  pub instances : Option (List (BrowserType × List (Entry B)))
  pub in_use : ℤ
  pub total : ℤ
  pub closed : Bool
  pub done : Bool
  pub metrics : Metrics

-- How a call ends: it returns, it still waits when the schedule given to it is over, or it panics.
pub data Outcome {ℓ} (A : Type ℓ) : Type ℓ where
  finished : A → Outcome A
  waiting : Outcome A
  panicked : Outcome A

-- What a call gives, if it returns.
abbrev pub Gives {ℓ κ} : {A : Type ℓ} → (A → Type κ) → Outcome A → Type κ
Gives Q (finished a) = Q a
Gives Q waiting = Unit
Gives Q panicked = Unit

-- A call returns, and gives this.
abbrev pub Ends {ℓ} : {A : Type ℓ} → (A → Type 0) → Outcome A → Type 0
Ends Q (finished a) = Q a
Ends Q waiting = ⊥
Ends Q panicked = ⊥

pub Ends-map {ℓ} :
    {A : Type ℓ} (Q R : A → Type 0) (o : Outcome A) → ((a : A) → Q a → R a) → Ends Q o → Ends R o
Ends-map Q R (finished a) f h = f a h
Ends-map Q R waiting f h = h
Ends-map Q R panicked f h = h

-- A call that returns is at its result.
pub Ends-finished {ℓ} :
    {A : Type ℓ} (Q : A → Type 0) (o : Outcome A) → Ends Q o → (a : A) × (o ≡ finished a) × Q a
Ends-finished Q (finished a) h = (a, refl, h)
Ends-finished Q waiting h = absurd h
Ends-finished Q panicked h = absurd h

pub Gives-map {ℓ κ} :
    {A : Type ℓ} (Q R : A → Type κ) (o : Outcome A) → ((a : A) → Q a → R a) → Gives Q o → Gives R o
Gives-map Q R (finished a) f h = f a h
Gives-map Q R waiting f h = tt
Gives-map Q R panicked f h = tt

pub Outcome-cases {ℓ} :
    {A : Type ℓ} (o : Outcome A) → ((a : A) × (o ≡ finished a)) ⊎ ((o ≡ waiting) ⊎ (o ≡ panicked))
Outcome-cases (finished a) = inl (a, refl)
Outcome-cases waiting = inr (inl refl)
Outcome-cases panicked = inr (inr refl)

-- What a waiting goroutine is woken by: its context, or the ticker. Before a tick the other
-- goroutines have changed the state in some way.
pub data Wake (W Q : Type 0) : Type 0 where
  cancelled : Wake W Q
  tick : (W → Q → W × Q) → Wake W Q

-- What the locked section of `Acquire` decides.
pub data Section (B P : Type 0) : Type 0 where
  no_provider : Section B P
  reused : B → Section B P
  must_wait : Section B P
  must_create : P → Section B P

-- `NewPool`.
unfoldable pub new_pool : {B P : Type 0} → PoolConfig → Pool B P
new_pool cfg = record {
  cfg =
      if leb_ℤ cfg.ping_timeout (pos 0)
      then record cfg { ping_timeout = default_pool_config.ping_timeout }
      else cfg;
  providers = [];
  instances = some [];
  in_use = pos 0;
  total = pos 0;
  closed = false;
  done = false;
  metrics = new_metrics;
}

abbrev pub or_nil {ℓ} : {A : Type ℓ} → Option (List A) → List A
or_nil none = []
or_nil (some xs) = xs

abbrev pub count_entries : {B : Type 0} → List (BrowserType × List (Entry B)) → ℕ
count_entries [] = 0
count_entries ((t, entries) ∷ m) = length entries + count_entries m

module _ {B P : Type 0} where
  -- `p.instances[t]`.
  abbrev pub idle_of : Pool B P → BrowserType → List (Entry B)
  idle_of p t = elim p.instances [ none ↦ [] | some m ↦ or_nil (lookup t m) ]

  -- `p.instances[t] = entries`, where the map is known to be there.
  abbrev pub set_idle : BrowserType → List (Entry B) → Pool B P → Pool B P
  set_idle t entries p = record p {
    instances = elim p.instances [ none ↦ none | some m ↦ some (insert t entries m) ];
  }

  abbrev pub counted : (Metrics → Metrics) → Pool B P → Pool B P
  counted f p = record p { metrics = f p.metrics }

  -- The bookkeeping for an idle instance that is thrown away.
  abbrev pub discard : Pool B P → Pool B P
  discard p = record p { total = dec p.total; metrics = add_evict_total p.metrics }

  abbrev pub has_provider : Pool B P → BrowserType → Bool
  has_provider p t = elim (lookup t p.providers) [ none ↦ false | some x ↦ true ]

  abbrev pub count_idle : Pool B P → ℕ
  count_idle p = elim p.instances [ none ↦ 0 | some m ↦ count_entries m ]

  unfoldable pub stats : Pool B P → PoolStats
  stats p = record {
    total = p.total;
    available = count_idle p;
    in_use = p.in_use;
    by_type = elim p.instances [ none ↦ [] | some m ↦ map (λ e. (e.0, length e.1)) m ];
  }

module _ {W B P C : Type 0} (io : Io W B P C) where
  unfoldable pub register : P → Pool B P → Pool B P
  register x p = record p { providers = insert (io.provider_type x) x p.providers }
