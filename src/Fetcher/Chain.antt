-- ===== src/Fetcher/Chain.antt =====
-- Which types a fetch tries (browser/fetcher.go).
use mathlib.Core.List.{Memᴰ}
use gox_browser.Fetcher.{
  Fetcher, FetcherOption, apply_options, new_fetcher, valid_types, build_chain, default_fetcher,
}
use gox_browser.Prelude.{
  All, Bool-cases, List, [], inl, inr, none, refl, subst, true, ◌∷◌, ◌≡◌, Bool, false,
  if◌then◌else◌,
}
use gox_browser.Types.{BrowserType}
use gox_browser.Pool.{Pool, has_provider}
use gox_browser.Errors.{err, ok, Error}

-- The pool has a provider of the type.
abbrev pub IsServed : {B P : Type 0} → Pool B P → BrowserType → Type 0
IsServed p t = has_provider p t ≡ true

-- What a chain over a pool keeps of the types asked for.
abbrev pub IsChainOf : {B P : Type 0} → Pool B P → Fetcher → Fetcher → Type 0
IsChainOf p asked f =
    All (IsServed p) (build_chain f none)
    × (f.primary ≡ asked.primary)
    × ((t : BrowserType) → IsServed p t → Memᴰ t asked.fallback → Memᴰ t (build_chain f none))

module _ {B P : Type 0} (p : Pool B P) where
  valid_types-All : (ts : List BrowserType) → All (IsServed p) (valid_types p ts)
  unfolding valid_types
  valid_types-All [] = tt
  valid_types-All (t ∷ ts) = elim (Bool-cases (has_provider p t)) [
    | inl y ↦ rw y (y, valid_types-All ts)
    | inr n ↦ rw n (valid_types-All ts)
  ]

  Mem-valid_types :
      (ts : List BrowserType) (t : BrowserType)
      → IsServed p t
      → Memᴰ t ts
      → Memᴰ t (valid_types p ts)
  unfolding valid_types
  Mem-valid_types [] t h m = elim m [ ]
  Mem-valid_types (u ∷ ts) t h (Memᴰ.head e) = rw (← e, h) (Memᴰ.head refl)
  Mem-valid_types (u ∷ ts) t h (Memᴰ.tail m) = elim (Bool-cases (has_provider p u)) [
    | inl y ↦ rw y (Memᴰ.tail (Mem-valid_types ts t h m))
    | inr n ↦ rw n (Mem-valid_types ts t h m)
  ]

  checked :
      (f : Fetcher)
      → IsServed p f.primary
      → IsChainOf p f (record f { fallback = valid_types p f.fallback })
  unfolding build_chain
  checked f h =
      ((h, valid_types-All f.fallback), refl, λ t s m. Memᴰ.tail (Mem-valid_types f.fallback t s m))

  ok_if :
      (b : Bool) (a f : Fetcher) (e : Error)
      → (if b then ok a else err e) ≡ ok f
      → (b ≡ true) × (a ≡ f)
  ok_if true a f e h = (refl, cc)
  ok_if false a f e h = cc

  -- When `NewFetcher` succeeds, the pool has a provider of every type that a fetch without options
  -- tries, the first of them is the primary type that the options give, and every fallback of the
  -- options with a provider is among them.
  pub new_fetcher_chain :
      (opts : List FetcherOption) (f : Fetcher)
      → new_fetcher p opts ≡ ok f
      → IsChainOf p (apply_options opts default_fetcher) f
  unfolding new_fetcher
  new_fetcher_chain opts f h =
      let asked = apply_options opts default_fetcher in
      let (y, e) = ok_if (has_provider p asked.primary) _ f _ h in
      subst (IsChainOf p asked) e (checked asked y)
