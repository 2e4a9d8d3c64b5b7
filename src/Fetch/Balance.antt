-- ===== src/Fetch/Balance.antt =====
-- `FetchWithFallback` on an open pool returns, and gives back every browser that it took
-- (browser/pool.go).
use gox_browser.Pool.Balance.{Acquired, IsCalm, IsOpen, acquire-Ends, release-Ends}
use gox_browser.Types.{BlockResult, BrowserType, opts_of}
use gox_browser.Prelude.{
  Bool-cases, List, Option, Option-cases, [], inl, inr, refl, suc, zero, ℕ, ◌∙◌, ◌∷◌, ◌≡◌, ap,
}
use gox_browser.Pool.{
  Ends, Outcome, Pool, Wake, finished, panicked, waiting, Ends-finished, Ends-map, counted,
}
use gox_browser.Errors.{Error, Result, err, ok}
use gox_browser.Fetch.{
  FetchResult, Round, Tried, after_release, fetch_loop, fetch_with_fallback, retry, round_rest,
  settle, won, empty_result,
}
use gox_browser.Io.{Io}
use gox_browser.Prelude.Text.{Text}
use gox_browser.Pool.Acquire.{acquire}
use gox_browser.Prelude.Int.{ℤ, dec, dec-inc}
use gox_browser.Metrics.{add_fetch_total}

abbrev IsSettled : {W B P A : Type 0} → ℤ → W × Pool B P × A → Type 0
IsSettled i x = IsOpen x.1 × (x.1.in_use ≡ i)

settle-keeps :
    {B P : Type 0} (t : BrowserType) (r : Tried) (p : Pool B P)
    → IsOpen p
    → IsOpen (settle t r p).0 × ((settle t r p).0.in_use ≡ p.in_use)
unfolding settle
settle-keeps t r p o = elim (Option-cases r.attempt.error) [
  | inr (e, some_e) ↦ rw (some_e, settle) (o, refl)
  | inl clean ↦ elim (Bool-cases r.is_blocked) [
    | inl blocked ↦ rw (clean, settle, blocked) (o, refl)
    | inr fine ↦ rw (clean, settle, fine) (o, refl)
  ]
]

after_release-Ends :
    {W B P : Type 0} (t : BrowserType) (r : Tried) (o : Outcome (W × Pool B P × Option Error))
    (i : ℤ)
    → Ends (λ x. IsOpen x.1 × (x.1.in_use ≡ i)) o
    → Ends (IsSettled i) (after_release t r o)
unfolding after_release
after_release-Ends t r waiting i h = h
after_release-Ends t r panicked i h = h
after_release-Ends t r (finished (w, p, e)) i (o, u) =
    let (o1, u1) = settle-keeps t r p o in (o1, u1 ∙ u)

module _ {W B P C : Type 0} (io : Io W B P C) (detect : Text → Text → ℕ → BlockResult) (ctx : C)
    (url : Text) where
  round_rest-Ends :
      (t : BrowserType) (started : ℕ) (o : Outcome (W × Pool B P × Result B)) (i : ℤ)
      → Ends (Acquired io i) o
      → Ends (IsSettled i) (round_rest io detect ctx url t started o)
  unfolding round_rest
  round_rest-Ends t started waiting i h = h
  round_rest-Ends t started panicked i h = h
  round_rest-Ends t started (finished (w, p, err e)) i h = h
  round_rest-Ends t started (finished (w, p, ok b)) i (o, u) = after_release-Ends t _ _ i (
      Ends-map (λ x. IsOpen x.1 × (x.1.in_use ≡ dec p.in_use)) (λ x. IsOpen x.1 × (x.1.in_use ≡ i))
        _ (λ x s. (s.0, s.1 ∙ ap dec u ∙ dec-inc i)) (release-Ends io b _ _ p o))

  abbrev Fetched : ℤ → W × Pool B P × FetchResult × Option Error → Type 0
  Fetched i x = IsOpen x.1 × (x.1.in_use ≡ i)

  module _ (wakes : ℕ → List (Wake W (Pool B P))) (start : ℕ) where
    first_round :
        (i : ℕ) (t : BrowserType) (chain : List BrowserType) (result : FetchResult) (w : W)
        (p : Pool B P) (o : Outcome (W × Pool B P × Round))
        → round_rest io detect ctx url t (io.now w) (acquire io ctx (opts_of t) (wakes i) w p) ≡ o
        → Ends (IsSettled p.in_use) o
        → ((result : FetchResult) (w1 : W) (p1 : Pool B P)
            → IsOpen p1
            → Ends
                (Fetched p1.in_use)
                (fetch_loop io detect ctx url wakes start (suc i) chain result w1 p1))
        → Ends
            (Fetched p.in_use)
            (fetch_loop io detect ctx url wakes start i (t ∷ chain) result w p)
    unfolding fetch_loop
    first_round i t chain result w p waiting e h ih = absurd h
    first_round i t chain result w p panicked e h ih = absurd h
    first_round i t chain result w p (finished (w1, p1, retry a)) e (o, u) ih =
        rw (e, fetch_loop, ← u) (ih _ w1 p1 o)
    first_round zero t chain result w p (finished (w1, p1, won a html title)) e (o, u) ih =
        rw (e, fetch_loop) (o, u)
    first_round (suc i) t chain result w p (finished (w1, p1, won a html title)) e (o, u) ih =
        rw (e, fetch_loop) (o, u)

    fetch_loop-Ends :
        (i : ℕ) (chain : List BrowserType) (result : FetchResult) (w : W) (p : Pool B P)
        → ((k : ℕ) → IsCalm (wakes k))
        → IsOpen p
        → Ends (Fetched p.in_use) (fetch_loop io detect ctx url wakes start i chain result w p)
    unfolding fetch_loop
    fetch_loop-Ends i [] result w p calm o = (o, refl)
    fetch_loop-Ends i (t ∷ chain) result w p calm o =
        first_round i t chain result w p _ refl
          (round_rest-Ends t (io.now w) _ p.in_use
            (acquire-Ends io ctx (opts_of t) (wakes i) w p (calm i) o))
          (λ r w1 p1 o1. fetch_loop-Ends (suc i) chain r w1 p1 calm o1)

  -- A fetch through an open pool returns, with a page or with an error, whatever the browsers do,
  -- if each wait for an instance is cancelled some day and the other goroutines leave the pool open
  -- and the number of browsers in use as it was. It leaves the pool open with as many browsers in
  -- use as before: on every path each browser that it took is given back.
  pub fetch_returns :
      (wakes : ℕ → List (Wake W (Pool B P))) (chain : List BrowserType) (w : W) (p : Pool B P)
      → ((k : ℕ) → IsCalm (wakes k))
      → IsOpen p
      → (x : W × Pool B P × FetchResult × Option Error) × (fetch_with_fallback io detect ctx url
            wakes chain w p
          ≡ finished x)
        × IsOpen x.1
        × (x.1.in_use ≡ p.in_use)
  unfolding fetch_with_fallback
  fetch_returns wakes chain w p calm o =
      let x =
        Ends-finished (Fetched p.in_use) (fetch_with_fallback io detect ctx url wakes chain w p) (
          fetch_loop-Ends wakes (io.now w) 0 chain empty_result w (counted add_fetch_total p) calm
            o) in
      (x.0, x.1, x.2.0, x.2.1)
