-- ===== src/Fetch/Attempts.antt =====
-- What `FetchWithFallback` reports of its attempts (browser/pool.go).
use gox_browser.Types.{BlockResult, BrowserType, opts_of}
use gox_browser.Fetch.{
  FetchAttempt, Round, Tried, retry, try_fetch, won, round_rest, settle, FetchResult, after_release,
  fetch_loop, empty_result, fetch_with_fallback,
}
use gox_browser.Io.{Io}
use gox_browser.Prelude.{
  List, [], arith, false, none, true, ℕ, ◌∷◌, ◌≡◌, ◌≢◌, ◌⊎◌, ◌++◌, All, Option, append_assoc, inl,
  refl, some, append-nil, suc, sym, ◌∙◌,
}
use gox_browser.Prelude.Text.{Text}
use gox_browser.Pool.{Outcome, Pool, finished, panicked, waiting, Gives, Wake, Gives-map, counted}
use gox_browser.Errors.{Result, err, ok, Error, all_blocked, is}
use gox_browser.Pool.Acquire.{acquire}
use gox_browser.Metrics.{add_fetch_total}

-- An attempt that did not end the loop, and one that did.
abbrev pub Failed : FetchAttempt → Type 0
Failed a = (a.error ≢ none) ⊎ (a.blocked ≡ true)

abbrev pub Clean : FetchAttempt → Type 0
Clean a = (a.error ≡ none) × (a.blocked ≡ false)

abbrev pub kinds : List FetchAttempt → List BrowserType
kinds [] = []
kinds (a ∷ as') = a.kind ∷ kinds as'

module _ {W B P C : Type 0} (io : Io W B P C) (detect : Text → Text → ℕ → BlockResult) (ctx : C)
    (url : Text) where
  abbrev pub IsRound : BrowserType → Round → Type 0
  IsRound t (retry a) = (a.kind ≡ t) × Failed a
  IsRound t (won a html title) = (a.kind ≡ t) × Clean a × ((detect html title 0).blocked ≡ false)

  abbrev IsTried : BrowserType → Tried → Type 0
  IsTried t r =
      (r.attempt.kind ≡ t)
      × ((r.attempt.error ≢ none)
          ⊎ ((r.attempt.error ≡ none)
              × (r.attempt.blocked ≡ r.is_blocked)
              × ((detect r.page r.heading 0).blocked ≡ r.is_blocked)))

  try_fetch-IsTried :
      (b : B) (a : FetchAttempt) (w : W)
      → Clean a
      → IsTried a.kind (try_fetch io detect ctx url b a w).1
  unfolding try_fetch
  try_fetch-IsTried b a w c = ground arith

  settle-IsRound :
      (t : BrowserType) (r : Tried) (p : Pool B P) → IsTried t r → IsRound t (settle t r p).1
  unfolding settle
  settle-IsRound t r p h = ground arith

  after_release-IsRound :
      (t : BrowserType) (r : Tried) (o : Outcome (W × Pool B P × Option Error))
      → IsTried t r
      → Gives (λ x. IsRound t x.2) (after_release t r o)
  unfolding after_release
  after_release-IsRound t r waiting h = tt
  after_release-IsRound t r panicked h = tt
  after_release-IsRound t r (finished (w, p, e)) h = settle-IsRound t r p h

  round_rest-IsRound :
      (t : BrowserType) (started : ℕ) (o : Outcome (W × Pool B P × Result B))
      → Gives (λ x. IsRound t x.2) (round_rest io detect ctx url t started o)
  unfolding round_rest
  round_rest-IsRound t started waiting = tt
  round_rest-IsRound t started panicked = tt
  round_rest-IsRound t started (finished (w, p, err e)) = (refl, inl (λ h. cc h))
  round_rest-IsRound t started (finished (w, p, ok b)) =
      let blank : FetchAttempt = record {
        kind = t;
        duration = 0;
        blocked = false;
        reason = [];
        error = none;
      } in
      after_release-IsRound t _ _ (try_fetch-IsTried b blank w (refl, refl))

  -- The attempts that a loop adds to those before it, and how they fit its result: on success a
  -- type of the chain won, each type before it was tried in order and failed or was blocked, and the
  -- detector passes the page; on an error every type of the chain was tried in vain, and
  -- `errors.Is` finds the error for that.
  abbrev pub Report : List BrowserType → List FetchAttempt → FetchResult × Option Error → Type 0
  Report chain before (result, none) =
      (lost : List FetchAttempt) × (last : FetchAttempt) × (later : List BrowserType)
      × (result.attempts ≡ before ++ (lost ++ last ∷ []))
      × (chain ≡ kinds lost ++ result.final_type ∷ later)
      × All Failed lost
      × (last.kind ≡ result.final_type)
      × Clean last
      × ((detect result.html result.title 0).blocked ≡ false)
  Report chain before (result, some e) =
      (lost : List FetchAttempt) × (result.attempts ≡ before ++ lost)
      × (chain ≡ kinds lost)
      × All Failed lost
      × (is e all_blocked ≡ true)

  later_round :
      (t : BrowserType) (chain : List BrowserType) (before : List FetchAttempt) (a : FetchAttempt)
      (r : FetchResult × Option Error)
      → (a.kind ≡ t) × Failed a
      → Report chain (before ++ a ∷ []) r
      → Report (t ∷ chain) before r
  later_round t chain before a (result, none) (k, f) (lost, last, later, e, c, all, l, g, h) = (
    a ∷ lost,
    last,
    later,
    e ∙ append_assoc before (a ∷ []) (lost ++ last ∷ []),
    cc (k, c),
    (f, all),
    l,
    g,
    h,
  )
  later_round t chain before a (result, some error) (k, f) (lost, e, c, all, m) =
      (a ∷ lost, e ∙ append_assoc before (a ∷ []) lost, cc (k, c), (f, all), m)

  module _ (wakes : ℕ → List (Wake W (Pool B P))) (start : ℕ) where
    abbrev Reported : List BrowserType → List FetchAttempt → ℕ → FetchResult → W → Pool B P → Type 0
    Reported chain before i result w p =
        Gives (λ x. Report chain before (x.2, x.3))
          (fetch_loop io detect ctx url wakes start i chain result w p)

    first_round :
        (i : ℕ) (t : BrowserType) (chain : List BrowserType) (result : FetchResult) (w : W)
        (p : Pool B P) (o : Outcome (W × Pool B P × Round))
        → round_rest io detect ctx url t (io.now w) (acquire io ctx (opts_of t) (wakes i) w p) ≡ o
        → Gives (λ x. IsRound t x.2) o
        → ((a : FetchAttempt) (w1 : W) (p1 : Pool B P)
            → Reported chain
                (result.attempts ++ a ∷ [])
                (suc i)
                (record result { attempts = result.attempts ++ a ∷ [] })
                w1
                p1)
        → Reported (t ∷ chain) result.attempts i result w p
    unfolding fetch_loop
    first_round i t chain result w p waiting e h ih = rw (e, fetch_loop) tt
    first_round i t chain result w p panicked e h ih = rw (e, fetch_loop) tt
    first_round i t chain result w p (finished (w1, p1, retry a)) e h ih =
        rw (e, fetch_loop)
          (Gives-map {A = W × Pool B P × FetchResult × Option Error}
            (λ x. Report chain (result.attempts ++ a ∷ []) (x.2, x.3))
            (λ x. Report (t ∷ chain) result.attempts (x.2, x.3)) _
            (λ x r. later_round t chain result.attempts a (x.2, x.3) h r) (ih a w1 p1))
    first_round i t chain result w p (finished (w1, p1, won a html title)) (e) (k, c, fine) ih =
        rw (e, fetch_loop) ([], a, chain, refl, refl, tt, k, c, fine)

    fetch_loop-Report :
        (i : ℕ) (chain : List BrowserType) (result : FetchResult) (w : W) (p : Pool B P)
        → Reported chain result.attempts i result w p
    unfolding fetch_loop is
    fetch_loop-Report i [] result w p = ([], sym (append-nil result.attempts), refl, tt, refl)
    fetch_loop-Report i (t ∷ chain) result w p =
        first_round i t chain result w p _ refl
          (round_rest-IsRound t (io.now w) (acquire io ctx (opts_of t) (wakes i) w p))
          (λ a w1 p1.
            fetch_loop-Report (suc i) chain (record result { attempts = result.attempts ++ a ∷ [] })
              w1 p1)

  -- A fetch reports its attempts truly. If it succeeds, the chain is the types of the lost attempts,
  -- in their order, then the type that won, then types that were never tried; each lost attempt has
  -- an error or was blocked, the last one has neither, and the detector passes the returned page.
  -- If it fails, the attempts are those of the whole chain in its order, each with an error or
  -- blocked, and the error is one for which `errors.Is` finds `ErrAllBlocked`.
  pub fetch-Report :
      (wakes : ℕ → List (Wake W (Pool B P))) (chain : List BrowserType) (w : W) (p : Pool B P)
      (v : W) (q : Pool B P) (result : FetchResult) (e : Option Error)
      → fetch_with_fallback io detect ctx url wakes chain w p ≡ finished (v, q, result, e)
      → Report chain [] (result, e)
  unfolding fetch_with_fallback
  fetch-Report wakes chain w p v q result e h =
      rw h at
        (fetch_loop-Report wakes (io.now w) 0 chain empty_result w (counted add_fetch_total p))
