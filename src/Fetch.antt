-- ===== src/Fetch.antt =====
-- browser/pool.go: `FetchWithFallback` and `tryFetch`. A detector is a function; the wake-ups that
-- the `i`-th `Acquire` gets if it has to wait are `wakes i`.
pub mod Attempts
pub mod Balance
use gox_browser.Prelude.{
  ℕ, ◌++◌, ◌-◌, Bool, List, Option, [], false, if◌then◌else◌, none, some, suc, true, zero, ◌∷◌,
}
use gox_browser.Types.{BlockResult, BrowserType, opts_of}
use gox_browser.Errors.{
  Error, Result, all_blocked, err, is, message, ok, sentinel, unsupported, wrap,
}
use gox_browser.Io.{Io}
use gox_browser.Metrics.{
  Metrics, add_fetch_all_fail, add_fetch_blocked, add_fetch_fallback, add_fetch_success,
  add_fetch_total, record_block_by_type, record_fetch_by_type, record_latency,
}
use gox_browser.Pool.{Outcome, Pool, Wake, counted, finished, panicked, waiting}
use gox_browser.Prelude.Text.{Text, codes}
use gox_browser.Pool.Acquire.{acquire}
use gox_browser.Pool.Release.{release}

pub record FetchAttempt : Type 0 where
  pub kind : BrowserType
  pub duration : ℕ
  pub blocked : Bool
  pub reason : Text
  pub error : Option Error

pub record FetchResult : Type 0 where
  pub html : Text
  pub title : Text
  pub final_type : BrowserType
  pub attempts : List FetchAttempt
  pub total_latency : ℕ

-- `&FetchResult{}`.
abbrev pub empty_result : FetchResult
empty_result = record { html = []; title = []; final_type = 0; attempts = []; total_latency = 0 }

-- What `tryFetch` returns, with the attempt that it fills in.
pub record Tried : Type 0 where
  pub page : Text
  pub heading : Text
  pub is_blocked : Bool
  pub attempt : FetchAttempt

-- One round of the loop ends with the next browser type to try, or with the page.
pub data Round : Type 0 where
  retry : FetchAttempt → Round
  won : FetchAttempt → Text → Text → Round

-- `attempt.Err` and `attempt.Reason` are set, and the function returns.
unfoldable pub failed : Text → Text → Error → FetchAttempt → Tried
failed html title e a = record {
  page = html;
  heading = title;
  is_blocked = false;
  attempt = record a { error = some e; reason = message e };
}

-- The end of `tryFetch`, with the verdict on the page.
unfoldable pub judged : BlockResult → Text → Text → FetchAttempt → Tried
judged verdict html title a =
    if verdict.blocked
    then record {
      page = html;
      heading = title;
      is_blocked = true;
      attempt = record a { blocked = true; reason = verdict.reason };
    }
    else record { page = html; heading = title; is_blocked = false; attempt = a }

-- An error of `Title` counts, but for the one of a browser that has no title.
abbrev pub title_error : Option Error → Option Error
title_error none = none
title_error (some e) = if is e unsupported then none else some e

-- The counters of a success in the `i`-th round.
abbrev pub count_success : ℕ → BrowserType → ℕ → Metrics → Metrics
count_success zero t latency m =
    record_latency latency (record_fetch_by_type t (add_fetch_success m))
count_success (suc i) t latency m =
    record_latency latency (record_fetch_by_type t (add_fetch_success (add_fetch_fallback m)))

module _ {B P : Type 0} where
  -- The counters of a round that reached a page.
  unfoldable pub settle : BrowserType → Tried → Pool B P → Pool B P × Round
  unfolding record_block_by_type
  settle t r p = elim r.attempt.error [
    | some e ↦ (p, retry r.attempt)
    | none ↦
        if r.is_blocked
        then (counted (λ m. record_block_by_type t (add_fetch_blocked m)) p, retry r.attempt)
        else (p, won r.attempt r.page r.heading)
  ]

module _ {W B P : Type 0} where
  unfoldable pub after_release :
      BrowserType → Tried → Outcome (W × Pool B P × Option Error) → Outcome (W × Pool B P × Round)
  unfolding settle
  after_release t r waiting = waiting
  after_release t r panicked = panicked
  after_release t r (finished (w, p, e)) = finished (w, (settle t r p).0, (settle t r p).1)

module _ {W B P C : Type 0} (io : Io W B P C) (detect : Text → Text → ℕ → BlockResult) (ctx : C)
    (url : Text) where
  unfoldable pub try_fetch : B → FetchAttempt → W → W × Tried
  unfolding failed judged
  try_fetch b a w =
      let nav = io.navigate w ctx b url in
      let stable = io.wait_stable nav.0 ctx b in
      let page = io.html stable.0 ctx b in
      let heading = io.title page.0 ctx b in
      elim nav.1 [
        | some e ↦ (nav.0, failed [] [] (wrap (codes "browser: navigate " ++ io.quote url) e) a)
        | none ↦ elim stable.1 [
          | some e ↦ (stable.0, failed [] [] (wrap (codes "browser: wait stable") e) a)
          | none ↦ elim page.2 [
            | some e ↦ (page.0, failed page.1 [] (wrap (codes "browser: get html") e) a)
            | none ↦ elim (title_error heading.2) [
              | some e ↦
                  (heading.0, failed page.1 heading.1 (wrap (codes "browser: get title") e) a)
              | none ↦ (heading.0, judged (detect page.1 heading.1 0) page.1 heading.1 a)
            ]
          ]
        ]
      ]

  -- The rest of a round once `Acquire` returned; `started` is its first reading of the clock.
  unfoldable pub round_rest :
      BrowserType → ℕ → Outcome (W × Pool B P × Result B) → Outcome (W × Pool B P × Round)
  unfolding try_fetch after_release
  round_rest t started waiting = waiting
  round_rest t started panicked = panicked
  round_rest t started (finished (w, p, err e)) = finished (
    w,
    p,
    retry (record {
      kind = t;
      duration = io.now w - started;
      blocked = false;
      reason = message e;
      error = some e;
    }),
  )
  round_rest t started (finished (w, p, ok b)) =
      let blank : FetchAttempt = record {
        kind = t;
        duration = 0;
        blocked = false;
        reason = [];
        error = none;
      } in
      let (w1, r) = try_fetch b blank w in
      let timed = record r { attempt = record (r.attempt) { duration = io.now w1 - started } } in
      after_release t timed (release io b r.attempt.error w1 p)

  unfoldable pub fetch_loop :
      (ℕ → List (Wake W (Pool B P)))
      → ℕ
      → ℕ
      → List BrowserType
      → FetchResult
      → W
      → Pool B P
      → Outcome (W × Pool B P × FetchResult × Option Error)
  fetch_loop wakes start i [] result w p = finished (
    w,
    counted add_fetch_all_fail p,
    record result { total_latency = io.now w - start },
    some (wrap (codes "browser: fetch " ++ io.quote url) (sentinel all_blocked)),
  )
  fetch_loop wakes start i (t ∷ chain) result w p =
      elim (round_rest t (io.now w) (acquire io ctx (opts_of t) (wakes i) w p)) [
        | waiting ↦ waiting
        | panicked ↦ panicked
        | finished (w1, p1, r) ↦ elim r [
          | retry a ↦
              fetch_loop wakes start (suc i) chain
                (record result { attempts = result.attempts ++ a ∷ [] }) w1 p1
          | won a html title ↦ finished (
            w1,
            counted (count_success i t (io.now w1 - start)) p1,
            record {
              html = html;
              title = title;
              final_type = t;
              attempts = result.attempts ++ a ∷ [];
              total_latency = io.now w1 - start;
            },
            none,
          )
        ]
      ]

  unfoldable pub fetch_with_fallback :
      (ℕ → List (Wake W (Pool B P)))
      → List BrowserType
      → W
      → Pool B P
      → Outcome (W × Pool B P × FetchResult × Option Error)
  fetch_with_fallback wakes chain w p =
      fetch_loop wakes (io.now w) 0 chain empty_result w (counted add_fetch_total p)
