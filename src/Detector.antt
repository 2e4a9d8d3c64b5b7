-- ===== src/Detector.antt =====
-- browser/detector.go: the block detector and `CheckWAF`. `lower` is the mapping of one code point
-- that `strings.ToLower` applies; its table is that of the Go library.
pub mod Laws
use gox_browser.Prelude.{
  ℕ, ◌*◌, ◌++◌, Bool, List, Option, [], if◌then◌else◌, ltb, map, none, some, true, ◌||◌, ◌∷◌,
}
use gox_browser.Types.{BlockResult, not_blocked, second}
use gox_browser.Errors.{Error, waf}
use gox_browser.Io.{Io}
use gox_browser.Prelude.Text.{Text, codes, contains, len, trim_space}
use gox_browser.Prelude.Int.{pos, ℤ}

abbrev pub cf_signals : List Text
cf_signals =
    codes "just a moment"
    ∷ codes "checking your browser"
    ∷ codes "cf-browser-verification"
    ∷ codes "cf_chl_opt"
    ∷ codes "ray id"
    ∷ codes "turnstile"
    ∷ codes "attention required"
    ∷ []

abbrev pub akamai_signals : List Text
akamai_signals = codes "access denied" ∷ codes "reference #" ∷ codes "akamai" ∷ []

abbrev pub waf_title_signals : List Text
waf_title_signals =
    codes "captcha"
    ∷ codes "are you a robot"
    ∷ codes "bot detection"
    ∷ codes "please verify you are a human"
    ∷ codes "access denied"
    ∷ codes "blocked"
    ∷ codes "forbidden"
    ∷ codes "security check"
    ∷ []

-- The first of the signals that passes a test.
unfoldable pub first_signal : (Text → Bool) → List Text → Option Text
first_signal test [] = none
first_signal test (s ∷ signals) = if test s then some s else first_signal test signals

-- The tests of `Detect` in their order: a short page, then the first signal of each kind.
unfoldable pub verdict : Bool → Option Text → Option Text → Option Text → BlockResult
verdict short cf akamai title =
    if short
    then record {
      blocked = true;
      reason = codes "response body too short";
      kind = codes "empty_response";
    }
    else elim cf [
      | some s ↦ record {
        blocked = true;
        reason = codes "cloudflare detected: " ++ s;
        kind = codes "cloudflare";
      }
      | none ↦ elim akamai [
        | some s ↦ record {
          blocked = true;
          reason = codes "akamai detected: " ++ s;
          kind = codes "akamai";
        }
        | none ↦ elim title [
          | some s ↦ record {
            blocked = true;
            reason = codes "waf detected in title: " ++ s;
            kind = codes "generic_waf";
          }
          | none ↦ not_blocked
        ]
      ]
    ]

module _ (lower : ℕ → ℕ) where
  -- `strings.ToLower`.
  abbrev pub to_lower : Text → Text
  to_lower = map lower

  -- `DefaultBlockDetector.Detect`; it does not look at the status code.
  unfoldable pub detect : Text → Text → ℕ → BlockResult
  unfolding first_signal verdict
  detect html title status =
      let page = to_lower html in
      let heading = to_lower title in
      verdict (ltb (len (trim_space html)) 100)
        (first_signal (λ s. contains page s || contains heading s) cf_signals)
        (first_signal (λ s. contains page s || contains heading s) akamai_signals)
        (first_signal (contains heading) waf_title_signals)

abbrev pub check_waf_timeout : ℤ
check_waf_timeout = pos (10 * second)

-- `CheckWAF`: the page's text is taken by `Eval`, and errors of `Eval`, `Title` and `URL` are dropped.
unfoldable pub check_waf :
    {W B P C : Type 0} → Io W B P C → (Text → Text → ℕ → BlockResult) → C → B → W → W × Option Error
check_waf io detector ctx b w =
    let waf_ctx = io.with_timeout ctx check_waf_timeout in
    let page = io.eval w waf_ctx b (codes "() => document.documentElement.outerHTML") in
    let heading = io.title page.0 waf_ctx b in
    let verdict = detector page.1 heading.1 0 in
    let address = io.url heading.0 ctx b in
    elim page.2 [
      | some e ↦ (page.0, none)
      | none ↦
          if verdict.blocked then (address.0, some (waf verdict address.1)) else (heading.0, none)
    ]
