-- ===== src/Fetcher.antt =====
-- browser/fetcher.go: the fetcher over a pool, and the probe of a page's type. `Detect` is in Probe;
-- `analyze_html` is what it does with the body.
pub mod Chain
pub mod Analysis
pub mod Probe
use gox_browser.Prelude.{
  ℕ, ◌&&◌, ◌+◌, ◌++◌, ◌==◌, Bool, List, Option, [], false, if◌then◌else◌, ltb, none, not, some,
  true, ◌||◌, ◌∷◌,
}
use gox_browser.Prelude.Int.{◌+ℤ◌, leb_ℤ, negsuc, pos}
use gox_browser.Types.{
  BlockResult, BrowserType, DetectResult, type_name, type_rod_headless, type_surf,
}
use gox_browser.Errors.{Error, Result, err, ok, plain}
use gox_browser.Fetch.{FetchResult, fetch_with_fallback}
use gox_browser.Io.{Io}
use gox_browser.Pool.{Outcome, Pool, Wake, has_provider}
use gox_browser.Prelude.Text.{Text, codes, contains}
use gox_browser.Detector.{first_signal, to_lower}

pub record Fetcher : Type 0 where
  pub primary : BrowserType
  pub fallback : List BrowserType

pub data FetcherOption : Type 0 where
  with_primary : BrowserType → FetcherOption
  with_fallback : List BrowserType → FetcherOption

abbrev pub apply_option : FetcherOption → Fetcher → Fetcher
apply_option (with_primary t) f = record f { primary = t }
apply_option (with_fallback ts) f = record f { fallback = ts }

abbrev pub apply_options : List FetcherOption → Fetcher → Fetcher
apply_options [] f = f
apply_options (o ∷ opts) f = apply_options opts (apply_option o f)

-- The types of a list that the pool can serve.
unfoldable pub valid_types : {B P : Type 0} → Pool B P → List BrowserType → List BrowserType
valid_types p [] = []
valid_types p (t ∷ ts) = if has_provider p t then t ∷ valid_types p ts else valid_types p ts

abbrev pub default_fetcher : Fetcher
default_fetcher = record { primary = type_rod_headless; fallback = [] }

-- `NewFetcher`.
unfoldable pub new_fetcher : {B P : Type 0} → Pool B P → List FetcherOption → Result Fetcher
unfolding valid_types
new_fetcher p opts =
    let f = apply_options opts default_fetcher in
    if has_provider p f.primary
    then ok (record f { fallback = valid_types p f.fallback })
    else err (
        plain
          (codes "browser: primary provider " ++ type_name f.primary ++ codes " not registered"))

-- The options of one `Fetch`: each sets the provider of the call.
abbrev pub provider_override : List BrowserType → Option BrowserType → Option BrowserType
provider_override [] o = o
provider_override (t ∷ opts) o = provider_override opts (some t)

unfoldable pub build_chain : Fetcher → Option BrowserType → List BrowserType
build_chain f (some t) = t ∷ []
build_chain f none = f.primary ∷ f.fallback

unfoldable pub set_primary : BrowserType → Fetcher → Fetcher
set_primary t f = record f { primary = t }

-- `Fetch`.
unfoldable pub fetch :
    {W B P C : Type 0}
    → Io W B P C
    → (Text → Text → ℕ → BlockResult)
    → C
    → Text
    → (ℕ → List (Wake W (Pool B P)))
    → Fetcher
    → List BrowserType
    → W
    → Pool B P
    → Outcome (W × Pool B P × FetchResult × Option Error)
unfolding build_chain
fetch io detector ctx url wakes f opts w p =
    fetch_with_fallback io detector ctx url wakes (build_chain f (provider_override opts none)) w p

-- The loop of `estimateTextLength`: whether it is in a tag, and the count so far.
unfoldable pub count_text : Bool → ℕ → Text → ℕ
count_text in_tag n [] = n
count_text in_tag n (r ∷ html) =
    let opens = r == b'<' in
    let closes = r == b'>' in
    count_text (if opens then true else if closes then false else in_tag)
      (if opens || closes || in_tag || r == b'\n' || r == b'\r' || r == b'\t' then n else n + 1)
      html

unfoldable pub estimate_text_length : Text → ℕ
unfolding count_text
estimate_text_length html = count_text false 0 html

abbrev pub js_framework_signals : List Text
js_framework_signals =
    codes "__next_data__"
    ∷ codes "__nuxt"
    ∷ codes "window.__initial_state__"
    ∷ codes "react-root"
    ∷ codes "ng-app"
    ∷ codes "data-reactroot"
    ∷ []

-- The three steps of `analyzeHTML` that move the score, and the last one.
unfoldable pub note_text : Bool → DetectResult → DetectResult
note_text long r =
    if long
    then record r {
      signals = r.signals ++ codes "substantial_text_content" ∷ [];
      score = r.score +ℤ pos 30;
      is_ssr = true;
    }
    else r

unfoldable pub note_noscript : Bool → DetectResult → DetectResult
note_noscript found r =
    if found
    then record r { signals = r.signals ++ codes "noscript_tag" ∷ []; score = r.score +ℤ pos 10 }
    else r

unfoldable pub note_framework : Option Text → DetectResult → DetectResult
note_framework none r = r
note_framework (some s) r = record r {
  signals = r.signals ++ (codes "js_framework:" ++ s) ∷ [];
  score = r.score +ℤ negsuc 19;
}

unfoldable pub note_minimal : Bool → DetectResult → DetectResult
note_minimal found r =
    if found
    then record r {
      signals = r.signals ++ codes "minimal_content" ∷ [];
      score = r.score +ℤ negsuc 9;
    }
    else r

unfoldable pub suggest : DetectResult → DetectResult
suggest r = record r {
  suggested_type = if leb_ℤ (pos 20) r.score then type_surf else type_rod_headless;
}

abbrev pub has_framework : Option Text → Bool
has_framework none = false
has_framework (some s) = true

unfoldable pub analyze_html : (ℕ → ℕ) → Text → DetectResult
unfolding note_text note_noscript note_framework note_minimal suggest estimate_text_length
    first_signal
analyze_html low html =
    let lower = to_lower low html in
    let text_len = estimate_text_length lower in
    let framework = first_signal (contains lower) js_framework_signals in
    suggest (
      note_minimal (ltb text_len 100 && not (has_framework framework)) (
        note_framework framework (
          note_noscript (contains lower (codes "<noscript")) (
            note_text (ltb 500 text_len) (record {
              suggested_type = type_rod_headless;
              is_ssr = false;
              score = pos 0;
              signals = [];
            })))))
