-- ===== src/Fetcher/Analysis.antt =====
-- What `analyzeHTML` suggests (browser/fetcher.go).
use gox_browser.Prelude.{
  ◌&&◌, Bool, List, Option, [], any, arith, false, if◌then◌else◌, ltb, none, not, refl, some, true,
  ◌||◌, ℕ, ◌∷◌, ◌≡◌,
}
use gox_browser.Types.{BrowserType, DetectResult, type_rod_headless, type_surf}
use gox_browser.Prelude.Text.{Text, codes, contains}
use gox_browser.Fetcher.{
  analyze_html, estimate_text_length, has_framework, js_framework_signals, note_framework,
  note_minimal, note_noscript, note_text, suggest,
}
use gox_browser.Detector.{first_signal, to_lower}
use gox_browser.Prelude.Int.{pos, ◌+ℤ◌}

abbrev blank : DetectResult
blank = record { suggested_type = type_rod_headless; is_ssr = false; score = pos 0; signals = [] }

-- The outcome of the steps, from what they look at.
abbrev scored : Bool → Bool → Option Text → Bool → DetectResult
scored long noscript fw short = suggest (
    note_minimal (short && not (has_framework fw))
      (note_framework fw (note_noscript noscript (note_text long blank))))

abbrev surf_if : Bool → BrowserType
surf_if b = if b then type_surf else type_rod_headless

scored_lem :
    (long noscript : Bool) (fw : Option Text) (short : Bool)
    → (scored long noscript fw short).suggested_type
      ≡ surf_if (long && (not (has_framework fw) || noscript))
unfolding suggest note_minimal note_framework note_noscript note_text ◌+ℤ◌
scored_lem true true none true = refl
scored_lem true true none false = refl
scored_lem true true (some s) true = refl
scored_lem true true (some s) false = refl
scored_lem true false none true = refl
scored_lem true false none false = refl
scored_lem true false (some s) true = refl
scored_lem true false (some s) false = refl
scored_lem false true none true = refl
scored_lem false true none false = refl
scored_lem false true (some s) true = refl
scored_lem false true (some s) false = refl
scored_lem false false none true = refl
scored_lem false false none false = refl
scored_lem false false (some s) true = refl
scored_lem false false (some s) false = refl

scored_ssr :
    (long noscript : Bool) (fw : Option Text) (short : Bool)
    → (scored long noscript fw short).is_ssr ≡ long
unfolding suggest note_minimal note_framework note_noscript note_text
scored_ssr long noscript fw short = ground arith

has_framework_lem :
    (test : Text → Bool) (signals : List Text)
    → has_framework (first_signal test signals) ≡ any test signals
unfolding first_signal
has_framework_lem test [] = refl
has_framework_lem test (s ∷ signals) = ground (arith, has_framework_lem test signals)

-- `analyzeHTML` suggests surf exactly for a page with more than 500 code points of text that shows
-- no framework's signal or has a noscript tag, and the headless browser for every other page; it
-- reports server rendering exactly for more than 500 code points of text. The length and the signals
-- are those of the page in lower case.
pub analyze_html_suggests :
    (low : ℕ → ℕ) (html : Text)
    → (let lower = to_lower low html in
        let long = ltb 500 (estimate_text_length lower) in
        let noscript = contains lower (codes "<noscript") in
        let framework = any (contains lower) js_framework_signals in
        ((analyze_html low html).suggested_type ≡ surf_if (long && (not framework || noscript)))
        × ((analyze_html low html).is_ssr ≡ long))
unfolding analyze_html
analyze_html_suggests low html =
    let lower = to_lower low html in
    let long = ltb 500 (estimate_text_length lower) in
    let short = ltb (estimate_text_length lower) 100 in
    let noscript = contains lower (codes "<noscript") in
    let framework = first_signal (contains lower) js_framework_signals in
    let type_ok : (analyze_html low html).suggested_type
        ≡ surf_if (long && (not (any (contains lower) js_framework_signals) || noscript)) =
      rw (← has_framework_lem (contains lower) js_framework_signals)
        (scored_lem long noscript framework short) in
    (type_ok, scored_ssr long noscript framework short)
