-- ===== src/Examples/PageRuns.antt =====
-- Examples for the detector, the errors and the fetcher.
use gox_browser.Prelude.{List, [], false, refl, some, true, ℕ, ◌↔◌, ◌∷◌, ◌≡◌, ltb, map, ◌⊎◌}
use mathlib.Core.List.Memᴰ
use gox_browser.Errors.{
  Error, connection_error_patterns, is, is_connection_error, message, plain, unsupported,
}
use gox_browser.Fetcher.{
  FetcherOption, analyze_html, apply_options, count_text, default_fetcher, estimate_text_length,
  new_fetcher, valid_types, with_fallback,
}
use gox_browser.Errors.Laws.{is_connection_error_iff, wraps, wraps_keep}
use gox_browser.Fetcher.Chain.{IsChainOf, new_fetcher_chain}
use gox_browser.Pool.{Pool}
use gox_browser.Fetcher.Analysis.{analyze_html_suggests}
use gox_browser.Prelude.Text.{codes, contains, has_prefix, len, trim_space}
use gox_browser.Detector.{detect, waf_title_signals}
use gox_browser.Detector.Laws.{detect_iff, page_signals}
use gox_browser.Prelude.Strings.{Holds}
use gox_browser.Examples.{fresh_pool, long_page}
use gox_browser.Types.{type_camoufox, type_rod_headless, type_surf}

abbrev plain_low : ℕ → ℕ
plain_low c = c

abbrev served : Pool ℕ ℕ
served = record fresh_pool { providers = (type_rod_headless, 0) ∷ (type_surf, 3) ∷ [] }

abbrev served_opts : List FetcherOption
served_opts = with_fallback (type_camoufox ∷ type_surf ∷ []) ∷ []

new_fetcher_chain_example :
    IsChainOf served
      (apply_options served_opts default_fetcher)
      (record { primary = type_rod_headless; fallback = type_surf ∷ [] })
unfolding new_fetcher valid_types
new_fetcher_chain_example =
    new_fetcher_chain served served_opts
      (record { primary = type_rod_headless; fallback = type_surf ∷ [] }) refl

analyze_html_suggests_example :
    ((analyze_html plain_low long_page).suggested_type ≡ type_rod_headless)
    × ((analyze_html plain_low long_page).is_ssr ≡ false)
unfolding estimate_text_length count_text contains has_prefix
analyze_html_suggests_example = analyze_html_suggests plain_low long_page

detect_iff_example : ((detect plain_low long_page (codes "blocked") 200).blocked ≡ true) ↔ (
    (ltb (len (trim_space long_page)) 100 ≡ true)
    ⊎ (Holds (map plain_low long_page) page_signals
        ⊎ (Holds (codes "blocked") page_signals ⊎ Holds (codes "blocked") waf_title_signals)))
detect_iff_example = detect_iff plain_low long_page (codes "blocked") 200

abbrev pipe_error : Error
pipe_error = plain (codes "broken pipe")

is_connection_error_iff_example :
    (is_connection_error (some (wraps (codes "browser: get html" ∷ []) pipe_error)) ≡ true)
    ↔ Holds (codes "browser: get html: broken pipe") connection_error_patterns
unfolding message
is_connection_error_iff_example =
    is_connection_error_iff (codes "browser: get html" ∷ []) pipe_error

wraps_keep_example :
    (is_connection_error (some pipe_error) ≡ true
      → is_connection_error (some (wraps (codes "browser: get html" ∷ []) pipe_error)) ≡ true)
    × (is (wraps (codes "browser: get html" ∷ []) pipe_error) unsupported ≡ false)
unfolding is
wraps_keep_example = wraps_keep (codes "browser: get html" ∷ []) pipe_error unsupported
