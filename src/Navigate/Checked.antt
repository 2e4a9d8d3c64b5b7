-- ===== src/Navigate/Checked.antt =====
-- When a navigation succeeds (browser/navigate.go).
use gox_browser.Prelude.{
  ◌&&◌, Bool, Bool-cases, List, Option, Option-cases, arith, false, if◌then◌else◌, inl, inr, none,
  not, refl, some, true, ◌||◌, ℕ, ◌≡◌,
}
use gox_browser.Types.{BlockResult}
use gox_browser.Errors.{Error, is_ok}
use gox_browser.Io.{Io}
use gox_browser.Navigate.{
  NavigateOption, NavigateOpts, apply_navigate_options, default_navigate_opts, navigate_and_check,
  navigate_ok, navigate_stable, navigate_waited,
}
use gox_browser.Prelude.Text.{Text}
use gox_browser.Detector.{check_waf}
use gox_browser.Fetch.{failed}
use gox_browser.Prelude.Int.{ltb_ℤ, pos, ℤ}

abbrev pub is_nil : Option Error → Bool
is_nil none = true
is_nil (some e) = false

module _ {W B P C : Type 0} (io : Io W B P C) (elapsed : W → C → ℤ → W × Option Error)
    (detector : Text → Text → ℕ → BlockResult) (ctx : C) (b : B) where
  navigate_stable-ok :
      (wait : Bool) (t0 : ℕ) (w : W)
      → is_ok (navigate_stable io elapsed detector ctx b wait t0 w).1
        ≡ (not wait || is_nil (check_waf io detector ctx b (io.wait_stable w ctx b).0).1)
  unfolding navigate_stable navigate_ok
  navigate_stable-ok wait t0 w = ground arith

  navigate_waited-ok :
      (opts : NavigateOpts) (t0 : ℕ) (w : W)
      → is_ok (navigate_waited io elapsed detector ctx b opts t0 w).1 ≡ (
          let first = check_waf io detector ctx b w in
          is_nil first.1
          && (not opts.wait_stable
              || is_nil (check_waf io detector ctx b (io.wait_stable first.0 ctx b).0).1))
  unfolding navigate_waited
  navigate_waited-ok opts t0 w =
      let first = check_waf io detector ctx b w in
      elim (Option-cases first.1) [
        | inl passed ↦ rw (passed, navigate_waited) (navigate_stable-ok opts.wait_stable t0 first.0)
        | inr (e, stopped) ↦ rw (stopped, navigate_waited) refl
      ]

  -- `NavigateAndCheck` succeeds exactly when the navigation has no error, the context does not end
  -- in the early wait that the options ask for, the check for a firewall passes the page after it,
  -- and, with `WithWaitStable`, passes it a second time behind `WaitStable`; an error of
  -- `WaitStable` does not count.
  pub navigate_and_check-ok :
      (url : Text) (options : List NavigateOption) (w : W)
      → is_ok (navigate_and_check io elapsed detector ctx b url options w).1 ≡ (
          let opts = apply_navigate_options options default_navigate_opts in
          let waits = ltb_ℤ (pos 0) opts.early_wait in
          let nav = io.navigate w ctx b url in
          let early = elapsed nav.0 ctx opts.early_wait in
          let first = check_waf io detector ctx b (if waits then early.0 else nav.0) in
          let second = check_waf io detector ctx b (io.wait_stable first.0 ctx b).0 in
          is_nil nav.1
          && ((not waits || is_nil early.1)
              && (is_nil first.1 && (not opts.wait_stable || is_nil second.1))))
  unfolding navigate_and_check
  navigate_and_check-ok url options w =
      let opts = apply_navigate_options options default_navigate_opts in
      let nav = io.navigate w ctx b url in
      let early = elapsed nav.0 ctx opts.early_wait in
      elim (Option-cases nav.1) [
        | inr (e, failed) ↦ rw (failed, navigate_and_check) refl
        | inl there ↦ elim (Bool-cases (ltb_ℤ (pos 0) opts.early_wait)) [
          | inr at_once ↦
              rw (there, navigate_and_check, at_once) (navigate_waited-ok opts (io.now w) nav.0)
          | inl waits ↦ elim (Option-cases early.1) [
            | inr (e, ended) ↦ rw (there, navigate_and_check, waits, ended) refl
            | inl slept ↦
                rw (there, navigate_and_check, waits, slept)
                  (navigate_waited-ok opts (io.now w) early.0)
          ]
        ]
      ]
