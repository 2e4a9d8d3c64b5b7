-- ===== src/Navigate.antt =====
-- browser/navigate.go: `NavigateAndCheck`. Of the `select` in it, `elapsed` is the state in which the
-- early wait ends, with the error of the context if that ends first.
pub mod Checked
use gox_browser.Prelude.{
  ◌*◌, ◌++◌, ◌-◌, Bool, List, Option, [], false, if◌then◌else◌, none, some, true, ℕ, ◌∷◌,
}
use gox_browser.Types.{BlockResult, second}
use gox_browser.Errors.{Error, Result, err, ok, wrap}
use gox_browser.Io.{Io}
use gox_browser.Prelude.Text.{Text, codes}
use gox_browser.Detector.{check_waf}
use gox_browser.Prelude.Int.{ltb_ℤ, pos, ℤ}

pub record NavigateResult : Type 0 where
  pub url : Text
  pub title : Text
  pub elapsed : ℕ

pub record NavigateOpts : Type 0 where
  pub early_wait : ℤ
  pub wait_stable : Bool

abbrev pub default_navigate_opts : NavigateOpts
default_navigate_opts = record { early_wait = pos (2 * second); wait_stable = false }

pub data NavigateOption : Type 0 where
  with_early_wait : ℤ → NavigateOption
  with_wait_stable : NavigateOption

abbrev pub apply_navigate_option : NavigateOption → NavigateOpts → NavigateOpts
apply_navigate_option (with_early_wait d) o = record o { early_wait = d }
apply_navigate_option with_wait_stable o = record o { wait_stable = true }

abbrev pub apply_navigate_options : List NavigateOption → NavigateOpts → NavigateOpts
apply_navigate_options [] o = o
apply_navigate_options (f ∷ options) o = apply_navigate_options options (apply_navigate_option f o)

module _ {W B P C : Type 0} (io : Io W B P C) (elapsed : W → C → ℤ → W × Option Error)
    (detector : Text → Text → ℕ → BlockResult) (ctx : C) (b : B) where
  -- The end of `NavigateAndCheck`, which started at `t0`.
  unfoldable pub navigate_ok : ℕ → W → W × Result NavigateResult
  navigate_ok t0 w =
      let log_ctx = io.with_timeout ctx (pos (5 * second)) in
      let heading = io.eval w log_ctx b (codes "() => document.title") in
      let address = io.eval heading.0 log_ctx b (codes "() => location.href") in
      (
        address.0,
        ok (record { url = address.1; title = heading.1; elapsed = io.now address.0 - t0 }),
      )

  unfoldable pub navigate_stable : Bool → ℕ → W → W × Result NavigateResult
  unfolding navigate_ok
  navigate_stable wait t0 w =
      let stable = io.wait_stable w ctx b in
      let again = check_waf io detector ctx b stable.0 in
      if wait
      then elim again.1 [ some e ↦ (again.0, err e) | none ↦ navigate_ok t0 again.0 ]
      else navigate_ok t0 w

  unfoldable pub navigate_waited : NavigateOpts → ℕ → W → W × Result NavigateResult
  unfolding navigate_stable
  navigate_waited opts t0 w =
      let waf_checked = check_waf io detector ctx b w in
      elim waf_checked.1 [
        | some e ↦ (waf_checked.0, err e)
        | none ↦ navigate_stable opts.wait_stable t0 waf_checked.0
      ]

  unfoldable pub navigate_and_check : Text → List NavigateOption → W → W × Result NavigateResult
  unfolding navigate_waited
  navigate_and_check url options w =
      let opts = apply_navigate_options options default_navigate_opts in
      let nav = io.navigate w ctx b url in
      let early = elapsed nav.0 ctx opts.early_wait in
      elim nav.1 [
        | some e ↦ (nav.0, err (wrap (codes "browser: navigate " ++ io.quote url) e))
        | none ↦
            if ltb_ℤ (pos 0) opts.early_wait
            then elim early.1 [
              | some e ↦ (early.0, err e)
              | none ↦ navigate_waited opts (io.now w) early.0
            ]
            else navigate_waited opts (io.now w) nav.0
      ]
