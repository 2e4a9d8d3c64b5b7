-- ===== src/RodDriver/Page.antt =====
-- browser/rod/browser.go: a page of Chrome as a browser of the pool.
use gox_browser.Driver.{◌>>=◌, ◌>>◌}
use gox_browser.Prelude.{
  ◌*◌, ◌++◌, Bool, List, Option, [], ◌^◌, false, if◌then◌else◌, none, some, true, ℕ, ◌∷◌,
}
use gox_browser.Types.{BrowserType, second, type_rod_headed, type_rod_headless, Cookie}
use gox_browser.Driver.{
  Call, Evaluation, Rod, fail, failed_with, ignoring, return, returned, wrapping,
}
use gox_browser.Errors.{Error, plain}
use gox_browser.Prelude.Text.{Text, codes}
use gox_browser.Prelude.Int.{pos, ℤ}

pub record RodBrowser (G R : Type 0) : Type 0 where
  pub page : G
  pub router : Option R
  pub headless : Bool

-- In nanoseconds.
abbrev pub rod_wait_stable_interval : ℤ
rod_wait_stable_interval = pos (300 * 10 ^ 6)

abbrev pub rod_wait_stable_max_wait : ℤ
rod_wait_stable_max_wait = pos (5 * second)

abbrev pub rod_network_idle_timeout : ℤ
rod_network_idle_timeout = pos (1 * second)

abbrev pub rod_network_idle_max_wait : ℤ
rod_network_idle_max_wait = pos (5 * second)

-- `BrowserType` of the browser and `Type` of the provider.
abbrev pub rod_type : Bool → BrowserType
rod_type true = type_rod_headless
rod_type false = type_rod_headed

module _ {W C K G R L : Type 0} (rod : Rod W C K G R L) where
  -- The error of a context as that of a call.
  abbrev pub check_context : C → Error → Call W Unit
  check_context ctx e w = elim (rod.context_error ctx w) [
    | some ended ↦ (w, failed_with e)
    | none ↦ (w, returned tt)
  ]

  abbrev pub check_ended : C → Call W Unit
  check_ended ctx w = elim (rod.context_error ctx w) [
    | some ended ↦ (w, failed_with ended)
    | none ↦ (w, returned tt)
  ]

  module _ (ctx : C) (b : RodBrowser G R) where
    unfoldable pub rod_navigate : Text → Call W Unit
    rod_navigate url =
        wrapping (codes "browser: rod navigate " ++ rod.quote url) (rod.navigate ctx b.page url)

    unfoldable pub rod_wait_network_idle : Call W Unit
    rod_wait_network_idle = do
      let idle_ctx = rod.with_timeout ctx rod_network_idle_max_wait
      rod.wait_request_idle idle_ctx b.page rod_network_idle_timeout
      check_ended ctx
      check_context idle_ctx (plain (codes "browser: rod network idle max wait exceeded"))

    unfoldable pub rod_wait_stable : Call W Unit
    unfolding rod_wait_network_idle
    rod_wait_stable = do
      wrapping (codes "browser: rod wait stable") (
          rod.wait_stable (rod.with_timeout ctx rod_wait_stable_max_wait) b.page
            rod_wait_stable_interval)
      ignoring rod_wait_network_idle

    unfoldable pub rod_html : Call W Text
    rod_html = wrapping (codes "browser: rod html") (rod.html ctx b.page)

    unfoldable pub rod_text : Call W Text
    rod_text =
        wrapping (codes "browser: rod text")
          (rod.eval ctx b.page (codes "() => document.body.innerText"))

    unfoldable pub rod_title : Call W Text
    rod_title = do
      info ← wrapping (codes "browser: rod title") (rod.info ctx b.page)
      return info.title

    unfoldable pub rod_url : Call W Text
    rod_url = do info ← wrapping (codes "browser: rod url") (rod.info ctx b.page); return info.url

    unfoldable pub rod_screenshot : Call W (List ℕ)
    rod_screenshot = wrapping (codes "browser: rod screenshot") (rod.screenshot ctx b.page)

    unfoldable pub rod_eval : Text → Call W Text
    rod_eval js = wrapping (codes "browser: rod eval") (rod.eval ctx b.page js)

    unfoldable pub rod_click : Text → Call W Unit
    rod_click selector = do
      el ←
          wrapping (codes "browser: rod click find " ++ rod.quote selector)
            (rod.element ctx b.page selector)
      wrapping (codes "browser: rod click " ++ rod.quote selector) (rod.click el)

    unfoldable pub rod_type_text : Text → Text → Call W Unit
    rod_type_text selector text = do
      el ←
          wrapping (codes "browser: rod type find " ++ rod.quote selector)
            (rod.element ctx b.page selector)
      wrapping (codes "browser: rod type " ++ rod.quote selector) (rod.input el text)

    unfoldable pub rod_wait_selector : Text → Call W Unit
    rod_wait_selector selector = do
      el ←
          wrapping (codes "browser: rod wait selector " ++ rod.quote selector)
            (rod.element ctx b.page selector)
      return tt

    unfoldable pub rod_cookies : Call W (List Cookie)
    rod_cookies = wrapping (codes "browser: rod cookies") (rod.cookies ctx b.page)

    unfoldable pub rod_set_cookies : List Cookie → Call W Unit
    rod_set_cookies [] = return tt
    rod_set_cookies (c ∷ cookies) = do
      wrapping (codes "browser: rod set cookie " ++ rod.quote c.name)
          (rod.set_cookies ctx b.page (c ∷ []))
      rod_set_cookies cookies

  -- The value of a script, or the error for the exception that it threw.
  abbrev pub evaluated : Text → Evaluation → Call W Text
  evaluated text r = elim r.exception [
    | some thrown ↦ fail (plain (text ++ codes ": " ++ thrown))
    | none ↦ return (if r.undefined then [] else r.value)
  ]

  unfoldable pub rod_eval_direct : RodBrowser G R → Text → Call W Text
  rod_eval_direct b js = do
    r ←
        wrapping (codes "browser: rod eval direct")
          (rod.evaluate b.page (codes "(" ++ js ++ codes ")()"))
    evaluated (codes "browser: rod eval direct exception") r

  abbrev pub stop_optional : Option R → Call W Unit
  stop_optional none = return tt
  stop_optional (some r) = ignoring (rod.stop_router r)

  -- `Close`, and the browser that it leaves.
  unfoldable pub rod_close : RodBrowser G R → Call W Unit
  rod_close b = do
    stop_optional b.router
    wrapping (codes "browser: rod close page") (rod.close_page b.page)

  abbrev pub rod_closed : RodBrowser G R → RodBrowser G R
  rod_closed b = record b { router = none }
