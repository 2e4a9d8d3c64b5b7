-- ===== src/BrowserlessDriver/Page.antt =====
-- browser/browserless/browser.go: a page of a browserless service as a browser of the pool.
use gox_browser.Driver.{
  ◌>>=◌, ◌>>◌, Call, Evaluation, Exit, Rod, fail, ignoring, return, returned, wrapping,
}
use gox_browser.Prelude.{
  ◌*◌, ◌++◌, ◌==◌, Bool, List, Option, [], ◌^◌, if◌then◌else◌, none, not, some, ℕ, ◌∷◌,
}
use gox_browser.Prelude.Text.{Text, codes, has_prefix, trim_space}
use gox_browser.RodDriver.Page.{check_context, check_ended, stop_optional}
use gox_browser.Errors.{plain}
use gox_browser.Prelude.Int.{pos, ℤ}
use gox_browser.Types.{second, Cookie}

-- `isolated_ctx_id` is 0 until a script has run on the document.
pub record RemotePage (G K R : Type 0) : Type 0 where
  pub page : G
  pub browser : Option K
  pub router : Option R
  pub headless : Bool
  pub endpoint : Text
  pub isolated_ctx_id : ℕ

-- In nanoseconds.
abbrev pub wait_stable_interval : ℤ
wait_stable_interval = pos (300 * 10 ^ 6)

abbrev pub wait_stable_max_wait : ℤ
wait_stable_max_wait = pos (30 * second)

abbrev pub network_idle_timeout : ℤ
network_idle_timeout = pos (1 * second)

abbrev pub network_idle_max_wait : ℤ
network_idle_max_wait = pos (30 * second)

-- The page, with the state of Chrome that it changes.
pub record PageState (W G K R : Type 0) : Type 0 where
  pub world : W
  pub remote : RemotePage G K R

abbrev pub beside :
    {W G K R A : Type 0} → RemotePage G K R → W × Exit A → PageState W G K R × Exit A
beside b (w, r) = (record { world = w; remote = b }, r)

-- A call of the library, which does not see the fields.
abbrev pub on_page :
    {W G K R A : Type 0} → (RemotePage G K R → Call W A) → Call (PageState W G K R) A
on_page m s = beside s.remote (m s.remote s.world)

abbrev pub set_isolated : {W G K R : Type 0} → ℕ → Call (PageState W G K R) Unit
set_isolated id s =
    (record { world = s.world; remote = record s.remote { isolated_ctx_id = id } }, returned tt)

-- The expression that `Eval` sends: a function without arguments is called.
unfoldable pub eval_expression : Text → Text
eval_expression js =
    if has_prefix (trim_space js) (codes "()")
    then codes "(" ++ trim_space js ++ codes ")()"
    else js

module _ {W C K G R L : Type 0} (rod : Rod W C K G R L) where
  -- The channel of the navigation is made before it starts.
  unfoldable pub remote_navigate : C → Text → Call (PageState W G K R) Unit
  remote_navigate ctx url = do
    set_isolated 0
    on_page (λ b. rod.expect_navigation ctx b.page)
    on_page (λ b.
        wrapping (codes "browser: browserless navigate " ++ rod.quote url)
          (rod.navigate ctx b.page url))
    on_page (λ b. rod.await_navigation ctx b.page)

  unfoldable pub get_or_create_isolated_world : C → Call (PageState W G K R) ℕ
  get_or_create_isolated_world ctx s =
      let create = on_page (λ b.
        wrapping (codes "browser: browserless create isolated world")
          (rod.create_world ctx b.page)) in
      if not (s.remote.isolated_ctx_id == 0)
      then (s, returned s.remote.isolated_ctx_id)
      else ((do id ← create; set_isolated id; return id) s)

  abbrev pub script_value : Evaluation → Call W Text
  script_value r = elim r.exception [
    | some thrown ↦ fail (plain (codes "browser: browserless eval js error: " ++ thrown))
    | none ↦ return r.value
  ]

  unfoldable pub remote_eval : C → Text → Call (PageState W G K R) Text
  unfolding get_or_create_isolated_world
  remote_eval ctx js = do
    id ←
        wrapping (codes "browser: browserless eval create isolated world")
          (get_or_create_isolated_world ctx)
    on_page (λ b. (do
      r ←
          wrapping (codes "browser: browserless eval")
            (rod.evaluate_in ctx b.page id (eval_expression js))
      script_value r))

  abbrev pub remote_eval_direct : C → Text → Call (PageState W G K R) Text
  remote_eval_direct = remote_eval

  module _ (ctx : C) (b : RemotePage G K R) where
    unfoldable pub remote_wait_network_idle : Call W Unit
    remote_wait_network_idle = do
      let idle_ctx = rod.with_timeout ctx network_idle_max_wait
      rod.wait_request_idle idle_ctx b.page network_idle_timeout
      check_ended rod ctx
      check_context rod idle_ctx
          (plain (codes "browser: browserless network idle max wait exceeded"))

    unfoldable pub remote_wait_stable : Call W Unit
    unfolding remote_wait_network_idle
    remote_wait_stable = do
      wrapping (codes "browser: browserless wait stable")
          (rod.wait_stable (rod.with_timeout ctx wait_stable_max_wait) b.page wait_stable_interval)
      ignoring remote_wait_network_idle

    unfoldable pub remote_html : Call W Text
    remote_html = wrapping (codes "browser: browserless html") (rod.html ctx b.page)

    unfoldable pub remote_text : Call W Text
    remote_text =
        wrapping (codes "browser: browserless text")
          (rod.eval ctx b.page (codes "() => document.body.innerText"))

    unfoldable pub remote_title : Call W Text
    remote_title = do
      info ← wrapping (codes "browser: browserless title") (rod.info ctx b.page)
      return info.title

    unfoldable pub remote_url : Call W Text
    remote_url = do
      info ← wrapping (codes "browser: browserless url") (rod.info ctx b.page)
      return info.url

    unfoldable pub remote_screenshot : Call W (List ℕ)
    remote_screenshot =
        wrapping (codes "browser: browserless screenshot") (rod.screenshot ctx b.page)

    unfoldable pub remote_click : Text → Call W Unit
    remote_click selector = do
      el ←
          wrapping (codes "browser: browserless click find " ++ rod.quote selector)
            (rod.element ctx b.page selector)
      wrapping (codes "browser: browserless click " ++ rod.quote selector) (rod.click el)

    unfoldable pub remote_type_text : Text → Text → Call W Unit
    remote_type_text selector text = do
      el ←
          wrapping (codes "browser: browserless type find " ++ rod.quote selector)
            (rod.element ctx b.page selector)
      wrapping (codes "browser: browserless type " ++ rod.quote selector) (rod.input el text)

    unfoldable pub remote_wait_selector : Text → Call W Unit
    remote_wait_selector selector = do
      el ←
          wrapping (codes "browser: browserless wait selector " ++ rod.quote selector)
            (rod.element ctx b.page selector)
      return tt

    unfoldable pub remote_cookies : Call W (List Cookie)
    remote_cookies = wrapping (codes "browser: browserless cookies") (rod.cookies ctx b.page)

    unfoldable pub remote_set_cookies : List Cookie → Call W Unit
    remote_set_cookies [] = return tt
    remote_set_cookies (c ∷ cookies) = do
      wrapping (codes "browser: browserless set cookie " ++ rod.quote c.name)
          (rod.set_cookies ctx b.page (c ∷ []))
      remote_set_cookies cookies

  abbrev pub close_optional : Option K → Call W Unit
  close_optional none = return tt
  close_optional (some k) = ignoring (rod.close_browser k)

  -- `Close`, and the page that it leaves.
  unfoldable pub remote_close : RemotePage G K R → Call W Unit
  remote_close b = do
    stop_optional rod b.router
    ignoring (rod.close_page b.page)
    close_optional b.browser

  abbrev pub remote_closed : RemotePage G K R → RemotePage G K R
  remote_closed b = record b { router = none }
