-- ===== src/RodDriver/Sessions.antt =====
-- browser/rod/provider.go over the connection of Provider: `Create`, `HealthCheck` and `Close`.
use gox_browser.Driver.{
  ◌>>=◌, ◌>>◌, Call, Exit, Rod, fail, ignoring, recovering, rescue, return, returned, wrapping,
  failed_with, panics,
}
use gox_browser.Prelude.{◌++◌, List, Option, [], if◌then◌else◌, none, not, some, ◌∷◌}
use gox_browser.Types.{AcquireOpts}
use gox_browser.RodDriver.Provider.{
  Launcher, RodConfig, RodState, Web, ensure_browser, lib, set_browser,
}
use gox_browser.RodDriver.Page.{RodBrowser}
use gox_browser.Prelude.Text.{Text, codes, eq_text}
use gox_browser.Driver.Session.{
  close_and_fail, fingerprint, setup_request_interception, viewport_of,
}
use gox_browser.Driver.Intercept.{hijack_enabled, rod_decision}
use gox_browser.Errors.{plain, wrap}

module _ {W C K G R L : Type 0} (rod : Rod W C K G R L) (launcher : Launcher W C) (web : Web W C)
    (cfg : RodConfig) where
  abbrev pub new_page : K → Call W G
  new_page k =
      if cfg.stealth_mode
      then wrapping (codes "browser: rod stealth create page") (rod.stealth_page k)
      else wrapping (codes "browser: rod create page") (rod.open_page k (codes "about:blank"))

  abbrev pub router_of : G → Call W (Option R)
  router_of page =
      let setup =
        setup_request_interception rod (codes "browser: rod setup request interception")
          (rod_decision cfg.intercept) page in
      if not (hijack_enabled cfg.intercept)
      then return none
      else (do router ← rescue setup (close_and_fail rod page); return (some router))

  -- What follows a new page.
  unfoldable pub dress_page : AcquireOpts → G → Call W (RodBrowser G R)
  dress_page opts page = do
    v ← fingerprint rod cfg.random_fingerprint page (viewport_of opts)
    rescue (rod.set_viewport page v)
        (λ e. close_and_fail rod page (wrap (codes "browser: rod set viewport") e))
    router ← router_of page
    return (record { page = page; router = router; headless = cfg.headless })

  -- `Create` without its deferred `recover`.
  unfoldable pub create_body : C → AcquireOpts → Call (RodState W K) (RodBrowser G R)
  unfolding dress_page
  create_body ctx opts = do
    k ← wrapping (codes "browser: rod ensure browser") (ensure_browser rod launcher web cfg ctx)
    page ← lib (new_page k)
    lib (dress_page opts page)

  abbrev pub recover_create : Text → Call (RodState W K) (RodBrowser G R)
  recover_create t = do set_browser none; fail (plain (codes "browser: rod create panic: " ++ t))

  unfoldable pub rod_create : C → AcquireOpts → Call (RodState W K) (RodBrowser G R)
  unfolding create_body
  rod_create ctx opts = recovering (create_body ctx opts) recover_create

  -- `HealthCheck` of a connection.
  abbrev pub check_connection : K → Call W Unit
  check_connection k = do
    page ← wrapping (codes "browser: rod health check") (rod.open_page k (codes "about:blank"))
    wrapping (codes "browser: rod health check close") (rod.close_page page)

  unfoldable pub rod_health_check : Call (RodState W K) Unit
  rod_health_check s = elim s.browser [
    | none ↦ (s, returned tt)
    | some k ↦ lib (check_connection k) s
  ]

  unfoldable pub close_pages : List G → Call W Unit
  close_pages [] = return tt
  close_pages (page ∷ pages) = do ignoring (rod.close_page page); close_pages pages

  -- A remote Chrome is not ended, but its pages are.
  unfoldable pub close_connection : K → Call W Unit
  unfolding close_pages
  close_connection k =
      if eq_text cfg.remote_url []
      then wrapping (codes "browser: rod close") (rod.close_browser k)
      else ignoring (do pages ← rod.pages k; close_pages pages)

  -- The field is reset, whether closing failed or not, unless it panics.
  abbrev pub reset : {A : Type 0} → RodState W K × Exit A → RodState W K × Exit A
  reset (s, returned a) = (record s { browser = none }, returned a)
  reset (s, failed_with e) = (record s { browser = none }, failed_with e)
  reset (s, panics t) = (s, panics t)

  unfoldable pub close_kept : Option K → Call (RodState W K) Unit
  unfolding close_connection
  close_kept none = return tt
  close_kept (some k) = λ s. reset (lib (close_connection k) s)

  unfoldable pub rod_provider_close : Call (RodState W K) Unit
  unfolding close_kept
  rod_provider_close s = close_kept s.browser s
