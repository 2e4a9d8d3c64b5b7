-- ===== src/BrowserlessDriver/Sessions.antt =====
-- browser/browserless/provider.go over its router: `Create`, `HealthCheck` and `Close`. The address
-- for developers that `Create` logs is left out.
use gox_browser.Driver.{
  ◌>>=◌, ◌>>◌, Call, Exit, Rod, fail, failed_with, ignoring, panics, rescue, return, returned,
  wrapping,
}
use gox_browser.Prelude.{◌++◌, List, Option, get_elem?, if◌then◌else◌, none, not, some, true, ℕ}
use gox_browser.Types.{AcquireOpts}
use gox_browser.Router.{
  Endpoint, Http, Router, check_capacity, health_check_all, mark_unhealthy, pick, stop,
}
use gox_browser.Errors.{Error, sentinel, wrap, no_healthy_endpoint}
use gox_browser.BrowserlessDriver.Provider.{RemoteConfig, Urls, build_ws_url}
use gox_browser.BrowserlessDriver.Page.{RemotePage}
use gox_browser.Prelude.Text.{Text, codes}
use gox_browser.Driver.Intercept.{browserless_decision, hijack_enabled}
use gox_browser.Driver.Session.{
  close_and_fail, fingerprint, setup_request_interception, viewport_of,
}

-- The provider's field `router`, with the state of the world.
pub record RemoteState (W : Type 0) : Type 0 where
  pub world : W
  pub router : Router

abbrev pub routed : {W A : Type 0} → Router → W × Exit A → RemoteState W × Exit A
routed r (w, exit) = (record { world = w; router = r }, exit)

-- A call of the library, which does not see the router.
abbrev pub outside : {W A : Type 0} → Call W A → Call (RemoteState W) A
outside m s = routed s.router (m s.world)

abbrev pub endpoint_at : List Endpoint → Option ℕ → Exit Endpoint
endpoint_at es none = failed_with (sentinel no_healthy_endpoint)
endpoint_at es (some i) = elim (get_elem? es i) [
  | some e ↦ returned e
  | none ↦ panics (codes "runtime error: index out of range")
]

-- The endpoint that the router picks, while other picks take `others` steps of its counter.
abbrev pub pick_endpoint : {W : Type 0} → (ℕ → ℕ) → Call (RemoteState W) Endpoint
pick_endpoint others s =
    let (r, i) = pick others s.router in (record s { router = r }, endpoint_at r.endpoints i)

abbrev pub mark : {W : Type 0} → Text → Call (RemoteState W) Unit
mark url s = (record s { router = mark_unhealthy url s.router }, returned tt)

abbrev pub exit_of : {W : Type 0} → W × Option Error → W × Exit {0} Unit
exit_of (w, none) = (w, returned tt)
exit_of (w, some e) = (w, failed_with e)

module _ {W C K G R L U : Type 0} (rod : Rod W C K G R L) (http : Http W C) (urls : Urls U)
    (cfg : RemoteConfig) where
  -- `ensureBrowser`: a new connection, which is closed again if Chrome does not list its pages.
  unfoldable pub ensure_remote : C → Endpoint → Call W K
  ensure_remote ctx ep = do
    wrapping (codes "browser: browserless pre-flight " ++ ep.url)
        (λ w. exit_of (check_capacity http ctx ep w))
    let k = rod.control (build_ws_url urls cfg ep)
    wrapping (codes "browser: browserless connect") (rod.connect k)
    listed ← rescue (rod.pages k) (λ e. (do
      ignoring (rod.close_browser k)
      fail (wrap (codes "browser: browserless post-connect check") e)))
    return k

  unfoldable pub create_page : K → Call W G
  create_page k =
      wrapping (codes "browser: browserless create page") (rod.open_page k (codes "about:blank"))

  unfoldable pub apply_viewport_and_fingerprint : G → AcquireOpts → Call W Unit
  apply_viewport_and_fingerprint page opts = do
    v ← fingerprint rod cfg.random_fingerprint page (viewport_of opts)
    ignoring (rod.set_viewport page v)

  abbrev pub remote_router_of : G → Call W (Option R)
  remote_router_of page =
      let setup =
        setup_request_interception rod (codes "browser: browserless setup request interception")
          (browserless_decision cfg.intercept) page in
      if not (hijack_enabled cfg.intercept)
      then return none
      else (do router ← rescue setup (close_and_fail rod page); return (some router))

  -- What follows the connection `k` to an endpoint.
  unfoldable pub open_remote : AcquireOpts → Text → K → Call W (RemotePage G K R)
  unfolding create_page apply_viewport_and_fingerprint
  open_remote opts url k = do
    page ← create_page k
    router ← remote_router_of page
    apply_viewport_and_fingerprint page opts
    return (record {
      page = page;
      browser = some k;
      router = router;
      headless = true;
      endpoint = url;
      isolated_ctx_id = 0;
    })

  -- A failure to connect marks the endpoint.
  unfoldable pub connect_remote : C → Endpoint → Call (RemoteState W) K
  unfolding ensure_remote
  connect_remote ctx ep =
      rescue (outside (ensure_remote ctx ep))
        (λ e. (do mark ep.url; fail (wrap (codes "browser: browserless connect " ++ ep.url) e)))

  unfoldable pub remote_create : (ℕ → ℕ) → C → AcquireOpts → Call (RemoteState W) (RemotePage G K R)
  unfolding connect_remote open_remote
  remote_create others ctx opts = do
    ep ← pick_endpoint others
    k ← connect_remote ctx ep
    outside (open_remote opts ep.url k)

abbrev pub checked_router : {W : Type 0} → W × Router × Option Error → RemoteState W × Exit {0} Unit
checked_router (w, r, last) = (record { world = w; router = r }, (exit_of (w, last)).1)

abbrev pub remote_health_check : {W C : Type 0} → Http W C → C → Call (RemoteState W) Unit
remote_health_check http ctx s = checked_router (health_check_all http ctx s.router s.world)

abbrev pub remote_provider_close : {W : Type 0} → Call (RemoteState W) Unit
remote_provider_close s = (record s { router = stop s.router }, returned tt)
