-- ===== src/BrowserlessDriver/Connections.antt =====
-- The connections that `Create` of browser/browserless/provider.go makes, and who closes them.
use gox_browser.Driver.{Rod, Call, Exit, fail, failed_with, panics, returned}
use gox_browser.Driver.Books.{
  At, Keeps, Quiet, Keeps-setup_request_interception, Sure, Sure-fingerprint, Sure-return,
}
use gox_browser.Router.{
  Endpoint, Http, check_capacity, fetch_pressure, pressure_request_timeout, pressure_url, Router,
}
use gox_browser.Errors.{Error}
use gox_browser.Driver.Triples.{
  Meets, Meets-bind, Meets-fail, Meets-ignoring, Meets-rescue, Meets-return, Meets-then,
  Meets-wrapping, Ends, Meets-if,
}
use gox_browser.Prelude.{Option, none, some, suc, ℕ, ◌∙◌, ◌≡◌, arith, not, refl, ap, subst, sym}
use gox_browser.BrowserlessDriver.Provider.{RemoteConfig, Urls, build_ws_url}
use gox_browser.Prelude.Text.{Text, codes}
use gox_browser.BrowserlessDriver.Sessions.{
  ensure_remote, exit_of, apply_viewport_and_fingerprint, connect_remote, create_page, mark,
  open_remote, remote_router_of, routed, outside, RemoteState, pick_endpoint, remote_create,
}
use gox_browser.Types.{AcquireOpts}
use gox_browser.BrowserlessDriver.Page.{RemotePage, close_optional, remote_close}
use gox_browser.Driver.Intercept.{hijack_enabled}
use gox_browser.RodDriver.Page.{stop_optional}
use gox_browser.Driver.Session.{viewport_of}

-- The laws of a count of the connections that were made and that the driver did not ask to close.
-- BrowserlessDriver/Leaks has a count that obeys them whatever the library does.
pub record ConnectionBooks {W C K G R L : Type 0} (rod : Rod W C K G R L) (http : Http W C)
    (live : W → ℕ) : Type 0 where
  pub quiet : Quiet rod live
  pub send_kept : (w : W) (ctx : C) (url : Text) → live (http.send w ctx url).0 ≡ live w
  pub body_kept : (w : W) → live (http.read_body w).0 ≡ live w
  pub open_kept : (k : K) (url : Text) → Keeps live (rod.open_page k url)
  pub close_kept : (g : G) → Keeps live (rod.close_page g)
  pub connected :
      (k : K) (n : ℕ) → Meets (At live n) (rod.connect k) (λ u. At live (suc n)) (At live n)
  pub disconnected :
      (k : K) (n : ℕ) → Meets (At live (suc n)) (rod.close_browser k) (λ u. At live n) (At live n)

module _ {W C K G R L U : Type 0} (rod : Rod W C K G R L) (http : Http W C) (urls : Urls U)
    (cfg : RemoteConfig) (live : W → ℕ) (books : ConnectionBooks rod http live) where
  fetch_pressure_kept :
      (ctx : C) (ep : Endpoint) (w : W) → live (fetch_pressure http ctx ep w).0 ≡ live w
  unfolding fetch_pressure
  fetch_pressure_kept ctx ep w =
      let sent = books.send_kept w ctx (pressure_url ep) in
      let read = books.body_kept (http.send w ctx (pressure_url ep)).0 in ground arith

  check_capacity_kept :
      (ctx : C) (ep : Endpoint) (w : W) → live (check_capacity http ctx ep w).0 ≡ live w
  unfolding check_capacity
  check_capacity_kept ctx ep w =
      let pressure = fetch_pressure_kept (http.with_timeout ctx pressure_request_timeout) ep w in
      ground arith

  Ends-exit_of :
      (n : ℕ) (r : W × Option Error)
      → live r.0 ≡ n
      → Ends {A = Unit} (λ u. At live n) (At live n) (exit_of r)
  Ends-exit_of n (w, none) h = h
  Ends-exit_of n (w, some e) h = h

  Keeps-capacity :
      (ctx : C) (ep : Endpoint) → Keeps live (λ w. exit_of (check_capacity http ctx ep w))
  Keeps-capacity ctx ep = record {
    kept = λ n. record {
      ends =
          λ w h. Ends-exit_of n (check_capacity http ctx ep w) (check_capacity_kept ctx ep w ∙ h);
    };
  }

  Meets-ensure_remote :
      (ctx : C) (ep : Endpoint) (n : ℕ)
      → Meets
          (At live n)
          (ensure_remote rod http urls cfg ctx ep)
          (λ k. At live (suc n))
          (At live n)
  unfolding ensure_remote
  Meets-ensure_remote ctx ep n =
      let k = rod.control (build_ws_url urls cfg ep) in
      Meets-then _ _ (Meets-wrapping _ _ ((Keeps-capacity ctx ep).kept n)) (
        Meets-then _ _ (Meets-wrapping _ _ (books.connected k n)) (
          Meets-bind _ _
            (Meets-rescue _ _ ((books.quiet.quiet_pages k).kept (suc n)) (λ e.
              Meets-then _ _ (Meets-ignoring _ (books.disconnected k n)) (Meets-fail _ (λ w h. h))))
            (λ listed. Meets-return k (λ w h. h))))

  Ends-routed :
      {A : Type 0} (Q : A → W → Type 0) (E : W → Type 0) (r : Router) (m : W × Exit A)
      → Ends Q E m
      → Ends (λ a s. Q a s.world) (λ s. E s.world) (routed r m)
  Ends-routed Q E r (w, returned a) h = h
  Ends-routed Q E r (w, failed_with e) h = h
  Ends-routed Q E r (w, panics t) h = h

  Meets-outside :
      {A : Type 0} (P : W → Type 0) (Q : A → W → Type 0) (E : W → Type 0) (m : Call W A)
      → Meets P m Q E
      → Meets (λ s. P s.world) (outside m) (λ a s. Q a s.world) (λ s. E s.world)
  Meets-outside P Q E m h = record {
    ends = λ s p. Ends-routed Q E s.router (m s.world) (h.ends s.world p);
  }

  -- The browser that `Create` returns has its connection.
  abbrev Owns : K → ℕ → RemotePage G K R → W → Type 0
  Owns k n b w = (b.browser ≡ some k) × (live w ≡ n)

  Meets-remote_router_of :
      (g : G) (n : ℕ)
      → Meets (At live n) (remote_router_of rod http urls cfg g) (λ r. At live n) (At live n)
  Meets-remote_router_of g n =
      Meets-if (not (hijack_enabled cfg.intercept)) _ _ (Meets-return none (λ w h. h)) (
        Meets-bind _ _
          (Meets-rescue _ _ ((Keeps-setup_request_interception rod live books.quiet _ _ g).kept n)
            (λ e.
              Meets-then _ _ (Meets-ignoring _ ((books.close_kept g).kept n))
                (Meets-fail e (λ w h. h))))
          (λ r. Meets-return (some r) (λ w h. h)))

  Meets-apply :
      (g : G) (opts : AcquireOpts) (n : ℕ)
      → Meets
          (At live n)
          (apply_viewport_and_fingerprint rod http urls cfg g opts)
          (λ u. At live n)
          (At live n)
  unfolding apply_viewport_and_fingerprint
  Meets-apply g opts n =
      Meets-bind _ _
        ((Sure-fingerprint rod live books.quiet cfg.random_fingerprint g
            (viewport_of opts)).kept_surely
          n (At live n))
        (λ v. Meets-ignoring _ ((books.quiet.quiet_set_viewport g v).kept n))

  Meets-open_remote :
      (opts : AcquireOpts) (url : Text) (k : K) (n : ℕ)
      → Meets (At live n) (open_remote rod http urls cfg opts url k) (Owns k n) (At live n)
  unfolding open_remote create_page
  Meets-open_remote opts url k n =
      Meets-bind _ _ (Meets-wrapping _ _ ((books.open_kept k (codes "about:blank")).kept n)) (λ g.
        Meets-bind _ _ (Meets-remote_router_of g n)
          (λ r. Meets-then _ _ (Meets-apply g opts n) (Meets-return _ (λ w h. (refl, h)))))

  Meets-connect_remote :
      (ctx : C) (ep : Endpoint) (n : ℕ)
      → Meets
          (λ s. live s.world ≡ n)
          (connect_remote rod http urls cfg ctx ep)
          (λ k s. live s.world ≡ suc n)
          (λ s. live s.world ≡ n)
  unfolding connect_remote
  Meets-connect_remote ctx ep n =
      Meets-rescue _ _ (Meets-outside _ _ _ _ (Meets-ensure_remote ctx ep n)) (λ e.
        Meets-then {Q = λ s. live s.world ≡ n} (mark ep.url) (fail _) (record { ends = λ s h. h })
          (Meets-fail _ (λ s h. h)))

  Sure-stop_optional : (r : Option R) → Sure live (stop_optional rod r)
  Sure-stop_optional none = Sure-return tt
  Sure-stop_optional (some r) = record {
    kept_surely = λ n E. Meets-ignoring _ ((books.quiet.quiet_stop_router r).kept n);
  }

  Meets-close_optional :
      (k : Option K) (c : K) (n : ℕ)
      → k ≡ some c
      → Meets (At live (suc n)) (close_optional rod k) (λ u. At live n) (λ w. ⊥)
  Meets-close_optional k c n h =
      rw h (Meets-ignoring (rod.close_browser c) (books.disconnected c n))

  Meets-remote_close :
      (b : RemotePage G K R) (c : K) (n : ℕ)
      → b.browser ≡ some c
      → Meets (At live (suc n)) (remote_close rod b) (λ u. At live n) (λ w. ⊥)
  unfolding remote_close
  Meets-remote_close b c n h =
      Meets-then _ _ ((Sure-stop_optional b.router).kept_surely (suc n) (λ w. ⊥)) (
        Meets-then {Q = At live (suc n)} _ _
          (Meets-ignoring _ ((books.close_kept b.page).kept (suc n)))
          (Meets-close_optional b.browser c n h))

  Ends-owned :
      (k : K) (n : ℕ) (r : RemoteState W × Exit (RemotePage G K R))
      → Ends (λ b s. Owns k (suc n) b s.world) (λ s. live s.world ≡ suc n) r
      → Ends
          (λ b s.
            (live s.world ≡ suc n) × Ends (λ u w. live w ≡ n) (λ w. ⊥) (remote_close rod b s.world))
          (λ s. live s.world ≡ suc n)
          r
  Ends-owned k n (s, returned b) (owned, h) = (h, (Meets-remote_close b k n owned).ends s.world h)
  Ends-owned k n (s, failed_with e) h = h
  Ends-owned k n (s, panics t) h = tt

  -- What a `Create` that has connected does to the count, and what `Close` of its browser does.
  pub counted_leak :
      (others : ℕ → ℕ) (ctx : C) (opts : AcquireOpts) (s s1 t : RemoteState W) (ep : Endpoint)
      (k : K) (n : ℕ)
      → live s.world ≡ n
      → pick_endpoint others s ≡ (s1, returned ep)
      → connect_remote rod http urls cfg ctx ep s1 ≡ (t, returned k)
      → Ends
          (λ b u.
            (live u.world ≡ suc n) × Ends (λ v w. live w ≡ n) (λ w. ⊥) (remote_close rod b u.world))
          (λ u. live u.world ≡ suc n)
          (remote_create rod http urls cfg others ctx opts s)
  unfolding remote_create
  counted_leak others ctx opts s s1 t ep k n h picked joined =
      let here : live s1.world ≡ n = ap (λ r. live r.0.world) (sym picked) ∙ h in
      let held : live t.world ≡ suc n =
        subst (λ r. Ends (λ c u. live u.world ≡ suc n) (λ u. live u.world ≡ n) r) joined
          ((Meets-connect_remote ctx ep n).ends s1 here) in
      rw (picked, joined)
        (Ends-owned k n (outside (open_remote rod http urls cfg opts ep.url k) t)
          ((Meets-outside _ _ _ _ (Meets-open_remote opts ep.url k (suc n))).ends t held))
