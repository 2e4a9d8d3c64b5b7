-- ===== src/BrowserlessDriver/Leaks.antt =====
-- The connection that a failed `Create` of browser/browserless/provider.go leaves behind.
use gox_browser.Prelude.{refl, suc, ◌≡◌, ℕ}
use gox_browser.Driver.{Rod, returned}
use gox_browser.Driver.Ledger.{
  Counted, Keeps-quietly, Meets-closing, Meets-giving, count_of, counting_connections,
  counting_connections-Quiet, http_beside,
}
use gox_browser.Driver.Triples.{Ends}
use gox_browser.Router.{Endpoint, Http}
use gox_browser.Types.{AcquireOpts}
use gox_browser.BrowserlessDriver.Provider.{RemoteConfig, Urls}
use gox_browser.BrowserlessDriver.Page.{remote_close}
use gox_browser.BrowserlessDriver.Sessions.{
  RemoteState, connect_remote, pick_endpoint, remote_create,
}
use gox_browser.BrowserlessDriver.Connections.{ConnectionBooks, counted_leak}

module _ {W C K G R L U : Type 0} (rod : Rod W C K G R L) (http : Http W C) (urls : Urls U)
    (cfg : RemoteConfig) where
  counting_connections-ConnectionBooks :
      ConnectionBooks (counting_connections rod) (http_beside http) count_of
  counting_connections-ConnectionBooks = record {
    quiet = counting_connections-Quiet rod;
    send_kept = λ w ctx url. refl;
    body_kept = λ w. refl;
    open_kept = λ k url. Keeps-quietly (rod.open_page k url);
    close_kept = λ g. Keeps-quietly (rod.close_page g);
    connected = λ k n. Meets-giving (rod.connect k) n;
    disconnected = λ k n. Meets-closing (rod.close_browser k) n;
  }

  -- The driver runs on the given library with a count beside it of the calls of `Connect` that
  -- succeeded, less those of a connection's `Close`; nothing is assumed of what the library does, its
  -- failures included. Once `Create` has connected to the endpoint that the router picked, it ends with
  -- the count one higher than it began, unless a call panics. Where it returns a browser, the `Close` of
  -- that browser gives no error and, unless a call panics, brings the count back; where it fails, it has
  -- not called the `Close` that this connection needs.
  pub remote_create_leaks :
      (others : ℕ → ℕ) (ctx : C) (opts : AcquireOpts) (s s1 t : RemoteState (Counted W))
      (ep : Endpoint) (k : K)
      → pick_endpoint others s ≡ (s1, returned ep)
      → connect_remote (counting_connections rod) (http_beside http) urls cfg ctx ep s1
        ≡ (t, returned k)
      → Ends
          (λ b u.
            (count_of u.world ≡ suc (count_of s.world))
            × Ends
                (λ v w. count_of w ≡ count_of s.world)
                (λ w. ⊥)
                (remote_close (counting_connections rod) b u.world))
          (λ u. count_of u.world ≡ suc (count_of s.world))
          (remote_create (counting_connections rod) (http_beside http) urls cfg others ctx opts s)
  remote_create_leaks others ctx opts s s1 t ep k picked joined =
      counted_leak (counting_connections rod) (http_beside http) urls cfg count_of
        counting_connections-ConnectionBooks others ctx opts s s1 t ep k (count_of s.world) refl
        picked joined
