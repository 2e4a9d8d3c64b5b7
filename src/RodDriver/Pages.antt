-- ===== src/RodDriver/Pages.antt =====
-- The pages that `Create` of browser/rod/provider.go is given, and who closes them.
use gox_browser.Driver.{Call, Rod, ◌>>=◌}
use gox_browser.Driver.Ledger.{
  Counted, Keeps-quietly, Meets-closing, Meets-giving, count_of, counting_pages,
  counting_pages-Quiet, quietly,
}
use gox_browser.Types.{AcquireOpts}
use gox_browser.Driver.Books.{
  At, Keeps-setup_request_interception, Keeps-wrapping, Sure, Sure-fingerprint, Sure-return,
}
use gox_browser.Errors.{Error}
use gox_browser.RodDriver.Connecting.{Keeps-ensure_browser, Meets-lib, PageBooks, within}
use gox_browser.RodDriver.Provider.{Launcher, RodConfig, Web, RodState, lib}
use gox_browser.Driver.Triples.{
  Meets, Meets-bind, Meets-fail, Meets-if, Meets-ignoring, Meets-rescue, Meets-return, Meets-then,
  Meets-wrapping, Ends,
}
use gox_browser.Prelude.{Option, none, not, refl, some, suc, ℕ, ◌≡◌}
use gox_browser.RodDriver.Page.{RodBrowser, rod_close, stop_optional}
use gox_browser.Driver.Session.{close_and_fail, viewport_of}
use gox_browser.Prelude.Text.{codes}
use gox_browser.RodDriver.Sessions.{create_body, dress_page, new_page, router_of}
use gox_browser.Driver.Intercept.{hijack_enabled}

module _ {W C K G R L : Type 0} (rod : Rod W C K G R L) (launcher : Launcher W C) (web : Web W C)
    (cfg : RodConfig) (live : W → ℕ) (books : PageBooks rod launcher web live) where
  Meets-close_and_fail :
      {A : Type 0} (g : G) (e : Error) (n : ℕ)
      → Meets (At live (suc n)) (close_and_fail rod {A = A} g e) (λ a. At live (suc n)) (At live n)
  Meets-close_and_fail g e n =
      Meets-then _ _ (Meets-ignoring (rod.close_page g) (books.closed g n))
        (Meets-fail e (λ w h. h))

  Meets-new_page :
      (k : K) (n : ℕ)
      → Meets (At live n) (new_page rod launcher web cfg k) (λ g. At live (suc n)) (At live n)
  Meets-new_page k n =
      Meets-if cfg.stealth_mode _ _ (Meets-wrapping _ _ (books.opened_stealthily k n))
        (Meets-wrapping _ _ (books.opened k (codes "about:blank") n))

  Meets-router_of :
      (g : G) (n : ℕ)
      → Meets
          (At live (suc n))
          (router_of rod launcher web cfg g)
          (λ r. At live (suc n))
          (At live n)
  Meets-router_of g n =
      Meets-if (not (hijack_enabled cfg.intercept)) _ _ (Meets-return none (λ w h. h)) (
        Meets-bind _ _
          (Meets-rescue _ _
            ((Keeps-setup_request_interception rod live books.quiet _ _ g).kept (suc n))
            (λ e. Meets-close_and_fail g e n))
          (λ r. Meets-return (some r) (λ w h. h)))

  Meets-dress_page :
      (opts : AcquireOpts) (g : G) (n : ℕ)
      → Meets
          (At live (suc n))
          (dress_page rod launcher web cfg opts g)
          (λ b. At live (suc n))
          (At live n)
  unfolding dress_page
  Meets-dress_page opts g n =
      Meets-bind _ _
        ((Sure-fingerprint rod live books.quiet cfg.random_fingerprint g
            (viewport_of opts)).kept_surely
          (suc n) (At live n))
        (λ v.
          Meets-then _ _
            (Meets-rescue _ _ ((books.quiet.quiet_set_viewport g v).kept (suc n))
              (λ e. Meets-close_and_fail g _ n))
            (Meets-bind _ _ (Meets-router_of g n) (λ r. Meets-return _ (λ w h. h))))

  Meets-create_body :
      (ctx : C) (opts : AcquireOpts) (n : ℕ)
      → Meets
          (At (within live) n)
          (create_body rod launcher web cfg ctx opts)
          (λ b. At (within live) (suc n))
          (At (within live) n)
  unfolding create_body
  Meets-create_body ctx opts n =
      Meets-bind _ _
        ((Keeps-wrapping _ _ (Keeps-ensure_browser rod launcher web live books cfg ctx)).kept n)
        (λ k.
          Meets-bind _ _ (Meets-lib _ (Meets-new_page k n))
            (λ g. Meets-lib _ (Meets-dress_page opts g n)))

  Sure-stop_optional : (r : Option R) → Sure live (stop_optional rod r)
  Sure-stop_optional none = Sure-return tt
  Sure-stop_optional (some r) = record {
    kept_surely = λ n E. Meets-ignoring _ ((books.quiet.quiet_stop_router r).kept n);
  }

  Meets-rod_close :
      (b : RodBrowser G R) (n : ℕ)
      → Meets (At live (suc n)) (rod_close rod b) (λ u. At live n) (At live n)
  unfolding rod_close
  Meets-rod_close b n =
      Meets-then _ _ ((Sure-stop_optional b.router).kept_surely (suc n) (At live n))
        (Meets-wrapping _ _ (books.closed b.page n))

abbrev launcher_beside : {W C : Type 0} → Launcher W C → Launcher (Counted W) C
launcher_beside launcher = record {
  look_path = quietly launcher.look_path;
  launch = λ ctx path headless proxy. quietly (launcher.launch ctx path headless proxy);
}

abbrev web_beside : {W C : Type 0} → Web W C → Web (Counted W) C
web_beside web = record {
  resolve_url = λ url. quietly (web.resolve_url url);
  build_error = web.build_error;
  send = λ ctx url. quietly (web.send ctx url);
  read_body = quietly web.read_body;
  decode_version = web.decode_version;
  decimal = web.decimal;
}

module _ {W C K G R L : Type 0} (rod : Rod W C K G R L) (launcher : Launcher W C) (web : Web W C)
    (cfg : RodConfig) where
  counting_pages-PageBooks :
      PageBooks (counting_pages rod) (launcher_beside launcher) (web_beside web) count_of
  counting_pages-PageBooks = record {
    quiet = counting_pages-Quiet rod;
    look_path_kept = Keeps-quietly launcher.look_path;
    launch_kept =
        λ ctx path headless proxy. Keeps-quietly (launcher.launch ctx path headless proxy);
    resolve_kept = λ url. Keeps-quietly (web.resolve_url url);
    send_kept = λ ctx url. Keeps-quietly (web.send ctx url);
    body_kept = Keeps-quietly web.read_body;
    dial_kept = λ ctx url. Keeps-quietly (rod.dial ctx url);
    connect_kept = λ k. Keeps-quietly (rod.connect k);
    close_browser_kept = λ k. Keeps-quietly (rod.close_browser k);
    opened = λ k url n. Meets-giving (rod.open_page k url) n;
    opened_stealthily = λ k n. Meets-giving (rod.stealth_page k) n;
    closed = λ g n. Meets-closing (rod.close_page g) n;
  }

  -- `Create` of the rod driver, run on the given library with a count beside it of the pages that the
  -- library returned and on which `Close` was not called.
  abbrev pub counted_create : C → AcquireOpts → Call (RodState (Counted W) K) (RodBrowser G R)
  counted_create = create_body (counting_pages rod) (launcher_beside launcher) (web_beside web) cfg

  -- Whatever the library does in its calls, their failures included: a `Create` that returns a browser
  -- was given one page more than it made calls of `Close`, and one that fails called `Close` as many
  -- times as it was given a page. When the browser that it returned is closed, `Close` was called as
  -- many times as pages were given, even if a call fails. Nothing is said of a run in which a call
  -- panics, nor of whether a page whose `Close` fails is gone.
  pub create_pages :
      (ctx : C) (opts : AcquireOpts) (s : RodState (Counted W) K)
      → Ends
          (λ b t. count_of t.world ≡ suc (count_of s.world))
          (λ t. count_of t.world ≡ count_of s.world)
          (counted_create ctx opts s)
        × Ends
            (λ u t. count_of t.world ≡ count_of s.world)
            (λ t. count_of t.world ≡ count_of s.world)
            ((counted_create ctx opts >>= (λ b. lib (rod_close (counting_pages rod) b))) s)
  create_pages ctx opts s =
      let books = counting_pages-PageBooks in
      let n = count_of s.world in
      let created =
        Meets-create_body (counting_pages rod) (launcher_beside launcher) (web_beside web) cfg
          count_of books ctx opts n in
      let closed : Meets (At (within count_of) n)
          (counted_create ctx opts >>= (λ b. lib (rod_close (counting_pages rod) b)))
          (λ u. At (within count_of) n) (At (within count_of) n) =
        Meets-bind _ _ created (λ b. Meets-lib _ (
          Meets-rod_close (counting_pages rod) (launcher_beside launcher) (web_beside web) cfg
            count_of books b n)) in
      (created.ends s refl, closed.ends s refl)
