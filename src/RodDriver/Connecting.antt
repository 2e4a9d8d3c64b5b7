-- ===== src/RodDriver/Connecting.antt =====
-- The connection of the rod provider (browser/rod/provider.go) and a count of pages.
use gox_browser.Driver.{Call, Exit, Rod, failed_with, panics, returned}
use gox_browser.Prelude.{◌==◌, Bool, Option, [], none, some, suc, ℕ, List, ◌||◌}
use gox_browser.Driver.Books.{
  At, Keeps, Keeps-bind, Keeps-fail, Keeps-if, Keeps-return, Keeps-then, Keeps-wrapping, Quiet,
  Keeps-ignoring, Keeps-rescue,
}
use gox_browser.Errors.{Error, Result, err, ok}
use gox_browser.RodDriver.Provider.{
  Launcher, RodConfig, RodState, Web, ask_version, lib, lifted, of_result, optional_error, alive_or,
  connect_chrome, control_url, ensure_browser, ensure_from, find_binary, new_connection, reconnect,
  resolve_remote_url, set_browser, found_path,
}
use gox_browser.Driver.Triples.{Meets, Ends}
use gox_browser.Prelude.Text.{Text, eq_text, codes, has_prefix}

-- The laws of a count of the pages that the library gave to the driver and that the driver did not
-- ask it to close. RodDriver/Pages has a count that obeys them whatever the library does.
pub record PageBooks {W C K G R L : Type 0} (rod : Rod W C K G R L) (launcher : Launcher W C)
    (web : Web W C) (live : W → ℕ) : Type 0 where
  pub quiet : Quiet rod live
  pub look_path_kept : Keeps live launcher.look_path
  pub launch_kept :
      (ctx : C) (path : Text) (headless : Bool) (proxy : Text)
      → Keeps live (launcher.launch ctx path headless proxy)
  pub resolve_kept : (url : Text) → Keeps live (web.resolve_url url)
  pub send_kept : (ctx : C) (url : Text) → Keeps live (web.send ctx url)
  pub body_kept : Keeps live web.read_body
  pub dial_kept : (ctx : C) (url : Text) → Keeps live (rod.dial ctx url)
  pub connect_kept : (k : K) → Keeps live (rod.connect k)
  pub close_browser_kept : (k : K) → Keeps live (rod.close_browser k)
  pub opened :
      (k : K) (url : Text) (n : ℕ)
      → Meets (At live n) (rod.open_page k url) (λ g. At live (suc n)) (At live n)
  pub opened_stealthily :
      (k : K) (n : ℕ) → Meets (At live n) (rod.stealth_page k) (λ g. At live (suc n)) (At live n)
  pub closed :
      (g : G) (n : ℕ) → Meets (At live (suc n)) (rod.close_page g) (λ u. At live n) (At live n)

abbrev pub within : {W K : Type 0} → (W → ℕ) → RodState W K → ℕ
within live s = live s.world

Ends-lifted :
    {W K A : Type 0} (Q : A → W → Type 0) (E : W → Type 0) (k : Option K) (r : W × Exit A)
    → Ends Q E r
    → Ends (λ a s. Q a s.world) (λ s. E s.world) (lifted k r)
Ends-lifted Q E k (w, returned a) h = h
Ends-lifted Q E k (w, failed_with e) h = h
Ends-lifted Q E k (w, panics t) h = h

module _ {W K A : Type 0} {P : W → Type 0} {Q : A → W → Type 0} {E : W → Type 0} where
  pub Meets-lib :
      (m : Call W A)
      → Meets P m Q E
      → Meets (λ s. P s.world) (lib {K = K} m) (λ a s. Q a s.world) (λ s. E s.world)
  Meets-lib m h = record { ends = λ s p. Ends-lifted Q E s.browser (m s.world) (h.ends s.world p) }

module _ {W K A : Type 0} {live : W → ℕ} where
  pub Keeps-lib : (m : Call W A) → Keeps live m → Keeps (within live) (lib {K = K} m)
  Keeps-lib m h = record { kept = λ n. Meets-lib m (h.kept n) }

module _ {W C K G R L : Type 0} (rod : Rod W C K G R L) (launcher : Launcher W C) (web : Web W C)
    (live : W → ℕ) (books : PageBooks rod launcher web live) where
  Keeps-optional_error : (e : Option Error) → Keeps live (optional_error {S = W} e)
  Keeps-optional_error none = Keeps-return tt
  Keeps-optional_error (some e) = Keeps-fail e

  Keeps-of_result : {A : Type 0} (r : Result A) → Keeps live (of_result {S = W} r)
  Keeps-of_result (ok a) = Keeps-return a
  Keeps-of_result (err e) = Keeps-fail e

  Keeps-ask_version : (cfg : RodConfig) (ctx : C) → Keeps live (ask_version rod.quote web cfg ctx)
  unfolding ask_version
  Keeps-ask_version cfg ctx = Keeps-then _ _ (Keeps-wrapping _ _ (Keeps-optional_error _)) (
      Keeps-bind _ _ (Keeps-wrapping _ _ (books.send_kept ctx _)) (λ status.
        Keeps-bind _ _ (Keeps-wrapping _ _ books.body_kept) (λ body.
          Keeps-then _ _ (Keeps-if (status == 200) _ _ (Keeps-return tt) (Keeps-fail _)) (
            Keeps-bind _ _ (Keeps-wrapping _ _ (Keeps-of_result (web.decode_version body)))
              (λ ws. Keeps-if (eq_text ws []) _ _ (Keeps-fail _) (Keeps-return _))))))

  Keeps-resolve_remote_url :
      (cfg : RodConfig) (ctx : C) → Keeps live (resolve_remote_url rod.quote web cfg ctx)
  unfolding resolve_remote_url
  Keeps-resolve_remote_url cfg ctx =
      Keeps-if
        (has_prefix cfg.remote_url (codes "ws://") || has_prefix cfg.remote_url (codes "wss://")) _
        _ (Keeps-return _)
        (Keeps-if (eq_text cfg.remote_token []) _ _
          (Keeps-wrapping _ _ (books.resolve_kept cfg.remote_url)) (Keeps-ask_version cfg ctx))

  Keeps-found_path : (found : Option Text) → Keeps live (found_path {W = W} found)
  Keeps-found_path none = Keeps-fail _
  Keeps-found_path (some path) = Keeps-return path

  Keeps-find_binary : (cfg : RodConfig) → Keeps live (find_binary rod launcher web cfg)
  unfolding find_binary
  Keeps-find_binary cfg =
      Keeps-if (eq_text cfg.bin_path []) _ _ (Keeps-bind _ _ books.look_path_kept Keeps-found_path)
        (Keeps-return cfg.bin_path)

  Keeps-control_url :
      (cfg : RodConfig) (ctx : C) → Keeps live (control_url rod launcher web cfg ctx)
  unfolding control_url
  Keeps-control_url cfg ctx =
      Keeps-if (eq_text cfg.remote_url []) _ _
        (Keeps-bind _ _ (Keeps-find_binary cfg)
          (λ path. Keeps-wrapping _ _ (books.launch_kept ctx path cfg.headless cfg.proxy)))
        (Keeps-resolve_remote_url cfg ctx)

  Keeps-new_connection :
      (cfg : RodConfig) (ctx : C) (url : Text)
      → Keeps live (new_connection rod launcher web cfg ctx url)
  unfolding new_connection
  Keeps-new_connection cfg ctx url =
      Keeps-if (eq_text cfg.remote_url []) _ _ (Keeps-return _)
        (Keeps-wrapping _ _ (books.dial_kept ctx url))

  Keeps-connect_chrome :
      (cfg : RodConfig) (ctx : C) → Keeps live (connect_chrome rod launcher web cfg ctx)
  unfolding connect_chrome
  Keeps-connect_chrome cfg ctx = Keeps-bind _ _ (Keeps-control_url cfg ctx) (λ url.
      Keeps-bind _ _ (Keeps-new_connection cfg ctx url) (λ k.
        Keeps-then _ _ (Keeps-wrapping _ _ (books.connect_kept k)) (
          Keeps-bind _ _
            (Keeps-rescue _ _ (books.quiet.quiet_pages k)
              (λ e. Keeps-then _ _ (Keeps-ignoring _ (books.close_browser_kept k)) (Keeps-fail _)))
            (λ listed. Keeps-return k))))

  Keeps-set_browser : (k : Option K) → Keeps (within live) (set_browser {W = W} k)
  Keeps-set_browser k = record { kept = λ n. record { ends = λ s h. h } }

  Keeps-reconnect :
      (cfg : RodConfig) (ctx : C) → Keeps (within live) (reconnect rod launcher web cfg ctx)
  unfolding reconnect
  Keeps-reconnect cfg ctx =
      Keeps-bind _ _ (Keeps-lib _ (Keeps-connect_chrome cfg ctx))
        (λ k. Keeps-then _ _ (Keeps-set_browser (some k)) (Keeps-return k))

  Ends-alive_or :
      (cfg : RodConfig) (ctx : C) (k : K) (n : ℕ) (r : RodState W K × Exit (List G))
      → Ends (λ listed. At (within live) n) (At (within live) n) r
      → Ends (λ b. At (within live) n) (At (within live) n) (alive_or rod launcher web cfg ctx k r)
  Ends-alive_or cfg ctx k n (s, returned listed) h = h
  Ends-alive_or cfg ctx k n (s, failed_with e) h =
      ((Keeps-then _ _ (Keeps-set_browser none) (Keeps-reconnect cfg ctx)).kept n).ends s h
  Ends-alive_or cfg ctx k n (s, panics t) h = tt

  Keeps-ensure_from :
      (cfg : RodConfig) (ctx : C) (k : Option K)
      → Keeps (within live) (ensure_from rod launcher web cfg ctx k)
  unfolding ensure_from
  Keeps-ensure_from cfg ctx none = Keeps-reconnect cfg ctx
  Keeps-ensure_from cfg ctx (some k) = record {
    kept = λ n. record {
      ends = λ s h.
          Ends-alive_or cfg ctx k n (lib (rod.pages k) s)
            (((Keeps-lib (rod.pages k) (books.quiet.quiet_pages k)).kept n).ends s h);
    };
  }

  -- Connecting asks for no page and closes none.
  pub Keeps-ensure_browser :
      (cfg : RodConfig) (ctx : C) → Keeps (within live) (ensure_browser rod launcher web cfg ctx)
  unfolding ensure_browser
  Keeps-ensure_browser cfg ctx = record {
    kept = λ n. record { ends = λ s h. ((Keeps-ensure_from cfg ctx s.browser).kept n).ends s h };
  }
