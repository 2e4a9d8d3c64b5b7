-- ===== src/RodDriver/Recovery.antt =====
-- The connection that the provider of browser/rod/provider.go keeps, and its panics.
use mathlib.Core.List.Memᴰ
use gox_browser.Driver.{Call, Exit, Rod, failed_with, panics, return, returned, recovered}
use gox_browser.RodDriver.Provider.{
  Launcher, RodConfig, RodState, Web, alive_or, connect_chrome, ensure_browser, ensure_from, lib,
  lifted, reconnect, set_browser,
}
use gox_browser.Prelude.{List, Option, none, refl, some, subst, ◌≡◌, ◌++◌, true}
use gox_browser.Driver.Triples.{Meets, Meets-bind, Meets-return, Meets-then, Ends}
use gox_browser.RodDriver.Sessions.{
  close_connection, reset, rod_provider_close, close_kept, create_body, recover_create, rod_create,
}
use gox_browser.Types.{AcquireOpts}
use gox_browser.RodDriver.Page.{RodBrowser}
use gox_browser.Prelude.Text.{Text, codes}
use gox_browser.Errors.{is_connection_error, plain, message, pool_closed}
use gox_browser.Errors.Laws.{wraps, is_connection_error-Holds, wraps_keep}

-- The pattern is the last one of the list.
create_panic_known :
    (t : Text)
    → is_connection_error (some (plain (codes "browser: rod create panic: " ++ t))) ≡ true
unfolding message
create_panic_known t =
    (is_connection_error-Holds (plain (codes "browser: rod create panic: " ++ t))).1 (
      codes "rod create panic",
      Memᴰ.tail (Memᴰ.tail (Memᴰ.tail (Memᴰ.tail (Memᴰ.tail (Memᴰ.tail (Memᴰ.head refl)))))),
      codes "browser: ",
      codes ": " ++ t,
      refl,
    )

module _ {W C K G R L : Type 0} (rod : Rod W C K G R L) (launcher : Launcher W C) (web : Web W C)
    (cfg : RodConfig) where
  -- A call of the library leaves the field as it is.
  Ends-field :
      {A : Type 0} (k : Option K) (r : W × Exit A)
      → Ends (λ a s. s.browser ≡ k) (λ s. s.browser ≡ k) (lifted k r)
  Ends-field k (w, returned a) = refl
  Ends-field k (w, failed_with e) = refl
  Ends-field k (w, panics t) = tt

  Meets-field :
      {A : Type 0} (k : Option K) (m : Call W A)
      → Meets (λ s. s.browser ≡ k) (lib m) (λ a s. s.browser ≡ k) (λ s. s.browser ≡ k)
  Meets-field k m = record {
    ends = λ s h.
        subst (λ b. Ends (λ a t. t.browser ≡ b) (λ t. t.browser ≡ b) (lib m s)) h
          (Ends-field s.browser (m s.world));
  }

  Meets-reconnect :
      (ctx : C)
      → Meets
          (λ s. s.browser ≡ none)
          (reconnect rod launcher web cfg ctx)
          (λ k s. s.browser ≡ some k)
          (λ s. s.browser ≡ none)
  unfolding reconnect
  Meets-reconnect ctx =
      Meets-bind _ _ (Meets-field none (connect_chrome rod launcher web cfg ctx)) (λ k.
        Meets-then {Q = λ s. s.browser ≡ some k} (set_browser (some k)) (return k)
          (record { ends = λ s h. refl }) (Meets-return k (λ s h. h)))

  Ends-alive_or :
      (ctx : C) (k : K) (r : RodState W K × Exit (List G))
      → Ends (λ listed s. s.browser ≡ some k) (λ s. s.browser ≡ some k) r
      → Ends
          (λ b s. s.browser ≡ some b)
          (λ s. s.browser ≡ none)
          (alive_or rod launcher web cfg ctx k r)
  Ends-alive_or ctx k (s, returned listed) h = h
  Ends-alive_or ctx k (s, failed_with e) h =
      (Meets-reconnect ctx).ends (record s { browser = none }) refl
  Ends-alive_or ctx k (s, panics t) h = tt

  Ends-ensure_from :
      (ctx : C) (k : Option K) (s : RodState W K)
      → s.browser ≡ k
      → Ends
          (λ b t. t.browser ≡ some b)
          (λ t. t.browser ≡ none)
          (ensure_from rod launcher web cfg ctx k s)
  unfolding ensure_from
  Ends-ensure_from ctx none s h = (Meets-reconnect ctx).ends s h
  Ends-ensure_from ctx (some k) s h =
      Ends-alive_or ctx k (lib (rod.pages k) s) ((Meets-field (some k) (rod.pages k)).ends s h)

  Ends-reset :
      (r : RodState W K × Exit Unit)
      → Ends (λ u t. t.browser ≡ none) (λ t. t.browser ≡ none) (reset rod launcher web cfg r)
  Ends-reset (s, returned u) = refl
  Ends-reset (s, failed_with e) = refl
  Ends-reset (s, panics t) = tt

  Ends-close_kept :
      (k : Option K) (s : RodState W K)
      → s.browser ≡ k
      → Ends (λ u t. t.browser ≡ none) (λ t. t.browser ≡ none) (close_kept rod launcher web cfg k s)
  unfolding close_kept
  Ends-close_kept none s h = h
  Ends-close_kept (some k) s h = Ends-reset (lib (close_connection rod launcher web cfg k) s)

  -- Whatever connection the provider keeps before and whatever Chrome answers, unless a call panics:
  -- when `ensureBrowser` returns a connection it is the one that the provider keeps, and when it fails
  -- the provider keeps none; and after `Close` it keeps none, even if closing fails.
  pub kept_connection :
      (ctx : C) (s : RodState W K)
      → Ends
          (λ k t. t.browser ≡ some k)
          (λ t. t.browser ≡ none)
          (ensure_browser rod launcher web cfg ctx s)
        × Ends
            (λ u t. t.browser ≡ none)
            (λ t. t.browser ≡ none)
            (rod_provider_close rod launcher web cfg s)
  unfolding ensure_browser rod_provider_close
  kept_connection ctx s = (Ends-ensure_from ctx s.browser s refl, Ends-close_kept s.browser s refl)

  recovered-panics :
      (t : Text) (r : RodState W K × Exit (RodBrowser G R))
      → r.1 ≡ panics t
      → recovered (recover_create rod launcher web cfg) r
        ≡ recover_create rod launcher web cfg t r.0
  recovered-panics t (s, exit) h = rw h refl

  -- A `Create` that panics returns an error all the same. That error is a connection error, in every
  -- text that wraps it, and the provider keeps no connection, so the next `Create` connects anew.
  pub create_recovers :
      (ctx : C) (opts : AcquireOpts) (s : RodState W K) (t : Text) (texts : List Text)
      → (create_body rod launcher web cfg ctx opts s).1 ≡ panics t
      → let after_panic = (create_body rod launcher web cfg ctx opts s).0 in
        let dropped = record after_panic { browser = none } in
        let error = plain (codes "browser: rod create panic: " ++ t) in
        (rod_create rod launcher web cfg ctx opts s ≡ (dropped, failed_with error))
        × (is_connection_error (some (wraps texts error)) ≡ true)
        × (ensure_browser rod launcher web cfg ctx dropped
            ≡ reconnect rod launcher web cfg ctx dropped)
  unfolding rod_create ensure_browser ensure_from
  create_recovers ctx opts s t texts h =
      let (kept, same) =
        wraps_keep texts (plain (codes "browser: rod create panic: " ++ t)) pool_closed in
      (
        recovered-panics t (create_body rod launcher web cfg ctx opts s) h,
        kept (create_panic_known t),
        refl,
      )
