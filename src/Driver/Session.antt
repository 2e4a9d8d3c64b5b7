-- ===== src/Driver/Session.antt =====
-- What the drivers of Chrome do with a new page: the steps that `Create` of browser/rod/provider.go
-- shares with browser/browserless/provider.go, and the random choices of browser/fingerprint.go.
use gox_browser.Driver.{
  ◌>>=◌, ◌>>◌, Call, Decision, Request, Rod, fail, ignoring, panics, return, returned, wrapping,
}
use gox_browser.Prelude.{
  ◌&&◌, ◌==◌, Bool, List, Option, false, get_elem?, if◌then◌else◌, length, none, not, some, true,
}
use gox_browser.Types.{AcquireOpts, Viewport, default_viewport}
use gox_browser.Errors.{Error}
use gox_browser.Prelude.Text.{Text, codes}
use gox_browser.Prelude.Int.{eq_ℤ, pos}
use gox_browser.Fingerprint.{locales, timezones, viewports}

-- An index out of range panics.
abbrev pub at_index : {W A : Type 0} → Option A → Call W A
at_index none s = (s, panics (codes "runtime error: index out of range"))
at_index (some a) s = (s, returned a)

-- A call that always returns.
abbrev pub total : {W A : Type 0} → (W → W × A) → Call W A
total m w = let (w1, a) = m w in (w1, returned a)

abbrev pub same_bool : Bool → Bool → Bool
same_bool true b = b
same_bool false b = not b

abbrev pub same_viewport : Viewport → Viewport → Bool
same_viewport v u =
    eq_ℤ v.width u.width
    && eq_ℤ v.height u.height
    && v.scale == u.scale
    && same_bool v.mobile u.mobile

abbrev pub viewport_of : AcquireOpts → Viewport
viewport_of opts = if eq_ℤ opts.viewport.width (pos 0) then default_viewport else opts.viewport

module _ {W C K G R L : Type 0} (rod : Rod W C K G R L) where
  -- An element of a list, at random.
  abbrev pub choose : {A : Type 0} → List A → Call W A
  choose choices = do i ← total (rod.int_n (length choices)); at_index (get_elem? choices i)

  abbrev pub chosen_viewport : Viewport → Call W Viewport
  chosen_viewport v = if same_viewport v default_viewport then choose viewports else return v

  -- The viewport of a page whose time zone and language are set at random if this is configured.
  unfoldable pub fingerprint : Bool → G → Viewport → Call W Viewport
  fingerprint random page v = if not random then return v else (do
    viewport ← chosen_viewport v
    tz ← choose timezones
    ignoring (rod.set_timezone page tz)
    locale ← choose locales
    ignoring (rod.set_locale page locale)
    return viewport)

  abbrev pub run : R → Call W Unit
  run router w = (rod.run_router router w, returned tt)

  -- `setupRequestInterception`, with the text of its error and its handler.
  unfoldable pub setup_request_interception : Text → (Request → Decision) → G → Call W R
  setup_request_interception text decide page = do
    router ← total (rod.hijack page)
    wrapping text (rod.add_handler router decide)
    run router
    return router

  -- `page.Close(); return nil, err`.
  abbrev pub close_and_fail : {A : Type 0} → G → Error → Call W A
  close_and_fail page e = do ignoring (rod.close_page page); fail e
