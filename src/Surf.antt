-- ===== src/Surf.antt =====
-- browser/surf/browser.go and browser/surf/provider.go: the browser that only sends requests. The
-- client of the surf library is an argument; `surf_unsupported` stands for every operation that only
-- answers with `ErrUnsupported`.
pub mod Idle
use gox_browser.Prelude.{◌*◌, ◌++◌, ◌==◌, Option, [], if◌then◌else◌, none, some, ◌∷◌}
use gox_browser.Types.{AcquireOpts, second, BrowserType, type_surf}
use gox_browser.Errors.{Error, Result, err, ok, plain, sentinel, wrap, unsupported}
use gox_browser.Prelude.Text.{Text, codes, eq_text}
use gox_browser.Prelude.Int.{negsuc, pos, ℤ}

pub record SurfBrowser (K : Type 0) : Type 0 where
  pub client : K
  pub last_url : Text

pub record SurfConfig : Type 0 where
  pub timeout : ℤ
  pub proxy : Text

-- What the surf library does.
pub record SurfLibrary (W K C : Type 0) : Type 0 where
  pub build : W → ℤ → Text → W × K
  pub request : W → C → K → Text → W × Option Error
  pub body : W → W × Result Text
  pub close_client : W → K → W
  pub quote : Text → Text

-- `surf.NewProvider`.
unfoldable pub surf_config : SurfConfig → SurfConfig
surf_config cfg = elim cfg.timeout [
  | pos n ↦ if n == 0 then record cfg { timeout = pos (30 * second) } else cfg
  | negsuc n ↦ cfg
]

-- The proxy of the options, or else that of the provider.
abbrev pub chosen_proxy : Text → Text → Text
chosen_proxy [] proxy = proxy
chosen_proxy (c ∷ cs) proxy = c ∷ cs

module _ {W K C : Type 0} (surf : SurfLibrary W K C) where
  unfoldable pub surf_create : SurfConfig → AcquireOpts → W → W × SurfBrowser K
  surf_create cfg opts w =
      let built = surf.build w cfg.timeout (chosen_proxy opts.proxy cfg.proxy) in
      (built.0, record { client = built.1; last_url = [] })

  unfoldable pub surf_navigate : Text → SurfBrowser K → SurfBrowser K × Option Error
  surf_navigate url b = (record b { last_url = url }, none)

  unfoldable pub surf_html : C → SurfBrowser K → W → W × Text × Option Error
  surf_html ctx b w =
      let sent = surf.request w ctx b.client b.last_url in
      let page = surf.body sent.0 in
      if eq_text b.last_url []
      then (w, [], some (plain (codes "browser: surf no url navigated")))
      else elim sent.1 [
        | some e ↦ (sent.0, [], some (wrap (codes "browser: surf get " ++ surf.quote b.last_url) e))
        | none ↦ elim page.1 [
          | err e ↦ (page.0, [], some (wrap (codes "browser: surf read body") e))
          | ok text ↦ (page.0, text, none)
        ]
      ]

  -- `Title`, which answers like the other operations that need a page.
  abbrev pub surf_title : C → SurfBrowser K → W → W × Text × Option Error
  surf_title ctx b w = (w, [], some (sentinel unsupported))

  abbrev pub surf_url : SurfBrowser K → Text × Option Error
  surf_url b = (b.last_url, none)

  abbrev pub surf_close : SurfBrowser K → W → W × Option Error
  surf_close b w = (surf.close_client w b.client, none)

  abbrev pub surf_wait_stable : SurfBrowser K → Option Error
  surf_wait_stable b = none

  abbrev pub surf_text : C → SurfBrowser K → W → W × Text × Option Error
  surf_text = surf_html

  -- `Screenshot`, `Eval`, `EvalDirect`, `Click`, `Type`, `WaitSelector`, `Cookies` and `SetCookies`.
  abbrev pub surf_unsupported : SurfBrowser K → Option Error
  surf_unsupported b = some (sentinel unsupported)

  -- `HealthCheck` and `Close` of the provider.
  abbrev pub surf_health_check : SurfConfig → Option Error
  surf_health_check cfg = none

  abbrev pub surf_provider_close : SurfConfig → Option Error
  surf_provider_close cfg = none

-- The type of the provider and of its browsers.
abbrev pub surf_type : BrowserType
surf_type = type_surf
