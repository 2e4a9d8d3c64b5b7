-- ===== src/Types.antt =====
-- browser/types.go: the plain data that the components exchange.
use gox_browser.Prelude.{ℕ, ◌*◌, ◌^◌, Bool, false, List, [], ◌==◌, if◌then◌else◌}
use gox_browser.Prelude.Int.{ℤ, pos}
use gox_browser.Prelude.Text.{Text, codes}

-- `Type` is an int whose constants are numbered from 0.
abbrev pub BrowserType : Type 0
BrowserType = ℕ

abbrev pub type_rod_headless : BrowserType
type_rod_headless = 0

abbrev pub type_rod_headed : BrowserType
type_rod_headed = 1

abbrev pub type_browserless : BrowserType
type_browserless = 2

abbrev pub type_surf : BrowserType
type_surf = 3

abbrev pub type_camoufox : BrowserType
type_camoufox = 4

-- `Type.String`.
unfoldable pub type_name : BrowserType → Text
type_name t =
    if t == type_rod_headless
    then codes "rod-headless"
    else if t == type_rod_headed
    then codes "rod-headed"
    else if t == type_browserless
    then codes "browserless"
    else if t == type_surf
    then codes "surf"
    else if t == type_camoufox
    then codes "camoufox"
    else codes "unknown"

-- A duration is a number of nanoseconds.
abbrev pub second : ℕ
second = 10 ^ 9

-- `scale` counts hundredths.
pub record Viewport : Type 0 where
  pub width : ℤ
  pub height : ℤ
  pub scale : ℕ
  pub mobile : Bool

abbrev pub default_viewport : Viewport
default_viewport = record { width = pos 1920; height = pos 1080; scale = 100; mobile = false }

pub record AcquireOpts : Type 0 where
  pub browser_type : BrowserType
  pub viewport : Viewport
  pub user_agent : Text
  pub locale : Text
  pub proxy : Text

-- `AcquireOpts{Type: t}`: every other field has its zero value.
abbrev pub opts_of : BrowserType → AcquireOpts
opts_of t = record {
  browser_type = t;
  viewport = record { width = pos 0; height = pos 0; scale = 0; mobile = false };
  user_agent = [];
  locale = [];
  proxy = [];
}

pub record Cookie : Type 0 where
  pub name : Text
  pub value : Text
  pub domain : Text
  pub path : Text
  pub secure : Bool
  pub http_only : Bool

pub record PoolConfig : Type 0 where
  pub max_instances : ℤ
  pub idle_timeout : ℤ
  pub acquire_timeout : ℤ
  pub health_check_freq : ℤ
  pub ping_timeout : ℤ

abbrev pub default_pool_config : PoolConfig
default_pool_config = record {
  max_instances = pos 8;
  idle_timeout = pos (300 * second);
  acquire_timeout = pos (30 * second);
  health_check_freq = pos (30 * second);
  ping_timeout = pos (2 * second);
}

pub record PoolStats : Type 0 where
  pub total : ℤ
  pub available : ℕ
  pub in_use : ℤ
  pub by_type : List (BrowserType × ℕ)

-- The verdict of a block detector.
pub record BlockResult : Type 0 where
  pub blocked : Bool
  pub reason : Text
  pub kind : Text

abbrev pub not_blocked : BlockResult
not_blocked = record { blocked = false; reason = []; kind = [] }

-- The verdict of the page type probe.
pub record DetectResult : Type 0 where
  pub suggested_type : BrowserType
  pub is_ssr : Bool
  pub score : ℤ
  pub signals : List Text
