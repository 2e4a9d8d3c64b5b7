-- ===== src/Fingerprint.antt =====
-- browser/fingerprint.go. A random choice is made by an argument, the number that `rand.IntN` gives;
-- a string is its bytes, so its code points are ASCII where it is cut.
pub mod Choice
use gox_browser.Prelude.{
  ◌++◌, List, Option, [], false, get_elem?, if◌then◌else◌, length, ltb, take, ℕ, ◌∷◌, suc, zero,
}
use gox_browser.Prelude.Text.{Text, codes, contains}
use gox_browser.Types.{Viewport}
use gox_browser.Prelude.Int.{leb_ℤ, pos, pos_part, ℤ}

abbrev pub user_agents : List Text
user_agents =
    codes
      "Mozilla/5.0 (Windows NT 10.0; Win64; x64) AppleWebKit/537.36 (KHTML, like Gecko) Chrome/131.0.0.0 Safari/537.36"
    ∷ codes
        "Mozilla/5.0 (Macintosh; Intel Mac OS X 10_15_7) AppleWebKit/537.36 (KHTML, like Gecko) Chrome/131.0.0.0 Safari/537.36"
    ∷ codes
        "Mozilla/5.0 (Windows NT 10.0; Win64; x64) AppleWebKit/537.36 (KHTML, like Gecko) Chrome/130.0.0.0 Safari/537.36"
    ∷ codes
        "Mozilla/5.0 (Macintosh; Intel Mac OS X 10_15_7) AppleWebKit/537.36 (KHTML, like Gecko) Chrome/130.0.0.0 Safari/537.36"
    ∷ codes
        "Mozilla/5.0 (X11; Linux x86_64) AppleWebKit/537.36 (KHTML, like Gecko) Chrome/131.0.0.0 Safari/537.36"
    ∷ []

abbrev desktop : ℕ → ℕ → ℕ → Viewport
desktop width height scale = record {
  width = pos width;
  height = pos height;
  scale = scale;
  mobile = false;
}

abbrev pub viewports : List Viewport
viewports =
    desktop 1920 1080 100
    ∷ desktop 1366 768 100
    ∷ desktop 1536 864 125
    ∷ desktop 1440 900 100
    ∷ desktop 1680 1050 100
    ∷ desktop 2560 1440 100
    ∷ desktop 1280 720 100
    ∷ desktop 1600 900 100
    ∷ []

abbrev pub timezones : List Text
timezones =
    codes "America/New_York"
    ∷ codes "America/Chicago"
    ∷ codes "America/Denver"
    ∷ codes "America/Los_Angeles"
    ∷ codes "America/Phoenix"
    ∷ codes "Europe/London"
    ∷ codes "Europe/Paris"
    ∷ codes "Europe/Berlin"
    ∷ codes "Asia/Tokyo"
    ∷ codes "Asia/Shanghai"
    ∷ codes "Asia/Singapore"
    ∷ codes "Australia/Sydney"
    ∷ []

abbrev pub locales : List Text
locales =
    codes "en-US"
    ∷ codes "en-GB"
    ∷ codes "en-CA"
    ∷ codes "en-AU"
    ∷ codes "de-DE"
    ∷ codes "fr-FR"
    ∷ codes "ja-JP"
    ∷ codes "zh-CN"
    ∷ []

-- An index out of range panics.
abbrev pub random_user_agent : (ℕ → ℕ) → Option Text
random_user_agent int_n = get_elem? user_agents (int_n (length user_agents))

abbrev pub random_viewport : (ℕ → ℕ) → Option Viewport
random_viewport int_n = get_elem? viewports (int_n (length viewports))

abbrev pub random_timezone : (ℕ → ℕ) → Option Text
random_timezone int_n = get_elem? timezones (int_n (length timezones))

abbrev pub random_locale : (ℕ → ℕ) → Option Text
random_locale int_n = get_elem? locales (int_n (length locales))

-- `TruncateUA`.
unfoldable pub truncate_ua : Text → ℤ → Text
truncate_ua ua max_len =
    let limit = if leb_ℤ max_len (pos 0) then 60 else pos_part max_len in
    if ltb limit (length ua) then take limit ua ++ codes "..." else ua

-- `PlatformFromUA`.
unfoldable pub platform_from_ua : Text → Text
platform_from_ua ua =
    if contains ua (codes "Macintosh")
    then codes "MacIntel"
    else if contains ua (codes "Linux")
    then codes "Linux x86_64"
    else codes "Win32"

-- A line break and the tabs of the next line.
abbrev pub line : ℕ → Text → Text
line zero text = 10 ∷ text
line (suc tabs) text = line tabs (9 ∷ text)

-- `PlatformOverrideScript`.
unfoldable pub platform_override_script : Text → Text
platform_override_script platform =
    line 2 (codes "Object.defineProperty(navigator, 'platform', {")
    ++ line 3 (codes "get: () => '")
    ++ platform
    ++ codes "',"
    ++ line 3 (codes "configurable: true")
    ++ line 2 (codes "});")
    ++ line 1 []
