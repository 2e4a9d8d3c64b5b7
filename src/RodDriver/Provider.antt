-- ===== src/RodDriver/Provider.antt =====
-- browser/rod/provider.go: the factory of pages, which keeps one connection to Chrome.
use gox_browser.Driver.{
  ◌>>=◌, ◌>>◌, Call, Exit, Rod, fail, failed_with, ignoring, panics, rescue, return, returned,
  wrapping,
}
use gox_browser.Prelude.{◌++◌, ◌==◌, Bool, List, Option, [], if◌then◌else◌, none, some, ◌||◌, ℕ}
use gox_browser.Errors.{Error, Result, err, ok, plain, wrap}
use gox_browser.Driver.Intercept.{InterceptConfig}
use gox_browser.Prelude.Text.{Text, codes, contains, eq_text, has_prefix}
use gox_browser.Prelude.Strings.{before_char, replace_first, trim_prefix}
use gox_browser.Router.{trim_slashes}

pub record RodConfig : Type 0 where
  pub remote_url : Text
  pub remote_token : Text
  pub headless : Bool
  pub stealth_mode : Bool
  pub random_fingerprint : Bool
  pub proxy : Text
  pub intercept : InterceptConfig
  pub bin_path : Text

-- The launcher of Chrome: `LookPath`, and `Launch` with a binary, a mode and a proxy.
pub record Launcher (W C : Type 0) : Type 0 where
  pub look_path : Call W (Option Text)
  pub launch : C → Text → Bool → Text → Call W Text

-- The provider's field `browser`, with the state of the world.
pub record RodState (W K : Type 0) : Type 0 where
  pub world : W
  pub browser : Option K

abbrev pub lifted : {W K A : Type 0} → Option K → W × Exit A → RodState W K × Exit A
lifted k (w, r) = (record { world = w; browser = k }, r)

-- A call of the library, which does not see the field.
abbrev pub lib : {W K A : Type 0} → Call W A → Call (RodState W K) A
lib m s = lifted s.browser (m s.world)

abbrev pub set_browser : {W K : Type 0} → Option K → Call (RodState W K) Unit
set_browser k s = (record s { browser = k }, returned tt)

-- What the program reads over HTTP: `ResolveURL` of the launcher, and the version of a remote Chrome.
pub record Web (W C : Type 0) : Type 0 where
  pub resolve_url : Text → Call W Text
  pub build_error : Text → Option Error
  pub send : C → Text → Call W ℕ
  pub read_body : Call W Text
  pub decode_version : Text → Result Text
  pub decimal : ℕ → Text

abbrev pub optional_error : {S : Type 0} → Option Error → Call S Unit
optional_error none = return tt
optional_error (some e) = fail e

abbrev pub of_result : {S A : Type 0} → Result A → Call S A
of_result (ok a) = return a
of_result (err e) = fail e

-- The address that a remote Chrome gives of itself, on the host that the program knows it by.
unfoldable pub on_remote_host : Text → Text → Text → Text
on_remote_host remote token ws =
    let host =
      trim_slashes (trim_prefix (trim_prefix remote (codes "http://")) (codes "https://")) in
    let named = replace_first ws (codes "0.0.0.0") (before_char b':' host) in
    let reached = if contains named host then named else codes "ws://" ++ host ++ codes "/" in
    if contains reached (codes "?")
    then reached ++ codes "&token=" ++ token
    else reached ++ codes "?token=" ++ token

module _ {W C : Type 0} (quote : Text → Text) (web : Web W C) where
  -- `resolveRemoteURL` behind its first two tests.
  unfoldable pub ask_version : RodConfig → C → Call W Text
  unfolding on_remote_host
  ask_version cfg ctx =
      let version_url =
        trim_slashes cfg.remote_url ++ codes "/json/version?token=" ++ cfg.remote_token in
      do
        wrapping (codes "browser: rod build version request " ++ quote version_url)
            (optional_error (web.build_error version_url))
        status ←
            wrapping (codes "browser: rod resolve remote url " ++ quote version_url)
              (web.send ctx version_url)
        body ← wrapping (codes "browser: rod read version response") web.read_body
        (if status == 200
            then return tt
            else fail (
                plain (
                  codes "browser: rod version endpoint returned "
                  ++ web.decimal status
                  ++ codes ": "
                  ++ body)))
        ws ←
            wrapping (codes "browser: rod parse version response")
              (of_result (web.decode_version body))
        (if eq_text ws []
            then fail
                (plain (codes "browser: rod empty webSocketDebuggerUrl from " ++ quote version_url))
            else return (on_remote_host cfg.remote_url cfg.remote_token ws))

  unfoldable pub resolve_remote_url : RodConfig → C → Call W Text
  unfolding ask_version
  resolve_remote_url cfg ctx =
      if has_prefix cfg.remote_url (codes "ws://") || has_prefix cfg.remote_url (codes "wss://")
      then return cfg.remote_url
      else if eq_text cfg.remote_token []
      then wrapping (codes "browser: rod resolve remote url " ++ quote cfg.remote_url)
          (web.resolve_url cfg.remote_url)
      else ask_version cfg ctx

abbrev pub found_path : {W : Type 0} → Option Text → Call W Text
found_path none = fail (plain (codes "browser: rod chrome binary not found"))
found_path (some path) = return path

module _ {W C K G R L : Type 0} (rod : Rod W C K G R L) (launcher : Launcher W C) (web : Web W C)
    (cfg : RodConfig) where
  unfoldable pub find_binary : Call W Text
  find_binary =
      if eq_text cfg.bin_path []
      then (do found ← launcher.look_path; found_path found)
      else return cfg.bin_path

  -- Where Chrome listens: a remote one, or one that is started here.
  unfoldable pub control_url : C → Call W Text
  unfolding find_binary resolve_remote_url
  control_url ctx =
      if eq_text cfg.remote_url []
      then (do
        path ← find_binary
        wrapping (codes "browser: rod launch chrome")
            (launcher.launch ctx path cfg.headless cfg.proxy))
      else resolve_remote_url rod.quote web cfg ctx

  -- The client of the connection; the random key of its header is part of `dial`.
  unfoldable pub new_connection : C → Text → Call W K
  new_connection ctx url =
      if eq_text cfg.remote_url []
      then return (rod.control url)
      else wrapping (codes "browser: rod connect") (rod.dial ctx url)

  -- A new connection, which is closed again if Chrome does not list its pages.
  unfoldable pub connect_chrome : C → Call W K
  unfolding control_url new_connection
  connect_chrome ctx = do
    url ← control_url ctx
    k ← new_connection ctx url
    wrapping (codes "browser: rod connect") (rod.connect k)
    listed ← rescue (rod.pages k) (λ e. (do
      ignoring (rod.close_browser k)
      fail (wrap (codes "browser: rod post-connect health check") e)))
    return k

  -- `ensureBrowser` without a connection that is alive.
  unfoldable pub reconnect : C → Call (RodState W K) K
  unfolding connect_chrome
  reconnect ctx = do k ← lib (connect_chrome ctx); set_browser (some k); return k

  abbrev pub alive_or : C → K → RodState W K × Exit (List G) → RodState W K × Exit K
  alive_or ctx k (s, returned listed) = (s, returned k)
  alive_or ctx k (s, failed_with e) = (set_browser none >> reconnect ctx) s
  alive_or ctx k (s, panics t) = (s, panics t)

  unfoldable pub ensure_from : C → Option K → Call (RodState W K) K
  unfolding reconnect
  ensure_from ctx none = reconnect ctx
  ensure_from ctx (some k) = λ s. alive_or ctx k (lib (rod.pages k) s)

  unfoldable pub ensure_browser : C → Call (RodState W K) K
  unfolding ensure_from
  ensure_browser ctx s = ensure_from ctx s.browser s
