-- ===== src/BrowserlessDriver/Provider.antt =====
-- browser/browserless/provider.go: the configuration, the addresses and the router of a provider.
use gox_browser.Prelude.{
  ◌*◌, ◌++◌, Bool, List, Option, [], false, if◌then◌else◌, none, not, some, true, ◌∷◌,
}
use gox_browser.Types.{BrowserType, second, type_browserless}
use gox_browser.Router.{Endpoint, PressureInfo, Router, new_router, trim_slashes}
use gox_browser.Driver.Intercept.{InterceptConfig}
use gox_browser.Prelude.Text.{Text, codes, eq_text}
use gox_browser.Prelude.Int.{eq_ℤ, leb_ℤ, pos, ℤ}
use gox_browser.Prelude.Strings.{replace_first}

pub record EndpointConfig : Type 0 where
  pub url : Text
  pub weight : ℤ

-- `headless` is a pointer.
pub record RemoteConfig : Type 0 where
  pub edition : Text
  pub stealth : Bool
  pub headless : Option Bool
  pub evasion : Bool
  pub block_ads : Bool
  pub random_fingerprint : Bool
  pub proxy : Text
  pub intercept : InterceptConfig
  pub endpoints : List EndpointConfig
  pub route_strategy : Text
  pub health_check_interval : ℤ

-- Addresses and JSON: `parse` is `url.Parse`, `query_get` is `Query().Get`, `without_query` empties
-- `RawQuery`, `show` is `String`; `encode` is `Encode` of a map, and `marshal_args` the JSON of the
-- arguments of a launch.
pub record Urls (U : Type 0) : Type 0 where
  pub parse : Text → Option U
  pub query_get : U → Text → Text
  pub without_query : U → U
  pub show : U → Text
  pub encode : List (Text × Text) → Text
  pub marshal_args : List Text → Text

pub record RemoteProvider : Type 0 where
  pub cfg : RemoteConfig
  pub router : Router

-- The type of the provider and of its browsers.
abbrev pub remote_type : BrowserType
remote_type = type_browserless

abbrev pub no_pressure : PressureInfo
no_pressure = record {
  cpu = pos 0;
  memory = pos 0;
  running = pos 0;
  queued = pos 0;
  max_concurrent = pos 0;
  is_available = false;
}

-- The defaults of `NewProvider`.
unfoldable pub with_defaults : RemoteConfig → RemoteConfig
with_defaults cfg = record cfg {
  route_strategy = if eq_text cfg.route_strategy [] then codes "least-load" else cfg.route_strategy;
  health_check_interval =
      if eq_ℤ cfg.health_check_interval (pos 0)
      then pos (10 * second)
      else cfg.health_check_interval;
}

abbrev pub param : Bool → Text → Text → List (Text × Text)
param true key value = (key, value) ∷ []
param false key value = []

-- `strings.Replace` of the two schemes, and the path.
abbrev pub ws_base : Text → Text
ws_base url =
    replace_first (replace_first (trim_slashes url) (codes "http://") (codes "ws://"))
      (codes "https://") (codes "wss://")
    ++ codes "/chromium"

module _ {U : Type 0} (urls : Urls U) where
  unfoldable pub parse_endpoint_url : Text → Text × Text
  parse_endpoint_url raw = elim (urls.parse raw) [
    | none ↦ (raw, [])
    | some u ↦ (urls.show (urls.without_query u), urls.query_get u (codes "token"))
  ]

  unfoldable pub endpoint_of : EndpointConfig → Endpoint
  unfolding parse_endpoint_url
  endpoint_of e =
      let (url, token) = parse_endpoint_url e.url in
      record {
        url = url;
        token = token;
        weight = if leb_ℤ e.weight (pos 0) then pos 1 else e.weight;
        healthy = true;
        pressure = no_pressure;
      }

  unfoldable pub endpoints_of : List EndpointConfig → List Endpoint
  endpoints_of [] = []
  endpoints_of (e ∷ es) = endpoint_of e ∷ endpoints_of es

  unfoldable pub new_remote_provider : RemoteConfig → RemoteProvider
  unfolding with_defaults endpoints_of
  new_remote_provider config =
      let cfg = with_defaults config in
      record {
        cfg = cfg;
        router =
            new_router (endpoints_of cfg.endpoints) cfg.route_strategy cfg.health_check_interval;
      }

  abbrev pub headed : Option Bool → Bool
  headed none = false
  headed (some headless) = not headless

  -- The parameters of the address, in the order in which they are set.
  unfoldable pub ws_params : RemoteConfig → Endpoint → List (Text × Text)
  ws_params cfg ep =
      let args = urls.marshal_args ((codes "--proxy-server=" ++ cfg.proxy) ∷ []) in
      param (not (eq_text ep.token [])) (codes "token") ep.token
      ++ param cfg.stealth (codes "stealth") (codes "true")
      ++ param (headed cfg.headless) (codes "headless") (codes "false")
      ++ param cfg.block_ads (codes "blockAds") (codes "true")
      ++ param (not (eq_text cfg.proxy [])) (codes "launch") args

  unfoldable pub build_ws_url : RemoteConfig → Endpoint → Text
  unfolding ws_params
  build_ws_url cfg ep =
      let query = urls.encode (ws_params cfg ep) in
      if eq_text query [] then ws_base ep.url else ws_base ep.url ++ codes "?" ++ query
