-- ===== src/Examples/RemoteRuns.antt =====
-- Examples for the browserless driver and for the interception of requests.
use gox_browser.Prelude.Strings.{replace_first}
use gox_browser.Router.{trim_slashes}
use gox_browser.Prelude.Text.{trim_space}
use gox_browser.Prelude.Int.{◌+ℤ◌, negsuc, wrap_int}
use gox_browser.Driver.Triples.{Ends}
use gox_browser.Prelude.{[], false, none, refl, some, true, ◌↔◌, ◌∷◌, ◌≡◌, ℕ}
use gox_browser.Driver.Ledger.{Counted, count_of, counting_connections, http_beside}
use gox_browser.BrowserlessDriver.Leaks.{remote_create_leaks}
use gox_browser.Router.{
  Endpoint, Http, PressureInfo, Router, check_capacity, fetch_pressure, least_load, pick,
  pick_least_load, pick_round_robin, round_robin,
}
use gox_browser.Driver.Intercept.{
  InterceptConfig, browserless_decision, hijack_enabled, is_allowed_script_domain, is_listed,
  rod_decision, script_kind,
}
use gox_browser.Driver.Intercept.Decisions.{IsBlocked, blocks_iff}
use gox_browser.BrowserlessDriver.Provider.{
  RemoteConfig, Urls, no_pressure, endpoint_of, parse_endpoint_url, ws_base,
}
use gox_browser.BrowserlessDriver.Sessions.{
  RemoteState, connect_remote, create_page, ensure_remote, open_remote, pick_endpoint,
  remote_create,
}
use gox_browser.Driver.{Request, block, let_pass, returned}
use gox_browser.Prelude.Text.{Text, codes, eq_text, has_prefix}
use gox_browser.Examples.ChromeWorld.{World, test_rod}
use gox_browser.Prelude.Strings.{has_suffix}
use gox_browser.Errors.{ok}
use gox_browser.Prelude.Int.{pos}
use gox_browser.BrowserlessDriver.Page.{
  remote_close, RemotePage, eval_expression, get_or_create_isolated_world, remote_eval,
  remote_navigate,
}
use gox_browser.Driver.Session.{setup_request_interception}
use gox_browser.Examples.{surf_opts}

abbrev calm : PressureInfo
calm = record no_pressure { is_available = true }

abbrev test_http : Http World Unit
test_http = record {
  with_timeout = λ c d. c;
  build_error = λ url. none;
  send = λ w c url. (w, ok 200);
  read_body = λ w. (w, [], none);
  decode = λ body. ok calm;
  decimal = λ n. [];
}

abbrev test_urls : Urls Text
test_urls = record {
  parse = λ s. some s;
  query_get = λ u key. [];
  without_query = λ u. u;
  show = λ u. u;
  encode = λ params. [];
  marshal_args = λ args. [];
}

abbrev blocking : InterceptConfig
blocking = record {
  block_resources = codes "Image" ∷ [];
  block_third_party_script = true;
  allowed_script_domains = codes "site.com" ∷ [];
}

abbrev remote_config : RemoteConfig
remote_config = record {
  edition = [];
  stealth = true;
  headless = none;
  evasion = false;
  block_ads = false;
  random_fingerprint = false;
  proxy = [];
  intercept = blocking;
  endpoints = [];
  route_strategy = codes "least-load";
  health_check_interval = pos 0;
}

abbrev one_endpoint : Endpoint
one_endpoint = record {
  url = codes "http://a:3000";
  token = [];
  weight = pos 1;
  healthy = true;
  pressure = no_pressure;
}

abbrev one_router : Router
one_router = record {
  endpoints = one_endpoint ∷ [];
  strategy = codes "least-load";
  rr_index = 0;
  checking = false;
  stopped = false;
}

abbrev before_create : RemoteState (Counted World)
before_create = record { world = ((0, 0), 0); router = one_router }

abbrev after_connect : RemoteState (Counted World)
after_connect = record { world = ((0, 1), 1); router = one_router }

-- Other picks take no step of the counter.
abbrev undisturbed : ℕ → ℕ
undisturbed k = 0

endpoint_picked : pick_endpoint undisturbed before_create ≡ (before_create, returned one_endpoint)
unfolding pick pick_least_load pick_round_robin round_robin least_load eq_text ◌+ℤ◌ wrap_int
endpoint_picked = refl

endpoint_connected :
    connect_remote
      (counting_connections test_rod)
      (http_beside test_http)
      test_urls
      remote_config
      tt
      one_endpoint
      before_create
    ≡ (after_connect, returned 7)
unfolding connect_remote ensure_remote check_capacity fetch_pressure
endpoint_connected = refl

-- The handler cannot be added, so `Create` fails, without a `Close` of the connection.
create_fails :
    (remote_create
      (counting_connections test_rod)
      (http_beside test_http)
      test_urls
      remote_config
      undisturbed
      tt
      surf_opts
      before_create).0.world
    ≡ ((0, 1), 1)
unfolding remote_create connect_remote ensure_remote check_capacity fetch_pressure open_remote
    create_page setup_request_interception hijack_enabled pick pick_least_load pick_round_robin
    round_robin least_load eq_text ◌+ℤ◌ wrap_int
create_fails = refl

remote_create_leaks_example :
    Ends
      (λ b u.
        (count_of u.world ≡ 1)
        × Ends
            (λ v w. count_of w ≡ 0)
            (λ w. ⊥)
            (remote_close (counting_connections test_rod) b u.world))
      (λ u. count_of u.world ≡ 1)
      (remote_create
        (counting_connections test_rod)
        (http_beside test_http)
        test_urls
        remote_config
        undisturbed
        tt
        surf_opts
        before_create)
remote_create_leaks_example =
    remote_create_leaks test_rod test_http test_urls remote_config undisturbed tt surf_opts
      before_create before_create after_connect one_endpoint 7 endpoint_picked endpoint_connected

abbrev main_document : Request
main_document = record { kind = codes "Document"; host = codes "other.com" }

blocks_iff_example :
    ((rod_decision blocking main_document ≡ block)
      ↔ IsBlocked blocking main_document (main_document.kind ≡ script_kind))
    × ((browserless_decision blocking main_document ≡ block)
        ↔ IsBlocked blocking main_document (¬ (main_document.host ≡ [])))
blocks_iff_example = blocks_iff blocking main_document

-- The drivers disagree on that request.
document_blocked :
    (rod_decision blocking main_document ≡ let_pass)
    × (browserless_decision blocking main_document ≡ block)
unfolding rod_decision browserless_decision is_listed is_allowed_script_domain has_suffix has_prefix
    eq_text
document_blocked = (refl, refl)

address_of_service : ws_base (codes "https://a:3000/") ≡ codes "wss://a:3000/chromium"
unfolding replace_first has_prefix trim_slashes
address_of_service = refl

function_called : eval_expression (codes " () => 1") ≡ codes "(() => 1)()"
unfolding eval_expression trim_space has_prefix
function_called = refl

endpoint_defaults :
    endpoint_of test_urls (record { url = codes "http://a:3000"; weight = negsuc 4 })
    ≡ record one_endpoint { pressure = no_pressure }
unfolding endpoint_of parse_endpoint_url
endpoint_defaults = refl

abbrev test_page : RemotePage ℕ ℕ Unit
test_page = record {
  page = 3;
  browser = some 7;
  router = none;
  headless = true;
  endpoint = codes "http://a:3000";
  isolated_ctx_id = 0;
}

-- A script runs in a world of its own, which is kept until the page navigates.
world_kept :
    (remote_eval test_rod tt (codes "1") (record { world = (1, 1); remote = test_page })).0.remote
    ≡ record test_page { isolated_ctx_id = 5 }
unfolding remote_eval get_or_create_isolated_world eval_expression
world_kept = refl

world_dropped :
    (remote_navigate test_rod tt
      (codes "u")
      (record { world = (1, 1); remote = record test_page { isolated_ctx_id = 5 } })).0.remote
    ≡ test_page
unfolding remote_navigate
world_dropped = refl
