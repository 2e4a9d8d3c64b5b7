-- ===== src/Examples/RodRuns.antt =====
-- Examples for the rod driver.
use gox_browser.Router.{trim_slashes}
use gox_browser.Prelude.Strings.{trim_prefix, replace_first, before_char}
use gox_browser.Prelude.Text.{contains}
use gox_browser.Driver.Triples.{Ends}
use gox_browser.Prelude.{[], ap, false, none, refl, some, true, ℕ, ◌≡◌, ◌++◌, ◌∷◌}
use gox_browser.Driver.{◌>>=◌, failed_with, panics, returned}
use gox_browser.Driver.Intercept.{InterceptConfig, hijack_enabled}
use gox_browser.RodDriver.Provider.{
  Launcher, RodConfig, RodState, Web, lib, connect_chrome, control_url, ensure_browser, ensure_from,
  find_binary, new_connection, reconnect, ask_version, on_remote_host, resolve_remote_url,
}
use gox_browser.Driver.Ledger.{Counted, count_of, counting_pages}
use gox_browser.Examples.ChromeWorld.{World, still, test_rod}
use gox_browser.Prelude.Text.{codes, eq_text, has_prefix}
use gox_browser.RodDriver.Sessions.{create_body, dress_page, rod_create, rod_provider_close}
use gox_browser.RodDriver.Pages.{counted_create, create_pages}
use gox_browser.Errors.{ok, is_connection_error, plain}
use gox_browser.RodDriver.Page.{rod_close}
use gox_browser.Examples.{surf_opts}
use gox_browser.RodDriver.Recovery.{create_recovers, kept_connection}
use gox_browser.Prelude.Int.{eq_ℤ}
use gox_browser.Driver.Session.{fingerprint}
use gox_browser.Errors.Laws.{wraps}

abbrev test_launcher : Launcher World Unit
test_launcher = record {
  look_path = still (some (codes "/bin/chrome"));
  launch = λ c path headless proxy. still (codes "ws://127.0.0.1/x");
}

abbrev test_web : Web World Unit
test_web = record {
  resolve_url = λ url. still url;
  build_error = λ url. none;
  send = λ c url. still 200;
  read_body = still [];
  decode_version = λ body. ok (codes "ws://0.0.0.0:3000/devtools");
  decimal = λ n. [];
}

abbrev no_intercept : InterceptConfig
no_intercept = record {
  block_resources = [];
  block_third_party_script = false;
  allowed_script_domains = [];
}

abbrev local_config : RodConfig
local_config = record {
  remote_url = [];
  remote_token = [];
  headless = true;
  stealth_mode = false;
  random_fingerprint = true;
  proxy = [];
  intercept = no_intercept;
  bin_path = [];
}

abbrev fresh_state : RodState World ℕ
fresh_state = record { world = (0, 0); browser = none }

-- Four pages of other browsers are counted already.
abbrev counted_state : RodState (Counted World) ℕ
counted_state = record { world = ((0, 0), 4); browser = none }

-- A page is opened and closed, though its `Close` fails.
create_pages_example :
    Ends
      (λ b t. count_of t.world ≡ 5)
      (λ t. count_of t.world ≡ 4)
      (counted_create test_rod test_launcher test_web local_config tt surf_opts counted_state)
    × Ends
        (λ u t. count_of t.world ≡ 4)
        (λ t. count_of t.world ≡ 4)
        ((counted_create test_rod test_launcher test_web local_config tt surf_opts
            >>= (λ b. lib (rod_close (counting_pages test_rod) b)))
          counted_state)
create_pages_example =
    create_pages test_rod test_launcher test_web local_config tt surf_opts counted_state

-- The count goes up in that run.
page_counted :
    (counted_create test_rod test_launcher test_web local_config tt surf_opts counted_state).0.world
    ≡ ((1, 1), 5)
unfolding create_body ensure_browser ensure_from reconnect connect_chrome control_url find_binary
    new_connection dress_page fingerprint hijack_enabled eq_text eq_ℤ
page_counted = refl

-- That page is really opened.
page_created : create_body test_rod test_launcher test_web local_config tt surf_opts fresh_state ≡ (
  record { world = (1, 1); browser = some 7 },
  returned (record { page = 3; router = none; headless = true }),
)
unfolding create_body ensure_browser ensure_from reconnect connect_chrome control_url find_binary
    new_connection dress_page fingerprint hijack_enabled eq_text eq_ℤ
page_created = refl

kept_connection_example :
    Ends
      (λ k t. t.browser ≡ some k)
      (λ t. t.browser ≡ none)
      (ensure_browser test_rod test_launcher test_web local_config tt fresh_state)
    × Ends
        (λ u t. t.browser ≡ none)
        (λ t. t.browser ≡ none)
        (rod_provider_close test_rod test_launcher test_web local_config fresh_state)
kept_connection_example =
    kept_connection test_rod test_launcher test_web local_config tt fresh_state

abbrev stealth_config : RodConfig
stealth_config = record local_config { stealth_mode = true }

abbrev panicked_state : RodState World ℕ
panicked_state = record { world = (0, 1); browser = some 7 }

page_panics :
    create_body test_rod test_launcher test_web stealth_config tt surf_opts fresh_state
    ≡ (panicked_state, panics (codes "no page"))
unfolding create_body ensure_browser ensure_from reconnect connect_chrome control_url find_binary
    new_connection eq_text
page_panics = refl

create_recovers_example :
    let after_panic =
      (create_body test_rod test_launcher test_web stealth_config tt surf_opts fresh_state).0 in
    let dropped = record after_panic { browser = none } in
    let error = plain (codes "browser: rod create panic: " ++ codes "no page") in
    (rod_create test_rod test_launcher test_web stealth_config tt surf_opts fresh_state
      ≡ (dropped, failed_with error))
    × (is_connection_error (some (wraps (codes "browser: create" ∷ []) error)) ≡ true)
    × (ensure_browser test_rod test_launcher test_web stealth_config tt dropped
        ≡ reconnect test_rod test_launcher test_web stealth_config tt dropped)
create_recovers_example =
    create_recovers test_rod test_launcher test_web stealth_config tt surf_opts fresh_state
      (codes "no page") (codes "browser: create" ∷ []) (ap (λ r. r.1) page_panics)

abbrev remote_config : RodConfig
remote_config = record local_config {
  remote_url = codes "http://chrome:3000/";
  remote_token = codes "secret";
}

-- The answer names every address of its machine, which is replaced by the host.
address_resolved :
    (resolve_remote_url (λ s. s) test_web remote_config tt (0, 0)).1
    ≡ returned (codes "ws://chrome:3000/devtools?token=secret")
unfolding resolve_remote_url ask_version on_remote_host has_prefix eq_text trim_slashes trim_prefix
    replace_first before_char contains
address_resolved = refl

-- An answer that holds the text of the host in its path keeps its own host, and gets the token.
host_only_tested_for :
    on_remote_host (codes "http://chrome:3000") (codes "secret") (codes "ws://evil/chrome:3000")
    ≡ codes "ws://evil/chrome:3000?token=secret"
unfolding on_remote_host has_prefix trim_slashes trim_prefix replace_first before_char contains
host_only_tested_for = refl
