-- ===== src/Examples.antt =====
-- A small world to run the code in, and the inputs of the examples. The state of the world is a number
-- that serves as the clock and as the next browser; the browser 9 answers no ping and closes with an
-- error; a provider is named by its type, and the one of camoufox never creates.
mod PoolRuns
mod FetchRuns
mod PageRuns
mod SiteRuns
mod StoreRuns
mod BatchRuns
mod SurfRuns
mod ChromeWorld
mod RodRuns
mod RemoteRuns
mod BackendRuns
use gox_browser.Prelude.{◌+◌, ◌==◌, Option, [], if◌then◌else◌, none, some, ℕ, ◌∷◌}
use gox_browser.Types.{
  AcquireOpts, BlockResult, default_pool_config, not_blocked, opts_of, type_camoufox, type_surf,
}
use gox_browser.Pool.{Entry, Pool, new_pool}
use gox_browser.Errors.{Error, err, ok, plain}
use gox_browser.Io.{Io}
use gox_browser.Prelude.Text.{Text, codes}
use gox_browser.Pool.Evict.{close}
use gox_browser.Prelude.Int.{pos}
use gox_browser.Driver.Session.{total}

abbrev pub long_page : Text
long_page =
    codes
      "<p>aaaaaaaaaaaaaaaaaaaaaaaaaaaaaaaaaaaaaaaaaaaaaaaaaaaaaaaaaaaaaaaaaaaaaaaaaaaaaaaaaaaaaaaaaaaaaaaaaaaaaaaaaaaaaaaaa</p>"

abbrev lost : ℕ → Option Error
lost b = if b == 9 then some (plain (codes "write: broken pipe")) else none

abbrev pub test_io : Io ℕ ℕ ℕ Unit
test_io = record {
  now = λ w. w;
  with_timeout = λ c d. c;
  context_error = λ w c. none;
  quote = λ s. s;
  browser_type = λ b. type_surf;
  navigate = λ w c b u. (w + 1, lost b);
  wait_stable = λ w c b. (w + 1, none);
  html = λ w c b. (w + 1, long_page, none);
  title = λ w c b. (w + 1, codes "title", lost b);
  url = λ w c b. (w, codes "u", none);
  text = λ w c b. (w + 1, long_page, none);
  screenshot = λ w c b. (w + 1, [], none);
  eval = λ w c b s. (w + 1, long_page, none);
  eval_direct = λ w c b s. (w + 1, long_page, none);
  click = λ w c b s. (w + 1, lost b);
  type_text = λ w c b s text. (w + 1, lost b);
  wait_selector = λ w c b s. (w + 1, lost b);
  cookies = λ w c b. (w + 1, [], none);
  set_cookies = λ w c b cookies. (w + 1, none);
  close = λ w b. (w + 1, lost b);
  provider_type = λ x. x;
  create =
      λ w c x opts. (w + 1, if x == type_camoufox then err (plain (codes "no browser")) else ok w);
  health_check = λ w c x. (w + 1, none);
  close_provider = λ w x. (w + 1, none);
}

abbrev pub pass : Text → Text → ℕ → BlockResult
pass html title status = not_blocked

abbrev pub surf_opts : AcquireOpts
surf_opts = opts_of type_surf

-- An open pool without instances, one that holds the dead browser 9 above the browser 1, a full
-- one, and a closed one.
abbrev pub fresh_pool : Pool ℕ ℕ
fresh_pool = record (new_pool default_pool_config) {
  providers = (type_surf, type_surf) ∷ (type_camoufox, type_camoufox) ∷ [];
}

abbrev pub entry_of : ℕ → Entry ℕ
entry_of b = record { browser = b; last_used = b }

abbrev pub idle_pool : Pool ℕ ℕ
idle_pool = record fresh_pool {
  instances = some ((type_surf, entry_of 9 ∷ entry_of 1 ∷ []) ∷ []);
  total = pos 2;
}

abbrev pub full_pool : Pool ℕ ℕ
full_pool = record fresh_pool { total = pos 8; in_use = pos 8 }
