-- ===== src/Examples/SurfRuns.antt =====
-- Examples for surf browsers in a pool.
use gox_browser.Prelude.{◌+◌, [], none, refl, some, ℕ, ◌∷◌, ◌≡◌}
use gox_browser.Pool.{Entry, Pool, idle_of, new_pool}
use gox_browser.Io.{Io}
use gox_browser.Surf.{
  SurfBrowser, SurfLibrary, surf_close, surf_html, surf_title, surf_text, surf_unsupported,
}
use gox_browser.Prelude.Text.{codes}
use gox_browser.Types.{default_pool_config, type_surf}
use gox_browser.Examples.{long_page}
use gox_browser.Errors.{ok}
use gox_browser.Prelude.Int.{pos}
use gox_browser.Pool.Acquire.{reuse}
use gox_browser.Surf.Idle.{surf_never_reused}

abbrev test_surf : SurfLibrary ℕ ℕ Unit
test_surf = record {
  build = λ w timeout proxy. (w + 1, w);
  request = λ w c k url. (w + 1, none);
  body = λ w. (w, ok long_page);
  close_client = λ w k. w + 1;
  quote = λ s. s;
}

abbrev surf_io : Io ℕ (SurfBrowser ℕ) ℕ Unit
surf_io = record {
  now = λ w. w;
  with_timeout = λ c d. c;
  context_error = λ w c. none;
  quote = λ s. s;
  browser_type = λ b. type_surf;
  navigate = λ w c b u. (w, none);
  wait_stable = λ w c b. (w, none);
  html = λ w c b. surf_html test_surf c b w;
  title = λ w c b. surf_title test_surf c b w;
  url = λ w c b. (w, b.last_url, none);
  text = λ w c b. surf_text test_surf c b w;
  screenshot = λ w c b. (w, [], surf_unsupported test_surf b);
  eval = λ w c b s. (w, [], surf_unsupported test_surf b);
  eval_direct = λ w c b s. (w, [], surf_unsupported test_surf b);
  click = λ w c b s. (w, surf_unsupported test_surf b);
  type_text = λ w c b s text. (w, surf_unsupported test_surf b);
  wait_selector = λ w c b s. (w, surf_unsupported test_surf b);
  cookies = λ w c b. (w, [], surf_unsupported test_surf b);
  set_cookies = λ w c b cookies. (w, surf_unsupported test_surf b);
  close = λ w b. surf_close test_surf b w;
  provider_type = λ x. x;
  create = λ w c x opts. (w + 1, ok (record { client = w; last_url = [] }));
  health_check = λ w c x. (w, none);
  close_provider = λ w x. (w, none);
}

abbrev surf_entry : Entry (SurfBrowser ℕ)
surf_entry = record { browser = record { client = 1; last_url = codes "u" }; last_used = 4 }

abbrev surf_pool : Pool (SurfBrowser ℕ) ℕ
surf_pool = record (new_pool default_pool_config) {
  providers = (type_surf, type_surf) ∷ [];
  instances = some ((type_surf, surf_entry ∷ []) ∷ []);
  total = pos 1;
}

surf_never_reused_example :
    let r = reuse surf_io tt type_surf (surf_entry ∷ []) 5 surf_pool in
    (r.2 ≡ none) × (idle_of r.1 type_surf ≡ []) × (r.1.metrics.evict_total ≡ 1)
unfolding new_pool
surf_never_reused_example =
    surf_never_reused test_surf surf_io tt (λ w c b h. refl) (surf_entry ∷ []) 5 surf_pool refl
      (refl, tt)
