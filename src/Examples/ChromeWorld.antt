-- ===== src/Examples/ChromeWorld.antt =====
-- A small Chrome for the examples. The state of the world counts the open pages and the open
-- connections; a handler of requests cannot be added, and a stealthy page panics.
use gox_browser.Prelude.{◌-◌, [], none, suc, true, ℕ}
use gox_browser.Driver.{Call, Rod, failed_with, panics, returned}
use gox_browser.Errors.{Error, plain}
use gox_browser.Prelude.Text.{codes}

abbrev pub World : Type 0
World = ℕ × ℕ

abbrev pub still : {A : Type 0} → A → Call World A
still a w = (w, returned a)

abbrev pub no_handler : Error
no_handler = plain (codes "cannot add")

abbrev pub test_rod : Rod World Unit ℕ ℕ Unit Unit
test_rod = record {
  with_timeout = λ c d. c;
  context_error = λ c w. none;
  quote = λ s. s;
  int_n = λ n w. (w, 0);
  control = λ url. 7;
  dial = λ c url. still 7;
  connect = λ k w. ((w.0, suc w.1), returned tt);
  pages = λ k. still [];
  close_browser = λ k w. ((w.0, w.1 - 1), returned tt);
  open_page = λ k url w. ((suc w.0, w.1), returned 3);
  stealth_page = λ k w. (w, panics (codes "no page"));
  close_page = λ g w. ((w.0 - 1, w.1), failed_with no_handler);
  set_viewport = λ g v. still tt;
  set_timezone = λ g t. still tt;
  set_locale = λ g t. still tt;
  hijack = λ g w. (w, tt);
  add_handler = λ r decide w. (w, failed_with no_handler);
  run_router = λ r w. w;
  stop_router = λ r. still tt;
  navigate = λ c g url. still tt;
  expect_navigation = λ c g. still tt;
  await_navigation = λ c g. still tt;
  wait_stable = λ c g d. still tt;
  wait_request_idle = λ c g d. still tt;
  html = λ c g. still [];
  eval = λ c g js. still [];
  info = λ c g. still (record { title = []; url = [] });
  screenshot = λ c g. still [];
  evaluate = λ g js. still (record { exception = none; undefined = true; value = [] });
  evaluate_in = λ c g id js. still (record { exception = none; undefined = true; value = [] });
  create_world = λ c g. still 5;
  element = λ c g selector. still tt;
  click = λ l. still tt;
  input = λ l text. still tt;
  cookies = λ c g. still [];
  set_cookies = λ c g cookies. still tt;
}
