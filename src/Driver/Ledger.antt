-- ===== src/Driver/Ledger.antt =====
-- A library that keeps a number beside its world, which none of its calls reads: of the pages, or of
-- the connections, that its calls gave to the driver and that the driver did not ask it to close. It
-- behaves like the library it is made of, about which nothing is assumed.
use gox_browser.Prelude.{◌-◌, arith, refl, subst, suc, ℕ, ◌≡◌}
use gox_browser.Driver.{Call, Exit, Rod, failed_with, panics, returned}
use gox_browser.Driver.Triples.{Ends, Meets}
use gox_browser.Driver.Books.{At, Keeps, Quiet}
use gox_browser.Router.{Http}

abbrev pub Counted : Type 0 → Type 0
Counted W = W × ℕ

abbrev pub count_of : {W : Type 0} → Counted W → ℕ
count_of w = w.1

-- The number after a call that gives something to the driver: one more, if the call returned it.
abbrev given : {A : Type 0} → Exit A → ℕ → ℕ
given (returned a) n = suc n
given (failed_with e) n = n
given (panics t) n = n

abbrev pub quietly : {W A : Type 0} → Call W A → Call (Counted W) A
quietly m (w, n) = (((m w).0, n), (m w).1)

abbrev pub giving : {W A : Type 0} → Call W A → Call (Counted W) A
giving m (w, n) = (((m w).0, given (m w).1 n), (m w).1)

-- A call that asks for the close, however it ends.
abbrev pub closing : {W A : Type 0} → Call W A → Call (Counted W) A
closing m (w, n) = (((m w).0, n - 1), (m w).1)

abbrev beside : {W A : Type 0} → (W → W × A) → Counted W → Counted W × A
beside m (w, n) = (((m w).0, n), (m w).1)

module _ {W C K G R L : Type 0} (rod : Rod W C K G R L) where
  -- The library with a number that stays as it is.
  abbrev uncounted : Rod (Counted W) C K G R L
  uncounted = record {
    with_timeout = rod.with_timeout;
    context_error = λ c w. rod.context_error c w.0;
    quote = rod.quote;
    int_n = λ n. beside (rod.int_n n);
    control = rod.control;
    dial = λ c url. quietly (rod.dial c url);
    connect = λ k. quietly (rod.connect k);
    pages = λ k. quietly (rod.pages k);
    close_browser = λ k. quietly (rod.close_browser k);
    open_page = λ k url. quietly (rod.open_page k url);
    stealth_page = λ k. quietly (rod.stealth_page k);
    close_page = λ g. quietly (rod.close_page g);
    set_viewport = λ g v. quietly (rod.set_viewport g v);
    set_timezone = λ g t. quietly (rod.set_timezone g t);
    set_locale = λ g t. quietly (rod.set_locale g t);
    hijack = λ g. beside (rod.hijack g);
    add_handler = λ r decide. quietly (rod.add_handler r decide);
    run_router = λ r w. (rod.run_router r w.0, w.1);
    stop_router = λ r. quietly (rod.stop_router r);
    navigate = λ c g url. quietly (rod.navigate c g url);
    expect_navigation = λ c g. quietly (rod.expect_navigation c g);
    await_navigation = λ c g. quietly (rod.await_navigation c g);
    wait_stable = λ c g d. quietly (rod.wait_stable c g d);
    wait_request_idle = λ c g d. quietly (rod.wait_request_idle c g d);
    html = λ c g. quietly (rod.html c g);
    eval = λ c g js. quietly (rod.eval c g js);
    info = λ c g. quietly (rod.info c g);
    screenshot = λ c g. quietly (rod.screenshot c g);
    evaluate = λ g js. quietly (rod.evaluate g js);
    evaluate_in = λ c g id js. quietly (rod.evaluate_in c g id js);
    create_world = λ c g. quietly (rod.create_world c g);
    element = λ c g selector. quietly (rod.element c g selector);
    click = λ l. quietly (rod.click l);
    input = λ l text. quietly (rod.input l text);
    cookies = λ c g. quietly (rod.cookies c g);
    set_cookies = λ c g cookies. quietly (rod.set_cookies c g cookies);
  }

  -- It counts the pages that `Page` returned and on which `Close` was not called.
  abbrev pub counting_pages : Rod (Counted W) C K G R L
  counting_pages = record uncounted {
    open_page = λ k url. giving (rod.open_page k url);
    stealth_page = λ k. giving (rod.stealth_page k);
    close_page = λ g. closing (rod.close_page g);
  }

  -- It counts the calls of `Connect` that succeeded and were not followed by one of `Close`.
  abbrev pub counting_connections : Rod (Counted W) C K G R L
  counting_connections = record uncounted {
    connect = λ k. giving (rod.connect k);
    close_browser = λ k. closing (rod.close_browser k);
  }

abbrev pub http_beside : {W C : Type 0} → Http W C → Http (Counted W) C
http_beside http = record {
  with_timeout = http.with_timeout;
  build_error = http.build_error;
  send = λ w c url. beside (λ v. http.send v c url) w;
  read_body = λ w. (((http.read_body w.0).0, w.1), (http.read_body w.0).1, (http.read_body w.0).2);
  decode = http.decode;
  decimal = http.decimal;
}

module _ {W A : Type 0} where
  Ends-same : (n : ℕ) (w : W) (r : Exit A) → Ends (λ a. At count_of n) (At count_of n) ((w, n), r)
  Ends-same n w (returned a) = refl
  Ends-same n w (failed_with e) = refl
  Ends-same n w (panics t) = tt

  Ends-given :
      (n : ℕ) (w : W) (r : Exit A)
      → Ends (λ a. At count_of (suc n)) (At count_of n) ((w, given r n), r)
  Ends-given n w (returned a) = refl
  Ends-given n w (failed_with e) = refl
  Ends-given n w (panics t) = tt

  pub Keeps-quietly : (m : Call W A) → Keeps count_of (quietly m)
  Keeps-quietly m = record {
    kept = λ n. record {
      ends = λ w h.
          subst (λ k. Ends (λ a. At count_of k) (At count_of k) (quietly m w)) h
            (Ends-same w.1 (m w.0).0 (m w.0).1);
    };
  }

  pub Meets-giving :
      (m : Call W A) (n : ℕ)
      → Meets (At count_of n) (giving m) (λ a. At count_of (suc n)) (At count_of n)
  Meets-giving m n = record {
    ends = λ w h.
        subst (λ k. Ends (λ a. At count_of (suc k)) (At count_of k) (giving m w)) h
          (Ends-given w.1 (m w.0).0 (m w.0).1);
  }

  pub Meets-closing :
      (m : Call W A) (n : ℕ)
      → Meets (At count_of (suc n)) (closing m) (λ a. At count_of n) (At count_of n)
  Meets-closing m n = record {
    ends = λ w h.
        let fewer : w.1 - 1 ≡ n = omega (arith, h) in
        subst (λ k. Ends (λ a. At count_of k) (At count_of k) (closing m w)) fewer
          (Ends-same (w.1 - 1) (m w.0).0 (m w.0).1);
  }

module _ {W C K G R L : Type 0} (rod : Rod W C K G R L) where
  pub counting_pages-Quiet : Quiet (counting_pages rod) count_of
  counting_pages-Quiet = record {
    quiet_int_n = λ n w. refl;
    quiet_hijack = λ g w. refl;
    quiet_run_router = λ r w. refl;
    quiet_pages = λ k. Keeps-quietly (rod.pages k);
    quiet_set_viewport = λ g v. Keeps-quietly (rod.set_viewport g v);
    quiet_set_timezone = λ g t. Keeps-quietly (rod.set_timezone g t);
    quiet_set_locale = λ g t. Keeps-quietly (rod.set_locale g t);
    quiet_add_handler = λ r decide. Keeps-quietly (rod.add_handler r decide);
    quiet_stop_router = λ r. Keeps-quietly (rod.stop_router r);
  }

  pub counting_connections-Quiet : Quiet (counting_connections rod) count_of
  counting_connections-Quiet = record {
    quiet_int_n = λ n w. refl;
    quiet_hijack = λ g w. refl;
    quiet_run_router = λ r w. refl;
    quiet_pages = λ k. Keeps-quietly (rod.pages k);
    quiet_set_viewport = λ g v. Keeps-quietly (rod.set_viewport g v);
    quiet_set_timezone = λ g t. Keeps-quietly (rod.set_timezone g t);
    quiet_set_locale = λ g t. Keeps-quietly (rod.set_locale g t);
    quiet_add_handler = λ r decide. Keeps-quietly (rod.add_handler r decide);
    quiet_stop_router = λ r. Keeps-quietly (rod.stop_router r);
  }
