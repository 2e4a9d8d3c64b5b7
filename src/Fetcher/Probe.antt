-- ===== src/Fetcher/Probe.antt =====
-- `Detect` of browser/fetcher.go: the request whose answer `analyze_html` reads.
use gox_browser.Prelude.{◌*◌, ◌++◌, List, Option, none, some, ℕ}
use gox_browser.Types.{DetectResult, second}
use gox_browser.Errors.{Error, Result, err, ok, wrap}
use gox_browser.Stream.{Stream, read_limited}
use gox_browser.Prelude.Text.{Text, codes}
use gox_browser.Fetcher.{analyze_html}
use gox_browser.Prelude.Int.{pos, ℤ}

-- The client: a request may be refused before it is sent, and the body of an answer is a stream of
-- bytes, which `text_of` reads as a string.
pub record Client (W C : Type 0) : Type 0 where
  pub with_timeout : C → ℤ → C
  pub quote : Text → Text
  pub build_error : C → Text → Option Error
  pub get : C → Text → W → W × Result Stream
  pub text_of : List ℕ → Text

abbrev pub detect_timeout : ℤ
detect_timeout = pos (10 * second)

abbrev pub detect_limit : ℕ
detect_limit = 512 * 1024

module _ {W C : Type 0} (client : Client W C) (lower : ℕ → ℕ) where
  abbrev pub probe_of : Result (List ℕ) → Result DetectResult
  probe_of (ok bytes) = ok (analyze_html lower (client.text_of bytes))
  probe_of (err e) = err (wrap (codes "browser: detect read body") e)

  abbrev pub probe_answer : Text → Result Stream → Result DetectResult
  probe_answer url (ok body) = probe_of (read_limited detect_limit body)
  probe_answer url (err e) = err (wrap (codes "browser: detect http get " ++ client.quote url) e)

  unfoldable pub detect_page : C → Text → W → W × Result DetectResult
  detect_page ctx url w =
      let timed = client.with_timeout ctx detect_timeout in
      let answer = client.get timed url w in
      elim (client.build_error timed url) [
        | some e ↦ (w, err (wrap (codes "browser: detect build request") e))
        | none ↦ (answer.0, probe_answer url answer.1)
      ]
