-- ===== src/Io.antt =====
-- What the program calls and does not implement: the browsers and providers behind the interfaces
-- of browser/browser.go, the clock, contexts and the quoting of `%q`. `W` is the state of all that,
-- `B` and `P` are the interface values `Browser` and `Provider`, `C` is a context.
use gox_browser.Prelude.{List, ℕ, Option}
use gox_browser.Prelude.Int.{ℤ}
use gox_browser.Prelude.Text.{Text}
use gox_browser.Types.{BrowserType, AcquireOpts, Cookie}
use gox_browser.Errors.{Error, Result}

-- A call takes the state and gives the next one. A pair `(text, error)` holds both results of a Go
-- call, and `none` is the nil error.
pub record Io (W B P C : Type 0) : Type 0 where
  pub now : W → ℕ
  pub with_timeout : C → ℤ → C
  pub context_error : W → C → Option Error
  pub quote : Text → Text
  pub browser_type : B → BrowserType
  pub navigate : W → C → B → Text → W × Option Error
  pub wait_stable : W → C → B → W × Option Error
  pub html : W → C → B → W × Text × Option Error
  pub text : W → C → B → W × Text × Option Error
  pub title : W → C → B → W × Text × Option Error
  pub url : W → C → B → W × Text × Option Error
  pub screenshot : W → C → B → W × List ℕ × Option Error
  pub eval : W → C → B → Text → W × Text × Option Error
  pub eval_direct : W → C → B → Text → W × Text × Option Error
  pub click : W → C → B → Text → W × Option Error
  pub type_text : W → C → B → Text → Text → W × Option Error
  pub wait_selector : W → C → B → Text → W × Option Error
  pub cookies : W → C → B → W × List Cookie × Option Error
  pub set_cookies : W → C → B → List Cookie → W × Option Error
  pub close : W → B → W × Option Error
  pub provider_type : P → BrowserType
  pub create : W → C → P → AcquireOpts → W × Result B
  pub health_check : W → C → P → W × Option Error
  pub close_provider : W → P → W × Option Error
