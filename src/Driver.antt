-- ===== src/Driver.antt =====
-- What the drivers of Chrome (browser/rod, browser/browserless) share: calls that return, fail or
-- panic, and the library go-rod, which they wrap and do not implement.
pub mod Intercept
pub mod Session
pub mod Triples
pub mod Books
pub mod Ledger
use gox_browser.Prelude.{Bool, List, Option, ℕ}
use gox_browser.Errors.{Error, wrap}
use gox_browser.Prelude.Text.{Text}
use gox_browser.Types.{Cookie, Viewport}
use gox_browser.Prelude.Int.{ℤ}

-- How a Go call ends: with a value, with an error, or by a panic.
pub data Exit {ℓ} (A : Type ℓ) : Type ℓ where
  returned : A → Exit A
  failed_with : Error → Exit A
  panics : Text → Exit A

-- A call changes the state and ends.
abbrev pub Call : Type 0 → Type 0 → Type 0
Call S A = S → S × Exit A

abbrev pub after : {S A B : Type 0} → (A → Call S B) → S × Exit A → S × Exit B
after f (s, returned a) = f a s
after f (s, failed_with e) = (s, failed_with e)
after f (s, panics t) = (s, panics t)

infixl 5 ◌>>=◌ ◌>>◌
abbrev pub ◌>>=◌ : {S A B : Type 0} → Call S A → (A → Call S B) → Call S B
◌>>=◌ m f s = after f (m s)

abbrev pub ◌>>◌ : {S B : Type 0} → Call S Unit → Call S B → Call S B
◌>>◌ m k s = after (λ _. k) (m s)

abbrev pub return : {S A : Type 0} → A → Call S A
return a s = (s, returned a)

abbrev pub fail : {S A : Type 0} → Error → Call S A
fail e s = (s, failed_with e)

-- `if err := m; err != nil { return h(err) }`.
abbrev pub rescued : {S A : Type 0} → (Error → Call S A) → S × Exit A → S × Exit A
rescued h (s, returned a) = (s, returned a)
rescued h (s, failed_with e) = h e s
rescued h (s, panics t) = (s, panics t)

abbrev pub rescue : {S A : Type 0} → Call S A → (Error → Call S A) → Call S A
rescue m h s = rescued h (m s)

-- `fmt.Errorf` with `%w` around the error of a call.
abbrev pub wrapping : {S A : Type 0} → Text → Call S A → Call S A
wrapping text m = rescue m (λ e. fail (wrap text e))

-- A call whose error is logged or dropped.
abbrev pub ignoring : {S : Type 0} → Call S Unit → Call S Unit
ignoring m = rescue m (λ e. return tt)

-- A deferred `recover`.
abbrev pub recovered : {S A : Type 0} → (Text → Call S A) → S × Exit A → S × Exit A
recovered h (s, returned a) = (s, returned a)
recovered h (s, failed_with e) = (s, failed_with e)
recovered h (s, panics t) = h t s

abbrev pub recovering : {S A : Type 0} → Call S A → (Text → Call S A) → Call S A
recovering m h s = recovered h (m s)

-- A request that is intercepted, and what becomes of it.
pub record Request : Type 0 where
  pub kind : Text
  pub host : Text

pub data Decision : Type 0 where
  block : Decision
  let_pass : Decision

-- The answer to a script that is evaluated.
pub record Evaluation : Type 0 where
  pub exception : Option Text
  pub undefined : Bool
  pub value : Text

pub record PageInfo : Type 0 where
  pub title : Text
  pub url : Text

-- The library: `K` is a connection to Chrome, `G` a page, `R` a router of intercepted requests, `L` an
-- element. Every call takes the state `W` of Chrome and of the network. `run_router` starts a
-- goroutine, and `int_n` is `rand.IntN`; like `hijack` they give no error.
pub record Rod (W C K G R L : Type 0) : Type 0 where
  pub with_timeout : C → ℤ → C
  pub context_error : C → W → Option Error
  pub quote : Text → Text
  pub int_n : ℕ → W → W × ℕ
  pub control : Text → K
  pub dial : C → Text → Call W K
  pub connect : K → Call W Unit
  pub pages : K → Call W (List G)
  pub close_browser : K → Call W Unit
  pub open_page : K → Text → Call W G
  pub stealth_page : K → Call W G
  pub close_page : G → Call W Unit
  pub set_viewport : G → Viewport → Call W Unit
  pub set_timezone : G → Text → Call W Unit
  pub set_locale : G → Text → Call W Unit
  pub hijack : G → W → W × R
  pub add_handler : R → (Request → Decision) → Call W Unit
  pub run_router : R → W → W
  pub stop_router : R → Call W Unit
  pub navigate : C → G → Text → Call W Unit
  pub expect_navigation : C → G → Call W Unit
  pub await_navigation : C → G → Call W Unit
  pub wait_stable : C → G → ℤ → Call W Unit
  pub wait_request_idle : C → G → ℤ → Call W Unit
  pub html : C → G → Call W Text
  pub eval : C → G → Text → Call W Text
  pub info : C → G → Call W PageInfo
  pub screenshot : C → G → Call W (List ℕ)
  pub evaluate : G → Text → Call W Evaluation
  pub evaluate_in : C → G → ℕ → Text → Call W Evaluation
  pub create_world : C → G → Call W ℕ
  pub element : C → G → Text → Call W L
  pub click : L → Call W Unit
  pub input : L → Text → Call W Unit
  pub cookies : C → G → Call W (List Cookie)
  pub set_cookies : C → G → List Cookie → Call W Unit
