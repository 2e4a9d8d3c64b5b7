-- ===== src/Worker.antt =====
-- browser/worker.go: the scheduler of a batch of tasks. `Run` launches one goroutine per task, which
-- waits for a place of the semaphore; the goroutines interleave, and a step is what one of them does
-- without waiting. The fetch of a task gives any result, and time is any number.
pub mod Order
pub mod Places
use gox_browser.Prelude.{
  ◌+◌, ◌++◌, List, Option, [], if◌then◌else◌, length, map, none, some, suc, true, zero, ℕ, ◌∷◌, ◌≡◌,
  Bool, false,
}
use gox_browser.Types.{BrowserType}
use gox_browser.Errors.{Error}
use gox_browser.Fetch.{FetchResult}
use gox_browser.Prelude.Text.{Text}
use gox_browser.Prelude.Int.{leb_ℤ, ltb_ℤ, pos, ℤ}

pub record Task : Type 0 where
  pub url : Text
  pub chain : List BrowserType

pub record TaskResult : Type 0 where
  pub url : Text
  pub fetch_result : Option FetchResult
  pub error : Option Error
  pub duration : ℕ

-- `has_callback` tells that `OnResult` is set.
pub record WorkerConfig : Type 0 where
  pub concurrency : ℤ
  pub rate_limit : ℤ
  pub has_callback : Bool

abbrev pub default_worker_config : WorkerConfig
default_worker_config = record { concurrency = pos 4; rate_limit = pos 0; has_callback = false }

-- `NewWorker`.
unfoldable pub worker_config : WorkerConfig → WorkerConfig
worker_config cfg =
    if leb_ℤ cfg.concurrency (pos 0)
    then record cfg { concurrency = default_worker_config.concurrency }
    else cfg

-- The zero value of a result.
abbrev pub blank_result : TaskResult
blank_result = record { url = []; fetch_result = none; error = none; duration = 0 }

abbrev pub cancelled_result : Error → Task → TaskResult
cancelled_result e t = record { url = t.url; fetch_result = none; error = some e; duration = 0 }

abbrev pub fetched_result : Task → Option FetchResult → Option Error → ℕ → TaskResult
fetched_result t fr e d = record { url = t.url; fetch_result = fr; error = e; duration = d }

-- The callback, if there is one.
abbrev pub report : WorkerConfig → ℕ → TaskResult → List (ℕ × TaskResult) → List (ℕ × TaskResult)
report cfg i r calls = if cfg.has_callback then (i, r) ∷ calls else calls

abbrev pub set_at {ℓ} : {A : Type ℓ} → ℕ → A → List A → List A
set_at i x [] = []
set_at zero x (y ∷ ys) = x ∷ ys
set_at (suc i) x (y ∷ ys) = y ∷ set_at i x ys

-- A launched goroutine: the index of its task, and the task.
abbrev pub Launched : Type 0
Launched = ℕ × Task

-- `ahead` is what the loop of `Run` has not reached, `next` the index of its first task; `waiting`
-- goroutines stand before the semaphore, `running` ones hold a place of it. `reported` are the calls of
-- `OnResult` so far, the last one first.
pub record Batch : Type 0 where
  pub next : ℕ
  pub ahead : List Task
  pub waiting : List Launched
  pub running : List Launched
  pub results : List TaskResult
  pub reported : List (ℕ × TaskResult)

unfoldable pub start_batch : List Task → Batch
start_batch tasks = record {
  next = 0;
  ahead = tasks;
  waiting = [];
  running = [];
  results = map (λ t. blank_result) tasks;
  reported = [];
}

-- The loop over `j` when the context has ended.
unfoldable pub fill_cancelled : Error → ℕ → List Task → List TaskResult → List TaskResult
fill_cancelled e j [] results = results
fill_cancelled e j (t ∷ tasks) results =
    fill_cancelled e (suc j) tasks (set_at j (cancelled_result e t) results)

pub data BatchStep (cfg : WorkerConfig) (s u : Batch) : Type 0 where
  breaks :
      (e : Error)
      → u ≡ record s {
        next = s.next + length s.ahead;
        ahead = [];
        results = fill_cancelled e s.next s.ahead s.results;
      }
      → BatchStep cfg s u
  skips :
      (e : Error) (t : Task) (rest : List Task)
      → s.ahead ≡ t ∷ rest
      → ltb_ℤ (pos 0) cfg.rate_limit ≡ true
      → u ≡ record s {
        next = suc s.next;
        ahead = rest;
        results = set_at s.next (cancelled_result e t) s.results;
      }
      → BatchStep cfg s u
  launches :
      (t : Task) (rest : List Task)
      → s.ahead ≡ t ∷ rest
      → u ≡ record s { next = suc s.next; ahead = rest; waiting = (s.next, t) ∷ s.waiting }
      → BatchStep cfg s u
  gives_up :
      (e : Error) (i : ℕ) (t : Task) (pre post : List Launched)
      → s.waiting ≡ pre ++ (i, t) ∷ post
      → u ≡ record s { waiting = pre ++ post; results = set_at i (cancelled_result e t) s.results }
      → BatchStep cfg s u
  takes_place :
      (i : ℕ) (t : Task) (pre post : List Launched)
      → s.waiting ≡ pre ++ (i, t) ∷ post
      → ltb_ℤ (pos (length s.running)) cfg.concurrency ≡ true
      → u ≡ record s { waiting = pre ++ post; running = (i, t) ∷ s.running }
      → BatchStep cfg s u
  finishes :
      (i : ℕ) (t : Task) (fr : Option FetchResult) (e : Option Error) (d : ℕ)
      (pre post : List Launched)
      → s.running ≡ pre ++ (i, t) ∷ post
      → u ≡ record s {
        running = pre ++ post;
        results = set_at i (fetched_result t fr e d) s.results;
        reported = report cfg i (fetched_result t fr e d) s.reported;
      }
      → BatchStep cfg s u

pub data BatchReach (cfg : WorkerConfig) (s : Batch) : Batch → Type 0 where
  begun : BatchReach cfg s s
  more : {t u : Batch} → BatchReach cfg s t → BatchStep cfg t u → BatchReach cfg s u
