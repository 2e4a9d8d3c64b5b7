-- ===== src/Worker/Order/Over.antt =====
-- Every task of a batch gets its own result (browser/worker.go).
use mathlib.Core.List.{Memᴰ}
use gox_browser.Worker.{
  Batch, BatchReach, BatchStep, begun, breaks, finishes, gives_up, launches, more, skips,
  takes_place, Launched, Task, TaskResult, WorkerConfig, fill_cancelled, start_batch,
  fetched_result,
}
use gox_browser.Worker.Order.Batches.{
  Ordered, get_elem?-bound, finish-Ordered, give_up-Ordered, launch-Ordered, skip-Ordered,
  start-Ordered, take-Ordered,
}
use gox_browser.Prelude.{
  ◌+◌, ◌++◌, List, [], ap, append-nil, arith, get_elem?, inl, inr, length, refl, some, subst, suc,
  sym, ℕ, ◌∙◌, ◌∷◌, ◌≡◌, All, Bool, false, if◌then◌else◌, true,
}
use gox_browser.Errors.{Error}
use gox_browser.Worker.Order.{IsDone, Memᴰ-middle}

-- The loop that cancels what is ahead takes one task after the other.
fill-Ordered :
    (e : Error) (tasks ahead : List Task) (n : ℕ) (queue busy : List Launched)
    (results : List TaskResult) (calls : List (ℕ × TaskResult))
    → Ordered tasks (record {
      next = n;
      ahead = ahead;
      waiting = queue;
      running = busy;
      results = results;
      reported = calls;
    })
    → Ordered tasks (record {
      next = n + length ahead;
      ahead = [];
      waiting = queue;
      running = busy;
      results = fill_cancelled e n ahead results;
      reported = calls;
    })
unfolding fill_cancelled
fill-Ordered e tasks [] n queue busy results calls o =
    subst
      (λ m. Ordered tasks (record {
        next = m;
        ahead = [];
        waiting = queue;
        running = busy;
        results = results;
        reported = calls;
      }))
      (omega arith) o
fill-Ordered e tasks (t ∷ ahead) n queue busy results calls o =
    let step = skip-Ordered tasks _ o e t ahead refl in
    let rest = fill-Ordered e tasks ahead (suc n) queue busy _ calls step in
    subst
      (λ m. Ordered tasks (record {
        next = m;
        ahead = [];
        waiting = queue;
        running = busy;
        results = fill_cancelled e n (t ∷ ahead) results;
        reported = calls;
      }))
      (omega arith) rest

BatchStep-Ordered :
    (cfg : WorkerConfig) (tasks : List Task) (s u : Batch)
    → BatchStep cfg s u
    → Ordered tasks s
    → Ordered tasks u
BatchStep-Ordered cfg tasks s u (breaks e q) o =
    subst (Ordered tasks) (sym q)
      (fill-Ordered e tasks s.ahead s.next s.waiting s.running s.results s.reported o)
BatchStep-Ordered cfg tasks s u (skips e t rest a l q) o =
    subst (Ordered tasks) (sym q) (skip-Ordered tasks s o e t rest a)
BatchStep-Ordered cfg tasks s u (launches t rest a q) o =
    subst (Ordered tasks) (sym q) (launch-Ordered tasks s o t rest a)
BatchStep-Ordered cfg tasks s u (gives_up e i t pre post a q) o =
    subst (Ordered tasks) (sym q) (give_up-Ordered tasks s o e i t pre post a)
BatchStep-Ordered cfg tasks s u (takes_place i t pre post a free q) o =
    subst (Ordered tasks) (sym q) (take-Ordered tasks s o i t pre post a)
BatchStep-Ordered cfg tasks s u (finishes i t fr e d pre post a q) o =
    subst (Ordered tasks) (sym q) (finish-Ordered tasks s o i t _ pre post _ a refl)

BatchReach-Ordered :
    (cfg : WorkerConfig) (tasks : List Task) (s : Batch)
    → BatchReach cfg (start_batch tasks) s
    → Ordered tasks s
BatchReach-Ordered cfg tasks s begun = start-Ordered tasks
BatchReach-Ordered cfg tasks s (more {t} r st) =
    BatchStep-Ordered cfg tasks t s st (BatchReach-Ordered cfg tasks t r)

-- The call of the callback is for the index of a task, with a result of its address.
abbrev pub IsTold : List Task → ℕ × TaskResult → Type 0
IsTold tasks (i, r) = (t : Task) × (get_elem? tasks i ≡ some t) × (r.url ≡ t.url)

abbrev AreTold : List Task → List (ℕ × TaskResult) → Type 0
AreTold tasks calls = All (IsTold tasks) calls

told_report :
    (tasks : List Task) (b : Bool) (call : ℕ × TaskResult) (calls : List (ℕ × TaskResult))
    → IsTold tasks call
    → AreTold tasks calls
    → AreTold tasks (if b then call ∷ calls else calls)
told_report tasks true call calls h all = (h, all)
told_report tasks false call calls h all = all

BatchStep-AreTold :
    (cfg : WorkerConfig) (tasks : List Task) (s u : Batch)
    → BatchStep cfg s u
    → Ordered tasks s
    → AreTold tasks s.reported
    → AreTold tasks u.reported
BatchStep-AreTold cfg tasks s u (breaks e q) o h = subst (λ b. AreTold tasks b.reported) (sym q) h
BatchStep-AreTold cfg tasks s u (skips e t rest a l q) o h =
    subst (λ b. AreTold tasks b.reported) (sym q) h
BatchStep-AreTold cfg tasks s u (launches t rest a q) o h =
    subst (λ b. AreTold tasks b.reported) (sym q) h
BatchStep-AreTold cfg tasks s u (gives_up e i t pre post a q) o h =
    subst (λ b. AreTold tasks b.reported) (sym q) h
BatchStep-AreTold cfg tasks s u (takes_place i t pre post a free q) o h =
    subst (λ b. AreTold tasks b.reported) (sym q) h
BatchStep-AreTold cfg tasks s u (finishes i t fr e d pre post a q) o h =
    let at_i = o.running_at i t (subst (Memᴰ (i, t)) (sym a) (Memᴰ-middle (i, t) pre post)) in
    subst (λ b. AreTold tasks b.reported) (sym q)
      (told_report tasks cfg.has_callback (i, fetched_result t fr e d) s.reported (t, at_i, refl) h)

BatchReach-AreTold :
    (cfg : WorkerConfig) (tasks : List Task) (s : Batch)
    → BatchReach cfg (start_batch tasks) s
    → AreTold tasks s.reported
unfolding start_batch
BatchReach-AreTold cfg tasks s begun = tt
BatchReach-AreTold cfg tasks s (more {t} r st) =
    BatchStep-AreTold cfg tasks t s st (BatchReach-Ordered cfg tasks t r)
      (BatchReach-AreTold cfg tasks t r)

-- When a batch is over, that is the loop has passed every task and no goroutine is left, there is one
-- result for each task, and it stands at the task's index and is of its address, in whatever order
-- the goroutines ran and were cancelled; and every call of the callback was for the index of a task,
-- with a result of its address.
pub batch_over :
    (cfg : WorkerConfig) (tasks : List Task) (s : Batch)
    → BatchReach cfg (start_batch tasks) s
    → s.ahead ≡ []
    → s.waiting ≡ []
    → s.running ≡ []
    → (length s.results ≡ length tasks)
      × ((i : ℕ) (t : Task) → get_elem? tasks i ≡ some t → IsDone s.results i t)
      × All (IsTold tasks) s.reported
batch_over cfg tasks s r a w u =
    let o = BatchReach-Ordered cfg tasks s r in
    let whole : length tasks ≡ length o.before =
      ap length (o.split_eq ∙ ap (λ ts. o.before ++ ts) a ∙ append-nil o.before) in
    (
      o.length_eq,
      (λ i t g.
          elim (o.passed i t g (omega (arith, get_elem?-bound tasks i t g, whole, o.next_eq))) [
            | inl m ↦ elim (subst (Memᴰ (i, t)) w m) [ ]
            | inr (inl m) ↦ elim (subst (Memᴰ (i, t)) u m) [ ]
            | inr (inr d) ↦ d
          ]),
      BatchReach-AreTold cfg tasks s r,
    )
