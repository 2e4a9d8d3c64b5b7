-- ===== src/Worker/Places.antt =====
-- How many tasks run at a time (browser/worker.go).
use gox_browser.Prelude.{
  ◌+◌, List, ap, arith, length, length-append, subst, suc, sym, ◌∙◌, ◌∷◌, ◌≡◌, ◌≤◌,
}
use gox_browser.Worker.{
  finishes, Batch, BatchReach, BatchStep, Task, WorkerConfig, begun, more, start_batch, breaks,
  skips, launches, gives_up, takes_place, finishes,
}
use gox_browser.Prelude.Int.{pos_part}

abbrev pub IsWithin : WorkerConfig → Batch → Type 0
IsWithin cfg s = length s.running ≤ pos_part cfg.concurrency

BatchStep-IsWithin :
    (cfg : WorkerConfig) (s u : Batch) → BatchStep cfg s u → IsWithin cfg s → IsWithin cfg u
BatchStep-IsWithin cfg s u (breaks e q) h = subst (IsWithin cfg) (sym q) h
BatchStep-IsWithin cfg s u (skips e t rest a l q) h = subst (IsWithin cfg) (sym q) h
BatchStep-IsWithin cfg s u (launches t rest a q) h = subst (IsWithin cfg) (sym q) h
BatchStep-IsWithin cfg s u (gives_up e i t pre post a q) h = subst (IsWithin cfg) (sym q) h
BatchStep-IsWithin cfg s u (takes_place i t pre post a free q) h =
    subst (IsWithin cfg) (sym q) (ground (arith, free))
BatchStep-IsWithin cfg s u (finishes i t fr e d pre post a q) h =
    let before : length s.running ≡ length pre + suc (length post) =
      ap length a ∙ length-append pre ((i, t) ∷ post) in
    let after = length-append pre post in
    subst (IsWithin cfg) (sym q) (omega (arith, before, after, h))

-- However the goroutines of a batch interleave, no more tasks run at a time than the configured
-- concurrency.
pub BatchReach-IsWithin :
    (cfg : WorkerConfig) (tasks : List Task) (s : Batch)
    → BatchReach cfg (start_batch tasks) s
    → IsWithin cfg s
unfolding start_batch
BatchReach-IsWithin cfg tasks s begun = omega arith
BatchReach-IsWithin cfg tasks s (more {t} r st) =
    BatchStep-IsWithin cfg t s st (BatchReach-IsWithin cfg tasks t r)
