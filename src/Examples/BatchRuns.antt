-- ===== src/Examples/BatchRuns.antt =====
-- Examples for the worker: a batch of one task that is launched, takes a place and finishes.
use gox_browser.Worker.{
  finishes, Batch, Task, begun, default_worker_config, more, start_batch, launches, takes_place,
  WorkerConfig,
}
use gox_browser.Worker.Places.{BatchReach-IsWithin, IsWithin}
use gox_browser.Worker.Order.{IsDone}
use gox_browser.Prelude.{[], get_elem?, length, none, refl, some, ℕ, ◌∷◌, ◌≡◌, All, true}
use gox_browser.Worker.Order.Over.{batch_over, IsTold}
use gox_browser.Prelude.Text.{codes}
use gox_browser.Fetch.{empty_result}
use gox_browser.Types.{type_surf}

abbrev one_task : Task
one_task = record { url = codes "u"; chain = type_surf ∷ [] }

abbrev told_config : WorkerConfig
told_config = record default_worker_config { has_callback = true }

abbrev one_launched : Batch
one_launched = record (start_batch (one_task ∷ [])) {
  next = 1;
  ahead = [];
  waiting = (0, one_task) ∷ [];
}

abbrev one_running : Batch
one_running = record one_launched { waiting = []; running = (0, one_task) ∷ [] }

abbrev one_over : Batch
one_over = record one_running {
  running = [];
  results =
      record { url = codes "u"; fetch_result = some empty_result; error = none; duration = 7 } ∷ [];
  reported =
      (0, record { url = codes "u"; fetch_result = some empty_result; error = none; duration = 7 })
      ∷ [];
}

BatchReach-IsWithin_example : IsWithin told_config one_running
unfolding start_batch
BatchReach-IsWithin_example = BatchReach-IsWithin told_config (one_task ∷ []) one_running (
    more (more begun (launches one_task [] refl refl))
      (takes_place 0 one_task [] [] refl refl refl))

batch_over_example :
    (length one_over.results ≡ 1)
    × ((i : ℕ) (t : Task) → get_elem? (one_task ∷ []) i ≡ some t → IsDone one_over.results i t)
    × All (IsTold (one_task ∷ [])) one_over.reported
unfolding start_batch
batch_over_example =
    batch_over told_config (one_task ∷ []) one_over
      (more
        (more (more begun (launches one_task [] refl refl))
          (takes_place 0 one_task [] [] refl refl refl))
        (finishes 0 one_task (some empty_result) none 7 [] [] refl refl))
      refl refl refl
