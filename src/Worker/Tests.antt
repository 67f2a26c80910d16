-- ===== src/Worker/Tests.antt =====
-- A worker of src/sched/scheduler.cpp that goes through three batches.
use gpu_batch_inference_sche.Common.{
  ℕ, Option, ◌+◌, ◌≡◌, refl, true, false, [], ◌∷◌, none, some, ◌==◌, if◌then◌else◌,
}
use gpu_batch_inference_sche.Worker.{
  Handles, WorkerContext, Creation, Reallocation, resize_in_place, relocate, move_event,
  destroy_event, worker_loop, batches, prepare, open_streams, create_stream, create_event, resize,
  resize_pools, close, destroy_stream, destroy_events,
}
use gpu_batch_inference_sche.Worker.Balanced.{worker_loop-balanced}

abbrev numbered : Creation
numbered call = some (100 + call)

-- A vector that grows always gets new storage.
abbrev always : Reallocation
always calls size n = true

-- One event of another part of the process is there.
abbrev before : Handles
before = record { calls = 0; streams = λ q. 0; events = λ q. if q == 7 then 1 else 0 }

abbrev calls_of : Option (Option WorkerContext × Handles) → ℕ
calls_of none = 0
calls_of (some x) = (x.1).calls

-- Three streams, three events for the first batch, and three more for the second.
created_once : calls_of (batches numbered always false (1 ∷ 2 ∷ 1 ∷ []) none before) ≡ 9
unfolding batches prepare open_streams create_stream create_event resize resize_in_place relocate
    move_event destroy_event resize_pools destroy_events
created_once = refl

abbrev refusing : Creation
refusing call = if call == 4 then none else some call

refused_event : worker_loop refusing always false (1 ∷ []) before ≡ none
unfolding worker_loop batches prepare open_streams create_stream create_event resize resize_in_place
    relocate move_event destroy_event resize_pools destroy_events close destroy_stream
refused_event = refl

worker_loop-balanced_example :
    (x : Handles) × ((worker_loop numbered always false (1 ∷ 2 ∷ 1 ∷ []) before ≡ some x)
      × ((q : ℕ) → (x.streams q ≡ before.streams q) × (x.events q ≡ before.events q)))
worker_loop-balanced_example =
    worker_loop-balanced numbered always (λ call. (100 + call, refl)) false (1 ∷ 2 ∷ 1 ∷ []) before
