-- ===== src/Worker.antt =====
-- The streams and events of a worker's thread in src/sched/scheduler.cpp: `CudaEvent`, `WorkerContext`,
-- the beginning of `execute_batch`, which stands before its `try` block, and `worker_loop` around it.
-- What follows in `execute_batch` makes and destroys none of them.
-- `cudaStreamCreate`, `cudaStreamCreateWithFlags` and `cudaEventCreate` are a parameter: the handle that
-- the n-th call gives, or none for an error. A failure here leaves `worker_loop` as an exception, which
-- ends the process; the result is `none` then.
-- Whether a vector has to move its elements when it grows is a parameter too.
pub mod Counts
pub mod Balanced
mod Tests
use gpu_batch_inference_sche.Common.{
  ℕ, zero, suc, ◌-◌, Bool, List, [], ◌∷◌, Option, none, some, ltb, length, ◌==◌, if◌then◌else◌,
  ◌&&◌, ◌>>=◌,
}

-- The streams and events made and not destroyed: how many there are at each handle.
pub record Handles : Type 0 where
  pub calls : ℕ
  pub streams : ℕ → ℕ
  pub events : ℕ → ℕ

abbrev pub Creation : Type 0
Creation = (call : ℕ) → Option ℕ

-- A stream or an event is `none` where the source has a null pointer.
pub record WorkerContext : Type 0 where
  pub h2d_stream : Option ℕ
  pub compute_stream : Option ℕ
  pub d2h_stream : Option ℕ
  pub h2d_done : List (Option ℕ)
  pub kern_done : List (Option ℕ)
  pub done : List (Option ℕ)

abbrev pub new_context : WorkerContext
new_context = record {
  h2d_stream = none;
  compute_stream = none;
  d2h_stream = none;
  h2d_done = [];
  kern_done = [];
  done = [];
}

-- `cudaStreamDestroy`, for a stream that is not null.
unfoldable pub destroy_stream : Option ℕ → Handles → Handles
destroy_stream none r = r
destroy_stream (some p) r = record r {
  streams = λ q. if q == p then r.streams q - 1 else r.streams q;
}

-- The destructor of `CudaEvent`.
unfoldable pub destroy_event : Option ℕ → Handles → Handles
destroy_event none r = r
destroy_event (some p) r = record r { events = λ q. if q == p then r.events q - 1 else r.events q }

unfoldable pub destroy_events : List (Option ℕ) → Handles → Handles
unfolding destroy_event
destroy_events [] r = r
destroy_events (e ∷ pool) r = destroy_events pool (destroy_event e r)

-- The move constructor of `CudaEvent`: the new event, and what is left in the old one.
unfoldable pub move_event : Option ℕ → Option ℕ × Option ℕ
move_event other = (other, none)

-- A vector that gets new storage: each event is moved there, and the old one destroyed.
unfoldable pub relocate : List (Option ℕ) → Handles → List (Option ℕ) × Handles
unfolding move_event destroy_event
relocate [] r = ([], r)
relocate (e ∷ pool) r =
    let moved : Option ℕ × Option ℕ = move_event e in
    let rest : List (Option ℕ) × Handles = relocate pool (destroy_event (moved.1) r) in
    (moved.0 ∷ rest.0, rest.1)

-- Whether a vector that grows from `size` to `n` events after so many calls gets new storage.
abbrev pub Reallocation : Type 0
Reallocation = (calls size n : ℕ) → Bool

module _ (create : Creation) where
  unfoldable pub create_stream : Handles → Option (ℕ × Handles)
  create_stream r = do
    p ← create r.calls
    some (
      p,
      record r {
        calls = suc r.calls;
        streams = λ q. if q == p then suc (r.streams q) else r.streams q;
      },
    )

  -- The constructor of `CudaEvent`.
  unfoldable pub create_event : Handles → Option (ℕ × Handles)
  create_event r = do
    p ← create r.calls
    some (
      p,
      record r {
        calls = suc r.calls;
        events = λ q. if q == p then suc (r.events q) else r.events q;
      },
    )

  -- The three streams, where there are none.
  unfoldable pub open_streams : WorkerContext → Handles → Option (WorkerContext × Handles)
  unfolding create_stream
  open_streams ctx r = elim ctx.h2d_stream [
    | some p ↦ some (ctx, r)
    | none ↦ do
      h2d ← create_stream r
      compute ← create_stream (h2d.1)
      d2h ← create_stream (compute.1)
      some (
        record ctx {
          h2d_stream = some (h2d.0);
          compute_stream = some (compute.0);
          d2h_stream = some (d2h.0);
        },
        d2h.1,
      )
  ]

  -- The events that `resize` keeps, destroys and makes.
  unfoldable pub resize_in_place :
      (n : ℕ) → List (Option ℕ) → Handles → Option (List (Option ℕ) × Handles)
  unfolding create_event destroy_events
  resize_in_place zero pool r = some ([], destroy_events pool r)
  resize_in_place (suc n) (e ∷ pool) r = do
    rest ← resize_in_place n pool r
    some (e ∷ rest.0, rest.1)
  resize_in_place (suc n) [] r = do
    made ← create_event r
    rest ← resize_in_place n [] (made.1)
    some (some (made.0) ∷ rest.0, rest.1)

module _ (create : Creation) (reallocates : Reallocation) where
  -- `std::vector::resize` of a pool to `n` events.
  unfoldable pub resize : (n : ℕ) → List (Option ℕ) → Handles → Option (List (Option ℕ) × Handles)
  unfolding resize_in_place relocate
  resize n pool r =
      let size : ℕ = length pool in
      let moved : List (Option ℕ) × Handles =
        if ltb size n && reallocates r.calls size n then relocate pool r else (pool, r) in
      resize_in_place create n (moved.0) (moved.1)

  -- The pools of all three kinds of events.
  unfoldable pub resize_pools : (n : ℕ) → WorkerContext → Handles → Option (WorkerContext × Handles)
  unfolding resize
  resize_pools n ctx r = do
    h2d ← resize n ctx.h2d_done r
    kern ← resize n ctx.kern_done (h2d.1)
    results ← resize n ctx.done (kern.1)
    some (record ctx { h2d_done = h2d.0; kern_done = kern.0; done = results.0 }, results.1)

  -- Before a batch of `n` jobs.
  unfoldable pub prepare : (n : ℕ) → WorkerContext → Handles → Option (WorkerContext × Handles)
  unfolding open_streams resize_pools
  prepare n ctx r = do
    opened ← open_streams create ctx r
    if ltb (length (opened.0).h2d_done) n then resize_pools n (opened.0) (opened.1) else some opened

  -- The batches of a worker one after the other, by their numbers of jobs. The context is made for the
  -- first one; a thread without a GPU fails the batches and makes none.
  unfoldable pub batches :
      Bool → List ℕ → Option WorkerContext → Handles → Option (Option WorkerContext × Handles)
  unfolding prepare
  batches gpu_absent [] ctx r = some (ctx, r)
  batches gpu_absent (n ∷ ns) ctx r = if gpu_absent then batches gpu_absent ns ctx r else (do
    x ← prepare n (elim ctx [ none ↦ new_context | some c ↦ c ]) r
    batches gpu_absent ns (some (x.0)) (x.1))

-- The end of `worker_loop`: the streams, and the events with the destructor of the context, the
-- members of which are destroyed from the last one on.
unfoldable pub close : Option WorkerContext → Handles → Handles
unfolding destroy_stream destroy_events
close none r = r
close (some c) r =
    let streams : Handles =
      destroy_stream c.d2h_stream
        (destroy_stream c.compute_stream (destroy_stream c.h2d_stream r)) in
    destroy_events c.h2d_done (destroy_events c.kern_done (destroy_events c.done streams))

unfoldable pub worker_loop : Creation → Reallocation → Bool → List ℕ → Handles → Option Handles
unfolding batches close
worker_loop create reallocates gpu_absent ns r = do
  x ← batches create reallocates gpu_absent ns none r
  some (close (x.0) (x.1))
