-- ===== src/Service/Batch.antt =====
-- The whole of execute_batch in src/sched/scheduler.cpp on a context whose streams exist: the buffers
-- of `Alloc`, then the calls of `Pipeline` with a call that may fail, then the destructors of the
-- buffers, which run where the function returns.
use gpu_batch_inference_sche.Common.{
  ℕ, suc, ◌≡◌, ◌≢◌, refl, sym, subst, List, [], Option, Bool, true, false, length, if◌then◌else◌,
  arith,
}
use gpu_batch_inference_sche.Job.{InferenceJob}
use gpu_batch_inference_sche.Alloc
use gpu_batch_inference_sche.Alloc.Ledger.{release_execs-live}
use gpu_batch_inference_sche.Alloc.Leaks.{allocate_batch-live, emptied-held}
use gpu_batch_inference_sche.Stream.{Jobs, Memory, Runtime, start_program}
use gpu_batch_inference_sche.Stream.Failing.{Faults, IsQuiet, ReadsFirst}
use gpu_batch_inference_sche.Pipeline.{execute_batch}
use gpu_batch_inference_sche.Pipeline.Attempt.{Attempt, succeeded, failed}
use gpu_batch_inference_sche.Pipeline.Right.{products}
use gpu_batch_inference_sche.Pipeline.Recovers.{Attempt-IsQuiet}

module _ {j : Jobs} {cuda : Runtime j} (faults : Faults cuda) (malloc host_alloc : Alloc.Driver)
    (batch : List InferenceJob) (space : Alloc.Space) (d : cuda.Device) where
  abbrev allocation : Alloc.Allocation
  allocation = Alloc.allocate_batch malloc host_alloc batch space

  -- The destructor of `execs`.
  abbrev freed : Alloc.Space
  freed = Alloc.release_execs allocation.execs allocation.space

  -- How execute_batch returns: whether the jobs have succeeded, with the machine and the memory.
  pub data Executed : (ok : Bool) → cuda.Device → Alloc.Space → Type 0 where
    not_allocated : allocation.ending ≢ Alloc.allocated → Executed false d freed
    completed :
        {d' : cuda.Device}
        → allocation.ending ≡ Alloc.allocated
        → Attempt faults d succeeded d'
        → Executed true d' freed
    aborted :
        {d' : cuda.Device}
        → allocation.ending ≡ Alloc.allocated
        → Attempt faults d failed d'
        → Executed false d' freed

-- What the host has read: all products of a batch that has succeeded, else the first of them.
abbrev pub HasRead : (j : Jobs) → (ok : Bool) → (results all : List (Option j.Matrix)) → Type 0
HasRead j true results all = results ≡ all
HasRead j false results all = ReadsFirst results all

-- As many allocations are live at each address.
abbrev pub SameLive : Alloc.Space → Alloc.Space → Type 0
SameLive space space' =
    (p : ℕ)
    → (space'.device.live p ≡ space.device.live p) × (space'.host.live p ≡ space.host.live p)

freed-SameLive :
    (malloc host_alloc : Alloc.Driver) (batch : List InferenceJob) (space : Alloc.Space)
    → let a = Alloc.allocate_batch malloc host_alloc batch space in
      SameLive space (Alloc.release_execs a.execs a.space)
freed-SameLive malloc host_alloc batch space p =
    let a = Alloc.allocate_batch malloc host_alloc batch space in
    let kept =
      release_execs-live p (space.device.live p) (space.host.live p) a.execs a.space
        (allocate_batch-live malloc host_alloc batch space p) in
    let none_held = emptied-held p a.execs in
    (omega (arith, kept, none_held), omega (arith, kept, none_held))

start-IsQuiet :
    (j : Jobs) (retain_results : Bool) (size : ℕ) (m : Memory j)
    → IsQuiet j (start_program j (execute_batch retain_results size) m)
unfolding start_program
start-IsQuiet j retain_results size m = (λ s. refl, λ a i. refl)

-- execute_batch cleans up on every path. Whatever the drivers answer to the allocations of a batch of
-- `n + 1` jobs, whichever call of CUDA fails, and however the streams run: when it returns, as many
-- allocations are live at each address of the device and of the pinned memory as before, the three
-- streams are empty, and the latest record of each event has run. Where it succeeds it has read the
-- products of all jobs in order, if results are retained, and none otherwise; where it fails it has
-- read the products of the first jobs at most.
pub Executed-IsClean :
    (j : Jobs) (cuda : Runtime j) (faults : Faults cuda) (malloc host_alloc : Alloc.Driver)
    (retain_results : Bool) (n : ℕ) (batch : List InferenceJob) (space : Alloc.Space) (m : Memory j)
    (d : cuda.Device) {ok : Bool} {d' : cuda.Device} {space' : Alloc.Space}
    → length batch ≡ suc n
    → cuda.view d ≡ start_program j (execute_batch retain_results (length batch)) m
    → Executed faults malloc host_alloc batch space d ok d' space'
    → SameLive space space'
      × IsQuiet j (cuda.view d')
      × HasRead j ok
          (cuda.view d').results
          (if retain_results then products j 0 (length batch) else [])
unfolding start_program
Executed-IsClean j cuda faults malloc host_alloc retain_results n batch space m d size e
      (not_allocated none) =
    (
      freed-SameLive malloc host_alloc batch space,
      subst (IsQuiet j) (sym e) (start-IsQuiet j retain_results (length batch) m),
      subst
          (λ st.
            ReadsFirst (st.results) (if retain_results then products j 0 (length batch) else []))
          (sym e) (_, refl),
    )
Executed-IsClean j cuda faults malloc host_alloc retain_results n batch space m d {d' = d'} size e
      (completed got t) =
    let start =
      subst (λ k. cuda.view d ≡ start_program j (execute_batch retain_results k) m) size e in
    let (right, quiet) = Attempt-IsQuiet j cuda faults retain_results n m d d' succeeded start t in
    (freed-SameLive malloc host_alloc batch space, quiet, rw size right)
Executed-IsClean j cuda faults malloc host_alloc retain_results n batch space m d {d' = d'} size e
      (aborted got t) =
    let start =
      subst (λ k. cuda.view d ≡ start_program j (execute_batch retain_results k) m) size e in
    let (right, quiet) = Attempt-IsQuiet j cuda faults retain_results n m d d' failed start t in
    (freed-SameLive malloc host_alloc batch space, quiet, rw size right)
