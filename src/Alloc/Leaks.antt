-- ===== src/Alloc/Leaks.antt =====
-- The allocation loop of src/sched/scheduler.cpp leaks no memory and frees none twice.
use gpu_batch_inference_sche.Common.{
  ℕ, zero, suc, ◌+◌, ◌≡◌, refl, List, [], ◌∷◌, Option, none, some, total, arith,
}
use gpu_batch_inference_sche.Job.{InferenceJob}
use gpu_batch_inference_sche.Alloc
use gpu_batch_inference_sche.Alloc.Ledger.{
  held, device_held, host_held, IsBalanced, try_all-live, release_execs-live,
}

module _ (p device host : ℕ) where
  abbrev Kept : Alloc.Pass → Type 0
  Kept r = IsBalanced p device host r.execs r.space

  continue_pass-live :
      (v : Alloc.Verdict) (e : Alloc.JobBuffers) (execs : List Alloc.JobBuffers)
      (space : Alloc.Space) (rest : Alloc.Pass)
      → IsBalanced p device host (e ∷ execs) space
      → IsBalanced p device host (e ∷ rest.execs) rest.space
      → Kept (Alloc.continue_pass v e execs space rest)
  unfolding Alloc.continue_pass
  continue_pass-live Alloc.done e execs space rest h h' = h'
  continue_pass-live (Alloc.device_error err) e execs space rest h h' = h
  continue_pass-live (Alloc.thrown err) e execs space rest h h' = h

  after_device-live :
      (error : Option Alloc.CudaError) (d : Alloc.TriedAll) (e : Alloc.JobBuffers)
      (execs : List Alloc.JobBuffers) (space : Alloc.Space) (rest : Alloc.Pass)
      → IsBalanced p device host
          (record e { device = d.buffers } ∷ execs)
          (record space { device = d.memory })
      → Kept rest
      → Kept (Alloc.after_device error d e execs space rest)
  unfolding Alloc.after_device
  after_device-live none d e execs space rest h h' = h'
  after_device-live (some err) d e execs space rest h h' = h

alloc_pass-live :
    (malloc host_alloc : Alloc.Driver) (p device host : ℕ) (batch : List InferenceJob)
    (execs : List Alloc.JobBuffers) (space : Alloc.Space)
    → IsBalanced p device host execs space
    → Kept p device host (Alloc.alloc_pass malloc host_alloc batch execs space)
unfolding Alloc.alloc_pass
alloc_pass-live malloc host_alloc p device host [] execs space h = h
alloc_pass-live malloc host_alloc p device host (job ∷ jobs) [] space h = h
alloc_pass-live malloc host_alloc p device host (job ∷ jobs) (e ∷ execs) space h =
    let d = Alloc.try_all malloc (Alloc.job_sizes job) e.device space.device in
    let k = Alloc.try_all host_alloc (Alloc.job_sizes job) e.host space.host in
    let after : Alloc.Space = record { device = d.memory; host = k.memory } in
    let rest = Alloc.alloc_pass malloc host_alloc jobs execs after in
    let hd =
      try_all-live malloc p device (device_held p execs) (Alloc.job_sizes job) e.device space.device
        (omega (arith, h)) in
    let hk =
      try_all-live host_alloc p host (host_held p execs) (Alloc.job_sizes job) e.host space.host
        (omega (arith, h)) in
    let later : IsBalanced p (device + total (held p) d.buffers) (host + total (held p) k.buffers)
        rest.execs rest.space =
      alloc_pass-live malloc host_alloc p (device + total (held p) d.buffers)
        (host + total (held p) k.buffers) jobs execs after (omega (arith, hd), omega (arith, hk)) in
    after_device-live p device host d.error d e execs space _ (omega (arith, hd), omega (arith, h))
      (continue_pass-live p device host (Alloc.host_verdict k.error)
        (record { device = d.buffers; host = k.buffers }) execs after rest
        (omega (arith, hd), omega (arith, hk)) (omega (arith, later), omega (arith, later)))

abbrev pub IsKept : (p device host : ℕ) → Alloc.Allocation → Type 0
IsKept p device host a = IsBalanced p device host a.execs a.space

conclude-live :
    (p device host : ℕ) (v : Alloc.Verdict) (pass : Alloc.Pass) (retries : ℕ)
    (again : Alloc.Allocation)
    → Kept p device host pass
    → IsKept p device host again
    → IsKept p device host (Alloc.conclude v pass retries again)
unfolding Alloc.conclude Alloc.gave_up
conclude-live p device host Alloc.done pass retries again h h' = h
conclude-live p device host (Alloc.device_error Alloc.memory_allocation) pass retries again h h' =
    h'
conclude-live p device host (Alloc.device_error Alloc.other_error) pass retries again h h' =
    release_execs-live p device host pass.execs pass.space h
conclude-live p device host (Alloc.thrown e) pass retries again h h' = h

alloc_loop-live :
    (malloc host_alloc : Alloc.Driver) (p device host : ℕ) (batch : List InferenceJob) (left : ℕ)
    (execs : List Alloc.JobBuffers) (space : Alloc.Space) (retries : ℕ)
    → IsBalanced p device host execs space
    → IsKept p device host (Alloc.alloc_loop malloc host_alloc batch left execs space retries)
unfolding Alloc.alloc_loop Alloc.gave_up
alloc_loop-live malloc host_alloc p device host batch zero execs space retries h =
    let pass = Alloc.alloc_pass malloc host_alloc batch execs space in
    let kept = alloc_pass-live malloc host_alloc p device host batch execs space h in
    conclude-live p device host pass.verdict pass retries
      (Alloc.gave_up Alloc.memory_allocation pass retries) kept
      (release_execs-live p device host pass.execs pass.space kept)
alloc_loop-live malloc host_alloc p device host batch (suc left) execs space retries h =
    let pass = Alloc.alloc_pass malloc host_alloc batch execs space in
    let kept = alloc_pass-live malloc host_alloc p device host batch execs space h in
    let freed = release_execs-live p device host pass.execs pass.space kept in
    conclude-live p device host pass.verdict pass retries
      (Alloc.alloc_loop malloc host_alloc batch left (Alloc.emptied pass.execs)
        (Alloc.release_execs pass.execs pass.space) (suc retries))
      kept
      (alloc_loop-live malloc host_alloc p device host batch left (Alloc.emptied pass.execs)
        (Alloc.release_execs pass.execs pass.space) (suc retries) freed)

fresh_execs-held :
    (p : ℕ) (batch : List InferenceJob)
    → (device_held p (Alloc.fresh_execs batch) ≡ 0) × (host_held p (Alloc.fresh_execs batch) ≡ 0)
unfolding Alloc.fresh_execs
fresh_execs-held p [] = (refl, refl)
fresh_execs-held p (job ∷ batch) =
    let h = fresh_execs-held p batch in (omega (arith, h), omega (arith, h))

-- However the allocations of a batch end, and whatever the driver answered, the allocations that are
-- live at an address are those from before and those that the buffers of the batch hold: none is
-- leaked by the retries, and none is freed twice.
pub allocate_batch-live :
    (malloc host_alloc : Alloc.Driver) (batch : List InferenceJob) (space : Alloc.Space) (p : ℕ)
    → let a = Alloc.allocate_batch malloc host_alloc batch space in
      (a.space.device.live p ≡ space.device.live p + device_held p a.execs)
      × (a.space.host.live p ≡ space.host.live p + host_held p a.execs)
unfolding Alloc.allocate_batch
allocate_batch-live malloc host_alloc batch space p =
    let none_held = fresh_execs-held p batch in
    alloc_loop-live malloc host_alloc p (space.device.live p) (space.host.live p) batch
      Alloc.max_alloc_retries (Alloc.fresh_execs batch) space 0
      (omega (arith, none_held), omega (arith, none_held))

pub emptied-held :
    (p : ℕ) (execs : List Alloc.JobBuffers)
    → (device_held p (Alloc.emptied execs) ≡ 0) × (host_held p (Alloc.emptied execs) ≡ 0)
unfolding Alloc.emptied
emptied-held p [] = (refl, refl)
emptied-held p (e ∷ execs) = let h = emptied-held p execs in (omega (arith, h), omega (arith, h))

-- A loop that gave up holds nothing.
abbrev HoldsNone : ℕ → Alloc.Allocation → Type 0
HoldsNone p a =
    (e : Alloc.CudaError)
    → a.ending ≡ Alloc.failed e
    → (device_held p a.execs ≡ 0) × (host_held p a.execs ≡ 0)

conclude-HoldsNone :
    (p : ℕ) (v : Alloc.Verdict) (pass : Alloc.Pass) (retries : ℕ) (again : Alloc.Allocation)
    → HoldsNone p again
    → HoldsNone p (Alloc.conclude v pass retries again)
unfolding Alloc.conclude Alloc.gave_up
conclude-HoldsNone p Alloc.done pass retries again h e q = absurd cc
conclude-HoldsNone p (Alloc.device_error Alloc.memory_allocation) pass retries again h e q = h e q
conclude-HoldsNone p (Alloc.device_error Alloc.other_error) pass retries again h e q =
    emptied-held p pass.execs
conclude-HoldsNone p (Alloc.thrown err) pass retries again h e q = absurd cc

alloc_loop-HoldsNone :
    (malloc host_alloc : Alloc.Driver) (p : ℕ) (batch : List InferenceJob) (left : ℕ)
    (execs : List Alloc.JobBuffers) (space : Alloc.Space) (retries : ℕ)
    → HoldsNone p (Alloc.alloc_loop malloc host_alloc batch left execs space retries)
unfolding Alloc.alloc_loop Alloc.gave_up
alloc_loop-HoldsNone malloc host_alloc p batch zero execs space retries =
    let pass = Alloc.alloc_pass malloc host_alloc batch execs space in
    conclude-HoldsNone p pass.verdict pass retries
      (Alloc.gave_up Alloc.memory_allocation pass retries) (λ e q. emptied-held p pass.execs)
alloc_loop-HoldsNone malloc host_alloc p batch (suc left) execs space retries =
    let pass = Alloc.alloc_pass malloc host_alloc batch execs space in
    conclude-HoldsNone p pass.verdict pass retries
      (Alloc.alloc_loop malloc host_alloc batch left (Alloc.emptied pass.execs)
        (Alloc.release_execs pass.execs pass.space) (suc retries))
      (alloc_loop-HoldsNone malloc host_alloc p batch left (Alloc.emptied pass.execs)
        (Alloc.release_execs pass.execs pass.space) (suc retries))

-- A batch that is given up for an error of the device leaves the memory as it was: at each address as
-- many allocations are live as before it.
pub allocate_batch-failed :
    (malloc host_alloc : Alloc.Driver) (batch : List InferenceJob) (space : Alloc.Space)
    (e : Alloc.CudaError)
    → (Alloc.allocate_batch malloc host_alloc batch space).ending ≡ Alloc.failed e
    → (p : ℕ)
    → ((Alloc.allocate_batch malloc host_alloc batch space).space.device.live p
        ≡ space.device.live p)
      × ((Alloc.allocate_batch malloc host_alloc batch space).space.host.live p ≡ space.host.live p)
unfolding Alloc.allocate_batch
allocate_batch-failed malloc host_alloc batch space e q p =
    let h = allocate_batch-live malloc host_alloc batch space p in
    let n =
      alloc_loop-HoldsNone malloc host_alloc p batch Alloc.max_alloc_retries
        (Alloc.fresh_execs batch) space 0 e q in
    (omega (arith, h.0, n.0), omega (arith, h.1, n.1))
