-- ===== src/Alloc/Retries.antt =====
-- The retries of the allocation loop of src/sched/scheduler.cpp.
use gpu_batch_inference_sche.Common.{ℕ, zero, suc, ◌+◌, ◌*◌, ◌≤◌, ◌≡◌, refl, List, arith}
use gpu_batch_inference_sche.Job.{InferenceJob}
use gpu_batch_inference_sche.Alloc.{
  memory_allocation, other_error, Driver, JobBuffers, Space, Verdict, done, device_error, thrown,
  Pass, Allocation, Ending, allocated, failed, threw, fresh_execs, emptied, release_execs, conclude,
  alloc_loop, alloc_pass, gave_up, allocate_batch, oom_failures_of,
}

-- The retries counted until the end, `most` at most, and all of them where memory ran out.
abbrev IsExhausted : (least most : ℕ) → Allocation → Type 0
IsExhausted least most a =
    (least ≤ a.retries) × (a.retries ≤ most) × (most * oom_failures_of a.ending ≤ a.retries)

conclude-IsExhausted :
    (v : Verdict) (pass : Pass) (retries most : ℕ) (again : Allocation)
    → retries ≤ most
    → IsExhausted retries most again
    → IsExhausted retries most (conclude v pass retries again)
unfolding conclude gave_up oom_failures_of
conclude-IsExhausted done pass retries most again le h = (omega arith, omega arith, omega arith)
conclude-IsExhausted (device_error memory_allocation) pass retries most again le h = h
conclude-IsExhausted (device_error other_error) pass retries most again le h =
    (omega arith, omega arith, omega arith)
conclude-IsExhausted (thrown e) pass retries most again le h =
    (omega arith, omega arith, omega arith)

alloc_loop-IsExhausted :
    (malloc host_alloc : Driver) (batch : List InferenceJob) (left : ℕ) (execs : List JobBuffers)
    (space : Space) (retries most : ℕ)
    → most ≡ retries + left
    → IsExhausted retries most (alloc_loop malloc host_alloc batch left execs space retries)
unfolding alloc_loop gave_up oom_failures_of
alloc_loop-IsExhausted malloc host_alloc batch zero execs space retries most e =
    let pass : Pass = alloc_pass malloc host_alloc batch execs space in
    conclude-IsExhausted pass.verdict pass retries most (gave_up memory_allocation pass retries)
      (omega arith) (omega arith, omega arith, omega arith)
alloc_loop-IsExhausted malloc host_alloc batch (suc left) execs space retries most e =
    conclude-IsExhausted _ _ retries most _ (omega arith) (
      let h =
        alloc_loop-IsExhausted malloc host_alloc batch left _ _ (suc retries) most (omega arith) in
      (omega (arith, h.0), h.1, h.2))

-- The retries that a batch has made when it ends so.
abbrev pub IsRetried : Ending → (retries : ℕ) → Type 0
IsRetried (failed memory_allocation) retries = retries ≡ 200
IsRetried _ retries = retries ≤ 200

-- What follows a first round that goes so: an exception of a host buffer ends the batch.
abbrev pub IsFollowed : Verdict → Allocation → Type 0
IsFollowed (thrown e) a = (a.ending ≡ threw e) × (a.retries ≡ 0) × (oom_failures_of a.ending ≡ 0)
IsFollowed done a = (a.ending ≡ allocated) × (a.retries ≡ 0)
IsFollowed (device_error other_error) a = (a.ending ≡ failed other_error) × (a.retries ≡ 0)
IsFollowed (device_error memory_allocation) a = 1 ≤ a.retries

ending-IsRetried :
    (ending : Ending) (retries : ℕ)
    → retries ≤ 200
    → 200 * oom_failures_of ending ≤ retries
    → IsRetried ending retries
unfolding oom_failures_of
ending-IsRetried allocated retries h h' = h
ending-IsRetried (failed memory_allocation) retries h h' = omega arith
ending-IsRetried (failed other_error) retries h h' = h
ending-IsRetried (threw e) retries h h' = h

conclude-IsFollowed :
    (v : Verdict) (pass : Pass) (again : Allocation)
    → 1 ≤ again.retries
    → IsFollowed v (conclude v pass 0 again)
unfolding conclude gave_up oom_failures_of
conclude-IsFollowed done pass again h = (refl, refl)
conclude-IsFollowed (device_error memory_allocation) pass again h = h
conclude-IsFollowed (device_error other_error) pass again h = (refl, refl)
conclude-IsFollowed (thrown e) pass again h = (refl, refl, refl)

-- A batch makes at most 200 retries, and all of them where it is given up because `cudaMalloc` finds no
-- memory, which is what `oom_failures_` counts. Only that error of the device is retried: a first round
-- that succeeds, or meets another error of the device, ends the batch with no retry, and so does one
-- that cannot allocate a pinned host buffer, for want of memory or not, with its exception and nothing
-- counted.
pub allocate_batch-retries :
    (malloc host_alloc : Driver) (batch : List InferenceJob) (space : Space)
    → let a = allocate_batch malloc host_alloc batch space in
      IsRetried a.ending a.retries
      × IsFollowed (alloc_pass malloc host_alloc batch (fresh_execs batch) space).verdict a
unfolding allocate_batch alloc_loop
allocate_batch-retries malloc host_alloc batch space =
    let a = allocate_batch malloc host_alloc batch space in
    let h = alloc_loop-IsExhausted malloc host_alloc batch 200 _ space 0 200 (omega arith) in
    let pass = alloc_pass malloc host_alloc batch (fresh_execs batch) space in
    let more =
      alloc_loop-IsExhausted malloc host_alloc batch 199 (emptied pass.execs)
        (release_execs pass.execs pass.space) 1 200 (omega arith) in
    (ending-IsRetried a.ending a.retries h.1 h.2, conclude-IsFollowed pass.verdict pass _ more.0)
