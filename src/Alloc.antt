-- ===== src/Alloc.antt =====
-- The allocation loop of `execute_batch` in src/sched/scheduler.cpp, over the buffers of
-- `Alloc.Buffers`.
mod Buffers
pub mod Ledger
pub mod Leaks
pub mod Retries
pub mod Tests
unfoldable pub use Buffers.*
use gpu_batch_inference_sche.Common.{
  ℕ, zero, suc, ◌+◌, ◌-◌, ◌*◌, ◌%◌, ◌^◌, Bool, true, false, List, [], ◌∷◌, Option, none, some, ◌==◌,
  if◌then◌else◌, size_of_int,
}
use gpu_batch_inference_sche.Job.{InferenceJob, sizeof_float}

-- What a sequence of allocations leaves.
pub record TriedAll : Type 0 where
  pub buffers : List Buffer
  pub memory : Memory
  pub error : Option CudaError

-- The result `rest` of the allocations that follow counts only after a success.
pub continue_all : Tried → Option CudaError → List Buffer → TriedAll → TriedAll
continue_all t none bs rest = record rest { buffers = t.buffer ∷ rest.buffers }
continue_all t (some e) bs rest = record {
  buffers = t.buffer ∷ bs;
  memory = t.memory;
  error = some e;
}

-- Allocations one after the other; the first error ends the sequence.
pub try_all : Driver → List ℕ → List Buffer → Memory → TriedAll
unfolding try_allocate continue_all
try_all driver (count ∷ counts) (b ∷ bs) mem =
    let t : Tried = try_allocate driver count b mem in
    let rest : TriedAll = try_all driver counts bs t.memory in continue_all t t.error bs rest
try_all driver _ bs mem = record { buffers = bs; memory = mem; error = none }

-- `release` on each buffer.
pub release_all : List Buffer → Memory → Memory
unfolding release
release_all [] mem = mem
release_all (b ∷ bs) mem = release_all bs (release b mem)

-- `sa`, `sb` and `sc`: elements of the three matrices, each product modulo 2^64.
unfoldable pub job_sizes : InferenceJob → List ℕ
job_sizes job =
    let elements : ℕ → ℕ → ℕ = λ a b. a * b % 2 ^ 64 * size_of_int job.batch % 2 ^ 64 in
    elements (size_of_int job.m) (size_of_int job.k)
    ∷ elements (size_of_int job.k) (size_of_int job.n)
    ∷ elements (size_of_int job.m) (size_of_int job.n)
    ∷ []

-- `da`, `db` and `dc` of a job, and `ha`, `hb` and `hc`.
pub record JobBuffers : Type 0 where
  pub device : List Buffer
  pub host : List Buffer

abbrev pub empty_buffers : JobBuffers
empty_buffers =
    let three : List Buffer = empty_buffer ∷ empty_buffer ∷ empty_buffer ∷ [] in
    record { device = three; host = three }

-- The memory of the device, and the pinned memory of the host.
pub record Space : Type 0 where
  pub device : Memory
  pub host : Memory

-- How a round over the batch went: `alloc_err` with a device error, an exception with a host error.
pub data Verdict : Type 0 where
  done : Verdict
  device_error : (error : CudaError) → Verdict
  thrown : (error : CudaError) → Verdict

pub record Pass : Type 0 where
  pub execs : List JobBuffers
  pub space : Space
  pub verdict : Verdict

-- The result `rest` of the jobs that follow counts only where the job was done.
pub continue_pass : Verdict → JobBuffers → List JobBuffers → Space → Pass → Pass
continue_pass done e execs space rest = record rest { execs = e ∷ rest.execs }
continue_pass v e execs space rest = record { execs = e ∷ execs; space = space; verdict = v }

-- The host buffers throw where they cannot be allocated.
pub host_verdict : Option CudaError → Verdict
host_verdict none = done
host_verdict (some err) = thrown err

-- The result `rest` of the host buffers counts only where the device buffers were allocated.
pub after_device : Option CudaError → TriedAll → JobBuffers → List JobBuffers → Space → Pass → Pass
after_device none d e execs space rest = rest
after_device (some err) d e execs space rest = record {
  execs = record e { device = d.buffers } ∷ execs;
  space = record space { device = d.memory };
  verdict = device_error err;
}

-- One round over the batch.
pub alloc_pass : Driver → Driver → List InferenceJob → List JobBuffers → Space → Pass
unfolding try_all job_sizes continue_pass after_device host_verdict
alloc_pass malloc host_alloc (job ∷ jobs) (e ∷ execs) space =
    let d : TriedAll = try_all malloc (job_sizes job) e.device space.device in
    let h : TriedAll = try_all host_alloc (job_sizes job) e.host space.host in
    let after : Space = record { device = d.memory; host = h.memory } in
    let rest : Pass = alloc_pass malloc host_alloc jobs execs after in
    after_device d.error d e execs space (
      continue_pass (host_verdict h.error) (record { device = d.buffers; host = h.buffers }) execs
        after rest)
alloc_pass malloc host_alloc _ execs space = record { execs = execs; space = space; verdict = done }

-- The buffers of all the jobs are released.
pub release_execs : List JobBuffers → Space → Space
unfolding release_all
release_execs [] space = space
release_execs (e ∷ execs) space =
    release_execs execs
      (record { device = release_all e.device space.device; host = release_all e.host space.host })

pub emptied : List JobBuffers → List JobBuffers
emptied [] = []
emptied (e ∷ execs) = empty_buffers ∷ emptied execs

-- How the loop ends: `allocated`, or with the error for the exception that follows it, or with the
-- exception of a host allocation.
pub data Ending : Type 0 where
  allocated : Ending
  failed : (error : CudaError) → Ending
  threw : (error : CudaError) → Ending

pub record Allocation : Type 0 where
  pub ending : Ending
  pub execs : List JobBuffers
  pub space : Space
  pub retries : ℕ

-- The loop is left with an error, after the buffers of all the jobs are released.
pub gave_up : CudaError → Pass → ℕ → Allocation
unfolding release_execs emptied
gave_up error pass retries = record {
  ending = failed error;
  execs = emptied pass.execs;
  space = release_execs pass.execs pass.space;
  retries = retries;
}

-- The end of a round: `again` is what follows an out-of-memory error.
pub conclude : Verdict → Pass → ℕ → Allocation → Allocation
unfolding gave_up
conclude done pass retries again = record {
  ending = allocated;
  execs = pass.execs;
  space = pass.space;
  retries = retries;
}
conclude (device_error memory_allocation) pass retries again = again
conclude (device_error other_error) pass retries again = gave_up other_error pass retries
conclude (thrown e) pass retries again = record {
  ending = threw e;
  execs = pass.execs;
  space = pass.space;
  retries = retries;
}

-- The attempts, with `left` of them after this one.
pub alloc_loop :
    Driver → Driver → List InferenceJob → (left : ℕ) → List JobBuffers → Space → ℕ → Allocation
unfolding alloc_pass conclude gave_up release_execs emptied
alloc_loop malloc host_alloc batch zero execs space retries =
    let pass : Pass = alloc_pass malloc host_alloc batch execs space in
    conclude pass.verdict pass retries (gave_up memory_allocation pass retries)
alloc_loop malloc host_alloc batch (suc left) execs space retries =
    let pass : Pass = alloc_pass malloc host_alloc batch execs space in
    conclude pass.verdict pass retries (
      alloc_loop malloc host_alloc batch left (emptied pass.execs)
        (release_execs pass.execs pass.space) (suc retries))

-- `kMaxAllocRetries`
abbrev pub max_alloc_retries : ℕ
max_alloc_retries = 200

-- `std::vector<JobBuffers> execs(batch.size())`
pub fresh_execs : List InferenceJob → List JobBuffers
fresh_execs [] = []
fresh_execs (job ∷ batch) = empty_buffers ∷ fresh_execs batch

-- The allocations of `execute_batch`.
pub allocate_batch : Driver → Driver → List InferenceJob → Space → Allocation
unfolding alloc_loop fresh_execs
allocate_batch malloc host_alloc batch space =
    alloc_loop malloc host_alloc batch max_alloc_retries (fresh_execs batch) space 0

-- What is added to `oom_failures_`.
pub oom_failures_of : Ending → ℕ
oom_failures_of (failed memory_allocation) = 1
oom_failures_of _ = 0
