-- ===== src/Job.antt =====
-- src/sched/job.hpp: the inference job, the device memory that it needs, and the order of the
-- priority queue. An `int` is an integer, a 64-bit unsigned number is a natural number kept below
-- 2^64 by the wrap-around written out, and a time point is its count of nanoseconds.
pub mod Bytes
pub mod Order
mod Tests
use gpu_batch_inference_sche.Common.{
  ℕ, ◌+◌, ◌*◌, ◌%◌, ◌^◌, Bool, ℤ, ltb, ltb_ℤ, eqb_ℤ, size_of_int, if◌then◌else◌, not,
}

pub record InferenceJob : Type 0 where
  pub id : ℕ
  pub m : ℤ
  pub n : ℤ
  pub k : ℤ
  pub batch : ℤ
  pub priority : ℤ
  pub submit_time : ℕ
  pub seq : ℕ

-- `sizeof(float)`
abbrev pub sizeof_float : ℕ
sizeof_float = 4

-- One product of `std::size_t` operands.
abbrev mul_size : ℕ → ℕ → ℕ
mul_size a b = a * b % 2 ^ 64

-- Device bytes for A, B and C across the batch; every operation wraps modulo 2^64.
unfoldable pub bytes_required : InferenceJob → ℕ
bytes_required job =
    let a : ℕ = mul_size (size_of_int job.m) (size_of_int job.k) in
    let b : ℕ = mul_size (size_of_int job.k) (size_of_int job.n) in
    let c : ℕ = mul_size (size_of_int job.m) (size_of_int job.n) in
    mul_size (mul_size (((a + b) % 2 ^ 64 + c) % 2 ^ 64) (size_of_int job.batch)) sizeof_float

-- `a` has less precedence than `b`: a lower priority, or the same one and a later submission.
unfoldable pub job_priority_compare : InferenceJob → InferenceJob → Bool
job_priority_compare a b =
    if not (eqb_ℤ a.priority b.priority) then ltb_ℤ a.priority b.priority else ltb b.seq a.seq
