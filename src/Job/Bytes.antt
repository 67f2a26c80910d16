-- ===== src/Job/Bytes.antt =====
-- What `bytes_required` of src/sched/job.hpp returns.
use gpu_batch_inference_sche.Common.{ℕ, ◌+◌, ◌*◌, ◌/◌, ◌%◌, ◌^◌, sym, ◌<◌, ◌≡◌, ◌∙◌, pos, arith}
use gpu_batch_inference_sche.Job.{InferenceJob, bytes_required}
use native.Mathlib.Nat.{mod-eq_of_lt, mul_comm, div-add-mod, mul-add-mod_self_left}

-- The number of bytes of a job, with no wrap-around: four for each element of A, B and C.
abbrev pub exact_bytes : (m n k batch : ℕ) → ℕ
exact_bytes m n k batch = (m * k + k * n + m * n) * batch * 4

-- The result is a 64-bit number.
pub bytes_required-lt : (job : InferenceJob) → bytes_required job < 2 ^ 64
unfolding bytes_required
bytes_required-lt job = omega arith

-- A factor may be reduced before the product is.
mod-mul-mod : (a b w : ℕ) → a % w * b % w ≡ a * b % w
mod-mul-mod a b w =
    let e : a * b ≡ w * (a / w * b) + a % w * b = grind (arith, div-add-mod a w) in
    rw e (sym (mul-add-mod_self_left w (a / w * b) (a % w * b)))

mul-mod-mod : (a b w : ℕ) → a * (b % w) % w ≡ a * b % w
mul-mod-mod a b w = rw (mul_comm a (b % w), mod-mul-mod b a w, mul_comm b a)

reduce_sum :
    (a b c batch : ℕ)
    → ((a % 2 ^ 64 + b % 2 ^ 64) % 2 ^ 64 + c % 2 ^ 64) % 2 ^ 64 * batch % 2 ^ 64 * 4 % 2 ^ 64
      ≡ (a + b + c) * batch * 4 % 2 ^ 64
reduce_sum a b c batch =
    let e : ((a % 2 ^ 64 + b % 2 ^ 64) % 2 ^ 64 + c % 2 ^ 64) % 2 ^ 64 ≡ (a + b + c) % 2 ^ 64 =
      omega arith in
    rw e (rw (mod-mul-mod (a + b + c) batch) (mod-mul-mod ((a + b + c) * batch) 4 (2 ^ 64)))

-- For dimensions and a batch that are not negative the result is the exact number modulo 2^64.
pub bytes_required-eq_mod :
    (job : InferenceJob) (m n k batch : ℕ)
    → job.m ≡ pos m
    → job.n ≡ pos n
    → job.k ≡ pos k
    → job.batch ≡ pos batch
    → bytes_required job ≡ exact_bytes m n k batch % 2 ^ 64
unfolding bytes_required
bytes_required-eq_mod job m n k batch em en ek eb =
    rw (em, en, ek, eb) (reduce_sum (m * k) (k * n) (m * n) batch)

-- Where the exact number is below 2^64 it is returned: nothing wraps.
pub bytes_required-exact :
    (job : InferenceJob) (m n k batch : ℕ)
    → job.m ≡ pos m
    → job.n ≡ pos n
    → job.k ≡ pos k
    → job.batch ≡ pos batch
    → exact_bytes m n k batch < 2 ^ 64
    → bytes_required job ≡ exact_bytes m n k batch
bytes_required-exact job m n k batch em en ek eb h =
    bytes_required-eq_mod job m n k batch em en ek eb ∙ mod-eq_of_lt h
