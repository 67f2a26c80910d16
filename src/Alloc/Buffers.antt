-- ===== src/Alloc/Buffers.antt =====
-- `DeviceBuffer` of src/core/device_buffer.hpp and `PinnedHostBuffer` of src/sched/scheduler.cpp.
-- `cudaMalloc` and `cudaHostAlloc` are a parameter, the driver: its answer to the n-th call, given the
-- bytes asked for.
use gpu_batch_inference_sche.Common.{
  ℕ, suc, ◌-◌, ◌*◌, ◌%◌, ◌^◌, Bool, Option, none, some, ◌==◌, if◌then◌else◌,
}
use gpu_batch_inference_sche.Job.{sizeof_float}

-- The errors: `cudaErrorMemoryAllocation`, and any other.
pub data CudaError : Type 0 where
  memory_allocation other_error : CudaError

-- A pointer, or an error.
pub data Answer : Type 0 where
  granted : (pointer : ℕ) → Answer
  refused : (error : CudaError) → Answer

abbrev pub Driver : Type 0
Driver = (call bytes : ℕ) → Answer

-- The allocations made and not freed: how many there are at each pointer.
pub record Memory : Type 0 where
  pub calls : ℕ
  pub live : ℕ → ℕ

-- `data_`, where `none` is the null pointer, and `count_`.
pub record Buffer : Type 0 where
  pub data_ : Option ℕ
  pub count : ℕ

abbrev pub empty_buffer : Buffer
empty_buffer = record { data_ = none; count = 0 }

-- `cudaFree` and `cudaFreeHost`.
unfoldable pub free : ℕ → Memory → Memory
free p mem = record mem { live = λ q. if q == p then mem.live q - 1 else mem.live q }

-- `release`: the memory after it. The buffer is empty then.
unfoldable pub release : Buffer → Memory → Memory
unfolding free
release b mem = elim b.data_ [ none ↦ mem | some p ↦ free p mem ]

-- What `try_allocate` leaves: the buffer, the memory, and the status that it returns, where `none` is
-- `cudaSuccess`.
pub record Tried : Type 0 where
  pub buffer : Buffer
  pub memory : Memory
  pub error : Option CudaError

-- The call of the driver, and what is done with its answer.
unfoldable pub settle : ℕ → Memory → Answer → Tried
settle count mem (granted p) = record {
  buffer = record { data_ = some p; count = count };
  memory = record {
    calls = suc mem.calls;
    live = λ q. if q == p then suc (mem.live q) else mem.live q;
  };
  error = none;
}
settle count mem (refused e) = record {
  buffer = empty_buffer;
  memory = record mem { calls = suc mem.calls };
  error = some e;
}

-- `try_allocate`. `PinnedHostBuffer::allocate` does the same with `cudaHostAlloc`, and throws the error.
unfoldable pub try_allocate : Driver → ℕ → Buffer → Memory → Tried
unfolding release settle
try_allocate driver count b mem =
    let freed : Memory = release b mem in
    if count == 0
    then record { buffer = empty_buffer; memory = freed; error = none }
    else settle count freed (driver freed.calls (count * sizeof_float % 2 ^ 64))

-- Move assignment of both classes: the target, the source and the memory after it. `is_self` says
-- that both are the same object.
unfoldable pub move_assign : Bool → Buffer → Buffer → Memory → Buffer × Buffer × Memory
unfolding release
move_assign is_self target source mem =
    if is_self then (target, source, mem) else (source, empty_buffer, release target mem)

-- `bytes`
unfoldable pub bytes : Buffer → ℕ
bytes b = b.count * sizeof_float % 2 ^ 64

-- `PinnedHostBuffer::allocate`, which throws where this leaves an error.
unfoldable pub pinned_allocate : Driver → ℕ → Buffer → Memory → Tried
unfolding release settle
pinned_allocate host_alloc count b mem =
    let freed : Memory = release b mem in
    if count == 0
    then record { buffer = empty_buffer; memory = freed; error = none }
    else settle count freed (host_alloc freed.calls (count * sizeof_float % 2 ^ 64))
