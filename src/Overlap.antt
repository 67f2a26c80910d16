-- ===== src/Overlap.antt =====
-- The timed sequences of bench/bench_overlap.cpp on pinned buffers: the jobs on one stream, on a copy
-- stream and a compute stream that wait for each other, and on three streams. A sequence starts after `cudaDeviceSynchronize`, so that all
-- earlier commands have run, and ends with the readings of its events.
pub mod Shape
pub mod Account
pub mod Readings
pub mod Checked
pub mod Buffered
pub mod Right
mod Tests
use gpu_batch_inference_sche.Common.{ltb, ◌+◌, ℕ, Bool, List, [], ◌∷◌, ◌++◌, if◌then◌else◌}
use gpu_batch_inference_sche.Stream.{
  copy_a, copy_b, run_kernel, copy_c, Action, launch, record_on, wait_on, synchronize, elapsed,
}
use gpu_batch_inference_sche.Pipeline.{for_each}

-- The events of `Workspace`: six for each job, and four more.
abbrev pub c0 : ℕ
c0 = 0

abbrev pub c1 : ℕ
c1 = 1

abbrev pub k0 : ℕ
k0 = 2

abbrev pub k1 : ℕ
k1 = 3

abbrev pub d0 : ℕ
d0 = 4

abbrev pub d1 : ℕ
d1 = 5

abbrev pub start_event : ℕ
start_event = 6

abbrev pub end_event : ℕ
end_event = 7

abbrev pub ev_h2d : ℕ
ev_h2d = 8

abbrev pub ev_kern : ℕ
ev_kern = 9

-- The stream 0 of run_pinned_single, and the two streams of run_pinned_overlap.
abbrev pub default_stream : ℕ
default_stream = 0

abbrev pub copy_on : ℕ
copy_on = 0

abbrev pub compute_on : ℕ
compute_on = 1

-- One job of run_pinned_single.
abbrev pub single_job : ℕ → List Action
single_job i =
    record_on default_stream c0 i
    ∷ launch default_stream (copy_a i)
    ∷ launch default_stream (copy_b i)
    ∷ record_on default_stream c1 i
    ∷ record_on default_stream k0 i
    ∷ launch default_stream (run_kernel i)
    ∷ record_on default_stream k1 i
    ∷ record_on default_stream d0 i
    ∷ launch default_stream (copy_c i)
    ∷ record_on default_stream d1 i
    ∷ []

-- One job of run_pinned_overlap.
abbrev pub overlap_job : ℕ → List Action
overlap_job i =
    record_on copy_on c0 i
    ∷ launch copy_on (copy_a i)
    ∷ launch copy_on (copy_b i)
    ∷ record_on copy_on c1 i
    ∷ record_on copy_on ev_h2d 0
    ∷ wait_on compute_on ev_h2d 0
    ∷ record_on compute_on k0 i
    ∷ launch compute_on (run_kernel i)
    ∷ record_on compute_on k1 i
    ∷ record_on compute_on ev_kern 0
    ∷ wait_on copy_on ev_kern 0
    ∷ record_on copy_on d0 i
    ∷ launch copy_on (copy_c i)
    ∷ record_on copy_on d1 i
    ∷ []

-- The streams `h2d` and `d2h` of run_pinned_double_buffer.
abbrev pub h2d_on : ℕ
h2d_on = 0

abbrev pub d2h_on : ℕ
d2h_on = 2

-- `enqueue_h2d` of run_pinned_double_buffer.
abbrev pub upload : ℕ → List Action
upload i =
    record_on h2d_on c0 i
    ∷ launch h2d_on (copy_a i)
    ∷ launch h2d_on (copy_b i)
    ∷ record_on h2d_on c1 i
    ∷ []

-- One round of its loop over `n` jobs.
abbrev pub buffered_job : (n : ℕ) → ℕ → List Action
buffered_job n i =
    wait_on compute_on c1 i
    ∷ record_on compute_on k0 i
    ∷ launch compute_on (run_kernel i)
    ∷ record_on compute_on k1 i
    ∷ wait_on d2h_on k1 i
    ∷ record_on d2h_on d0 i
    ∷ launch d2h_on (copy_c i)
    ∷ record_on d2h_on d1 i
    ∷ (if ltb (i + 1) n then upload (i + 1) else [])

-- The readings of one job.
abbrev pub read_times : ℕ → List Action
read_times i = elapsed c0 i c1 i ∷ elapsed k0 i k1 i ∷ elapsed d0 i d1 i ∷ []

-- A sequence of `n` jobs on the stream `on` and others, `timed` from the end of the warmup.
abbrev pub run_sequence :
    (job : ℕ → List Action) → (on : ℕ) → (timed : Bool) → (n : ℕ) → List Action
run_sequence job on timed n =
    let readings : List Action =
      for_each read_times 0 n ++ (if timed then elapsed start_event 0 end_event 0 ∷ [] else []) in
    let finish : List Action = record_on on end_event 0 ∷ synchronize end_event 0 ∷ readings in
    record_on on start_event 0 ∷ (for_each job 0 n ++ finish)

abbrev pub run_pinned_single : (timed : Bool) → (n : ℕ) → List Action
run_pinned_single timed n = run_sequence single_job default_stream timed n

abbrev pub run_pinned_overlap : (timed : Bool) → (n : ℕ) → List Action
run_pinned_overlap timed n = run_sequence overlap_job copy_on timed n

abbrev pub run_pinned_double_buffer : (timed : Bool) → (n : ℕ) → List Action
run_pinned_double_buffer timed n =
    let readings : List Action =
      for_each read_times 0 n ++ (if timed then elapsed start_event 0 end_event 0 ∷ [] else []) in
    let finish : List Action = record_on d2h_on end_event 0 ∷ synchronize end_event 0 ∷ readings in
    record_on h2d_on start_event 0 ∷ (upload 0 ++ (for_each (buffered_job n) 0 n ++ finish))
