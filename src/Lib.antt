-- ===== src/Lib.antt =====
-- A verification library for the GPU batch inference scheduler: a daemon that queues batched matrix
-- products by priority, packs them into batches that fit the free device memory, and executes the
-- batches on worker threads. The modules follow the program's parts.
--
--   Common     shared names, lists, integers of C++ and the insertion sort that stands for
--              `std::stable_sort`
--   Job        src/sched/job.hpp: `InferenceJob`, `bytes_required`, `JobPriorityCompare`
--   Queue      `queue_` of src/sched/scheduler.hpp, pushed by `submit` and emptied by `dispatcher_loop`
--   Pack       `pack_jobs` of src/sched/scheduler.cpp: age buckets, sort, sweep
--   Scheduler  `BatchScheduler` of src/sched/scheduler.hpp and .cpp: its fields and operations, and in
--              Scheduler/Threads the steps of the clients, of `dispatcher_loop`, of the `worker_loop`s
--              and of `stop`, and in Scheduler/Abstract the
--              service that clients see, and in Scheduler/Restart a scheduler stopped and started again
--   Alloc      src/core/device_buffer.hpp, `PinnedHostBuffer` and the allocation loop of `execute_batch`
--   Stream     streams and events as the CUDA runtime documents them, and a check of host programs
--   Pipeline   the calls of `execute_batch` after its allocations, in Pipeline/Attempt its `try` block
--              with a call that fails and its handler, and `results_`, in src/sched/scheduler.cpp
--   Worker     the streams and events of a worker's thread, made and destroyed by `worker_loop` and
--              `execute_batch` in src/sched/scheduler.cpp
--   Synthetic  `fill_matrices` of src/sched/scheduler.cpp
--   Service    the parts together: a running batch of a reachable state, and `get_result`; in
--              Service/Batch the whole of `execute_batch`, from the allocations to the destructors
--   Overlap    the timed sequences of bench/bench_overlap.cpp on pinned buffers, and in Overlap/Shape
--              the texts of its shapes
--   Bench      the options, the timed runs and the median of bench/bench_gemm.cpp
--   Hog        bench/gpu_memory_hog.cpp
--   Gemm       the kernels of src/kernels/gemm.cu, and in
--              Gemm/Cublas the wrapper of src/kernels/gemm_cublas.cu
--   Monitor    src/sched/gpu_monitor.cpp
--   Status     the values that src/server/http_server.cpp renders, that `print_summary` prints and that
--              `scheduler_stats` of src/bindings/py_module.cpp returns
--   Config     `parse_args` of src/main.cpp
--   Daemon     `parse_replay` and the course of `main` in src/main.cpp, and in Daemon/Generator the jobs
--              that it makes, and in Daemon/Loop and Daemon/Wait the end of `main` beside the
--              scheduler
--   Bindings   the process-wide scheduler of src/bindings/py_module.cpp
--
-- The scheduler calls `Pack` on what it drains from `Queue`, reserves the bytes of the selected
-- jobs, and hands the batch to a worker, which records the jobs and releases the bytes.
--
-- Numbers. An `int` is an integer `pos n` or `negsuc n`; a 64-bit unsigned number is a natural
-- number with its wrap-around written out where sizes are multiplied and summed. The counters of
-- jobs do not wrap: 2^64 submissions are out of reach. Time points and durations are nanoseconds.
--
-- Threads. A step is what one thread does between two points at which another may run: a section
-- under a mutex, an atomic operation, or local work. `Reach` is any sequence of steps, in any order.
-- The parameter `limit` bounds the base budget that any sample of the free memory gives in the run;
-- a fixed budget is such a bound. A condition variable is its predicate: a thread may pass it
-- whenever the predicate holds; that covers every behaviour of the code but says nothing of a thread
-- that misses a notification. `Scheduler.Wakeup` has the notifications of `stop` beside one wait.
-- `execute_batch` is one step that succeeds or fails, with the numbers of retries and failures and
-- the clock readings free; its inside is in `Alloc`, `Pipeline` and `Service.Batch`. The loop that
-- moves oversized jobs out of the candidates is written as two filters of one pass each. `start`
-- after `stop` is one step, from a state in which the joins of `stop` return; client threads may
-- submit at any time.
--
-- The service. What a client can tell of a state is the bag of the jobs without a record, the
-- records, and the next sequence number. The bag is a quotient of lists: two lists are the same bag
-- where every sum over their jobs agrees.
--
-- Termination. No definition runs on fuel that could run out: the allocation loop recurs on the
-- attempts that are left, 200 after the first as in the code, and the loop over the tiles on a bound
-- that is the inner side of the matrix, which is at least the number of tiles.
--
-- Streams. `Stream.Step` is a call of the host or a command of one stream; nothing orders two
-- streams but an event that one waits for, and a wait is for the latest record at the time of the
-- call. The machine is a parameter, `Stream.Runtime`: each of its steps is such a step, and it makes
-- one where there is one. Records are counted from the start of a batch, when those of earlier
-- batches have run. A buffer holds a matrix or nothing of use; a copy or a kernel that runs too
-- early leaves what it finds. `Stream.Facts` is a check of a host program by its text, with what
-- each record of an event stands for; `Stream.Closing` is one for the commands that a program leaves
-- behind. A call that fails throws before or after its effect (`Stream.Failing`); the streams go on
-- with what they have, and `cudaDeviceSynchronize` returns when they are empty.
--
-- Not under src/ and so parameters: the handles of new streams and events, the answers of
-- `cudaMalloc` and `cudaHostAlloc` (a driver, of which nothing is assumed), of NVML and
-- `cudaMemGetInfo` (arguments), the CUDA runtime (that it keeps the documented order), cuBLAS (that
-- a call which succeeds gives the documented product in columns, with its own inner product), the
-- random generator of the standard library (that a draw of an int is within its range), the elements
-- of the matrices with their addition and multiplication (that adding a product of zeros changes
-- nothing; for cuBLAS that an inner product does not depend on the order of its factors, and a
-- unit), the operations on `double` that size the stress load, the number parsers of a replay file,
-- whether a vector that grows moves its elements, the order of times and half their sum (that it
-- lies between them), `std::to_string` and `std::stoi` (that a printed number is read back, is not
-- empty and has no `x`), and the rank that the floating-point unit computes for a percentile.
--
-- Not modelled: a device that stops running its commands after an error, the text of reports, logs
-- and pages, the parsing of numbers and of lines, the notifications of the condition variables but
-- those of `stop`, the CPU reference of the benchmarks, which sums in `double`, the sequence of
-- bench_overlap on pageable memory, the sums and ratios of the benchmarks, the tests and the Python
-- scripts.
pub mod Common
pub mod Hog
pub mod Job
pub mod Queue
pub mod Overlap
pub mod Pack
pub mod Scheduler
pub mod Gemm
pub mod Config
pub mod Daemon
pub mod Bindings
pub mod Alloc
pub mod Service
pub mod Status
pub mod Pipeline
pub mod Stream
pub mod Synthetic
pub mod Worker
pub mod Monitor
pub mod Bench
