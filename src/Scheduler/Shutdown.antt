-- ===== src/Scheduler/Shutdown.antt =====
-- `stop` of src/sched/scheduler.cpp: how many steps the threads have left with `shutdown_` set. A thread
-- that misses the notification of `stop` is in `Scheduler.Wakeup`.
use gpu_batch_inference_sche.Common.{
  ℕ, ◌+◌, ◌*◌, ◌<◌, ◌≡◌, [], ◌∷◌, total, total-append, length, length-append, arith, ap, true, ◌∙◌,
}
use gpu_batch_inference_sche.Scheduler.{BatchScheduler, reserve_bytes, release_bytes, fail_batch}
use gpu_batch_inference_sche.Scheduler.Threads.{
  DispatcherPc, await_space, await_jobs, drained, admitted, packed, requeued, reserved,
  dispatcher_done, WorkerPc, idle, running, recorded, finished, worker_done, System, record_batch,
  count_batch, count_allocations, Dispatch, leave_space, find_space, leave_jobs, take_jobs,
  fail_no_gpu, admit, pack, requeue, pause, reserve, enqueue, Work, leave, take_batch, drop_no_gpu,
  succeed, fail, count, release, Step, client_push, client_count, dispatch, work, request_stop,
}
use gpu_batch_inference_sche.Scheduler.Frame.{Dispatch-frame, Work-frame, reject_oversized-reserved}

-- Steps left to the dispatcher, a batch that it may enqueue included.
abbrev pub dispatcher_rank : DispatcherPc → ℕ
dispatcher_rank dispatcher_done = 0
dispatcher_rank await_space = 1
dispatcher_rank await_jobs = 1
dispatcher_rank (reserved _) = 6
dispatcher_rank (requeued _) = 7
dispatcher_rank (packed _ _) = 8
dispatcher_rank (admitted _) = 9
dispatcher_rank (drained _) = 10

-- Steps left to a worker, with no further batch.
abbrev pub worker_rank : WorkerPc → ℕ
worker_rank worker_done = 0
worker_rank idle = 1
worker_rank (finished _) = 2
worker_rank (recorded _) = 3
worker_rank (running _) = 4

-- A bound on the steps left after the shutdown: four for each batch in the queue.
abbrev pub steps_left : System → ℕ
steps_left x =
    dispatcher_rank x.dispatcher + 4 * length x.sched.batch_queue + total worker_rank x.workers

-- Steps of the dispatcher and the workers, as against clients and the caller of `stop`.
abbrev pub IsThreadStep : {limit : ℕ} {x y : System} → Step limit x y → Type 0
IsThreadStep (dispatch _) = Unit {0}
IsThreadStep (work _ _ _ _ _) = Unit {0}
IsThreadStep _ = ⊥

Dispatch-rank :
    {limit : ℕ} {s t : BatchScheduler} {pc pc' : DispatcherPc}
    → s.shutdown ≡ true
    → Dispatch limit s pc t pc'
    → dispatcher_rank pc' + 4 * length t.batch_queue < dispatcher_rank pc + 4 * length s.batch_queue
unfolding fail_batch reserve_bytes
Dispatch-rank h (leave_space _) = omega arith
Dispatch-rank h (find_space e _) = cc
Dispatch-rank h (leave_jobs _) = omega arith
Dispatch-rank h (take_jobs e _) = cc
Dispatch-rank h (fail_no_gpu _) = omega arith
Dispatch-rank {s} h (admit {candidates} _) =
    omega (arith, ap length (reject_oversized-reserved candidates s).1)
Dispatch-rank h (pack _ _ _ _ _) = omega arith
Dispatch-rank h requeue = omega arith
Dispatch-rank h pause = omega arith
Dispatch-rank h reserve = omega arith
Dispatch-rank {s} h (enqueue {selected}) =
    omega (arith, length-append s.batch_queue (selected ∷ []))

Work-rank :
    {s t : BatchScheduler} {pc pc' : WorkerPc}
    → Work s pc t pc'
    → worker_rank pc' + 4 * length t.batch_queue < worker_rank pc + 4 * length s.batch_queue
unfolding fail_batch record_batch count_batch count_allocations release_bytes
Work-rank (leave _ _) = omega arith
Work-rank (take_batch batch rest e) = omega (arith, ap length e)
Work-rank (drop_no_gpu _) = omega arith
Work-rank (succeed _ _ _) = omega arith
Work-rank (fail _ _ _) = omega arith
Work-rank count = omega arith
Work-rank release = omega arith

-- After the shutdown was requested each step of the dispatcher or of a worker lowers the number
-- `steps_left`, and leaves the shutdown requested: these threads take finitely many steps.
pub shutdown_terminates :
    {limit : ℕ} {x y : System} (st : Step limit x y)
    → IsThreadStep st
    → x.sched.shutdown ≡ true
    → (steps_left y < steps_left x) × (y.sched.shutdown ≡ true)
shutdown_terminates (client_push _ _) t h = absurd t
shutdown_terminates (client_count _ _) t h = absurd t
shutdown_terminates (dispatch d) t h =
    (omega (arith, Dispatch-rank h d), (Dispatch-frame d).same_shutdown ∙ h)
shutdown_terminates (work before after old {pc = pc} e k) t h = (
  omega (
    arith,
    Work-rank k,
    ap (total worker_rank) e,
    total-append worker_rank before (old ∷ after),
    total-append worker_rank before (pc ∷ after),
  ),
  (Work-frame k).same_shutdown ∙ h,
)
shutdown_terminates request_stop t h = absurd t
