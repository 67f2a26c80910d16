-- ===== src/Daemon/Wait.antt =====
-- The loop at the end of `main` in src/main.cpp that waits for the jobs. It reads the flags and the
-- counters one after the other, and between two readings SIGINT, the generator and the threads of the
-- scheduler go on.
use gpu_batch_inference_sche.Common.{
  ℕ, ◌≡◌, ◌≤◌, refl, subst, true, List, Option, length, ltb, leb, ◌==◌, if◌then◌else◌, arith,
  Bool-cases, ◌⊎◌, inl, inr,
}
use gpu_batch_inference_sche.Job.{InferenceJob}
use gpu_batch_inference_sche.Queue.{size}
use gpu_batch_inference_sche.Scheduler.{
  BatchScheduler, Options, fail_batch, max_job_bytes, reserve_bytes, release_bytes,
}
use gpu_batch_inference_sche.Scheduler.Threads.{
  DispatcherPc, WorkerPc, Dispatch, Work, initial, reject_oversized, oversized, record_batch,
  count_batch, count_allocations, leave_space, find_space, leave_jobs, take_jobs, fail_no_gpu,
  admit, pack, requeue, pause, reserve, enqueue, leave, take_batch, drop_no_gpu, succeed, fail,
  count, release,
}
use gpu_batch_inference_sche.Scheduler.Frame.{Dispatch-frame, Work-frame}
use gpu_batch_inference_sche.Scheduler.Counted.{unrecorded, Reach-Counted, drained_complete}
use gpu_batch_inference_sche.Daemon.Loop.{
  Generator, submitting, counting, generated, is_generated, Daemon, DaemonStep, submit_next,
  count_next, all_submitted, generator_interrupted, dispatcher_moves, worker_moves, signal,
  DaemonRun, goes_on, daemon_start, Submits, Follows, run-Reach, run-Follows, start-Follows,
}

-- What the loop reads next; `compares` has read `seen` of `completed_`. It ends by `break`, or by the
-- signal.
pub data MainPc : Type 0 where
  reads_interrupted reads_generated reads_submitted reads_queued reads_completed : MainPc
  compares : (seen : ℕ) → MainPc
  broke signalled : MainPc

-- One reading.
unfoldable pub main_reads : MainPc → Daemon → MainPc
unfolding is_generated
main_reads reads_interrupted x = if x.interrupted then signalled else reads_generated
main_reads reads_generated x =
    if is_generated x.generator then reads_submitted else reads_interrupted
main_reads reads_submitted x =
    if ltb 0 x.system.sched.submitted then reads_queued else reads_interrupted
main_reads reads_queued x =
    if size x.system.sched.queue == 0 then reads_completed else reads_interrupted
main_reads reads_completed x = compares x.system.sched.completed
main_reads (compares seen) x =
    if leb x.system.sched.submitted seen then broke else reads_interrupted
main_reads broke x = broke
main_reads signalled x = signalled

-- The loop beside the rest.
pub data MainRun (limit : ℕ) (start : Daemon) : MainPc → Daemon → Type 0 where
  enters : {x : Daemon} → DaemonRun limit start x → MainRun limit start reads_interrupted x
  others :
      {pc : MainPc} {x y : Daemon}
      → MainRun limit start pc x
      → DaemonStep limit x y
      → MainRun limit start pc y
  reads :
      {pc : MainPc} {x : Daemon}
      → MainRun limit start pc x
      → MainRun limit start (main_reads pc x) x

run_of :
    (limit : ℕ) {start x : Daemon} {pc : MainPc}
    → MainRun limit start pc x
    → DaemonRun limit start x
run_of limit (enters r) = r
run_of limit (others r s) = goes_on (run_of limit r) s
run_of limit (reads r) = run_of limit r

-- `completed_` only grows.
reject-completed :
    (jobs : List InferenceJob) (s : BatchScheduler)
    → s.completed ≤ (reject_oversized jobs s).completed
unfolding reject_oversized fail_batch
reject-completed jobs s = elim (Bool-cases (ltb 0 (length (oversized (max_job_bytes s) jobs)))) [
  | inl e ↦ rw e (omega arith)
  | inr e ↦ rw e (omega arith)
]

Dispatch-completed :
    {limit : ℕ} {s t : BatchScheduler} {a b : DispatcherPc}
    → Dispatch limit s a t b
    → s.completed ≤ t.completed
unfolding fail_batch reserve_bytes
Dispatch-completed (leave_space _) = omega arith
Dispatch-completed (find_space _ _) = omega arith
Dispatch-completed (leave_jobs _) = omega arith
Dispatch-completed (take_jobs _ _) = omega arith
Dispatch-completed (fail_no_gpu _) = omega arith
Dispatch-completed {s = s} (admit {candidates} _) = reject-completed candidates s
Dispatch-completed (pack _ _ _ _ _) = omega arith
Dispatch-completed requeue = omega arith
Dispatch-completed pause = omega arith
Dispatch-completed reserve = omega arith
Dispatch-completed enqueue = omega arith

Work-completed : {s t : BatchScheduler} {a b : WorkerPc} → Work s a t b → s.completed ≤ t.completed
unfolding fail_batch record_batch count_batch count_allocations release_bytes
Work-completed (leave _ _) = omega arith
Work-completed (take_batch _ _ _) = omega arith
Work-completed (drop_no_gpu _) = omega arith
Work-completed (succeed _ _ _) = omega arith
Work-completed (fail _ _ _) = omega arith
Work-completed count = omega arith
Work-completed release = omega arith

-- Nothing is submitted any more, and the records go on.
record GoesOn (x y : Daemon) : Type 0 where
  over : y.generator ≡ generated
  submitted : y.system.sched.submitted ≡ x.system.sched.submitted
  completed : x.system.sched.completed ≤ y.system.sched.completed

step-GoesOn :
    {limit : ℕ} {x y : Daemon} → DaemonStep limit x y → x.generator ≡ generated → GoesOn x y
step-GoesOn (submit_next now job left e i) g = absurd (cc (e, g))
step-GoesOn (count_next n left e u) g = absurd (cc (e, g))
step-GoesOn (all_submitted e) g = absurd (cc (e, g))
step-GoesOn (generator_interrupted left e i) g = absurd (cc (e, g))
step-GoesOn (dispatcher_moves d) g = record {
  over = g;
  submitted = (Dispatch-frame d).same_submitted;
  completed = Dispatch-completed d;
}
step-GoesOn (worker_moves before after old e k) g = record {
  over = g;
  submitted = (Work-frame k).same_submitted;
  completed = Work-completed k;
}
step-GoesOn signal g = record { over = g; submitted = refl; completed = omega arith }

-- What the readings so far have shown.
abbrev Shown : MainPc → Daemon → Type 0
Shown reads_interrupted x = Unit
Shown reads_generated x = Unit
Shown reads_submitted x = x.generator ≡ generated
Shown reads_queued x = x.generator ≡ generated
Shown reads_completed x = x.generator ≡ generated
Shown (compares seen) x = (x.generator ≡ generated) × (seen ≤ x.system.sched.completed)
Shown broke x = (x.generator ≡ generated) × (x.system.sched.submitted ≤ x.system.sched.completed)
Shown signalled x = Unit

step-Shown :
    {limit : ℕ} (pc : MainPc) {x y : Daemon} → DaemonStep limit x y → Shown pc x → Shown pc y
step-Shown reads_interrupted s h = tt
step-Shown reads_generated s h = tt
step-Shown reads_submitted s h = (step-GoesOn s h).over
step-Shown reads_queued s h = (step-GoesOn s h).over
step-Shown reads_completed s h = (step-GoesOn s h).over
step-Shown (compares seen) s h =
    let g = step-GoesOn s h.0 in (g.over, omega (arith, g.completed, h.1))
step-Shown broke s h =
    let g = step-GoesOn s h.0 in (g.over, omega (arith, g.completed, g.submitted, h.1))
step-Shown signalled s h = tt

generated_only : (g : Generator) → is_generated g ≡ true → g ≡ generated
unfolding is_generated
generated_only generated e = refl
generated_only (submitting left) e = absurd cc
generated_only (counting left) e = absurd cc

reads-Shown : (pc : MainPc) (x : Daemon) → Shown pc x → Shown (main_reads pc x) x
unfolding main_reads
reads-Shown reads_interrupted x h = elim (Bool-cases x.interrupted) [
  | inl e ↦ rw e tt
  | inr e ↦ rw e tt
]
reads-Shown reads_generated x h = elim (Bool-cases (is_generated x.generator)) [
  | inl e ↦ rw e (generated_only x.generator e)
  | inr e ↦ rw e tt
]
reads-Shown reads_submitted x h = elim (Bool-cases (ltb 0 x.system.sched.submitted)) [
  | inl e ↦ rw e h
  | inr e ↦ rw e tt
]
reads-Shown reads_queued x h = elim (Bool-cases (size x.system.sched.queue == 0)) [
  | inl e ↦ rw e h
  | inr e ↦ rw e tt
]
reads-Shown reads_completed x h = (h, omega arith)
reads-Shown (compares seen) x h = elim (Bool-cases (leb x.system.sched.submitted seen)) [
  | inl e ↦ rw e (h.0, ground (arith, h.1, e))
  | inr e ↦ rw e tt
]
reads-Shown broke x h = h
reads-Shown signalled x h = tt

run-Shown : {limit : ℕ} {start x : Daemon} {pc : MainPc} → MainRun limit start pc x → Shown pc x
run-Shown (enters r) = tt
run-Shown (others {pc} r s) = step-Shown pc s (run-Shown r)
run-Shown (reads {pc} {x} r) = reads-Shown pc x (run-Shown r)

-- In every interleaving of the readings with the generator, SIGINT and the threads of the scheduler:
-- from its `break` on, each job that was ever submitted has its record, `completed_` counts them all,
-- and none is left anywhere, so that the stop that follows drops none. These are all the jobs of the
-- generator or of the replay file, unless SIGINT came after the loop had tested for it.
pub main_breaks-IsDone :
    (limit : ℕ) (opts : Options) (ndev sampled_total : ℕ) (mem_info : Option ℕ)
    (jobs : List InferenceJob) {y : Daemon}
    → MainRun limit (daemon_start (initial opts ndev sampled_total mem_info) jobs) broke y
    → (length y.system.sched.metrics ≡ y.system.sched.next_seq)
      × (y.system.sched.completed ≡ y.system.sched.next_seq)
      × (unrecorded y.system ≡ 0)
      × ((y.system.sched.next_seq ≡ length jobs) ⊎ (y.interrupted ≡ true))
main_breaks-IsDone limit opts ndev sampled_total mem_info jobs {y} r =
    let (over, enough) = run-Shown r in
    let start : Follows jobs (daemon_start (initial opts ndev sampled_total mem_info) jobs) =
      start-Follows opts ndev sampled_total mem_info jobs in
    let (all, quiet) =
      subst (λ g. Submits jobs g y.interrupted y.system.sched.next_seq y.system.uncounted) over
        (run-Follows limit jobs start (run_of limit r)) in
    let path = run-Reach limit (run_of limit r) in
    let (none_left, recorded, counted) =
      drained_complete opts ndev sampled_total mem_info limit path quiet enough in
    let submitted = (Reach-Counted opts ndev sampled_total mem_info limit path).on_submitted in
    (
      omega (arith, recorded, submitted, quiet),
      omega (arith, counted, submitted, quiet),
      none_left,
      elim (Bool-cases y.interrupted) [ inl e ↦ inr e | inr e ↦ inl (all e) ],
    )
