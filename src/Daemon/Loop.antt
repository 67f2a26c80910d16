-- ===== src/Daemon/Loop.antt =====
-- The end of `main` in src/main.cpp beside the threads of the scheduler: the thread that submits the
-- jobs, and SIGINT. The loop that waits for them is in `Daemon.Wait`.
use gpu_batch_inference_sche.Common.{
  ℕ, suc, ◌+◌, ◌≡◌, refl, sym, subst, Bool, true, false, List, [], ◌∷◌, ◌++◌, Option, length, arith,
}
use gpu_batch_inference_sche.Job.{InferenceJob}
use gpu_batch_inference_sche.Scheduler.{BatchScheduler, Options, submit_push, submit_count}
use gpu_batch_inference_sche.Scheduler.Threads.{
  DispatcherPc, WorkerPc, System, Dispatch, Work, client_push, client_count, dispatch, work, Reach,
  here, next, initial,
}
use gpu_batch_inference_sche.Scheduler.Frame.{Dispatch-frame, Work-frame}
use gpu_batch_inference_sche.Scheduler.Counters.{initial-next_seq}

-- The jobs that are left to submit; `counting` is inside `submit`, after the mutex; `generated` is
-- `generator_done`.
pub data Generator : Type 0 where
  submitting counting : (left : List InferenceJob) → Generator
  generated : Generator

pub record Daemon : Type 0 where
  pub system : System
  pub generator : Generator
  pub interrupted : Bool  -- `g_interrupted`

pub data DaemonStep (limit : ℕ) (x : Daemon) : Daemon → Type 0 where
  submit_next :
      (now : ℕ) (job : InferenceJob) (left : List InferenceJob)
      → x.generator ≡ submitting (job ∷ left)
      → x.interrupted ≡ false
      → DaemonStep limit x (record x {
        system = record (x.system) {
          sched = (submit_push now job x.system.sched).0;
          uncounted = suc x.system.uncounted;
        };
        generator = counting left;
      })
  count_next :
      (n : ℕ) (left : List InferenceJob)
      → x.generator ≡ counting left
      → x.system.uncounted ≡ suc n
      → DaemonStep limit x (record x {
        system = record (x.system) { sched = submit_count x.system.sched; uncounted = n };
        generator = submitting left;
      })
  all_submitted :
      x.generator ≡ submitting [] → DaemonStep limit x (record x { generator = generated })
  generator_interrupted :
      (left : List InferenceJob)
      → x.generator ≡ submitting left
      → x.interrupted ≡ true
      → DaemonStep limit x (record x { generator = generated })
  dispatcher_moves :
      {s : BatchScheduler} {pc : DispatcherPc}
      → Dispatch limit x.system.sched x.system.dispatcher s pc
      → DaemonStep limit x (record x { system = record (x.system) { sched = s; dispatcher = pc } })
  worker_moves :
      (before after : List WorkerPc) (old : WorkerPc) {s : BatchScheduler} {pc : WorkerPc}
      → x.system.workers ≡ before ++ old ∷ after
      → Work x.system.sched old s pc
      → DaemonStep limit x
          (record x { system = record (x.system) { sched = s; workers = before ++ pc ∷ after } })
  signal : DaemonStep limit x (record x { interrupted = true })

pub data DaemonRun (limit : ℕ) (x : Daemon) : Daemon → Type 0 where
  at_start : DaemonRun limit x x
  goes_on : {y z : Daemon} → DaemonRun limit x y → DaemonStep limit y z → DaemonRun limit x z

-- The daemon after `sched.start()`, with the jobs of its generator or of its replay file.
abbrev pub daemon_start : System → List InferenceJob → Daemon
daemon_start system jobs = record {
  system = system;
  generator = submitting jobs;
  interrupted = false;
}

unfoldable pub is_generated : Generator → Bool
is_generated generated = true
is_generated _ = false

-- The numbers given out, against the jobs that are left.
abbrev pub Submits :
    (jobs : List InferenceJob) → Generator → Bool → (next_seq uncounted : ℕ) → Type 0
Submits jobs (submitting left) i s u = (s + length left ≡ length jobs) × (u ≡ 0)
Submits jobs (counting left) i s u = (s + length left ≡ length jobs) × (u ≡ 1)
Submits jobs generated i s u = (i ≡ false → s ≡ length jobs) × (u ≡ 0)

abbrev pub Follows : List InferenceJob → Daemon → Type 0
Follows jobs x = Submits jobs x.generator x.interrupted x.system.sched.next_seq x.system.uncounted

interrupted-Submits :
    (jobs : List InferenceJob) (g : Generator) (i : Bool) (s u : ℕ)
    → Submits jobs g i s u
    → Submits jobs g true s u
interrupted-Submits jobs (submitting left) i s u h = h
interrupted-Submits jobs (counting left) i s u h = h
interrupted-Submits jobs generated i s u h = ((λ e. absurd cc), h.1)

step-Follows :
    (limit : ℕ) (jobs : List InferenceJob) {x y : Daemon}
    → DaemonStep limit x y
    → Follows jobs x
    → Follows jobs y
unfolding submit_push submit_count
step-Follows limit jobs {x} (submit_next now job left e i) h =
    let k =
      subst (λ g. Submits jobs g x.interrupted x.system.sched.next_seq x.system.uncounted) e h in
    (omega (arith, k), omega (arith, k))
step-Follows limit jobs {x} (count_next n left e u) h =
    let k =
      subst (λ g. Submits jobs g x.interrupted x.system.sched.next_seq x.system.uncounted) e h in
    (k.0, omega (arith, k, u))
step-Follows limit jobs {x} (all_submitted e) h =
    let k =
      subst (λ g. Submits jobs g x.interrupted x.system.sched.next_seq x.system.uncounted) e h in
    ((λ i. omega (arith, k)), k.1)
step-Follows limit jobs {x} (generator_interrupted left e i) h =
    let k =
      subst (λ g. Submits jobs g x.interrupted x.system.sched.next_seq x.system.uncounted) e h in
    ((λ f. absurd cc), k.1)
step-Follows limit jobs {x} (dispatcher_moves d) h =
    subst (λ s. Submits jobs x.generator x.interrupted s x.system.uncounted)
      (sym (Dispatch-frame d).same_seq) h
step-Follows limit jobs {x} (worker_moves before after old e k) h =
    subst (λ s. Submits jobs x.generator x.interrupted s x.system.uncounted)
      (sym (Work-frame k).same_seq) h
step-Follows limit jobs {x} signal h =
    interrupted-Submits jobs x.generator x.interrupted x.system.sched.next_seq x.system.uncounted h

-- A step of the daemon is a step of its scheduler, or leaves it.
pub run-Reach : (limit : ℕ) {x y : Daemon} → DaemonRun limit x y → Reach limit x.system y.system
run-Reach limit at_start = here
run-Reach limit (goes_on r (submit_next now job left e i)) =
    next (run-Reach limit r) (client_push now job)
run-Reach limit (goes_on r (count_next n left e u)) = next (run-Reach limit r) (client_count n u)
run-Reach limit (goes_on r (all_submitted e)) = run-Reach limit r
run-Reach limit (goes_on r (generator_interrupted left e i)) = run-Reach limit r
run-Reach limit (goes_on r (dispatcher_moves d)) = next (run-Reach limit r) (dispatch d)
run-Reach limit (goes_on r (worker_moves before after old e k)) =
    next (run-Reach limit r) (work before after old e k)
run-Reach limit (goes_on r signal) = run-Reach limit r

pub run-Follows :
    (limit : ℕ) (jobs : List InferenceJob) {x y : Daemon}
    → Follows jobs x
    → DaemonRun limit x y
    → Follows jobs y
run-Follows limit jobs h at_start = h
run-Follows limit jobs h (goes_on r s) = step-Follows limit jobs s (run-Follows limit jobs h r)

pub start-Follows :
    (opts : Options) (ndev sampled_total : ℕ) (mem_info : Option ℕ) (jobs : List InferenceJob)
    → Follows jobs (daemon_start (initial opts ndev sampled_total mem_info) jobs)
unfolding initial
start-Follows opts ndev sampled_total mem_info jobs =
    (omega (arith, initial-next_seq opts ndev sampled_total mem_info), refl)
