-- ===== src/Bindings/Late.antt =====
-- Jobs that src/bindings/py_module.cpp accepts after `stop_scheduler`.
use gpu_batch_inference_sche.Common.{
  ℕ, suc, ◌≡◌, refl, true, false, ◌||◌, Option, some, ℤ, pos, leb_ℤ, ◌<◌, arith,
}
use gpu_batch_inference_sche.Scheduler.{BatchScheduler, submit_push, submit_count}
use gpu_batch_inference_sche.Bindings.{Globals, Host, ensure_scheduler, submit_job, stop_scheduler}

-- What `submit_job` leaves where the scheduler had been stopped.
pub record IsAcceptedLate (s : BatchScheduler) (r : Option (ℕ × Globals)) : Type 0 where
  pub globals : Globals
  pub after : BatchScheduler
  pub returned : r ≡ some (s.next_seq, globals)
  pub not_running : globals.running ≡ false
  pub kept : globals.sched ≡ some after
  pub stopped : after.shutdown ≡ true
  pub counted : after.submitted ≡ suc s.submitted

-- After `stop_scheduler` has stopped a running scheduler, `submit_job` with valid arguments still
-- returns the next sequence number: the job goes to the stopped scheduler, whose threads have been
-- told to end, and no new scheduler is started.
pub submit_after_stop :
    (host : Host) (now : ℕ) (m n k batch : ℕ) (priority : ℤ) (g : Globals) (s : BatchScheduler)
    → g.running ≡ true
    → g.sched ≡ some s
    → 0 < m
    → 0 < n
    → 0 < k
    → 0 < batch
    → IsAcceptedLate s
        (submit_job host now (pos m) (pos n) (pos k) (pos batch) priority (stop_scheduler g))
unfolding submit_push submit_count submit_job stop_scheduler ensure_scheduler
submit_after_stop host now m n k batch priority g s on held pm pn pk pb =
    let t₁ : (leb_ℤ (pos m) (pos 0) || (leb_ℤ (pos n) (pos 0) || leb_ℤ (pos k) (pos 0))) ≡ false =
      ground arith in
    let t₂ : leb_ℤ (pos batch) (pos 0) ≡ false = ground arith in
    rw (t₁, t₂, on, held)
      (record {
        globals = _;
        after = _;
        returned = refl;
        not_running = refl;
        kept = refl;
        stopped = refl;
        counted = refl;
      })
