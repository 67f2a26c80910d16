-- ===== src/Scheduler/Wakeup/Tests.antt =====
-- A worker that finds no batch while the scheduler stops.
use gpu_batch_inference_sche.Common.{false, refl}
use gpu_batch_inference_sche.Scheduler.Wakeup.{
  Wait, WaitRun, IsStuck, tests, before_store, stop_may_hang,
}

abbrev idle_worker : Wait
idle_worker = record { waiter = tests; stopper = before_store; shutdown = false; has_batch = false }

stop_may_hang_example : (y : Wait) × WaitRun idle_worker y × IsStuck y
stop_may_hang_example = stop_may_hang idle_worker refl refl refl refl
