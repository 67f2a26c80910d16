-- ===== src/Bindings/Tests.antt =====
-- Concrete calls of src/bindings/py_module.cpp.
use gpu_batch_inference_sche.Common.{pos, true, false, some, none, refl, arith}
use gpu_batch_inference_sche.Scheduler.{tiled, Options, BatchScheduler, new_scheduler, start}
use gpu_batch_inference_sche.Bindings.{Globals, Host, submit_job, stop_scheduler}
use gpu_batch_inference_sche.Bindings.Late.{IsAcceptedLate, submit_after_stop}

abbrev options : Options
options = record {
  max_batch = pos 8;
  safety_margin_bytes = 10;
  num_workers = pos 2;
  impl = tiled;
  retain_results = false;
  fixed_budget_bytes = 0;
  util_sample_ms = pos 100;
}

abbrev running_scheduler : BatchScheduler
running_scheduler = start 1 1000 none (new_scheduler options)

abbrev running_globals : Globals
running_globals = record { sched = some running_scheduler; opts = options; running = true }

abbrev host : Host
host = record { ndev = 1; sampled_total = 1000; mem_info = none }

submit_after_stop_example :
    IsAcceptedLate running_scheduler
      (submit_job host 9 (pos 4) (pos 4) (pos 4) (pos 1) (pos 0) (stop_scheduler running_globals))
submit_after_stop_example =
    submit_after_stop host 9 4 4 4 1 (pos 0) running_globals running_scheduler refl refl
      (omega arith) (omega arith) (omega arith) (omega arith)
