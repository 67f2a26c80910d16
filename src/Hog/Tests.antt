-- ===== src/Hog/Tests.antt =====
-- Two cycles of two blocks, where the third call of the driver fails.
use gpu_batch_inference_sche.Common.{◌==◌, refl, if◌then◌else◌}
use gpu_batch_inference_sche.Alloc.{Driver, Memory, granted, refused, memory_allocation}
use gpu_batch_inference_sche.Hog.{null_blocks, hog_cycles}
use gpu_batch_inference_sche.Hog.Cycles.{IsIdle, hog_cycles-IsIdle}

abbrev third_fails : Driver
third_fails call bytes = if call == 2 then refused memory_allocation else granted call

abbrev idle : Memory
idle = record { calls = 0; live = λ q. 1 }

hog_cycles-IsIdle_example :
    IsIdle 2 idle (hog_cycles third_fails 1_073_741_824 2 (null_blocks 2, idle))
hog_cycles-IsIdle_example =
    hog_cycles-IsIdle third_fails 1_073_741_824 2 2 idle (null_blocks 2, idle) (refl, λ q. refl)
