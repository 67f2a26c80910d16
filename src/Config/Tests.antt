-- ===== src/Config/Tests.antt =====
-- A concrete command line of src/main.cpp.
use gpu_batch_inference_sche.Common.{pos, [], ◌∷◌, List, true}
use gpu_batch_inference_sche.Config.{Argument, Config, set_saturation, set_workers, default_config}

-- `--saturation --workers 4`
abbrev arguments : List Argument
arguments = set_saturation ∷ set_workers (pos 4) ∷ []

abbrev accepted : Config
accepted = record default_config { saturation = true; workers = pos 4; jobs = 1000 }
