-- ===== src/Hog.antt =====
-- bench/gpu_memory_hog.cpp: its options, and the cycles in which it takes and gives back device memory.
-- `cudaMalloc` is the driver of `Alloc`; an argument is what the comparisons with the option names and
-- the number parser make of one option and its value.
pub mod Cycles
mod Tests
use gpu_batch_inference_sche.Common.{
  ℕ, zero, suc, ◌*◌, ◌%◌, ◌^◌, ◌==◌, Bool, true, false, ◌&&◌, not, List, [], ◌∷◌, Option, none,
  some, ℤ, pos, ltb_ℤ, leb_ℤ, size_of_int, pos_part, if◌then◌else◌,
}
use gpu_batch_inference_sche.Alloc.{Answer, granted, refused, Driver, Memory, free}

pub record HogOptions : Type 0 where
  pub chunk_mb : ℕ
  pub chunks : ℤ
  pub hold_ms : ℤ
  pub sleep_ms : ℤ
  pub duration_s : ℤ
  pub help : Bool

abbrev pub default_hog : HogOptions
default_hog = record {
  chunk_mb = 1024;
  chunks = pos 8;
  hold_ms = pos 750;
  sleep_ms = pos 500;
  duration_s = pos 60;
  help = false;
}

pub data HogArgument : Type 0 where
  hog_help : HogArgument
  hog_chunk_mb hog_chunks hog_hold_ms hog_sleep_ms hog_duration_s : ℤ → HogArgument
  hog_malformed : HogArgument  -- an unknown option, a missing value, or one that does not parse

-- One round of the loop over `argv`; `none` where it throws.
unfoldable pub read_hog : HogArgument → HogOptions → Option HogOptions
read_hog hog_help opt = some (record opt { help = true })
read_hog (hog_chunk_mb v) opt = some (record opt { chunk_mb = size_of_int v })
read_hog (hog_chunks v) opt = some (record opt { chunks = v })
read_hog (hog_hold_ms v) opt = some (record opt { hold_ms = v })
read_hog (hog_sleep_ms v) opt = some (record opt { sleep_ms = v })
read_hog (hog_duration_s v) opt = some (record opt { duration_s = v })
read_hog hog_malformed opt = none

-- The test after the loop; `false` where it throws.
unfoldable pub hog_ok : HogOptions → Bool
hog_ok opt =
    not (opt.chunk_mb == 0)
    && (ltb_ℤ (pos 0) opt.chunks
        && (leb_ℤ (pos 0) opt.hold_ms
            && (leb_ℤ (pos 0) opt.sleep_ms && ltb_ℤ (pos 0) opt.duration_s)))

-- `parse_args` from the options read so far.
unfoldable pub hog_args : List HogArgument → HogOptions → Option HogOptions
unfolding read_hog hog_ok
hog_args [] opt = if hog_ok opt then some opt else none
hog_args (arg ∷ args) opt = elim (read_hog arg opt) [ none ↦ none | some next ↦ hog_args args next ]

unfoldable pub chunk_bytes : HogOptions → ℕ
chunk_bytes opt = opt.chunk_mb * (1024 * 1024) % 2 ^ 64

-- `blocks`, where `none` is a null pointer.
abbrev pub Blocks : Type 0
Blocks = List (Option ℕ)

-- `std::vector<void*> blocks(opt.chunks, nullptr)`
unfoldable pub null_blocks : ℕ → Blocks
null_blocks zero = []
null_blocks (suc n) = none ∷ null_blocks n

-- What the loop of `cudaMalloc` leaves: the blocks, the memory, and `allocated`.
pub record Taken : Type 0 where
  pub blocks : Blocks
  pub memory : Memory
  pub allocated : ℕ

-- The blocks from some index on; the loop ends where the driver refuses.
unfoldable pub take_chunks : Driver → (bytes : ℕ) → Blocks → Memory → (allocated : ℕ) → Taken
take_chunks driver bytes [] mem allocated = record {
  blocks = [];
  memory = mem;
  allocated = allocated;
}
take_chunks driver bytes (block ∷ blocks) mem allocated = elim (driver mem.calls bytes) [
  | refused e ↦ record {
    blocks = block ∷ blocks;
    memory = record mem { calls = suc mem.calls };
    allocated = allocated;
  }
  | granted p ↦
      let rest : Taken =
        take_chunks driver bytes blocks
          record {
            calls = suc mem.calls;
            live = λ q. if q == p then suc (mem.live q) else mem.live q;
          }
          (suc allocated) in
      record rest { blocks = some p ∷ rest.blocks }
]

-- The loop of `cudaFree`: the blocks and the memory after it.
unfoldable pub give_chunks : Blocks → Memory → Blocks × Memory
unfolding free
give_chunks [] mem = ([], mem)
give_chunks (none ∷ blocks) mem =
    let rest : Blocks × Memory = give_chunks blocks mem in (none ∷ rest.0, rest.1)
give_chunks (some p ∷ blocks) mem =
    let rest : Blocks × Memory = give_chunks blocks (free p mem) in (none ∷ rest.0, rest.1)

-- One cycle, and the given number of them.
unfoldable pub hog_cycle : Driver → (bytes : ℕ) → Blocks × Memory → Blocks × Memory
unfolding take_chunks give_chunks
hog_cycle driver bytes st =
    let taken : Taken = take_chunks driver bytes (st.0) (st.1) 0 in
    give_chunks taken.blocks taken.memory

unfoldable pub hog_cycles : Driver → (bytes rounds : ℕ) → Blocks × Memory → Blocks × Memory
unfolding hog_cycle
hog_cycles driver bytes zero st = st
hog_cycles driver bytes (suc rounds) st = hog_cycles driver bytes rounds (hog_cycle driver bytes st)
