-- ===== src/Hog/Cycles.antt =====
-- A cycle of bench/gpu_memory_hog.cpp gives back what it takes.
use gpu_batch_inference_sche.Common.{
  ℕ, zero, suc, ◌+◌, ◌-◌, ◌==◌, ◌≡◌, refl, sym, ap, subst, ◌∙◌, Bool, true, false, [], ◌∷◌, Option,
  none, some, if◌then◌else◌, arith, length,
}
use gpu_batch_inference_sche.Alloc.{Answer, granted, refused, Driver, Memory, free}
use gpu_batch_inference_sche.Hog.{
  Blocks, null_blocks, Taken, take_chunks, give_chunks, hog_cycle, hog_cycles,
}

-- How many of the blocks are the allocation at `q`.
abbrev held_at : Blocks → ℕ → ℕ
held_at [] q = 0
held_at (none ∷ blocks) q = held_at blocks q
held_at (some p ∷ blocks) q = if q == p then suc (held_at blocks q) else held_at blocks q

-- How many blocks are not null.
abbrev held : Blocks → ℕ
held [] = 0
held (none ∷ blocks) = held blocks
held (some p ∷ blocks) = suc (held blocks)

-- The loop of `cudaMalloc` over null blocks: each live allocation is an old one or stands in a block.
record IsTaken (n allocated : ℕ) (mem : Memory) (taken : Taken) : Type 0 where
  size : length taken.blocks ≡ n
  accounts : (q : ℕ) → taken.memory.live q ≡ mem.live q + held_at taken.blocks q
  counts : taken.allocated ≡ allocated + held taken.blocks

none_held : (n q : ℕ) → held_at (null_blocks n) q ≡ 0
unfolding null_blocks
none_held zero q = refl
none_held (suc n) q = none_held n q

none-held_all : (n : ℕ) → held (null_blocks n) ≡ 0
unfolding null_blocks
none-held_all zero = refl
none-held_all (suc n) = none-held_all n

length-null_blocks : (n : ℕ) → length (null_blocks n) ≡ n
unfolding null_blocks
length-null_blocks zero = refl
length-null_blocks (suc n) = ap suc (length-null_blocks n)

-- What the loop makes of the driver's answer for a block.
abbrev after_answer : Driver → ℕ → Option ℕ → Blocks → Memory → ℕ → Answer → Taken
after_answer driver bytes block blocks mem allocated (refused e) = record {
  blocks = block ∷ blocks;
  memory = record mem { calls = suc mem.calls };
  allocated = allocated;
}
after_answer driver bytes block blocks mem allocated (granted p) =
    let rest : Taken =
      take_chunks driver bytes blocks
        record {
          calls = suc mem.calls;
          live = λ q. if q == p then suc (mem.live q) else mem.live q;
        }
        (suc allocated) in
    record rest { blocks = some p ∷ rest.blocks }

take_chunks-next :
    (driver : Driver) (bytes : ℕ) (block : Option ℕ) (blocks : Blocks) (mem : Memory)
    (allocated : ℕ) (answer : Answer)
    → driver mem.calls bytes ≡ answer
    → take_chunks driver bytes (block ∷ blocks) mem allocated
      ≡ after_answer driver bytes block blocks mem allocated answer
unfolding take_chunks
take_chunks-next driver bytes block blocks mem allocated (refused x) e = ground arith
take_chunks-next driver bytes block blocks mem allocated (granted p) e = ground arith

more_held :
    (now before rest : ℕ) (b : Bool)
    → now ≡ (if b then suc before else before) + rest
    → now ≡ before + (if b then suc rest else rest)
more_held now before rest true e = omega (arith, e)
more_held now before rest false e = e

answered-IsTaken :
    (driver : Driver) (bytes n : ℕ) (mem : Memory) (allocated : ℕ) (answer : Answer)
    → ((mem' : Memory) (allocated' : ℕ)
        → IsTaken n allocated' mem' (take_chunks driver bytes (null_blocks n) mem' allocated'))
    → IsTaken
        (suc n)
        allocated
        mem
        (after_answer driver bytes none (null_blocks n) mem allocated answer)
answered-IsTaken driver bytes n mem allocated (refused e) h = record {
  size = ap suc (length-null_blocks n);
  accounts = λ q. omega (arith, none_held n q);
  counts = omega (arith, none-held_all n);
}
answered-IsTaken driver bytes n mem allocated (granted p) h =
    let mem' : Memory = record {
      calls = suc mem.calls;
      live = λ q. if q == p then suc (mem.live q) else mem.live q;
    } in
    let rest = h mem' (suc allocated) in
    record {
      size = ap suc rest.size;
      accounts = λ q. more_held _ _ _ (q == p) (rest.accounts q);
      counts = omega (arith, rest.counts);
    }

take_chunks-IsTaken :
    (driver : Driver) (bytes n : ℕ) (mem : Memory) (allocated : ℕ)
    → IsTaken n allocated mem (take_chunks driver bytes (null_blocks n) mem allocated)
unfolding take_chunks null_blocks
take_chunks-IsTaken driver bytes zero mem allocated = record {
  size = refl;
  accounts = λ q. omega arith;
  counts = omega arith;
}
take_chunks-IsTaken driver bytes (suc n) mem allocated =
    subst (IsTaken (suc n) allocated mem)
      (sym (
        take_chunks-next driver bytes none (null_blocks n) mem allocated (driver mem.calls bytes)
          refl))
      (answered-IsTaken driver bytes n mem allocated (driver mem.calls bytes)
        (λ mem' allocated'. take_chunks-IsTaken driver bytes n mem' allocated'))

less_held :
    (live rest : ℕ) (b : Bool)
    → (if b then live - 1 else live) - rest ≡ live - (if b then suc rest else rest)
less_held live rest true = omega arith
less_held live rest false = refl

-- The loop of `cudaFree` leaves null blocks, and frees each held block once.
give_chunks-restores :
    (blocks : Blocks) (mem : Memory)
    → ((give_chunks blocks mem).0 ≡ null_blocks (length blocks))
      × ((q : ℕ) → (give_chunks blocks mem).1.live q ≡ mem.live q - held_at blocks q)
unfolding give_chunks null_blocks free
give_chunks-restores [] mem = (refl, λ q. omega arith)
give_chunks-restores (none ∷ blocks) mem =
    let rest = give_chunks-restores blocks mem in (ap (λ b. none ∷ b) rest.0, rest.1)
give_chunks-restores (some p ∷ blocks) mem =
    let rest = give_chunks-restores blocks (free p mem) in
    (ap (λ b. none ∷ b) rest.0, λ q. rest.1 q ∙ less_held (mem.live q) (held_at blocks q) (q == p))

-- Between two cycles: null blocks, and the memory as before.
abbrev pub IsIdle : ℕ → Memory → Blocks × Memory → Type 0
IsIdle n mem st = (st.0 ≡ null_blocks n) × ((q : ℕ) → st.1.live q ≡ mem.live q)

hog_cycle-IsIdle :
    (driver : Driver) (bytes n : ℕ) (mem : Memory) (st : Blocks × Memory)
    → IsIdle n mem st
    → IsIdle n mem (hog_cycle driver bytes st)
unfolding hog_cycle
hog_cycle-IsIdle driver bytes n mem (blocks, now) (e, h) =
    let taken : Taken = take_chunks driver bytes blocks now 0 in
    let took : IsTaken n 0 now taken =
      subst (λ b. IsTaken n 0 now (take_chunks driver bytes b now 0)) (sym e)
        (take_chunks-IsTaken driver bytes n now 0) in
    let gave = give_chunks-restores taken.blocks taken.memory in
    (gave.0 ∙ ap null_blocks took.size, λ q. gave.1 q ∙ omega (arith, took.accounts q, h q))

-- Whatever the driver answers, and however many cycles there are before the deadline: after each, no
-- block is held, and at each pointer as many allocations are live as before the first one.
pub hog_cycles-IsIdle :
    (driver : Driver) (bytes n rounds : ℕ) (mem : Memory) (st : Blocks × Memory)
    → IsIdle n mem st
    → IsIdle n mem (hog_cycles driver bytes rounds st)
unfolding hog_cycles
hog_cycles-IsIdle driver bytes n zero mem st h = h
hog_cycles-IsIdle driver bytes n (suc rounds) mem st h =
    hog_cycles-IsIdle driver bytes n rounds mem (hog_cycle driver bytes st)
      (hog_cycle-IsIdle driver bytes n mem st h)
