-- ===== src/Alloc/Ledger.antt =====
-- The allocation loop of src/sched/scheduler.cpp leaks no memory and frees none twice.
use gpu_batch_inference_sche.Common.{
  refl, false, ℕ, ◌+◌, ◌≡◌, List, [], ◌∷◌, Option, none, some, ◌==◌, if◌then◌else◌, total, arith,
  Bool-cases, inl, inr,
}
use gpu_batch_inference_sche.Alloc

-- The allocations at `p` that a buffer holds.
abbrev pub held : ℕ → Alloc.Buffer → ℕ
held p b = elim b.data_ [ none ↦ 0 | some q ↦ if p == q then 1 else 0 ]

-- A release takes away what the buffer held.
release-live :
    (p base rest count : ℕ) (d : Option ℕ) (mem : Alloc.Memory)
    → mem.live p ≡ base + (held p (record { data_ = d; count = count }) + rest)
    → (Alloc.release (record { data_ = d; count = count }) mem).live p ≡ base + rest
unfolding Alloc.release Alloc.free
release-live p base rest count none mem h = omega arith
release-live p base rest count (some q) mem h = ground arith

release_all-live :
    (p base rest : ℕ) (bs : List Alloc.Buffer) (mem : Alloc.Memory)
    → mem.live p ≡ base + (total (held p) bs + rest)
    → (Alloc.release_all bs mem).live p ≡ base + rest
unfolding Alloc.release_all
release_all-live p base rest [] mem h = omega arith
release_all-live p base rest (b ∷ bs) mem h =
    release_all-live p base rest bs _
      (release-live p base (total (held p) bs + rest) b.count b.data_ mem (omega arith))

settle-live :
    (p base rest count : ℕ) (mem : Alloc.Memory) (answer : Alloc.Answer)
    → mem.live p ≡ base + rest
    → let t = Alloc.settle count mem answer in t.memory.live p ≡ base + (held p t.buffer + rest)
unfolding Alloc.settle
settle-live p base rest count mem (Alloc.granted q) h = ground arith
settle-live p base rest count mem (Alloc.refused e) h = omega arith

try_allocate-live :
    (driver : Alloc.Driver) (p base rest count : ℕ) (b : Alloc.Buffer) (mem : Alloc.Memory)
    → mem.live p ≡ base + (held p b + rest)
    → let t = Alloc.try_allocate driver count b mem in
      t.memory.live p ≡ base + (held p t.buffer + rest)
unfolding Alloc.try_allocate
try_allocate-live driver p base rest count b mem h =
    let freed : (Alloc.release b mem).live p ≡ base + rest =
      release-live p base rest b.count b.data_ mem h in
    elim (Bool-cases (count == 0)) [
      | inl e ↦ rw e (omega arith)
      | inr e ↦ rw e (settle-live p base rest count _ _ freed)
    ]

continue_all-live :
    (p total_held : ℕ) (t : Alloc.Tried) (err : Option Alloc.CudaError) (bs : List Alloc.Buffer)
    (after : Alloc.TriedAll)
    → t.memory.live p ≡ total_held + total (held p) (t.buffer ∷ bs)
    → after.memory.live p ≡ total_held + total (held p) (t.buffer ∷ after.buffers)
    → let r = Alloc.continue_all t err bs after in
      r.memory.live p ≡ total_held + total (held p) r.buffers
unfolding Alloc.continue_all
continue_all-live p total_held t none bs after h h' = h'
continue_all-live p total_held t (some e) bs after h h' = h

-- A sequence of allocations keeps the balance, wherever it ends.
pub try_all-live :
    (driver : Alloc.Driver) (p base rest : ℕ) (counts : List ℕ) (bs : List Alloc.Buffer)
    (mem : Alloc.Memory)
    → mem.live p ≡ base + (total (held p) bs + rest)
    → let t = Alloc.try_all driver counts bs mem in
      t.memory.live p ≡ base + (total (held p) t.buffers + rest)
unfolding Alloc.try_all
try_all-live driver p base rest [] bs mem h = h
try_all-live driver p base rest (count ∷ counts) [] mem h = h
try_all-live driver p base rest (count ∷ counts) (b ∷ bs) mem h =
    let t = Alloc.try_allocate driver count b mem in
    let e₁ : t.memory.live p ≡ base + (held p t.buffer + (total (held p) bs + rest)) =
      try_allocate-live driver p base (total (held p) bs + rest) count b mem (omega arith) in
    let after = Alloc.try_all driver counts bs t.memory in
    let e₂ = try_all-live driver p base (held p t.buffer + rest) counts bs t.memory (omega arith) in
    omega (
      arith,
      continue_all-live p (base + rest) t t.error bs after (omega (arith, e₁)) (omega (arith, e₂)),
    )

-- The allocations at `p` that the buffers of the jobs hold.
abbrev pub device_held : ℕ → List Alloc.JobBuffers → ℕ
device_held p execs = total (λ e. total (held p) e.device) execs

abbrev pub host_held : ℕ → List Alloc.JobBuffers → ℕ
host_held p execs = total (λ e. total (held p) e.host) execs

-- The memory over what was live at the start is what the buffers hold.
abbrev pub IsBalanced : ℕ → (device host : ℕ) → List Alloc.JobBuffers → Alloc.Space → Type 0
IsBalanced p device host execs space =
    (space.device.live p ≡ device + device_held p execs)
    × (space.host.live p ≡ host + host_held p execs)

pub release_execs-live :
    (p device host : ℕ) (execs : List Alloc.JobBuffers) (space : Alloc.Space)
    → IsBalanced p device host execs space
    → IsBalanced p device host (Alloc.emptied execs) (Alloc.release_execs execs space)
unfolding Alloc.release_execs Alloc.emptied
release_execs-live p device host [] space h = h
release_execs-live p device host (e ∷ execs) space h =
    let after : Alloc.Space = record {
      device = Alloc.release_all e.device space.device;
      host = Alloc.release_all e.host space.host;
    } in
    let r = release_execs-live p device host execs after (
      release_all-live p device (device_held p execs) e.device space.device (omega (arith, h)),
      release_all-live p host (host_held p execs) e.host space.host (omega (arith, h)),
    ) in
    (omega (arith, r), omega (arith, r))

-- A move assignment between two buffers passes the ownership on: what was live for the old target is
-- freed, and each remaining allocation still has one owner.
pub move_assign-live :
    (p base : ℕ) (target source : Alloc.Buffer) (mem : Alloc.Memory)
    → mem.live p ≡ base + (held p target + held p source)
    → let r = Alloc.move_assign false target source mem in
      r.2.live p ≡ base + (held p r.0 + held p r.1)
unfolding Alloc.move_assign
move_assign-live p base target source mem h =
    let freed : (Alloc.release target mem).live p ≡ base + held p source =
      release-live p base (held p source) target.count target.data_ mem h in
    omega arith

-- The two classes allocate alike.
pinned_allocate-try_allocate :
    (driver : Alloc.Driver) (count : ℕ) (b : Alloc.Buffer) (mem : Alloc.Memory)
    → Alloc.pinned_allocate driver count b mem ≡ Alloc.try_allocate driver count b mem
unfolding Alloc.pinned_allocate Alloc.try_allocate
pinned_allocate-try_allocate driver count b mem = refl
