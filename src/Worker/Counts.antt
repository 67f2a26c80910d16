-- ===== src/Worker/Counts.antt =====
-- How many streams and events there are after the creations and destructions of a worker's thread in
-- src/sched/scheduler.cpp.
use gpu_batch_inference_sche.Common.{
  ℕ, zero, suc, ◌+◌, ◌≡◌, refl, List, [], ◌∷◌, Option, none, some, length, total, ◌==◌,
  if◌then◌else◌, arith, ◌∙◌, Bool-cases, ltb, ◌&&◌, inl, inr,
}
use gpu_batch_inference_sche.Worker.{
  Handles, Creation, destroy_stream, destroy_events, destroy_event, relocate, move_event,
  resize_in_place, Reallocation, create_event, resize,
}

-- How often a handle is in a pool, and whether a stream is that handle.
abbrev pub count_stream : ℕ → Option ℕ → ℕ
count_stream q none = 0
count_stream q (some p) = if q == p then 1 else 0

abbrev pub count : ℕ → List (Option ℕ) → ℕ
count q pool = total (λ e. count_stream q e) pool

destroy_event-count :
    (e : Option ℕ) (r : Handles) (q rest : ℕ)
    → r.events q ≡ rest + count_stream q e
    → (destroy_event e r).events q ≡ rest
unfolding destroy_event
destroy_event-count none r q rest h = omega arith
destroy_event-count (some p) r q rest h = ground arith

destroy_event-streams :
    (e : Option ℕ) (r : Handles) (q : ℕ) → (destroy_event e r).streams q ≡ r.streams q
unfolding destroy_event
destroy_event-streams none r q = refl
destroy_event-streams (some p) r q = refl

-- A move takes nothing and leaves nothing behind.
relocate-same : (pool : List (Option ℕ)) (r : Handles) → relocate pool r ≡ (pool, r)
unfolding relocate move_event destroy_event
relocate-same [] r = refl
relocate-same (e ∷ pool) r = rw (relocate-same pool r) refl

pub destroy_events-count :
    (pool : List (Option ℕ)) (r : Handles) (q rest : ℕ)
    → r.events q ≡ rest + count q pool
    → (destroy_events pool r).events q ≡ rest
unfolding destroy_events
destroy_events-count [] r q rest h = omega arith
destroy_events-count (e ∷ pool) r q rest h =
    destroy_events-count pool (destroy_event e r) q rest
      (destroy_event-count e r q (rest + count q pool) (omega arith))

pub destroy_events-streams :
    (pool : List (Option ℕ)) (r : Handles) (q : ℕ) → (destroy_events pool r).streams q ≡ r.streams q
unfolding destroy_events
destroy_events-streams [] r q = refl
destroy_events-streams (e ∷ pool) r q =
    destroy_events-streams pool (destroy_event e r) q ∙ destroy_event-streams e r q

pub destroy_stream-count :
    (s : Option ℕ) (r : Handles) (q rest : ℕ)
    → r.streams q ≡ rest + count_stream q s
    → (destroy_stream s r).streams q ≡ rest
unfolding destroy_stream
destroy_stream-count none r q rest h = omega arith
destroy_stream-count (some p) r q rest h = ground arith

pub destroy_stream-events :
    (s : Option ℕ) (r : Handles) (q : ℕ) → (destroy_stream s r).events q ≡ r.events q
unfolding destroy_stream
destroy_stream-events none r q = refl
destroy_stream-events (some p) r q = refl

-- `pool'` has `n` events, and the runtime has as many more or less as it has more or less than `pool`.
pub record Resized (n : ℕ) (pool : List (Option ℕ)) (r : Handles) (pool' : List (Option ℕ))
    (r' : Handles) : Type 0 where
  pub size : length pool' ≡ n
  pub streams : (q : ℕ) → r'.streams q ≡ r.streams q
  pub events : (q rest : ℕ) → r.events q ≡ rest + count q pool → r'.events q ≡ rest + count q pool'

module _ (create : Creation) (grants : (call : ℕ) → (p : ℕ) × (create call ≡ some p)) where
  resize_in_place-Resized :
      (n : ℕ) (pool : List (Option ℕ)) (r : Handles)
      → (x : List (Option ℕ) × Handles) × ((resize_in_place create n pool r ≡ some x)
          × Resized n pool r (x.0) (x.1))
  unfolding resize_in_place create_event
  resize_in_place-Resized zero pool r = (
    ([], destroy_events pool r),
    (
      refl,
      record {
        size = refl;
        streams = destroy_events-streams pool r;
        events = λ q rest h. omega (arith, destroy_events-count pool r q rest h);
      },
    ),
  )
  resize_in_place-Resized (suc n) (p ∷ pool) r =
      let (x, (e, o)) = resize_in_place-Resized n pool r in
      (
        (p ∷ x.0, x.1),
        (
          rw e refl,
          record {
            size = omega (arith, o.size);
            streams = o.streams;
            events = λ q rest h.
                let i = o.events q (rest + (count_stream q p)) (omega arith) in omega (arith, i);
          },
        ),
      )
  resize_in_place-Resized (suc n) [] r =
      let (p, g) = grants r.calls in
      let (x, (e, o)) = resize_in_place-Resized n [] (record r {
        calls = suc r.calls;
        events = λ q. if q == p then suc (r.events q) else r.events q;
      }) in
      (
        (some p ∷ x.0, x.1),
        (
          rw (g, e) refl,
          record {
            size = omega (arith, o.size);
            streams = o.streams;
            events = λ q rest h.
                let i = o.events q (rest + (count_stream q (some p))) (ground arith) in
                omega (arith, i);
          },
        ),
      )

  -- With or without new storage.
  pub resize-Resized :
      (reallocates : Reallocation) (n : ℕ) (pool : List (Option ℕ)) (r : Handles)
      → (x : List (Option ℕ) × Handles) × ((resize create reallocates n pool r ≡ some x)
          × Resized n pool r (x.0) (x.1))
  unfolding resize
  resize-Resized reallocates n pool r =
      let (x, (e, o)) = resize_in_place-Resized n pool r in
      (
        x,
        (
          elim (Bool-cases (ltb (length pool) n && reallocates r.calls (length pool) n)) [
            | inl moves ↦ rw (moves, relocate-same pool r) e
            | inr stays ↦ rw stays e
          ],
          o,
        ),
      )
