-- ===== src/Worker/Balanced.antt =====
-- The worker's thread of src/sched/scheduler.cpp destroys what it has created.
use gpu_batch_inference_sche.Common.{
  ℕ, suc, ◌+◌, ◌≡◌, ◌≤◌, refl, inl, inr, Bool, true, false, List, [], ◌∷◌, Option, none, some, ltb,
  length, ◌==◌, if◌then◌else◌, arith, Bool-cases, Option-cases, sym, ap, ◌∙◌,
}
use gpu_batch_inference_sche.Worker.{
  Handles, Creation, Reallocation, WorkerContext, new_context, destroy_stream, destroy_events,
  create_stream, open_streams, resize_pools, prepare, batches, close, worker_loop,
}
use gpu_batch_inference_sche.Worker.Counts.{
  count, count_stream, destroy_events-count, destroy_events-streams, destroy_stream-count,
  destroy_stream-events, resize-Resized,
}

-- `cudaStreamCreate` gives `p`.
abbrev with_stream : ℕ → Handles → Handles
with_stream p r = record r {
  calls = suc r.calls;
  streams = λ q. if q == p then suc (r.streams q) else r.streams q;
}

-- What the thread has made since `base` is what its context holds. The pools have one size, and the
-- streams are made together.
record Owns (base : Handles) (c : WorkerContext) (r : Handles) : Type 0 where
  streams :
      (q : ℕ)
      → r.streams q
        ≡ base.streams q
          + count_stream q c.h2d_stream
          + count_stream q c.compute_stream
          + count_stream q c.d2h_stream
  events :
      (q : ℕ)
      → r.events q ≡ base.events q + count q c.h2d_done + count q c.kern_done + count q c.done
  together : c.h2d_stream ≡ none → (c.compute_stream ≡ none) × (c.d2h_stream ≡ none)
  kern_size : length c.kern_done ≡ length c.h2d_done
  done_size : length c.done ≡ length c.h2d_done

destroy_streams-count :
    (base : Handles) (c : WorkerContext) (r : Handles)
    → Owns base c r
    → (q : ℕ)
    → (destroy_stream c.d2h_stream
          (destroy_stream c.compute_stream (destroy_stream c.h2d_stream r))).streams
        q
      ≡ base.streams q
destroy_streams-count base c r w q =
    let d2h : ℕ = base.streams q + count_stream q c.d2h_stream in
    let compute : ℕ = d2h + count_stream q c.compute_stream in
    let h = w.streams q in
    let a = destroy_stream-count c.h2d_stream r q compute (omega (arith, h)) in
    let b = destroy_stream-count c.compute_stream _ q d2h a in
    destroy_stream-count c.d2h_stream _ q (base.streams q) b

destroy_pools-count :
    (base : Handles) (c : WorkerContext) (r : Handles) (q : ℕ)
    → r.events q ≡ base.events q + count q c.h2d_done + count q c.kern_done + count q c.done
    → (destroy_events c.h2d_done (destroy_events c.kern_done (destroy_events c.done r))).events q
      ≡ base.events q
destroy_pools-count base c r q h =
    let a =
      destroy_events-count c.done r q (base.events q + count q c.h2d_done + count q c.kern_done)
        h in
    let b = destroy_events-count c.kern_done _ q (base.events q + count q c.h2d_done) a in
    destroy_events-count c.h2d_done _ q (base.events q) b

fresh-Owns :
    (base r : Handles)
    → ((q : ℕ) → (r.streams q ≡ base.streams q) × (r.events q ≡ base.events q))
    → Owns base new_context r
fresh-Owns base r h = record {
  streams = λ q. omega (arith, (h q).0);
  events = λ q. omega (arith, (h q).1);
  together = λ e. (refl, refl);
  kern_size = refl;
  done_size = refl;
}

module _ (create : Creation) (reallocates : Reallocation)
    (grants : (call : ℕ) → (p : ℕ) × (create call ≡ some p)) where
  create_stream-some :
      (r : Handles) → (p : ℕ) × (create_stream create r ≡ some (p, with_stream p r))
  unfolding create_stream
  create_stream-some r = let (p, g) = grants r.calls in (p, rw g refl)

  open_streams-Owns :
      (base : Handles) (c : WorkerContext) (r : Handles)
      → Owns base c r
      → (x : WorkerContext × Handles) × ((open_streams create c r ≡ some x)
          × (Owns base (x.0) (x.1) × ((x.0).h2d_done ≡ c.h2d_done)))
  unfolding open_streams
  open_streams-Owns base c r w = elim (Option-cases c.h2d_stream) [
    | inl e ↦
        let (h2d, f) = create_stream-some r in
        let (compute, g) = create_stream-some (with_stream h2d r) in
        let (d2h, h) = create_stream-some (with_stream compute (with_stream h2d r)) in
        let none_left = w.together e in
        (
          (
            record c {
              h2d_stream = some h2d;
              compute_stream = some compute;
              d2h_stream = some d2h;
            },
            with_stream d2h (with_stream compute (with_stream h2d r)),
          ),
          (
            rw (e, f, g, h) refl,
            (
              record {
                streams = λ q.
                    let i = w.streams q in
                    let a = ap (count_stream q) e in
                    let b = ap (count_stream q) (none_left.0) in
                    let d = ap (count_stream q) (none_left.1) in ground (arith, i, a, b, d);
                events = w.events;
                together = λ i. cc;
                kern_size = w.kern_size;
                done_size = w.done_size;
              },
              refl,
            ),
          ),
        )
    | inr (p, e) ↦ ((c, r), (rw e refl, (w, refl)))
  ]

  resize_pools-Owns :
      (n : ℕ) (base : Handles) (c : WorkerContext) (r : Handles)
      → Owns base c r
      → (x : WorkerContext × Handles) × ((resize_pools create reallocates n c r ≡ some x)
          × (Owns base (x.0) (x.1) × (length (x.0).h2d_done ≡ n)))
  unfolding resize_pools
  resize_pools-Owns n base c r w =
      let (x, (e, h2d)) = resize-Resized create grants reallocates n c.h2d_done r in
      let (y, (f, kern)) = resize-Resized create grants reallocates n c.kern_done (x.1) in
      let (z, (g, done)) = resize-Resized create grants reallocates n c.done (y.1) in
      (
        (record c { h2d_done = x.0; kern_done = y.0; done = z.0 }, z.1),
        (
          rw (e, f, g) refl,
          (
            record {
              streams = λ q. done.streams q ∙ kern.streams q ∙ h2d.streams q ∙ w.streams q;
              events = λ q.
                  let a =
                    h2d.events q (base.events q + count q c.kern_done + count q c.done)
                      (omega (arith, w.events q)) in
                  let b =
                    kern.events q (base.events q + count q (x.0) + count q c.done) (omega arith) in
                  done.events q (base.events q + count q (x.0) + count q (y.0)) (omega arith);
              together = w.together;
              kern_size = kern.size ∙ sym h2d.size;
              done_size = done.size ∙ sym h2d.size;
            },
            h2d.size,
          ),
        ),
      )

  prepare-Owns :
      (n : ℕ) (base : Handles) (c : WorkerContext) (r : Handles)
      → Owns base c r
      → (x : WorkerContext × Handles) × ((prepare create reallocates n c r ≡ some x)
          × (Owns base (x.0) (x.1) × (n ≤ length (x.0).h2d_done)))
  unfolding prepare
  prepare-Owns n base c r w =
      let (x, (e, (o, same))) = open_streams-Owns base c r w in
      elim (Bool-cases (ltb (length (x.0).h2d_done) n)) [
        | inl more ↦
            let (y, (f, (o', s))) = resize_pools-Owns n base (x.0) (x.1) o in
            (y, (rw (e, f, more) refl, (o', omega (arith, s))))
        | inr enough ↦ (x, (rw (e, enough) refl, (o, ground (arith, enough))))
      ]

  -- What a worker holds, with a context or before it has one.
  abbrev HasKept : Handles → Option WorkerContext → Handles → Type 0
  HasKept base none r = (q : ℕ) → (r.streams q ≡ base.streams q) × (r.events q ≡ base.events q)
  HasKept base (some c) r = Owns base c r

  batches-HasKept :
      (gpu_absent : Bool) (ns : List ℕ) (base : Handles) (c : Option WorkerContext) (r : Handles)
      → HasKept base c r
      → (x : Option WorkerContext × Handles) × ((batches create reallocates gpu_absent ns c r
            ≡ some x)
          × HasKept base (x.0) (x.1))
  unfolding batches
  batches-HasKept gpu_absent [] base c r w = ((c, r), (refl, w))
  batches-HasKept true (n ∷ ns) base c r w = batches-HasKept true ns base c r w
  batches-HasKept false (n ∷ ns) base none r w =
      let (x, (e, o)) = prepare-Owns n base new_context r (fresh-Owns base r w) in
      let (y, (f, v)) = batches-HasKept false ns base (some (x.0)) (x.1) (o.0) in
      (y, (rw (e, f) refl, v))
  batches-HasKept false (n ∷ ns) base (some c) r w =
      let (x, (e, o)) = prepare-Owns n base c r w in
      let (y, (f, v)) = batches-HasKept false ns base (some (x.0)) (x.1) (o.0) in
      (y, (rw (e, f) refl, v))

  close-HasKept :
      (base : Handles) (c : Option WorkerContext) (r : Handles)
      → HasKept base c r
      → (q : ℕ) → ((close c r).streams q ≡ base.streams q) × ((close c r).events q ≡ base.events q)
  unfolding close
  close-HasKept base none r w q = w q
  close-HasKept base (some c) r w q =
      let r1 : Handles = destroy_stream c.h2d_stream r in
      let r2 : Handles = destroy_stream c.compute_stream r1 in
      let r3 : Handles = destroy_stream c.d2h_stream r2 in
      let r4 : Handles = destroy_events c.done r3 in
      let r5 : Handles = destroy_events c.kern_done r4 in
      (
        destroy_events-streams c.h2d_done r5 q
            ∙ destroy_events-streams c.kern_done r4 q
            ∙ destroy_events-streams c.done r3 q
            ∙ destroy_streams-count base c r w q,
        destroy_pools-count base c r3 q (
            destroy_stream-events c.d2h_stream r2 q
            ∙ destroy_stream-events c.compute_stream r1 q
            ∙ destroy_stream-events c.h2d_stream r q
            ∙ w.events q),
      )

  -- Where each stream and event that a worker asks for is created, the worker goes through any
  -- sequence of batches and ends, and has destroyed each stream and event that it created, once: at
  -- each handle as many are left as before.
  pub worker_loop-balanced :
      (gpu_absent : Bool) (ns : List ℕ) (r : Handles)
      → (x : Handles) × ((worker_loop create reallocates gpu_absent ns r ≡ some x)
          × ((q : ℕ) → (x.streams q ≡ r.streams q) × (x.events q ≡ r.events q)))
  unfolding worker_loop
  worker_loop-balanced gpu_absent ns r =
      let (x, (e, w)) = batches-HasKept gpu_absent ns r none r (λ q. (refl, refl)) in
      (close (x.0) (x.1), (rw e refl, close-HasKept r (x.0) (x.1) w))
