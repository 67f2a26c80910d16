-- ===== src/Overlap/Buffered/Checked.antt =====
-- run_pinned_double_buffer of bench/bench_overlap.cpp passes the check of `Stream.Facts`.
use gpu_batch_inference_sche.Common.{
  ℕ, zero, suc, ◌+◌, ◌<◌, ◌≡◌, refl, sym, subst, ◌∙◌, inl, inr, List, [], ◌∷◌, ◌++◌, Bool,
  if◌then◌else◌, arith, ltb, append_assoc, Bool-cases,
}
use gpu_batch_inference_sche.Stream.{Action, elapsed, record_on, synchronize}
use gpu_batch_inference_sche.Stream.Facts.{Knowledge, Checks}
use gpu_batch_inference_sche.Stream.Keeps.{Both-Within}
use gpu_batch_inference_sche.Stream.Counting.{CountedTo, CountedTo-old, stamp, waited}
use gpu_batch_inference_sche.Pipeline.{for_each}
use gpu_batch_inference_sche.Pipeline.Account.{ahead}
use gpu_batch_inference_sche.Pipeline.Checked.{recorded, ahead-last, ahead-more}
use gpu_batch_inference_sche.Overlap.{
  start_event, end_event, upload, buffered_job, read_times, run_pinned_double_buffer, d2h_on,
}
use gpu_batch_inference_sche.Overlap.Account.{Given, Returned}
use gpu_batch_inference_sche.Overlap.Readings.{readings-Ok}
use gpu_batch_inference_sche.Overlap.Buffered.{
  Begun, promise, Ahead, upload-Ahead, worked, worked-Ahead, Knows, Ahead-Counts, begun-Ahead,
  begun-Knows, downloaded,
}

module _ (n : ℕ) (known : Knowledge) where
  abbrev Ok : (ℕ → Knowledge) → (ℕ → ℕ → ℕ) → List Action → Type 0
  Ok tails issued program = Checks (promise n) (Returned n) known tails issued program

  -- The upload of job `k`.
  upload-Ok :
      (k i : ℕ) (tails : ℕ → Knowledge) (issued : ℕ → ℕ → ℕ) (rest : List Action)
      → k < n
      → CountedTo k (issued 0)
      → Knows n i tails
      → ((tails' : ℕ → Knowledge)
          → Knows n i tails'
          → Ok tails' (recorded 1 k (recorded 0 k issued)) rest)
      → Ok tails issued (upload k ++ rest)
  upload-Ok k i tails issued rest p c w f = (
    (λ φ. elim [ ]),
    (
      (λ φ e. inl (w.inputs φ (k, p, inl e))),
      (
        (λ φ e. inl (inl (w.inputs φ (k, p, inr e)))),
        (
          (λ φ. elim [
            | inl e ↦ inl (inr e)
            | inr (inl e) ↦ inr e
            | inr (inr (inl e)) ↦ inl (inl (inr (e ∙ stamp 0 k (issued 0) c)))
            | inr (inr (inr e)) ↦ inl (inl (inl (subst (tails 0) (sym e) w.begun)))
          ]),
          f _ record {
            inputs = λ φ g. inl (inl (inl (inl (w.inputs φ g))));
            begun = inl (inl (inl (inl w.begun)));
            outputs = w.outputs;
            begun_outputs = w.begun_outputs;
          },
        ),
      ),
    ),
  )

  -- The upload of the next job, if there is one.
  next-Ok :
      (i : ℕ) (tails : ℕ → Knowledge) (issued : ℕ → ℕ → ℕ) (rest : List Action)
      → Ahead (suc i) (suc i) issued
      → Knows n (suc i) tails
      → ((tails' : ℕ → Knowledge) (issued' : ℕ → ℕ → ℕ)
          → Ahead (ahead n (suc i)) (suc i) issued'
          → Knows n (suc i) tails'
          → Ok tails' issued' rest)
      → Ok tails issued ((if ltb (i + 1) n then upload (i + 1) else []) ++ rest)
  next-Ok i tails issued rest c w f = elim (Bool-cases (ltb (i + 1) n)) [
    | inl more ↦
        let next : i + 1 ≡ suc i = omega arith in
        let p : i + 1 < n = ground arith in
        rw more (
          upload-Ok (i + 1) (suc i) tails issued rest p (rw next c.at_c0) w (λ tails'.
            f tails' (recorded 1 (i + 1) (recorded 0 (i + 1) issued))
              (rw (ahead-more n i more) (upload-Ahead (i + 1) (suc i) (suc i) issued next c))))
    | inr last ↦ rw last (f tails issued (rw (ahead-last n i last) c) w)
  ]

  -- A round of the loop, once the upload of its job has been issued.
  buffered_job-Ok :
      (i : ℕ) (tails : ℕ → Knowledge) (issued : ℕ → ℕ → ℕ) (rest : List Action)
      → i < n
      → Ahead (suc i) i issued
      → Knows n i tails
      → ((tails' : ℕ → Knowledge) (issued' : ℕ → ℕ → ℕ)
          → Ahead (ahead n (suc i)) (suc i) issued'
          → Knows n (suc i) tails'
          → Ok tails' issued' rest)
      → Ok tails issued (buffered_job n i ++ rest)
  buffered_job-Ok i tails issued rest p c w f =
      let after = worked-Ahead (suc i) i issued c in
      let uploaded =
        waited (promise n) 1 i (issued 1 i) _
          (CountedTo-old (suc i) (issued 1) i c.at_c1 (omega arith)) (λ φ h. h) in
      let g : ℕ = recorded 3 i issued 3 i in
      let multiplied =
        waited (promise n) 3 i g _
          (CountedTo-old (suc i) (worked i issued 3) i after.at_k1 (omega arith)) (λ φ h. h) in
      (
        (λ φ. elim [ ]),
        (
          (λ φ. elim [
            | inl e ↦ inl (inr (uploaded φ (inl (inl e))))
            | inr e ↦ inl (inr (uploaded φ (inl (inr (inl e)))))
          ]),
          (
            (λ φ. elim [
              | inl e ↦ inr e
              | inr (inl e) ↦ inl (inr (e ∙ stamp 2 i (issued 2) c.at_k0))
              | inr (inr (inl e)) ↦ inl (inl (inr (uploaded φ (inr e))))
              | inr (inr (inr (inl e))) ↦ inl (inl (inr (uploaded φ (inl (inr (inr (inl e)))))))
              | inr (inr (inr (inr e))) ↦ inl (inl (inr (uploaded φ (inl (inr (inr (inr e)))))))
            ]),
            (
              (λ φ. elim [ ]),
              (
                (λ φ e. inl (inr (multiplied φ (inl (inl e))))),
                (
                  (λ φ. elim [ ]),
                  next-Ok i _ (worked i issued) rest after
                      record {
                        inputs = w.inputs;
                        begun = w.begun;
                        outputs = λ φ x.
                            inl (downloaded n i (tails 2) issued g c multiplied w.outputs φ x);
                        begun_outputs = λ _.
                            inl (inl (inl (inr (multiplied _ (inl (inr (inr (inr (inr refl)))))))));
                      }
                      f,
                ),
              ),
            ),
          ),
        ),
      )

  -- The loop from job `i`, of which `k` rounds are left.
  buffered_jobs-Ok :
      (k i : ℕ) (tails : ℕ → Knowledge) (issued : ℕ → ℕ → ℕ) (rest : List Action)
      → i + k ≡ n
      → Ahead (ahead n i) i issued
      → Knows n i tails
      → ((tails' : ℕ → Knowledge) (issued' : ℕ → ℕ → ℕ)
          → Ahead n n issued'
          → Knows n n tails'
          → Ok tails' issued' rest)
      → Ok tails issued (for_each (buffered_job n) i k ++ rest)
  buffered_jobs-Ok zero i tails issued rest e c w f =
      let same : i ≡ n = omega arith in
      let none_ahead : ahead n i ≡ n = ground arith in
      f tails issued
        (subst (λ x. Ahead x n issued) none_ahead (subst (λ x. Ahead (ahead n i) x issued) same c))
        (subst (λ x. Knows n x tails) same w)
  buffered_jobs-Ok (suc k) i tails issued rest e c w f =
      let one_ahead : ahead n i ≡ suc i = ground arith in
      subst (Ok tails issued)
        (sym (append_assoc (buffered_job n i) (for_each (buffered_job n) (suc i) k) rest))
        (buffered_job-Ok i tails issued (for_each (buffered_job n) (suc i) k ++ rest) (omega arith)
          (subst (λ x. Ahead x i issued) one_ahead c) w
          (λ tails' issued' c' w'.
            buffered_jobs-Ok k (suc i) tails' issued' rest (omega arith) c' w' f))

-- The sequence of `n + 1` jobs passes the check.
pub run_pinned_double_buffer-Ok :
    (timed : Bool) (n : ℕ)
    → Ok
        (suc n)
        (Given (suc n))
        (λ s. Given (suc n))
        (λ array i. 0)
        (run_pinned_double_buffer timed (suc n))
run_pinned_double_buffer-Ok timed n =
    let jobs : ℕ = suc n in
    let readings : List Action =
      for_each read_times 0 jobs
      ++ (if timed then elapsed start_event 0 end_event 0 ∷ [] else []) in
    let finish : List Action = record_on d2h_on end_event 0 ∷ synchronize end_event 0 ∷ readings in
    let one_ahead : ahead jobs 0 ≡ 1 = ground arith in
    (
      (λ φ. elim [ ]),
      upload-Ok jobs (Given jobs) 0 0 _ (recorded 6 0 (λ array i. 0))
          (for_each (buffered_job jobs) 0 jobs ++ finish) (omega arith) begun-Ahead.at_c0
          (begun-Knows jobs)
          (λ tails w.
            buffered_jobs-Ok jobs (Given jobs) jobs 0 tails _ finish (omega arith)
              (subst (λ x. Ahead x 0 (recorded 1 0 (recorded 0 0 (recorded 6 0 (λ array i. 0)))))
                (sym one_ahead) (upload-Ahead 0 0 0 (recorded 6 0 (λ array i. 0)) refl begun-Ahead))
              w
              (λ tails' issued' c' w'. (
                (λ φ f.
                    Both-Within (tails' 2) Begun (tails' 2) (λ φ x. x)
                      (λ φ e. subst (tails' 2) (sym e) (w'.begun_outputs (omega arith))) φ
                      (w'.outputs φ f)),
                readings-Ok (promise jobs) jobs (λ g φ f. f) timed _ issued'
                    (Ahead-Counts jobs issued' c'),
              ))),
    )
