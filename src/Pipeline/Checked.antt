-- ===== src/Pipeline/Checked.antt =====
-- The pipeline of execute_batch passes the check of `Stream.Facts`: every command waits for what it
-- reads, and at the end the events of all jobs have run.
use gpu_batch_inference_sche.Common.{
  ℕ, zero, suc, ◌+◌, ◌<◌, ◌≡◌, refl, sym, subst, ◌⊎◌, inl, inr, List, [], ◌++◌, true, false, Bool,
  if◌then◌else◌, arith, ltb, append_assoc, Bool-cases,
}
use gpu_batch_inference_sche.Stream.{Action, put}
use gpu_batch_inference_sche.Stream.Facts.{Both, copied, stamped, Knowledge, Within, Checks}
use gpu_batch_inference_sche.Stream.Counting.{CountedTo, CountedTo-next, CountedTo-old, waited}
use gpu_batch_inference_sche.Pipeline.{
  done, for_each, enqueue_h2d, issue_job, finish_job, execute_batch,
}
use gpu_batch_inference_sche.Pipeline.Account.{
  promise, Nothing, Returned, Returned-next, Counts, ahead,
}

-- One more record of an event.
abbrev pub recorded : (array i : ℕ) → (ℕ → ℕ → ℕ) → ℕ → ℕ → ℕ
recorded array i issued = put array (put i (suc (issued array i)) (issued array)) issued

-- The first upload.
pub first-Counts : (n : ℕ) → Counts (ahead (suc n) 0) 0 (recorded 0 0 (λ array i. 0))
first-Counts n = record {
  at_h2d = λ l. ground arith;
  at_kern = λ l. ground arith;
  at_done = λ l. ground arith;
}

-- The kernel and the copy of the result.
pub issued-Counts :
    (up i : ℕ) (issued : ℕ → ℕ → ℕ)
    → Counts up i issued
    → Counts up (suc i) (recorded 2 i (recorded 1 i issued))
issued-Counts up i issued c = record {
  at_h2d = c.at_h2d;
  at_kern = CountedTo-next i (issued 1) c.at_kern;
  at_done = CountedTo-next i (issued 2) c.at_done;
}

-- The upload of the next job.
pub next-Counts :
    (i : ℕ) (issued : ℕ → ℕ → ℕ)
    → Counts (suc i) (suc i) issued
    → Counts (suc (suc i)) (suc i) (recorded 0 (i + 1) issued)
next-Counts i issued c =
    let next : i + 1 ≡ suc i = omega arith in
    rw next (record {
      at_h2d = CountedTo-next (suc i) (issued 0) c.at_h2d;
      at_kern = c.at_kern;
      at_done = c.at_done;
    })

pub ahead-last : (size i : ℕ) → ltb (i + 1) size ≡ false → ahead size (suc i) ≡ suc i
ahead-last size i h = ground arith

pub ahead-more : (size i : ℕ) → ltb (i + 1) size ≡ true → ahead size (suc i) ≡ suc (suc i)
ahead-more size i h = ground arith

module _ (goal known : Knowledge) where
  abbrev Ok : (ℕ → Knowledge) → (ℕ → ℕ → ℕ) → List Action → Type 0
  Ok tails issued program = Checks promise goal known tails issued program

  -- The upload of a job may come at any time.
  enqueue_h2d-Ok :
      (i : ℕ) (tails : ℕ → Knowledge) (issued : ℕ → ℕ → ℕ) (rest : List Action)
      → ((tails' : ℕ → Knowledge) → Ok tails' (recorded 0 i issued) rest)
      → Ok tails issued (enqueue_h2d i ++ rest)
  enqueue_h2d-Ok i tails issued rest k = (
    λ φ h. inr (inl h),
    (λ φ h. inl (inr (inr h)), ((λ φ. elim [ inl a ↦ inl (inr a) | inr b ↦ inr b ]), k _)),
  )

  -- The upload of the next job, if there is one.
  next-Ok :
      (size i : ℕ) (tails : ℕ → Knowledge) (issued : ℕ → ℕ → ℕ) (rest : List Action)
      → Counts (suc i) (suc i) issued
      → ((tails' : ℕ → Knowledge) (issued' : ℕ → ℕ → ℕ)
          → Counts (ahead size (suc i)) (suc i) issued'
          → Ok tails' issued' rest)
      → Ok tails issued ((if ltb (i + 1) size then enqueue_h2d (i + 1) else []) ++ rest)
  next-Ok size i tails issued rest c k = elim (Bool-cases (ltb (i + 1) size)) [
    | inl more ↦ rw more (
        enqueue_h2d-Ok (i + 1) tails issued rest (λ tails'.
          k tails' (recorded 0 (i + 1) issued)
            (rw (ahead-more size i more) (next-Counts i issued c))))
    | inr last ↦ rw last (k tails issued (rw (ahead-last size i last) c))
  ]

  -- A round of the loop, once the upload of its job has been issued.
  issue_job-Ok :
      (size i : ℕ) (tails : ℕ → Knowledge) (issued : ℕ → ℕ → ℕ) (rest : List Action)
      → Counts (suc i) i issued
      → ((tails' : ℕ → Knowledge) (issued' : ℕ → ℕ → ℕ)
          → Counts (ahead size (suc i)) (suc i) issued'
          → Ok tails' issued' rest)
      → Ok tails issued (issue_job size i ++ rest)
  issue_job-Ok size i tails issued rest c k =
      let after = issued-Counts (suc i) i issued c in
      let uploaded =
        waited promise 0 i (issued 0 i) _
          (CountedTo-old (suc i) (issued 0) i c.at_h2d (omega arith)) (λ φ h. h) in
      let multiplied =
        waited promise 1 i (recorded 1 i issued 1 i) _
          (CountedTo-old (suc i) (recorded 1 i issued 1) i after.at_kern (omega arith))
          (λ φ h. h) in
      (
        λ φ n. inr (uploaded φ (inl n)),
        (
          (λ φ. elim [ inl e ↦ inr e | inr e ↦ inl (inr (uploaded φ (inr e))) ]),
          (
            λ φ n. inr (multiplied φ (inl (inl n))),
            (
              (λ φ. elim [
                | inl e ↦ inr e
                | inr (inl e) ↦ inl (inr (multiplied φ (inl (inr e))))
                | inr (inr e) ↦ inl (inr (multiplied φ (inr e)))
              ]),
              next-Ok size i _ (recorded 2 i (recorded 1 i issued)) rest after k,
            ),
          ),
        ),
      )

  -- The loop from job `i`, of which `k` rounds are left.
  issue_jobs-Ok :
      (k size i : ℕ) (tails : ℕ → Knowledge) (issued : ℕ → ℕ → ℕ) (rest : List Action)
      → i + k ≡ size
      → Counts (ahead size i) i issued
      → ((tails' : ℕ → Knowledge) (issued' : ℕ → ℕ → ℕ)
          → Counts size size issued'
          → Ok tails' issued' rest)
      → Ok tails issued (for_each (issue_job size) i k ++ rest)
  issue_jobs-Ok zero size i tails issued rest e c f =
      let same : i ≡ size = omega arith in
      let none_ahead : ahead size i ≡ size = ground arith in
      f tails issued (
        subst (λ x. Counts x size issued) none_ahead
          (subst (λ x. Counts (ahead size i) x issued) same c))
  issue_jobs-Ok (suc k) size i tails issued rest e c f =
      let one_ahead : ahead size i ≡ suc i = ground arith in
      subst (Ok tails issued)
        (sym (append_assoc (issue_job size i) (for_each (issue_job size) (suc i) k) rest))
        (issue_job-Ok size i tails issued (for_each (issue_job size) (suc i) k ++ rest)
          (subst (λ x. Counts x i issued) one_ahead c)
          (λ tails' issued' after.
            issue_jobs-Ok k size (suc i) tails' issued' rest (omega arith) after f))

-- What the host learns when it waits for the last event of a job.
abbrev learned : ℕ → (ℕ → ℕ → ℕ) → Knowledge
learned i issued φ = promise 2 i (issued 2 i) φ ⊎ (φ ≡ stamped 2 i (issued 2 i))

learned-Returned :
    (n i : ℕ) (known : Knowledge) (issued : ℕ → ℕ → ℕ)
    → i < n
    → CountedTo n (issued done)
    → Within (Returned i) known
    → Within (Returned (suc i)) (Both known (learned i issued))
      × Both known (learned i issued) (copied i)
learned-Returned n i known issued p c h =
    let now = waited promise 2 i (issued 2 i) _ (CountedTo-old n (issued 2) i c p) (λ φ p. p) in
    (
      Returned-next i (Both known (learned i issued)) (λ φ p. inl (h φ p))
          (inr (now _ (inl (inr (inl refl))))) (inr (now _ (inl (inr (inr refl)))))
          (inr (now _ (inr refl))),
      inr (now _ (inl (inl refl))),
    )

-- The waits at the end: the events of the jobs before `i` are known to have run.
finish_jobs-Ok :
    (k n i : ℕ) (retain_results : Bool) (known : Knowledge) (tails : ℕ → Knowledge)
    (issued : ℕ → ℕ → ℕ)
    → i + k ≡ n
    → Within (Returned i) known
    → CountedTo n (issued done)
    → Ok (Returned n) known tails issued (for_each (finish_job retain_results) i k)
finish_jobs-Ok zero n i retain_results known tails issued e h c =
    subst (λ x. Within (Returned x) known) (omega arith) h
finish_jobs-Ok (suc k) n i true known tails issued e h c =
    let (more, now) = learned-Returned n i known issued (omega arith) c h in
    (now, finish_jobs-Ok k n (suc i) true _ _ issued (omega arith) more c)
finish_jobs-Ok (suc k) n i false known tails issued e h c =
    let (more, now) = learned-Returned n i known issued (omega arith) c h in
    finish_jobs-Ok k n (suc i) false _ _ issued (omega arith) more c

pub execute_batch-Ok :
    (retain_results : Bool) (n : ℕ)
    → Ok (Returned n) Nothing (λ s. Nothing) (λ array i. 0) (execute_batch retain_results n)
execute_batch-Ok retain_results zero =
    enqueue_h2d-Ok (Returned 0) Nothing 0 (λ s. Nothing) (λ array i. 0) []
      (λ tails φ (l, p, e). absurd (omega arith))
execute_batch-Ok retain_results (suc n) =
    let waits : List Action = for_each (finish_job retain_results) 0 (suc n) in
    enqueue_h2d-Ok (Returned (suc n)) Nothing 0 (λ s. Nothing) (λ array i. 0)
      (for_each (issue_job (suc n)) 0 (suc n) ++ waits)
      (λ tails.
        issue_jobs-Ok (Returned (suc n)) Nothing (suc n) (suc n) 0 tails
          (recorded 0 0 (λ array i. 0)) waits (omega arith) (first-Counts n)
          (λ tails' issued' c.
            finish_jobs-Ok (suc n) (suc n) 0 retain_results Nothing tails' issued' (omega arith)
              (λ φ (l, p, e). absurd (omega arith)) c.at_done))
