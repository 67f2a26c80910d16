-- ===== src/Pipeline/Settled.antt =====
-- The last command that the pipeline of execute_batch gives to each of its streams is the record of the
-- last job.
use gpu_batch_inference_sche.Common.{
  ℕ, zero, suc, ◌+◌, ◌≡◌, refl, sym, subst, inl, inr, List, [], ◌++◌, true, false, Bool, ◌==◌,
  if◌then◌else◌, arith, ltb, append_assoc, Bool-cases,
}
use gpu_batch_inference_sche.Stream.{Action}
use gpu_batch_inference_sche.Stream.Facts.{Knowledge}
use gpu_batch_inference_sche.Stream.Counting.{CountedTo-new}
use gpu_batch_inference_sche.Stream.Closing.{Tail, untouched, busy, closed, Settled, Settles}
use gpu_batch_inference_sche.Pipeline.{for_each, enqueue_h2d, issue_job, finish_job, execute_batch}
use gpu_batch_inference_sche.Pipeline.Account.{Returned, Counts, ahead}
use gpu_batch_inference_sche.Pipeline.Checked.{
  recorded, first-Counts, issued-Counts, next-Counts, ahead-last, ahead-more,
}

-- The end of a stream on which `count` jobs have recorded their event.
abbrev last_of : (array count : ℕ) → Tail
last_of array zero = untouched
last_of array (suc i) = closed array i 1

-- The end of each stream, when `up` uploads and the other work of `i` jobs have been issued.
abbrev ends : (stream up i : ℕ) → Tail
ends s up i =
    if s == 0
    then last_of 0 up
    else if s == 1
    then last_of 1 i
    else if s == 2
    then last_of 2 i
    else untouched

upload-ends :
    (s up k i g : ℕ) (t : Tail)
    → t ≡ ends s up i
    → k ≡ up
    → g ≡ 1
    → (if s == 0 then closed 0 k g else if s == 0 then busy else if s == 0 then busy else t)
      ≡ ends s (suc up) i
upload-ends s up k i g t e same one = ground arith

issue-ends :
    (s up i g g' : ℕ) (t : Tail)
    → t ≡ ends s up i
    → g ≡ 1
    → g' ≡ 1
    → (if s == 2
        then closed 2 i g'
        else if s == 2
        then busy
        else if s == 2
        then busy
        else if s == 1
        then closed 1 i g
        else if s == 1
        then busy
        else if s == 1
        then busy
        else t)
      ≡ ends s up (suc i)
issue-ends s up i g g' t e one one' = ground arith

ends-Settled : (s n : ℕ) → Settled (Returned (suc n)) (ends s (suc n) (suc n))
ends-Settled zero n = (n, omega arith, inl refl)
ends-Settled (suc zero) n = (n, omega arith, inr (inl refl))
ends-Settled (suc (suc zero)) n = (n, omega arith, inr (inr refl))
ends-Settled (suc (suc (suc s))) n =
    let unused : ends (suc (suc (suc s))) (suc n) (suc n) ≡ untouched = ground arith in
    subst (Settled (Returned (suc n))) (sym unused) tt

module _ (goal : Knowledge) (s : ℕ) where
  abbrev Ok : Tail → (ℕ → ℕ → ℕ) → List Action → Type 0
  Ok t issued program = Settles goal s t issued program

  -- The upload of the next job, if there is one.
  next-Ok :
      (size i : ℕ) (t : Tail) (issued : ℕ → ℕ → ℕ) (rest : List Action)
      → Counts (suc i) (suc i) issued
      → t ≡ ends s (suc i) (suc i)
      → ((t' : Tail) (issued' : ℕ → ℕ → ℕ)
          → Counts (ahead size (suc i)) (suc i) issued'
          → t' ≡ ends s (ahead size (suc i)) (suc i)
          → Ok t' issued' rest)
      → Ok t issued ((if ltb (i + 1) size then enqueue_h2d (i + 1) else []) ++ rest)
  next-Ok size i t issued rest c e k = elim (Bool-cases (ltb (i + 1) size)) [
    | inl more ↦
        let next : i + 1 ≡ suc i = omega arith in
        let new : suc (issued 0 (i + 1)) ≡ 1 =
          rw next (CountedTo-new (suc i) (issued 0) c.at_h2d) in
        rw more (
          k _ (recorded 0 (i + 1) issued) (rw (ahead-more size i more) (next-Counts i issued c)) (
            rw (ahead-more size i more)
              (upload-ends s (suc i) (i + 1) (suc i) (suc (issued 0 (i + 1))) t e next new)))
    | inr last ↦
        rw last (k t issued (rw (ahead-last size i last) c) (rw (ahead-last size i last) e))
  ]

  -- The loop from job `i`, of which `k` rounds are left.
  issue_jobs-Ok :
      (k size i : ℕ) (t : Tail) (issued : ℕ → ℕ → ℕ) (rest : List Action)
      → i + k ≡ size
      → Counts (ahead size i) i issued
      → t ≡ ends s (ahead size i) i
      → ((issued' : ℕ → ℕ → ℕ) → Ok (ends s size size) issued' rest)
      → Ok t issued (for_each (issue_job size) i k ++ rest)
  issue_jobs-Ok zero size i t issued rest e c h f =
      let all : t ≡ ends s size size = ground arith in
      subst (λ x. Ok x issued rest) (sym all) (f issued)
  issue_jobs-Ok (suc k) size i t issued rest e c h f =
      let one_ahead : ahead size i ≡ suc i = ground arith in
      let c' = subst (λ x. Counts x i issued) one_ahead c in
      let h' = subst (λ x. t ≡ ends s x i) one_ahead h in
      let more : List Action = for_each (issue_job size) (suc i) k ++ rest in
      subst (Ok t issued)
        (sym (append_assoc (issue_job size i) (for_each (issue_job size) (suc i) k) rest))
        (next-Ok size i _ (recorded 2 i (recorded 1 i issued)) more
          (issued-Counts (suc i) i issued c')
          (issue-ends s (suc i) i _ _ t h' (CountedTo-new i (issued 1) c'.at_kern)
            (CountedTo-new i (issued 2) c'.at_done))
          (λ t' issued' after h'.
            issue_jobs-Ok k size (suc i) t' issued' rest (omega arith) after h' f))

  -- The waits give no command to a stream.
  finish_jobs-Ok :
      (i k : ℕ) (retain_results : Bool) (t : Tail) (issued : ℕ → ℕ → ℕ)
      → Settled goal t
      → Ok t issued (for_each (finish_job retain_results) i k)
  finish_jobs-Ok i zero retain_results t issued h = h
  finish_jobs-Ok i (suc k) true t issued h = finish_jobs-Ok (suc i) k true t issued h
  finish_jobs-Ok i (suc k) false t issued h = finish_jobs-Ok (suc i) k false t issued h

pub execute_batch-Settles :
    (retain_results : Bool) (n s : ℕ)
    → Settles (Returned (suc n)) s untouched (λ array i. 0) (execute_batch retain_results (suc n))
execute_batch-Settles retain_results n s =
    let goal : Knowledge = Returned (suc n) in
    let waits : List Action = for_each (finish_job retain_results) 0 (suc n) in
    let one_ahead : ahead (suc n) 0 ≡ 1 = ground arith in
    let unused : untouched ≡ ends s 0 0 = ground arith in
    let uploaded : Tail =
      if s == 0
      then closed 0 0 1
      else if s == 0
      then busy
      else if s == 0
      then busy
      else untouched in
    issue_jobs-Ok goal s (suc n) (suc n) 0 uploaded (recorded 0 0 (λ array i. 0)) waits
      (omega arith) (first-Counts n)
      (subst (λ x. uploaded ≡ ends s x 0) (sym one_ahead)
        (upload-ends s 0 0 0 1 untouched unused refl refl))
      (λ issued.
        finish_jobs-Ok goal s 0 (suc n) retain_results (ends s (suc n) (suc n)) issued
          (ends-Settled s n))
