-- ===== src/Daemon/Rows.antt =====
-- What `parse_replay` of src/main.cpp reads.
use gpu_batch_inference_sche.Common.{
  ◌<◌, ◌≡◌, refl, sym, ◌∙◌, subst, Bool, true, false, List, [], ◌∷◌, ◌++◌, Option, none, some, ltb,
  length, arith, Bool-cases, Option-cases, ◌⊎◌, inl, inr, append-nil, append_assoc, ◌>>=◌, ap,
}
use gpu_batch_inference_sche.Job.{InferenceJob}
use gpu_batch_inference_sche.Config.{Text}
use gpu_batch_inference_sche.Daemon.{
  Line, skipped, fields, Numbers, parse_u64, parse_int, is_id, row_job, accepted, replay_loop,
  parse_replay,
}

-- The columns of a row: id, m, n, k, batch, priority.
abbrev pub Describes : Numbers → List Text → InferenceJob → Type 0
Describes numbers (c0 ∷ c1 ∷ c2 ∷ c3 ∷ c4 ∷ c5 ∷ _) job =
    (parse_u64 numbers c0 ≡ some job.id)
    × (parse_int numbers c1 ≡ some job.m)
    × (parse_int numbers c2 ≡ some job.n)
    × (parse_int numbers c3 ≡ some job.k)
    × (parse_int numbers c4 ≡ some job.batch)
    × (parse_int numbers c5 ≡ some job.priority)
Describes numbers _ job = ⊥

-- Six fields or more, of which the first is "id".
abbrev pub IsHeader : List Text → Type 0
IsHeader ((a ∷ b ∷ []) ∷ _ ∷ _ ∷ _ ∷ _ ∷ _ ∷ _) = (a ≡ 105) × (b ≡ 100)
IsHeader _ = ⊥

-- A file and the jobs that it describes, in order.
abbrev pub IsReplay : Numbers → List Line → List InferenceJob → Type 0
IsReplay numbers [] jobs = jobs ≡ []
IsReplay numbers (skipped ∷ lines) jobs = IsReplay numbers lines jobs
IsReplay numbers (fields tok ∷ lines) jobs =
    (IsHeader tok × IsReplay numbers lines jobs)
    ⊎ ((job : InferenceJob) × (rest : List InferenceJob) × (jobs ≡ job ∷ rest)
        × Describes numbers tok job
        × IsReplay numbers lines rest)

accepted_injective : {a b : List InferenceJob} → accepted a ≡ accepted b → a ≡ b
accepted_injective e = cc

id-IsHeader :
    (id m n k batch priority : Text) (more : List Text)
    → is_id id ≡ true
    → IsHeader (id ∷ m ∷ n ∷ k ∷ batch ∷ priority ∷ more)
unfolding is_id
id-IsHeader (a ∷ b ∷ []) m n k batch priority more e = (ground arith, ground arith)
id-IsHeader _ m n k batch priority more e = absurd cc

-- A chain that succeeds has succeeded at its first step.
first_step :
    {A B : Type 0} (o : Option A) (f : A → Option B) (b : B)
    → (o >>= f) ≡ some b
    → (a : A) × ((o ≡ some a) × (f a ≡ some b))
first_step none f b e = absurd cc
first_step (some a) f b e = (a, (refl, e))

some_job : {a b : InferenceJob} → some a ≡ some b → a ≡ b
some_job e = cc

row_job-Describes :
    (numbers : Numbers) (id m n k batch priority : Text) (more : List Text) (job : InferenceJob)
    → row_job numbers id m n k batch priority ≡ some job
    → Describes numbers (id ∷ m ∷ n ∷ k ∷ batch ∷ priority ∷ more) job
unfolding row_job
row_job-Describes numbers id m n k batch priority more job e =
    let (id', (q0, e0)) = first_step (parse_u64 numbers id) _ job e in
    let (m', (q1, e1)) = first_step (parse_int numbers m) _ job e0 in
    let (n', (q2, e2)) = first_step (parse_int numbers n) _ job e1 in
    let (k', (q3, e3)) = first_step (parse_int numbers k) _ job e2 in
    let (batch', (q4, e4)) = first_step (parse_int numbers batch) _ job e3 in
    let (priority', (q5, e5)) = first_step (parse_int numbers priority) _ job e4 in
    let same = some_job e5 in
    (
      q0 ∙ ap (λ x. some x.id) same,
      q1 ∙ ap (λ x. some x.m) same,
      q2 ∙ ap (λ x. some x.n) same,
      q3 ∙ ap (λ x. some x.k) same,
      q4 ∙ ap (λ x. some x.batch) same,
      q5 ∙ ap (λ x. some x.priority) same,
    )

replay_loop-IsReplay :
    (numbers : Numbers) (lines : List Line) (out jobs : List InferenceJob)
    → replay_loop numbers lines out ≡ accepted jobs
    → (rest : List InferenceJob) × ((jobs ≡ out ++ rest)
        × (IsReplay numbers lines rest × (0 < length jobs)))
unfolding replay_loop
replay_loop-IsReplay numbers [] out jobs e = elim (Bool-cases (ltb 0 (length out))) [
  | inl some_left ↦
      let same : out ≡ jobs = accepted_injective (sym (rw some_left refl) ∙ e) in
      ([], (sym same ∙ sym (append-nil out), (refl, subst (λ l. 0 < length l) same (ground arith))))
  | inr none_left ↦ absurd (cc (e, none_left))
]
replay_loop-IsReplay numbers (skipped ∷ lines) out jobs e =
    replay_loop-IsReplay numbers lines out jobs e
replay_loop-IsReplay numbers (fields (id ∷ m ∷ n ∷ k ∷ batch ∷ priority ∷ more) ∷ lines) out jobs
      e =
    elim (Bool-cases (is_id id)) [
      | inl named ↦
          let (rest, (q, (r, l))) =
            replay_loop-IsReplay numbers lines out jobs (sym (rw (replay_loop, named) refl) ∙ e) in
          (rest, (q, (inl (id-IsHeader id m n k batch priority more named, r), l)))
      | inr other ↦ elim (Option-cases (row_job numbers id m n k batch priority)) [
        | inl refused ↦ absurd (cc (e, other, refused))
        | inr (job, read) ↦
            let (rest, (q, (r, l))) =
              replay_loop-IsReplay numbers lines (out ++ job ∷ []) jobs
                (sym (rw (replay_loop, other, read) refl) ∙ e) in
            (
              job ∷ rest,
              (
                q ∙ append_assoc out (job ∷ []) rest,
                (
                  inr (
                    job,
                    rest,
                    refl,
                    row_job-Describes numbers id m n k batch priority more job read,
                    r,
                  ),
                  l,
                ),
              ),
            )
      ]
    ]
replay_loop-IsReplay numbers (fields _ ∷ lines) out jobs e = absurd (cc e)

-- Where `parse_replay` returns `true` its vector holds, in the order of the file, one job for each line
-- that is neither skipped nor a header, and at least one: with the number of the first column, the
-- sides M, N and K of the second, third and fourth, the batch of the fifth and the priority of the
-- sixth, as `parse_u64` and `parse_int` read them, which take no text that is not read to its end.
pub parse_replay-rows :
    (numbers : Numbers) (opened : Bool) (lines : List Line) (jobs : List InferenceJob)
    → parse_replay numbers opened lines ≡ accepted jobs
    → IsReplay numbers lines jobs × (0 < length jobs)
unfolding parse_replay
parse_replay-rows numbers true lines jobs e =
    let (rest, (q, (r, l))) = replay_loop-IsReplay numbers lines [] jobs e in
    (subst (IsReplay numbers lines) (sym q) r, l)
parse_replay-rows numbers false lines jobs e = absurd (cc e)
