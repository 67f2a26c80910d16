-- ===== src/Overlap/Checked.antt =====
-- The sequences of bench/bench_overlap.cpp pass the check of `Stream.Facts`.
use gpu_batch_inference_sche.Common.{
  ℕ, suc, ◌<◌, ◌≡◌, refl, sym, ap, subst, ◌∙◌, ◌⊎◌, inl, inr, List, [], ◌∷◌, ◌++◌,
}
use gpu_batch_inference_sche.Stream.{
  copy_a, copy_b, run_kernel, copy_c, Command, work, record_event, await_event, Action,
}
use gpu_batch_inference_sche.Stream.Facts.{
  Fact, loaded_a, loaded_b, computed, stamped, Knowledge, Within, Checks, After,
}
use gpu_batch_inference_sche.Stream.Keeps.{After-start}
use gpu_batch_inference_sche.Overlap.{single_job, overlap_job}
use gpu_batch_inference_sche.Overlap.Account.{
  Given, Finished, Returned, promise, Counts, Waits, Finished-next, six,
}
use gpu_batch_inference_sche.Stream.Counting.{CountedTo-next, stamp}

module _ (n : ℕ) (known : Knowledge) where
  abbrev pub Ok : (ℕ → Knowledge) → (ℕ → ℕ → ℕ) → List Action → Type 0
  Ok tails issued program = Checks (promise n) (Returned n) known tails issued program

  pub single_job-Ok :
      (i : ℕ) (tails : ℕ → Knowledge) (issued : ℕ → ℕ → ℕ) (rest : List Action)
      → i < n
      → Within (Given n) (tails 0)
      → Within (Finished i) (tails 0)
      → Counts i issued
      → ((tails' : ℕ → Knowledge) (issued' : ℕ → ℕ → ℕ)
          → Within (Given n) (tails' 0)
          → Within (Finished (suc i)) (tails' 0)
          → Counts (suc i) issued'
          → Ok tails' issued' rest)
      → Ok tails issued (single_job i ++ rest)
  single_job-Ok i tails issued rest p g h c k =
      let ran : List Command =
        record_event 0 i (suc (issued 0 i))
        ∷ work (copy_a i)
        ∷ work (copy_b i)
        ∷ record_event 1 i (suc (issued 1 i))
        ∷ record_event 2 i (suc (issued 2 i))
        ∷ work (run_kernel i)
        ∷ record_event 3 i (suc (issued 3 i))
        ∷ record_event 4 i (suc (issued 4 i))
        ∷ work (copy_c i)
        ∷ record_event 5 i (suc (issued 5 i))
        ∷ [] in
      let left : Knowledge = After (promise n) (tails 0) ran in
      let grown : Within (tails 0) left = After-start (promise n) ran (tails 0) in
      (
        (λ φ. elim [ ]),
        (
          (λ φ e. inl (g φ (i, p, inl e))),
          (
            (λ φ e. inl (inl (g φ (i, p, inr e)))),
            (
              (λ φ. elim [ ]),
              (
                (λ φ. elim [ ]),
                (
                  (λ φ. elim [ inl e ↦ inl (inl (inl (inr e))) | inr e ↦ inl (inl (inr e)) ]),
                  (
                    (λ φ. elim [ ]),
                    (
                      (λ φ. elim [ ]),
                      (
                        (λ φ e. inl (inl (inr e))),
                        (
                          (λ φ. elim [ ]),
                          k _ _ (λ φ x. grown φ (g φ x))
                              (Finished-next i (tails 0) left h grown (inl (inr refl)) (
                                six left i
                                  (inl (
                                    inl (
                                      inl (
                                        inl (
                                          inl (
                                            inl (
                                              inl (
                                                inl
                                                  (inl (inr (stamp 0 i (issued 0) c.at_c0)))))))))))
                                  (inl (
                                    inl
                                      (inl (inl (inl (inl (inr (stamp 1 i (issued 1) c.at_c1))))))))
                                  (inl (inl (inl (inl (inl (inr (stamp 2 i (issued 2) c.at_k0)))))))
                                  (inl (inl (inl (inr (stamp 3 i (issued 3) c.at_k1)))))
                                  (inl (inl (inr (stamp 4 i (issued 4) c.at_d0))))
                                  (inr (stamp 5 i (issued 5) c.at_d1))))
                              record {
                                at_c0 = CountedTo-next i (issued 0) c.at_c0;
                                at_c1 = CountedTo-next i (issued 1) c.at_c1;
                                at_k0 = CountedTo-next i (issued 2) c.at_k0;
                                at_k1 = CountedTo-next i (issued 3) c.at_k1;
                                at_d0 = CountedTo-next i (issued 4) c.at_d0;
                                at_d1 = CountedTo-next i (issued 5) c.at_d1;
                                at_start = c.at_start;
                              },
                        ),
                      ),
                    ),
                  ),
                ),
              ),
            ),
          ),
        ),
      )

  pub overlap_job-Ok :
      (i : ℕ) (tails : ℕ → Knowledge) (issued : ℕ → ℕ → ℕ) (rest : List Action)
      → i < n
      → Within (Given n) (tails 0)
      → Within (Finished i) (tails 0)
      → Waits i issued
      → ((tails' : ℕ → Knowledge) (issued' : ℕ → ℕ → ℕ)
          → Within (Given n) (tails' 0)
          → Within (Finished (suc i)) (tails' 0)
          → Waits (suc i) issued'
          → Ok tails' issued' rest)
      → Ok tails issued (overlap_job i ++ rest)
  overlap_job-Ok i tails issued rest p g h c k =
      let ran : List Command =
        record_event 0 i (suc (issued 0 i))
        ∷ work (copy_a i)
        ∷ work (copy_b i)
        ∷ record_event 1 i (suc (issued 1 i))
        ∷ record_event 8 0 (suc (issued 8 0))
        ∷ await_event 9 0 (suc (issued 9 0))
        ∷ record_event 4 i (suc (issued 4 i))
        ∷ work (copy_c i)
        ∷ record_event 5 i (suc (issued 5 i))
        ∷ [] in
      let left : Knowledge = After (promise n) (tails 0) ran in
      let grown : Within (tails 0) left = After-start (promise n) ran (tails 0) in
      let h8 = c.at_h2d in
      let h9 = c.at_kern in
      let waited_kern : (φ : Fact)
          → (φ ≡ computed i) ⊎ ((φ ≡ stamped 2 i 1) ⊎ (φ ≡ stamped 3 i 1))
          → promise n 9 0 (suc (issued 9 0)) φ =
        subst
          (λ x.
            (φ : Fact)
            → (φ ≡ computed i) ⊎ ((φ ≡ stamped 2 i 1) ⊎ (φ ≡ stamped 3 i 1))
            → promise n 9 0 (suc x) φ)
          (sym h9) (λ φ w. w) in
      (
        (λ φ. elim [ ]),
        (
          (λ φ e. inl (g φ (i, p, inl e))),
          (
            (λ φ e. inl (inl (g φ (i, p, inr e)))),
            (
              (λ φ. elim [ ]),
              (
                (λ φ. elim [
                  | inl e ↦ inl (inl (inr (e ∙ ap loaded_a h8)))
                  | inr e ↦ inl (inr (e ∙ ap loaded_b h8))
                ]),
                (
                  (λ φ. elim [ ]),
                  (
                    (λ φ. elim [
                      | inl e ↦ inl (inr (inl (inl (e ∙ ap loaded_a (sym h8)))))
                      | inr e ↦ inl (inr (inl (inr (e ∙ ap loaded_b (sym h8)))))
                    ]),
                    (
                      (λ φ. elim [ ]),
                      (
                        (λ φ. elim [
                          | inl e ↦ inl (inr (e ∙ ap computed h9))
                          | inr (inl e) ↦ inl (
                              inl (
                                inr
                                  (e ∙ ap (λ x. stamped 2 x 1) h9 ∙ stamp 2 i (issued 2) c.at_k0)))
                          | inr (inr e) ↦
                              inr (e ∙ ap (λ x. stamped 3 x 1) h9 ∙ stamp 3 i (issued 3) c.at_k1)
                        ]),
                        (
                          (λ φ. elim [ ]),
                          (
                            (λ φ e. inl (inr (inl (waited_kern φ (inl e))))),
                            (
                              (λ φ. elim [ ]),
                              k _ _ (λ φ x. grown φ (g φ x))
                                  (Finished-next i (tails 0) left h grown (inl (inr refl)) (
                                    six left i
                                      (inl (
                                        inl (
                                          inl (
                                            inl (
                                              inl (
                                                inl (
                                                  inl (
                                                    inl (inr (stamp 0 i (issued 0) c.at_c0))))))))))
                                      (inl (
                                        inl (inl (inl (inl (inr (stamp 1 i (issued 1) c.at_c1)))))))
                                      (inl (inl (inl (inr (inl (waited_kern _ (inr (inl refl))))))))
                                      (inl (inl (inl (inr (inl (waited_kern _ (inr (inr refl))))))))
                                      (inl (inl (inr (stamp 4 i (issued 4) c.at_d0))))
                                      (inr (stamp 5 i (issued 5) c.at_d1))))
                                  record {
                                    at_c0 = CountedTo-next i (issued 0) c.at_c0;
                                    at_c1 = CountedTo-next i (issued 1) c.at_c1;
                                    at_k0 = CountedTo-next i (issued 2) c.at_k0;
                                    at_k1 = CountedTo-next i (issued 3) c.at_k1;
                                    at_d0 = CountedTo-next i (issued 4) c.at_d0;
                                    at_d1 = CountedTo-next i (issued 5) c.at_d1;
                                    at_start = c.at_start;
                                    at_h2d = ap suc h8;
                                    at_kern = ap suc h9;
                                  },
                            ),
                          ),
                        ),
                      ),
                    ),
                  ),
                ),
              ),
            ),
          ),
        ),
      )
