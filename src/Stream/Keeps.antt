-- ===== src/Stream/Keeps.antt =====
-- What a stream finds and leaves, as more becomes known, and what one command keeps and gives.
use gpu_batch_inference_sche.Common.{
  ◌⊎◌, inl, inr, ◌<◌, suc, ℕ, ◌≡◌, refl, sym, subst, inl, inr, List, [], ◌∷◌, ◌++◌, true, ◌==◌,
  if◌then◌else◌, arith, Bool-cases,
}
use gpu_batch_inference_sche.Stream.{
  Jobs, Command, work, copy_a, copy_b, run_kernel, copy_c, record_event, await_event, put, Done,
  Memory, effect, mark, ready, product,
}
use gpu_batch_inference_sche.Stream.Facts.{
  filled_a, filled_b, loaded_a, loaded_b, computed, copied, stamped, Knowledge, Both, Within, Holds,
  Needs, Gives, After, Runs,
}

-- Two bodies of knowledge that both follow.
pub Both-Within : (p q r : Knowledge) → Within p r → Within q r → Within (Both p q) r
Both-Within p q r h k φ (inl x) = h φ x
Both-Within p q r h k φ (inr y) = k φ y

module _ (promise : (array i generation : ℕ) → Knowledge) where
  pub Both-mono : (p p' q : Knowledge) → Within p p' → Within (Both p q) (Both p' q)
  Both-mono p p' q h φ (inl x) = inl (h φ x)
  Both-mono p p' q h φ (inr y) = inr y

  pub After-mono :
      (q : List Command) (p p' : Knowledge)
      → Within p p'
      → Within (After promise p q) (After promise p' q)
  After-mono [] p p' h = h
  After-mono (c ∷ q) p p' h = After-mono q _ _ (Both-mono p p' (Gives promise c) h)

  pub Runs-mono :
      (q : List Command) (p p' : Knowledge) → Within p p' → Runs promise p q → Runs promise p' q
  Runs-mono [] p p' h r = tt
  Runs-mono (c ∷ q) p p' h r =
      ((λ φ n. h φ (r.0 φ n)), Runs-mono q _ _ (Both-mono p p' (Gives promise c) h) r.1)

  -- One more command at the end of a stream.
  pub After-snoc :
      (q : List Command) (c : Command) (p : Knowledge)
      → Within (Both (After promise p q) (Gives promise c)) (After promise p (q ++ c ∷ []))
  After-snoc [] c p φ h = h
  After-snoc (d ∷ q) c p φ h = After-snoc q c (Both p (Gives promise d)) φ h

  pub Runs-snoc :
      (q : List Command) (c : Command) (p : Knowledge)
      → Runs promise p q
      → Within (Needs promise c) (After promise p q)
      → Runs promise p (q ++ c ∷ [])
  Runs-snoc [] c p r n = (n, tt)
  Runs-snoc (d ∷ q) c p r n = (r.0, Runs-snoc q c (Both p (Gives promise d)) r.1 n)

module _ (promise : (array i generation : ℕ) → Knowledge) (j : Jobs) where
  -- No command destroys what is right.
  pub effect-keeps :
      (c : Command) (m : Memory j) (done : Done)
      → Within (Needs promise c) (Holds j m done)
      → Within (Holds j m done) (Holds j (effect j c m) (mark c done))
  unfolding effect mark product
  effect-keeps (work (copy_a i)) m done n (loaded_a k) h =
      let have = n (filled_a i) refl in ground arith
  effect-keeps (work (copy_b i)) m done n (loaded_b k) h =
      let have = n (filled_b i) refl in ground arith
  effect-keeps (work (run_kernel i)) m done n (computed k) h =
      let have_a = n (loaded_a i) (inl refl) in
      let have_b = n (loaded_b i) (inr refl) in ground arith
  effect-keeps (work (copy_c i)) m done n (copied k) h =
      let have = n (computed i) refl in ground arith
  effect-keeps (record_event a i g) m done n (stamped b k f) h = ground arith
  effect-keeps c m done n φ h = ground arith

  -- A command does what it is for.
  pub effect-gives :
      (c : Command) (m : Memory j) (done : Done)
      → Within (Needs promise c) (Holds j m done)
      → ((array i generation : ℕ)
          → done array i generation ≡ true
          → Within (promise array i generation) (Holds j m done))
      → ready c done ≡ true
      → Within (Gives promise c) (Holds j (effect j c m) (mark c done))
  unfolding effect mark product ready
  effect-gives (work (copy_a i)) m done n kept r φ g =
      let P : Knowledge = Holds j (effect j (work (copy_a i)) m) (mark (work (copy_a i)) done) in
      let have = n (filled_a i) refl in
      let right : P (loaded_a i) = ground arith in subst P (sym g) right
  effect-gives (work (copy_b i)) m done n kept r φ g =
      let P : Knowledge = Holds j (effect j (work (copy_b i)) m) (mark (work (copy_b i)) done) in
      let have = n (filled_b i) refl in
      let right : P (loaded_b i) = ground arith in subst P (sym g) right
  effect-gives (work (run_kernel i)) m done n kept r φ g =
      let P : Knowledge =
        Holds j (effect j (work (run_kernel i)) m) (mark (work (run_kernel i)) done) in
      let have_a = n (loaded_a i) (inl refl) in
      let have_b = n (loaded_b i) (inr refl) in
      let right : P (computed i) = ground arith in subst P (sym g) right
  effect-gives (work (copy_c i)) m done n kept r φ g =
      let P : Knowledge = Holds j (effect j (work (copy_c i)) m) (mark (work (copy_c i)) done) in
      let have = n (computed i) refl in
      let right : P (copied i) = ground arith in subst P (sym g) right
  effect-gives (record_event a i k) m done n kept r φ g =
      let P : Knowledge = Holds j m (mark (record_event a i k) done) in
      let right : P (stamped a i k) = ground arith in subst P (sym g) right
  effect-gives (await_event a i k) m done n kept r φ (inl g) = kept a i k r φ g
  effect-gives (await_event a i k) m done n kept r φ (inr g) = subst (Holds j m done) (sym g) r

pub ==-same : (a b : ℕ) → a == b ≡ true → a ≡ b
==-same a b e = ground arith

-- A family that holds of each value of a function, after one is replaced.
pub put-all :
    {A : Type 0} (Q : ℕ → A → Type 0) (k : ℕ) (v : A) (f : ℕ → A)
    → Q k v
    → ((s : ℕ) → Q s (f s))
    → (s : ℕ) → Q s (put k v f s)
put-all Q k v f q h s = elim (Bool-cases (s == k)) [
  | inl t ↦
      subst (λ b. Q s (if b then v else f s)) (sym t) (subst (λ i. Q i v) (sym (==-same s k t)) q)
  | inr t ↦ subst (λ b. Q s (if b then v else f s)) (sym t) (h s)
]

-- A relation of the values of two functions, after one of each is replaced at the same place.
pub put-both {ℓ} :
    {A : Type ℓ} {B : Type 0} (Q : A → B → Type 0) (k : ℕ) (v : A) (w : B) (f : ℕ → A) (g : ℕ → B)
    → Q v w
    → ((s : ℕ) → Q (f s) (g s))
    → (s : ℕ) → Q (put k v f s) (put k w g s)
put-both Q k v w f g q h s = elim (Bool-cases (s == k)) [
  | inl t ↦ subst (λ b. Q (if b then v else f s) (if b then w else g s)) (sym t) q
  | inr t ↦ subst (λ b. Q (if b then v else f s) (if b then w else g s)) (sym t) (h s)
]

-- Whatever was known at the start of a stream is known at its end.
pub After-start :
    (promise : (array i generation : ℕ) → Knowledge) (q : List Command) (p : Knowledge)
    → Within p (After promise p q)
After-start promise [] p φ h = h
After-start promise (c ∷ q) p φ h = After-start promise q (Both p (Gives promise c)) φ (inl h)

pub last : (l i : ℕ) → l < suc i → (l < i) ⊎ (l ≡ i)
last l i h = ground arith
