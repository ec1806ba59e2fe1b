-- ===== src/LocalSums/Sums.antt =====
-- Lab01/code/concurrent_threads.c: no addition is lost.
use esercitazioni_sistemi_di.Base.{
  ℕ, zero, suc, ◌+◌, ◌*◌, ◌%◌, ◌≤◌, ◌<◌, ◌≡◌, refl, sym, ap, ◌∙◌, true, some, List, [], ◌∷◌, length,
  All, arith, if_cases, ltb, tests, length-replicate, Bool-cases, inl, inr,
}
use native.Mathlib.Nat.{suc-mul, zero-mul}
use esercitazioni_sistemi_di.LocalSums.{
  word_size, Thread, new_thread, thread_work, step, run, start, all_ended, add_cells,
  shared_variable, expected_value,
}

-- A thread has added `v` once in each round, and its cell holds the sum when it has returned.
pub record IsWorking (m v : ℕ) (t : Thread) : Type 0 where
  pub bound : t.i ≤ m
  pub so_far : t.local_sum ≡ t.i * v
  pub stored : t.ended ≡ true → t.cell ≡ m * v

thread_work-IsWorking : (m v : ℕ) (t : Thread) → IsWorking m v t → IsWorking m v (thread_work m v t)
unfolding thread_work
thread_work-IsWorking m v t w =
    if_cases (IsWorking m v) t.ended _ _ (λ _. w)
      (λ live.
        if_cases (IsWorking m v) (ltb t.i m) _ _
          (λ lt. record {
            bound = omega tests;
            so_far =
                ap (λ s. s + v) w.so_far
                ∙ sym (suc-mul t.i v)
                ∙ ap (λ k. k * v) {x = suc t.i} {y = t.i + 1} (omega arith);
            stored = λ e. absurd (ground arith);
          })
          (λ ge. record {
            bound = w.bound;
            so_far = w.so_far;
            stored = λ _. w.so_far ∙ ap (λ k. k * v) {x = t.i} {y = m} (ground (arith, w.bound));
          }))

step-IsWorking :
    (m v k : ℕ) (ts : List Thread) → All (IsWorking m v) ts → All (IsWorking m v) (step m v k ts)
unfolding step
step-IsWorking m v k [] h = tt
step-IsWorking m v zero (t ∷ ts) h = (thread_work-IsWorking m v t h.0, h.1)
step-IsWorking m v (suc k) (t ∷ ts) h = (h.0, step-IsWorking m v k ts h.1)

length-step : (m v k : ℕ) (ts : List Thread) → length (step m v k ts) ≡ length ts
unfolding step
length-step m v k [] = refl
length-step m v zero (t ∷ ts) = refl
length-step m v (suc k) (t ∷ ts) = ap suc (length-step m v k ts)

run-IsWorking :
    (m v : ℕ) (ks : List ℕ) (ts : List Thread)
    → All (IsWorking m v) ts
    → All (IsWorking m v) (run m v ks ts) × (length (run m v ks ts) ≡ length ts)
unfolding run
run-IsWorking m v [] ts h = (h, refl)
run-IsWorking m v (k ∷ ks) ts h =
    let (all, same) = run-IsWorking m v ks (step m v k ts) (step-IsWorking m v k ts h) in
    (all, same ∙ length-step m v k ts)

start-IsWorking : (m v n : ℕ) → All (IsWorking m v) (start n)
start-IsWorking m v zero = tt
start-IsWorking m v (suc n) = (
  record { bound = omega arith; so_far = sym (zero-mul v); stored = λ e. absurd (ground arith) },
  start-IsWorking m v n,
)

add_cells-total :
    (m v : ℕ) (ts : List Thread) (s : ℕ)
    → All (IsWorking m v) ts
    → all_ended ts ≡ true
    → s < word_size
    → add_cells ts s ≡ (s + length ts * (m * v)) % word_size
add_cells-total m v [] s h e b = omega (arith, zero-mul (m * v))
add_cells-total m v (t ∷ ts) s h e b =
    let cell : t.cell ≡ m * v = h.0.stored (ground arith) in
    let rest = add_cells-total m v ts ((s + t.cell) % word_size) h.1 (ground arith) (omega arith) in
    omega (arith, rest, cell, suc-mul (length ts) (m * v))

-- Whatever the interleaving of the threads, what `main` prints as the shared variable is what it
-- says that it should have been. There are at most `N` threads, and the sum of a thread fits an
-- `int`.
pub shared_variable-exact :
    (n m v : ℕ) (ks : List ℕ) (x : ℕ)
    → n ≤ 1000
    → m * v < 2147483648
    → shared_variable (run m v ks (start n)) ≡ some x
    → x ≡ expected_value n m v
unfolding shared_variable
shared_variable-exact n m v ks x n_fits sum_fits h =
    let ts = run m v ks (start n) in
    let (all, same) = run-IsWorking m v ks (start n) (start-IsWorking m v n) in
    let count : length ts ≡ n = same ∙ length-replicate n new_thread in
    elim (Bool-cases (all_ended ts)) [
      | inl e ↦
          let total = add_cells-total m v ts 0 all e (omega arith) in
          let value : expected_value n m v ≡ (0 + length ts * (m * v)) % word_size =
            ap (λ k. (k * (m * v)) % word_size) (sym count)
            ∙ ap (λ k. k % word_size) {x = length ts * (m * v)} {y = 0 + length ts * (m * v)}
                (omega arith) in
          ground arith
      | inr e ↦ ground arith
    ]
