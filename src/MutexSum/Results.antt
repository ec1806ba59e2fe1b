-- ===== src/MutexSum/Results.antt =====
-- Lab02/code/concurrent_threads.c: what the threads come to, under every schedule.
use esercitazioni_sistemi_di.Base.{
  ℕ, zero, suc, ◌+◌, ◌-◌, ◌*◌, ◌%◌, ◌≤◌, ◌<◌, ◌≡◌, refl, sym, ap, subst, ◌∙◌, true, false, not,
  some, List, [], ◌∷◌, set, get_elem?, length, arith, ◌==◌, ℕ_discrete, ◌⊎◌, inl, inr,
}
use esercitazioni_sistemi_di.Base.Threads.{
  total, total-set, weights-le-total, find_thread, total-eq-zero, all_threads_intro,
  all_threads_elim,
}
use native.Mathlib.Nat.{suc-mul, zero-mul}
use esercitazioni_sistemi_di.MutexSum.{
  word_size, Memory, Place, head, wait_sem, load, save, post_sem, ended, Thread, thread_at, System,
  move, step, run, init, has_ended, joined,
}
use esercitazioni_sistemi_di.MutexSum.Inv.{
  inside, added, Local, IsSum, run-IsSum, init-IsSum, step-IsSum,
}

-- Two threads are never between their wait and their post of `my_sem` together.
pub threads_exclusive :
    (n m v : ℕ) (ks : List ℕ) (i j : ℕ) (t u : Thread)
    → get_elem? (run m v (init n) ks).threads i ≡ some t
    → get_elem? (run m v (init n) ks).threads j ≡ some u
    → inside t ≡ 1
    → inside u ≡ 1
    → i ≡ j
threads_exclusive n m v ks i j t u h k a b =
    let inv = run-IsSum n m v (init n) ks (init-IsSum n m v) in
    elim (ℕ_discrete i j) [
      | yes e ↦ e
      | no ne ↦ absurd (
          omega
            (arith, inv.excl, weights-le-total inside (run m v (init n) ks).threads i j t u ne h k))
    ]

total-same :
    (w : Thread → ℕ) (a : ℕ) (ts : List Thread)
    → ((k : ℕ) (t : Thread) → get_elem? ts k ≡ some t → w t ≡ a)
    → total w ts ≡ length ts * a
unfolding total
total-same w a [] h = sym (zero-mul a)
total-same w a (t ∷ ts) h =
    omega (arith, h 0 t refl, total-same w a ts (λ k u g. h (suc k) u g), suc-mul (length ts) a)

ended-added :
    (m : ℕ) (mem : Memory) (pc : Place) (i : ℕ)
    → Local m mem pc i
    → has_ended (record { place = pc; i = i }) ≡ true
    → added (record { place = pc; i = i }) ≡ m
ended-added m mem ended i h e = h
ended-added m mem pc i h e = ground arith

-- Whatever the schedule, when all threads have ended the shared variable is what `main` says that it
-- should have been, as an `unsigned long int`.
pub shared-expected :
    (n m v : ℕ) (ks : List ℕ)
    → joined (run m v (init n) ks) ≡ true
    → (run m v (init n) ks).mem.shared ≡ ((n * m) * v) % word_size
shared-expected n m v ks e =
    let s = run m v (init n) ks in
    let inv = run-IsSum n m v (init n) ks (init-IsSum n m v) in
    inv.sum
    ∙ ap (λ a. (a * v) % word_size)
        (total-same added m s.threads (λ k t g.
            ended-added m s.mem t.place t.i (inv.know k t g)
              (all_threads_elim has_ended s.threads e k t g))
          ∙ ap (λ l. l * m) inv.count)

-- The steps that a thread has left.
abbrev left : ℕ → Thread → ℕ
left m t = elim t.place [
  | head ↦ 5 * (m - t.i) + 1
  | wait_sem ↦ 5 * (m - t.i)
  | load ↦ 5 * (m - t.i) - 1
  | save x ↦ 5 * (m - t.i) - 2
  | post_sem ↦ 5 * (m - t.i) - 3
  | ended ↦ 0
]

thread_at-left :
    (m v : ℕ) (pc : Place) (i : ℕ) (mem : Memory)
    → Local m mem pc i
    → has_ended (record { place = pc; i = i }) ≡ false
    → (inside (record { place = pc; i = i }) ≡ 1) ⊎ (mem.sem ≡ 1)
    → left m (thread_at m v pc i mem).1 < left m (record { place = pc; i = i })
unfolding thread_at
thread_at-left m v head i mem h e free = ground arith
thread_at-left m v wait_sem i mem h e (inl no_) = absurd (omega arith)
thread_at-left m v wait_sem i mem h e (inr one) = ground arith
thread_at-left m v load i mem h e free = omega arith
thread_at-left m v (save x) i mem h e free = omega (arith, h.0)
thread_at-left m v post_sem i mem h e free = omega arith
thread_at-left m v ended i mem h e free = absurd (ground arith)

-- Some thread can move, or all have ended.
abbrev Moves : ℕ → ℕ → System → Type 0
Moves m v s = (k : ℕ) × (total (left m) (step m v s k).threads < total (left m) s.threads)

moves :
    (n m v : ℕ) (s : System) (k : ℕ) (t : Thread)
    → IsSum n m v s
    → get_elem? s.threads k ≡ some t
    → has_ended t ≡ false
    → (inside t ≡ 1) ⊎ (s.mem.sem ≡ 1)
    → Moves m v s
unfolding step move
moves n m v s k t inv h e free =
    let t' = (thread_at m v t.place t.i s.mem).1 in
    let less = thread_at-left m v t.place t.i s.mem (inv.know k t h) e free in
    let fewer : total (left m) (set s.threads k t') < total (left m) s.threads =
      omega (arith, total-set (left m) s.threads k t t' h) in
    (
      k,
      subst (λ o. total (left m) (move m v s k o).threads < total (left m) s.threads) (sym h) fewer,
    )

inside-has_ended : (t : Thread) → inside t ≡ 1 → has_ended t ≡ false
inside-has_ended t h = ground arith

can_move : (n m v : ℕ) (s : System) → IsSum n m v s → (joined s ≡ true) ⊎ Moves m v s
can_move n m v s inv = elim (find_thread (λ t. inside t == 1) s.threads) [
  | inl (k, t, h, e) ↦
      let one : inside t ≡ 1 = ground arith in
      inr (moves n m v s k t inv h (inside-has_ended t one) (inl one))
  | inr none_inside ↦
      let free : total inside s.threads ≡ 0 =
        total-eq-zero inside s.threads (λ k t h. ground (arith, none_inside k t h)) in
      elim (find_thread (λ t. not (has_ended t)) s.threads) [
        | inl (k, t, h, e) ↦
            inr (moves n m v s k t inv h (ground arith) (inr (omega (arith, inv.excl))))
        | inr all ↦ inl (all_threads_intro has_ended s.threads (λ k t h. ground (arith, all k t h)))
      ]
]

finish :
    (n m v fuel : ℕ) (s : System)
    → IsSum n m v s
    → total (left m) s.threads ≤ fuel
    → (ks : List ℕ) × (joined (run m v s ks) ≡ true)
unfolding run
finish n m v zero s inv h = elim (can_move n m v s inv) [
  | inl e ↦ ([], e)
  | inr (k, less) ↦ absurd (omega arith)
]
finish n m v (suc fuel) s inv h = elim (can_move n m v s inv) [
  | inl e ↦ ([], e)
  | inr (k, less) ↦
      let (ks, e) = finish n m v fuel (step m v s k) (step-IsSum n m v s k inv) (omega arith) in
      (k ∷ ks, e)
]

-- No deadlock: whatever the threads have done so far, they can go on so that all end.
pub threads_can_end :
    (n m v : ℕ) (ks : List ℕ) → (ls : List ℕ) × (joined (run m v (run m v (init n) ks) ls) ≡ true)
threads_can_end n m v ks =
    let s = run m v (init n) ks in
    finish n m v (total (left m) s.threads) s (run-IsSum n m v (init n) ks (init-IsSum n m v))
      (omega arith)
