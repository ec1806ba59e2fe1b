-- ===== src/MutexSum/Inv.antt =====
-- Lab02/code/concurrent_threads.c: the semaphore excludes, so that no addition is lost.
use esercitazioni_sistemi_di.Base.{
  ℕ, ◌+◌, ◌*◌, ◌%◌, ◌≤◌, ◌<◌, ◌≡◌, refl, sym, ap, ◌∙◌, subst, Option, none, some, List, [], ◌∷◌,
  set, get_elem?, length, length-set, length-replicate, arith, ltb, tests, if_cases, ◌==◌,
  ℕ_discrete, ◌⊎◌, inl, inr,
}
use esercitazioni_sistemi_di.Base.Threads.{
  total, total-set, weights-le-total, total-replicate, get_elem?-replicate, get_elem?-set,
  get_elem?-set_eq,
}
use native.Mathlib.Nat.{add-mul, one-mul, zero-mul}
use esercitazioni_sistemi_di.MutexSum.{
  word_size, Memory, Place, head, wait_sem, load, save, post_sem, ended, Thread, thread_at, System,
  move, step, run, init,
}

-- 1 from the wait to the post
abbrev pub inside : Thread → ℕ
inside t = elim t.place [
  | head ↦ 0
  | wait_sem ↦ 0
  | load ↦ 1
  | save x ↦ 1
  | post_sem ↦ 1
  | ended ↦ 0
]

-- the additions that a thread has made
abbrev pub added : Thread → ℕ
added t = elim t.place [
  | head ↦ t.i
  | wait_sem ↦ t.i
  | load ↦ t.i
  | save x ↦ t.i
  | post_sem ↦ t.i + 1
  | ended ↦ t.i
]

-- What a thread knows at its place.
abbrev pub Local : ℕ → Memory → Place → ℕ → Type 0
Local m mem head i = i ≤ m
Local m mem wait_sem i = i < m
Local m mem load i = i < m
Local m mem (save x) i = (i < m) × (x ≡ mem.shared)
Local m mem post_sem i = i < m
Local m mem ended i = i ≡ m

-- One step: the weights that it moves, and what the thread knows then.
pub record IsMove (m v : ℕ) (mem mem' : Memory) (t t' : Thread) : Type 0 where
  pub excl : mem'.sem + inside t' ≡ mem.sem + inside t
  pub sum :
      ((mem'.shared ≡ mem.shared) × (added t' ≡ added t))
      ⊎ ((mem'.shared ≡ (mem.shared + v) % word_size) × (added t' ≡ added t + 1) × (inside t ≡ 1))
  pub know : Local m mem' t'.place t'.i

thread_at-IsMove :
    (m v : ℕ) (pc : Place) (i : ℕ) (mem : Memory)
    → Local m mem pc i
    → (let (mem', t') = thread_at m v pc i mem in
        IsMove m v mem mem' (record { place = pc; i = i }) t')
unfolding thread_at
thread_at-IsMove m v head i mem h =
    if_cases
      (λ (pc : Place).
        IsMove m v mem mem (record { place = head; i = i }) (record { place = pc; i = i }))
      (ltb i m) _ _ (λ lt. record { excl = refl; sum = inl (refl, refl); know = omega tests })
      (λ ge. record { excl = refl; sum = inl (refl, refl); know = ground arith })
thread_at-IsMove m v wait_sem i mem h =
    if_cases (λ (r : Memory × Thread). IsMove m v mem r.0 (record { place = wait_sem; i = i }) r.1)
      (mem.sem == 0) _ _ (λ e. record { excl = refl; sum = inl (refl, refl); know = h })
      (λ ne. record { excl = ground arith; sum = inl (refl, refl); know = h })
thread_at-IsMove m v load i mem h = record { excl = refl; sum = inl (refl, refl); know = (h, refl) }
thread_at-IsMove m v (save x) i mem h = record {
  excl = refl;
  sum = inr (ap (λ y. (y + v) % word_size) h.1, refl, refl);
  know = h.0;
}
thread_at-IsMove m v post_sem i mem h = record {
  excl = omega arith;
  sum = inl (refl, refl);
  know = omega arith;
}
thread_at-IsMove m v ended i mem h = record { excl = refl; sum = inl (refl, refl); know = h }

Local-other :
    (m : ℕ) (mem mem' : Memory) (pc : Place) (i : ℕ)
    → Local m mem pc i
    → (mem'.shared ≡ mem.shared) ⊎ (inside (record { place = pc; i = i }) ≡ 0)
    → Local m mem' pc i
Local-other m mem mem' head i h e = h
Local-other m mem mem' wait_sem i h e = h
Local-other m mem mem' load i h e = h
Local-other m mem mem' (save x) i h (inl e) = (h.0, h.1 ∙ sym e)
Local-other m mem mem' (save x) i h (inr e) = absurd (omega arith)
Local-other m mem mem' post_sem i h e = h
Local-other m mem mem' ended i h e = h

pub record IsSum (n m v : ℕ) (s : System) : Type 0 where
  pub count : length s.threads ≡ n
  pub excl : s.mem.sem + total inside s.threads ≡ 1
  pub sum : s.mem.shared ≡ (total added s.threads * v) % word_size
  pub know : (k : ℕ) (t : Thread) → get_elem? s.threads k ≡ some t → Local m s.mem t.place t.i

sum_next :
    (v shared total' total'' : ℕ)
    → shared ≡ (total' * v) % word_size
    → total'' ≡ total' + 1
    → (shared + v) % word_size ≡ (total'' * v) % word_size
sum_next v shared a b e f =
    let more : b * v ≡ a * v + v =
      ap (λ k. k * v) f ∙ add-mul a 1 v ∙ ap (λ k. a * v + k) (one-mul v) in
    omega arith

move-IsSum :
    (n m v k : ℕ) (s : System) (t : Thread) (mem' : Memory) (t' : Thread)
    → IsSum n m v s
    → get_elem? s.threads k ≡ some t
    → IsMove m v s.mem mem' t t'
    → IsSum n m v (record { mem = mem'; threads = set s.threads k t' })
move-IsSum n m v k s t mem' t' inv h mv = record {
  count = length-set s.threads k t' ∙ inv.count;
  excl = omega (arith, inv.excl, mv.excl, total-set inside s.threads k t t' h);
  sum = elim mv.sum [
    | inl (same, added_same) ↦
        same
        ∙ inv.sum
        ∙ ap (λ a. (a * v) % word_size) {x = total added s.threads}
            {y = total added (set s.threads k t')}
            (omega (arith, total-set added s.threads k t t' h))
    | inr (more, added_more, _) ↦
        more
        ∙ sum_next v s.mem.shared (total added s.threads) (total added (set s.threads k t')) inv.sum
            (omega (arith, total-set added s.threads k t t' h))
  ];
  know = λ j u g. elim (ℕ_discrete k j) [
    | yes e ↦
        subst (λ (w : Thread). Local m mem' w.place w.i)
          (sym (get_elem?-set_eq s.threads k j t' u g e)) mv.know
    | no ne ↦
        let there = get_elem?-set s.threads k j t' u g ne in
        Local-other m s.mem mem' u.place u.i (inv.know j u there) (elim mv.sum [
          | inl (same, _) ↦ inl same
          | inr (_, _, one_inside) ↦
              inr (omega (arith, inv.excl, weights-le-total inside s.threads k j t u ne h there))
        ])
  ];
}

pub step-IsSum : (n m v : ℕ) (s : System) (k : ℕ) → IsSum n m v s → IsSum n m v (step m v s k)
unfolding step move
step-IsSum n m v s k inv = go (get_elem? s.threads k) refl
  where
    go : (o : Option Thread) → get_elem? s.threads k ≡ o → IsSum n m v (move m v s k o)
    go none e = inv
    go (some t) e =
        let r = thread_at m v t.place t.i s.mem in
        move-IsSum n m v k s t r.0 r.1 inv e
          (thread_at-IsMove m v t.place t.i s.mem (inv.know k t e))

pub run-IsSum : (n m v : ℕ) (s : System) (ks : List ℕ) → IsSum n m v s → IsSum n m v (run m v s ks)
unfolding run
run-IsSum n m v s [] inv = inv
run-IsSum n m v s (k ∷ ks) inv = run-IsSum n m v (step m v s k) ks (step-IsSum n m v s k inv)

pub init-IsSum : (n m v : ℕ) → IsSum n m v (init n)
init-IsSum n m v =
    let first : Thread = record { place = head; i = 0 } in
    record {
      count = length-replicate n first;
      excl = omega (arith, total-replicate inside n first refl);
      sum = sym (
          ap (λ a. (a * v) % word_size) (total-replicate added n first refl)
          ∙ ap (λ a. a % word_size) (zero-mul v));
      know = λ k t g.
          subst (λ (w : Thread). Local m (init n).mem w.place w.i)
            (sym (get_elem?-replicate n k first t g)) (omega arith);
    }
