-- ===== src/LocalSums/Joins.antt =====
-- Lab01/code/concurrent_threads.c: the threads end, so that `main` can join them.
use esercitazioni_sistemi_di.Base.{
  ℕ, zero, suc, ◌+◌, ◌-◌, ◌≤◌, ◌≡◌, refl, ap, ◌∙◌, true, ◌&&◌, List, [], ◌∷◌, ◌++◌, map, replicate,
  arith, if◌then◌else◌,
}
use esercitazioni_sistemi_di.LocalSums.{Thread, thread_work, step, run, start, all_ended}

abbrev turns : ℕ → ℕ → ℕ → Thread → Thread
turns m v zero t = t
turns m v (suc k) t = turns m v k (thread_work m v t)

-- The steps that a thread has left.
abbrev left : ℕ → Thread → ℕ
left m t = if t.ended then 0 else (m - t.i) + 1

thread_work-left :
    (m v : ℕ) (t : Thread) (k : ℕ) → left m t ≤ suc k → left m (thread_work m v t) ≤ k
unfolding thread_work
thread_work-left m v t k h = ground arith

turns-ended : (m v k : ℕ) (t : Thread) → left m t ≤ k → (turns m v k t).ended ≡ true
turns-ended m v zero t h = ground arith
turns-ended m v (suc k) t h = turns-ended m v k (thread_work m v t) (thread_work-left m v t k h)

run-first :
    (m v k : ℕ) (t : Thread) (ts : List Thread)
    → run m v (replicate k 0) (t ∷ ts) ≡ turns m v k t ∷ ts
unfolding run step
run-first m v zero t ts = refl
run-first m v (suc k) t ts = run-first m v k (thread_work m v t) ts

run-others :
    (m v : ℕ) (ks : List ℕ) (t : Thread) (ts : List Thread)
    → run m v (map suc ks) (t ∷ ts) ≡ t ∷ run m v ks ts
unfolding run step
run-others m v [] t ts = refl
run-others m v (k ∷ ks) t ts = run-others m v ks t (step m v k ts)

run-append :
    (m v : ℕ) (ks ls : List ℕ) (ts : List Thread)
    → run m v (ks ++ ls) ts ≡ run m v ls (run m v ks ts)
unfolding run
run-append m v [] ls ts = refl
run-append m v (k ∷ ks) ls ts = run-append m v ks ls (step m v k ts)

finish : (m v : ℕ) (ts : List Thread) → (ks : List ℕ) × (all_ended (run m v ks ts) ≡ true)
unfolding run
finish m v [] = ([], refl)
finish m v (t ∷ ts) =
    let (ks, e) = finish m v ts in
    let done = turns-ended m v (left m t) t (omega arith) in
    (
      replicate (left m t) 0 ++ map suc ks,
      ap all_ended (
            run-append m v (replicate (left m t) 0) (map suc ks) (t ∷ ts)
            ∙ ap (λ us. run m v (map suc ks) us) (run-first m v (left m t) t ts)
            ∙ run-others m v ks (turns m v (left m t) t) ts)
          ∙ ap (λ b. b && all_ended (run m v ks ts)) done
          ∙ e,
    )

-- Whatever the threads have done so far, they can go on so that all have returned and `main` joins
-- them.
pub can_join :
    (n m v : ℕ) (ks : List ℕ)
    → (ls : List ℕ) × (all_ended (run m v ls (run m v ks (start n))) ≡ true)
can_join n m v ks = finish m v (run m v ks (start n))
