-- ===== src/ProdCons/Safety.antt =====
-- What holds in every state that producer_consumer_n_m.c can reach.
use esercitazioni_sistemi_di.Base.{
  ℕ, ◌*◌, ◌≤◌, ◌≡◌, ◌≢◌, sym, ap, ◌∙◌, true, some, List, [], ◌++◌, arith, get_elem?, length,
  length-append, take, append-nil, nil_of_length, ℕ_discrete, Bool-cases, inl, inr,
}
use esercitazioni_sistemi_di.Base.Int.{ℤ, pos, ◌+ℤ◌, sum}
use esercitazioni_sistemi_di.Base.Threads.{
  total, weight-le-total, weights-le-total, total-eq-zero, all_threads_elim,
}
use esercitazioni_sistemi_di.ProdCons.{
  Producer, Consumer, System, Turn, run, init, final_deposit, all_ended, buffer_size,
  initial_deposit, producer_ended, consumer_ended,
}
use esercitazioni_sistemi_di.ProdCons.Counts.{
  producer_inside, producer_claims, consumer_inside, consumer_claims, consumer_added,
}
use esercitazioni_sistemi_di.ProdCons.History.{all_put, all_taken}
use esercitazioni_sistemi_di.ProdCons.Inv.{added-le-inside}
use esercitazioni_sistemi_di.ProdCons.Fifo.{run-Queued}
use esercitazioni_sistemi_di.ProdCons.Work.{to_put, to_take, run-Work}

-- In every run the values taken out of the buffer are the first of those put in it, in their
-- order: none is lost, invented, repeated or overtaken. At most 128 wait in between.
pub fifo :
    (ts : List Turn)
    → (rest : List ℤ) × (all_put init ts ≡ all_taken init ts ++ rest) × (length rest ≤ buffer_size)
fifo ts = let (rest, split, v) = run-Queued ts in (rest, split, omega (arith, v.counts.free))

-- Two producers are never between their wait and their post of `write_s` together.
pub producers_exclusive :
    (ts : List Turn) (i j : ℕ) (p q : Producer)
    → get_elem? (run init ts).producers i ≡ some p
    → get_elem? (run init ts).producers j ≡ some q
    → producer_inside p ≡ 1
    → producer_inside q ≡ 1
    → i ≡ j
producers_exclusive ts i j p q h k a b =
    let (rest, split, v) = run-Queued ts in
    elim (ℕ_discrete i j) [
      | yes e ↦ e
      | no ne ↦ absurd (
          omega (
            arith,
            v.counts.write_mutex,
            weights-le-total producer_inside (run init ts).producers i j p q ne h k,
          ))
    ]

-- Two consumers are never between their wait and their post of `read_s` together.
pub consumers_exclusive :
    (ts : List Turn) (i j : ℕ) (c d : Consumer)
    → get_elem? (run init ts).consumers i ≡ some c
    → get_elem? (run init ts).consumers j ≡ some d
    → consumer_inside c ≡ 1
    → consumer_inside d ≡ 1
    → i ≡ j
consumers_exclusive ts i j c d h k a b =
    let (rest, split, v) = run-Queued ts in
    elim (ℕ_discrete i j) [
      | yes e ↦ e
      | no ne ↦ absurd (
          omega (
            arith,
            v.counts.read_mutex,
            weights-le-total consumer_inside (run init ts).consumers i j c d ne h k,
          ))
    ]

-- A producer and a consumer may be inside at the same time, under different mutexes, but never at
-- the same slot.
pub different_slots :
    (ts : List Turn) (i j : ℕ) (p : Producer) (c : Consumer)
    → get_elem? (run init ts).producers i ≡ some p
    → get_elem? (run init ts).consumers j ≡ some c
    → producer_claims p ≡ 1
    → consumer_claims c ≡ 1
    → (run init ts).mem.write_index ≢ (run init ts).mem.read_index
different_slots ts i j p c h k a b =
    let (rest, split, v) = run-Queued ts in
    omega (
      arith,
      v.counts.free,
      v.counts.full,
      v.holds.write_at,
      v.holds.read_in,
      weight-le-total producer_claims (run init ts).producers i p h,
      weight-le-total consumer_claims (run init ts).consumers j c k,
    )

-- While no consumer is in its critical section the deposit is the initial one and all that has
-- been taken out of the buffer.
pub deposit_exact :
    (ts : List Turn)
    → (run init ts).mem.read_s ≡ 1
    → (run init ts).mem.deposit ≡ initial_deposit +ℤ sum (all_taken init ts)
unfolding ◌+ℤ◌ sum
deposit_exact ts free =
    let (rest, split, v) = run-Queued ts in
    let quiet : total consumer_added (run init ts).consumers ≡ 0 =
      omega (arith, v.counts.read_mutex, added-le-inside (run init ts).consumers) in
    v.balance
    ∙ ap (λ k. initial_deposit +ℤ sum (all_taken init ts) +ℤ sum (take k rest)) quiet
    ∙ ground arith

module _ (ts : List Turn) (ended : all_ended (run init ts) ≡ true) where
  abbrev last : System
  last = run init ts

  -- Ended threads have nothing left to do and are in no critical section.
  producer_done : (i : ℕ) (p : Producer) → get_elem? last.producers i ≡ some p → to_put p ≡ 0
  unfolding all_ended
  producer_done i p g = ground (
    arith,
    (run-Work ts).producers_work i p g,
    all_threads_elim producer_ended last.producers (ground arith) i p g,
  )

  consumer_done :
      (i : ℕ) (c : Consumer)
      → get_elem? last.consumers i ≡ some c
      → (to_take c ≡ 0) × (consumer_inside c ≡ 0)
  unfolding all_ended
  consumer_done i c g = ground (
    arith,
    (run-Work ts).consumers_work i c g,
    all_threads_elim consumer_ended last.consumers (ground arith) i c g,
  )

  all_done : (length (all_put init ts) ≡ 400) × (length (all_taken init ts) ≡ 400)
  all_done = (
    omega (arith, (run-Work ts).left_to_put, total-eq-zero to_put last.producers producer_done),
    omega (
      arith,
      (run-Work ts).left_to_take,
      total-eq-zero to_take last.consumers (λ i c g. (consumer_done i c g).0),
    ),
  )

  read_free : last.mem.read_s ≡ 1
  read_free =
      let (rest, split, v) = run-Queued ts in
      omega (
        arith,
        v.counts.read_mutex,
        total-eq-zero consumer_inside last.consumers (λ i c g. (consumer_done i c g).1),
      )

  -- When all threads have ended everything that was put in the buffer has been taken out.
  all_taken-eq-all_put : all_taken init ts ≡ all_put init ts
  all_taken-eq-all_put =
      let (rest, split, v) = run-Queued ts in
      let none_left : rest ≡ [] =
        nil_of_length rest
          (omega (arith, all_done, ap length split, length-append (all_taken init ts) rest)) in
      sym (split ∙ ap (λ l. all_taken init ts ++ l) none_left ∙ append-nil (all_taken init ts))

  deposit_at_end : last.mem.deposit ≡ pos 1800
  unfolding ◌+ℤ◌
  deposit_at_end =
      deposit_exact ts read_free
      ∙ ap (λ l. initial_deposit +ℤ sum l) all_taken-eq-all_put
      ∙ ap (λ x. initial_deposit +ℤ x) (run-Work ts).twos
      ∙ ap (λ k. initial_deposit +ℤ pos (2 * k)) all_done.0

-- When `main` has joined all threads it prints 1800, whatever the schedule was.
pub final_deposit_lem :
    (ts : List Turn) (d : ℤ) → final_deposit (run init ts) ≡ some d → d ≡ pos 1800
unfolding final_deposit
final_deposit_lem ts d h = elim (Bool-cases (all_ended (run init ts))) [
  | inl e ↦ ground (arith, deposit_at_end ts e)
  | inr e ↦ ground arith
]
