-- ===== src/SingleMutex/Results.antt =====
-- What holds in every state that producer_consumer_1_m.c and producer_consumer_n_1.c can reach.
use esercitazioni_sistemi_di.Base.{
  replicate, ℕ, ◌+◌, ◌*◌, ◌/◌, ◌≤◌, ◌≡◌, sym, ap, ◌∙◌, true, some, List, [], ◌++◌, arith, get_elem?,
  length, length-append, take, append-nil, nil_of_length, Bool-cases, inl, inr,
}
use esercitazioni_sistemi_di.Base.Int.{ℤ, pos, ◌+ℤ◌, sum, int_laws}
use esercitazioni_sistemi_di.Base.Threads.{total, total-eq-zero, all_threads, all_threads_elim}
use esercitazioni_sistemi_di.ProdCons.{
  Producer, Consumer, num_operations, buffer_size, producer_ended, consumer_ended,
}
use esercitazioni_sistemi_di.ProdCons.Counts.{producer_inside, consumer_inside, consumer_added}
use esercitazioni_sistemi_di.ProdCons.Work.{to_put, to_take}
use esercitazioni_sistemi_di.SingleMutex.{Process, Pick, turns, created, joined_deposit}
use esercitazioni_sistemi_di.SingleMutex.Runs.{all_put, all_taken}
use esercitazioni_sistemi_di.SingleMutex.Shares.{puts_below, puts_below-share}
use esercitazioni_sistemi_di.SingleMutex.Reached.{reached-Going}

-- At most one thread, a producer or a consumer, is between its wait and its post of `s`. For any
-- numbers of producers and consumers.
pub one_inside :
    (np nc : ℕ) (ts : List Pick)
    → (let s = turns (created np nc) ts in
        s.mem.s + total producer_inside s.producers + total consumer_inside s.consumers ≡ 1)
one_inside np nc ts =
    let g = reached-Going np nc ts in
    omega (arith, g.inv.split, g.inv.two.counts.write_mutex, g.inv.two.counts.read_mutex)

-- The values taken out of the buffer are the first of those put in it, in their order, and at most 128
-- wait in between.
pub values_in_order :
    (np nc : ℕ) (ts : List Pick)
    → (rest : List ℤ) × (all_put (created np nc) ts ≡ all_taken (created np nc) ts ++ rest)
      × (length rest ≤ buffer_size)
values_in_order np nc ts =
    let g = reached-Going np nc ts in (g.rest, g.order, omega (arith, g.inv.two.counts.free))

module _ (np nc : ℕ) (ts : List Pick)
    (same_ops : (num_operations / nc) * nc ≡ (num_operations / np) * np)
    (ps_ended : all_threads producer_ended (turns (created np nc) ts).producers ≡ true)
    (cs_ended : all_threads consumer_ended (turns (created np nc) ts).consumers ≡ true) where
  abbrev last : Process
  last = turns (created np nc) ts

  abbrev put : List ℤ
  put = all_put (created np nc) ts

  abbrev taken : List ℤ
  taken = all_taken (created np nc) ts

  producer_done : (i : ℕ) (p : Producer) → get_elem? last.producers i ≡ some p → to_put p ≡ 0
  producer_done i p k = ground (
    arith,
    (reached-Going np nc ts).producers_busy i p k,
    all_threads_elim producer_ended last.producers ps_ended i p k,
  )

  consumer_done :
      (i : ℕ) (c : Consumer)
      → get_elem? last.consumers i ≡ some c
      → (to_take c ≡ 0) × (consumer_added c ≡ 0)
  consumer_done i c k = ground (
    arith,
    (reached-Going np nc ts).consumers_busy i c k,
    all_threads_elim consumer_ended last.consumers cs_ended i c k,
  )

  all_put_at_end : length put ≡ (num_operations / np) * np
  all_put_at_end = omega (
    arith,
    (reached-Going np nc ts).left_to_put,
    total-eq-zero to_put last.producers producer_done,
  )

  none_left : (reached-Going np nc ts).rest ≡ []
  none_left =
      let g = reached-Going np nc ts in
      nil_of_length g.rest (
        omega (
          arith,
          all_put_at_end,
          g.left_to_take,
          total-eq-zero to_take last.consumers (λ i c k. (consumer_done i c k).0),
          ap length g.order,
          length-append taken g.rest,
        ))

  taken-eq-put : taken ≡ put
  taken-eq-put =
      sym ((reached-Going np nc ts).order ∙ ap (λ l. taken ++ l) none_left ∙ append-nil taken)

  deposit_at_end : last.mem.deposit ≡ sum put
  unfolding ◌+ℤ◌ sum
  deposit_at_end =
      (reached-Going np nc ts).inv.two.balance
      ∙ ap (λ k. pos 0 +ℤ sum taken +ℤ sum (take k (reached-Going np nc ts).rest))
          (total-eq-zero consumer_added last.consumers (λ i c k. (consumer_done i c k).1))
      ∙ ap (λ l. pos 0 +ℤ sum l +ℤ sum (take 0 (reached-Going np nc ts).rest)) taken-eq-put
      ∙ omega int_laws

-- When `main` has joined all threads, the deposit that it prints is the sum of all the transactions
-- that the producers have put in the buffer, and each of the `np` producers has put its share,
-- NUM_OPERATIONS / `np` of them. The program's own check of its parameters is the hypothesis.
pub joined_deposit_lem :
    (np nc : ℕ) (ts : List Pick) (d : ℤ)
    → (num_operations / nc) * nc ≡ (num_operations / np) * np
    → joined_deposit (turns (created np nc) ts) ≡ some d
    → (d ≡ sum (all_put (created np nc) ts))
      × (length (all_put (created np nc) ts) ≡ (num_operations / np) * np)
      × (puts_below (created np nc) ts np ≡ replicate np (num_operations / np))
unfolding joined_deposit
joined_deposit_lem np nc ts d same h =
    let s = turns (created np nc) ts in
    elim (Bool-cases (all_threads producer_ended s.producers)) [
      | inl a ↦ elim (Bool-cases (all_threads consumer_ended s.consumers)) [
        | inl b ↦ (
          ground (arith, deposit_at_end np nc ts same a b),
          all_put_at_end np nc ts same a b,
          puts_below-share np nc ts np (omega arith) (producer_done np nc ts same a b),
        )
        | inr b ↦ ground arith
      ]
      | inr a ↦ ground arith
    ]
