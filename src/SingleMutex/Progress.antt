-- ===== src/SingleMutex/Progress.antt =====
-- producer_consumer_1_m.c and producer_consumer_n_1.c do not deadlock.
use esercitazioni_sistemi_di.Base.{
  ℕ, ◌+◌, ◌*◌, ◌/◌, ◌≡◌, ◌≢◌, refl, sym, ap, ◌∙◌, inl, inr, ◌⊎◌, Bool, true, false, some, List,
  arith, get_elem?, length, length-append, ◌==◌, not,
}
use esercitazioni_sistemi_di.Base.Int.{ℤ}
use esercitazioni_sistemi_di.Base.Threads.{
  weight-le-total, total-eq-zero, all_threads_intro, find_thread, get_elem?-set_here,
}
use esercitazioni_sistemi_di.ProdCons.{
  ProducerPc, Producer, ConsumerPc, Consumer, num_operations, producer_ended, consumer_ended,
}
use esercitazioni_sistemi_di.ProdCons.Counts.{
  producer_inside, producer_claims, producer_owes, consumer_inside, consumer_claims, consumer_owes,
}
use esercitazioni_sistemi_di.ProdCons.Work.{to_put, to_take}
use esercitazioni_sistemi_di.SingleMutex.{
  Memory, Process, Pick, producer, consumer, producer_with_s, consumer_with_s, after_producer_step,
  after_consumer_step, producer_turn, consumer_turn, turn, turns, created, joined_deposit,
}
use esercitazioni_sistemi_di.SingleMutex.Runs.{Going}
use esercitazioni_sistemi_di.SingleMutex.Reached.{reached-Going}

-- whether the semaphore call of a turn succeeds
abbrev pub call_succeeds : Pick → Bool
call_succeeds (producer i ok rand) = ok
call_succeeds (consumer i ok) = ok

-- A turn without a failing call that changes the state; the program goes on running.
abbrev pub SomeMove : Process → Type 0
SomeMove s = (t : Pick) × (call_succeeds t ≡ true) × ((turn s t).running ≡ true) × (turn s t ≢ s)

-- The producer is at a semaphore at 0, or has ended.
abbrev producer_stuck : Memory → Producer → Bool
producer_stuck m p = elim p.pc [
  | ProducerPc.wait_e _ ↦ m.e == 0
  | ProducerPc.wait_write _ ↦ m.s == 0
  | ProducerPc.stopped ↦ true
  | _ ↦ false
]

abbrev consumer_stuck : Memory → Consumer → Bool
consumer_stuck m c = elim c.pc [
  | ConsumerPc.wait_n ↦ m.n == 0
  | ConsumerPc.wait_read ↦ m.s == 0
  | ConsumerPc.stopped ↦ true
  | _ ↦ false
]

-- A thread that is not stuck gets to another point.
producer_goes_on :
    (pc : ProducerPc) (ops : ℕ) (m : Memory)
    → producer_stuck m (record { pc = pc; num_ops = ops }) ≡ false
    → (r : Memory × Producer) × (producer_with_s 0 pc ops true m ≡ some r) × (r.1.pc ≢ pc)
unfolding producer_with_s
producer_goes_on ProducerPc.head ops m h = (_, refl, ground arith)
producer_goes_on ProducerPc.stopped ops m h = absurd (ground arith)
producer_goes_on pc ops m h = (_, refl, ground arith)

consumer_goes_on :
    (pc : ConsumerPc) (ops : ℕ) (m : Memory)
    → consumer_stuck m (record { pc = pc; num_ops = ops }) ≡ false
    → (r : Memory × Consumer) × (consumer_with_s pc ops true m ≡ some r) × (r.1.pc ≢ pc)
unfolding consumer_with_s
consumer_goes_on ConsumerPc.head ops m h = (_, refl, ground arith)
consumer_goes_on ConsumerPc.stopped ops m h = absurd (ground arith)
consumer_goes_on pc ops m h = (_, refl, ground arith)

module _ (s : Process) (live : s.running ≡ true) where
  producer-SomeMove :
      (i : ℕ) (p : Producer)
      → get_elem? s.producers i ≡ some p
      → producer_stuck s.mem p ≡ false
      → SomeMove s
  unfolding turn producer_turn after_producer_step
  producer-SomeMove i p h free =
      let (r, e, changed) = producer_goes_on p.pc p.num_ops s.mem free in
      let after : turn s (producer i true 0) ≡ after_producer_step s i (some r) =
        ground (arith, h, e, live) in
      (
        producer i true 0,
        refl,
        ap (λ t. t.running) after ∙ live,
        λ same. changed (
            ground (
              arith,
              ap (λ t. get_elem? t.producers i) (sym after ∙ same),
              get_elem?-set_here s.producers i p r.1 h,
            )),
      )

  consumer-SomeMove :
      (i : ℕ) (c : Consumer)
      → get_elem? s.consumers i ≡ some c
      → consumer_stuck s.mem c ≡ false
      → SomeMove s
  unfolding turn consumer_turn after_consumer_step
  consumer-SomeMove i c h free =
      let (r, e, changed) = consumer_goes_on c.pc c.num_ops s.mem free in
      let after : turn s (consumer i true) ≡ after_consumer_step s i (some r) =
        ground (arith, h, e, live) in
      (
        consumer i true,
        refl,
        ap (λ t. t.running) after ∙ live,
        λ same. changed (
            ground (
              arith,
              ap (λ t. get_elem? t.consumers i) (sym after ∙ same),
              get_elem?-set_here s.consumers i c r.1 h,
            )),
      )

-- If every thread is stuck then all have ended.
module _ {tp tt : ℕ} {s : Process} {put taken : List ℤ} (g : Going tp tt s put taken)
    (same_ops : tt ≡ tp)
    (producers_stuck : (i : ℕ) (p : Producer)
      → get_elem? s.producers i ≡ some p
      → producer_stuck s.mem p ≡ true)
    (consumers_stuck : (i : ℕ) (c : Consumer)
      → get_elem? s.consumers i ≡ some c
      → consumer_stuck s.mem c ≡ true) where
  -- Nobody is inside, so the mutex is free.
  mutex_free : s.mem.s ≡ 1
  mutex_free = omega (
    arith,
    g.inv.split,
    g.inv.two.counts.write_mutex,
    g.inv.two.counts.read_mutex,
    total-eq-zero producer_inside s.producers (λ i p h. ground (arith, producers_stuck i p h)),
    total-eq-zero consumer_inside s.consumers (λ i c h. ground (arith, consumers_stuck i c h)),
  )

  -- So all slots are free or hold a value that has been announced.
  all_free : s.mem.e + length g.rest ≡ 128
  all_free = omega (
    arith,
    g.inv.two.counts.free,
    total-eq-zero producer_claims s.producers
        (λ i p h. ground (arith, producers_stuck i p h, mutex_free)),
    total-eq-zero consumer_owes s.consumers (λ i c h. ground (arith, consumers_stuck i c h)),
  )

  all_full : s.mem.n ≡ length g.rest
  all_full = omega (
    arith,
    g.inv.two.counts.full,
    total-eq-zero consumer_claims s.consumers
        (λ i c h. ground (arith, consumers_stuck i c h, mutex_free)),
    total-eq-zero producer_owes s.producers (λ i p h. ground (arith, producers_stuck i p h)),
  )

  put_more : length put ≡ length taken + length g.rest
  put_more = omega (arith, ap length g.order, length-append taken g.rest)

  consumers_ended_if :
      s.mem.n ≢ 0
      → (i : ℕ) (c : Consumer) → get_elem? s.consumers i ≡ some c
      → consumer_ended c ≡ true
  consumers_ended_if full i c h = ground (arith, consumers_stuck i c h, mutex_free)

  no_free_left : s.mem.e ≢ 0
  no_free_left none_free = absurd (
      omega (
        arith,
        all_free,
        put_more,
        g.left_to_put,
        g.left_to_take,
        total-eq-zero to_take s.consumers (λ i c h. ground (
          arith,
          consumers_ended_if (omega (arith, all_free, all_full)) i c h,
          g.consumers_busy i c h,
        )),
      ))

  producers_ended :
      (i : ℕ) (p : Producer) → get_elem? s.producers i ≡ some p → producer_ended p ≡ true
  producers_ended i p h = ground (arith, producers_stuck i p h, mutex_free, no_free_left)

  all_was_put : length put ≡ tp
  all_was_put = omega (
    arith,
    g.left_to_put,
    total-eq-zero to_put s.producers
        (λ i p h. ground (arith, producers_ended i p h, g.producers_busy i p h)),
  )

  consumers_ended :
      (i : ℕ) (c : Consumer) → get_elem? s.consumers i ≡ some c → consumer_ended c ≡ true
  consumers_ended i c h = ground (
    arith,
    consumers_stuck i c h,
    mutex_free,
    all_full,
    put_more,
    all_was_put,
    g.left_to_take,
    weight-le-total to_take s.consumers i c h,
    g.consumers_busy i c h,
  )

  stuck-joined : s.running ≡ true → joined_deposit s ≡ some s.mem.deposit
  unfolding joined_deposit
  stuck-joined live = ground (
    arith,
    all_threads_intro producer_ended s.producers producers_ended,
    all_threads_intro consumer_ended s.consumers consumers_ended,
  )

-- No deadlock: in every state that the program reaches without an exit, some thread can move (its
-- turn, with a semaphore call that does not fail, changes the state and leaves the program running), or
-- `main` prints the deposit. For any numbers of threads that pass the program's own check.
pub moves_or_prints :
    (np nc : ℕ) (ts : List Pick)
    → (num_operations / nc) * nc ≡ (num_operations / np) * np
    → (turns (created np nc) ts).running ≡ true
    → SomeMove (turns (created np nc) ts)
      ⊎ (joined_deposit (turns (created np nc) ts) ≡ some (turns (created np nc) ts).mem.deposit)
moves_or_prints np nc ts same live =
    let s = turns (created np nc) ts in
    elim (find_thread (λ p. not (producer_stuck s.mem p)) s.producers) [
      | inl (i, p, h, free) ↦ inl (producer-SomeMove s live i p h (ground arith))
      | inr producers_stay ↦ elim (find_thread (λ c. not (consumer_stuck s.mem c)) s.consumers) [
        | inl (i, c, h, free) ↦ inl (consumer-SomeMove s live i c h (ground arith))
        | inr consumers_stay ↦ inr (
            stuck-joined (reached-Going np nc ts) (omega (arith, same))
              (λ i p h. ground (arith, producers_stay i p h))
              (λ i c h. ground (arith, consumers_stay i c h)) live)
      ]
    ]
