-- ===== src/ProdCons/Progress.antt =====
-- producer_consumer_n_m.c does not deadlock.
use esercitazioni_sistemi_di.Base.{
  ℕ, ◌+◌, ◌≡◌, ◌≢◌, refl, sym, ap, subst, ◌∙◌, inl, inr, Bool, true, false, some, List, arith,
  get_elem?, length, length-append, ◌==◌, not,
}
use esercitazioni_sistemi_di.Base.Threads.{
  weight-le-total, total-eq-zero, all_threads_intro, find_thread, get_elem?-set_here,
}
use esercitazioni_sistemi_di.ProdCons.{
  Memory, ProducerPc, Producer, ConsumerPc, Consumer, System, Turn, producer, consumer, producer_at,
  consumer_at, step, move_producer, after_producer, move_consumer, after_consumer, run, init,
  all_ended, producer_ended, consumer_ended,
}
use esercitazioni_sistemi_di.ProdCons.Counts.{
  producer_inside, producer_claims, producer_owes, consumer_inside, consumer_claims, consumer_owes,
}
use esercitazioni_sistemi_di.ProdCons.History.{all_put, all_taken}
use esercitazioni_sistemi_di.ProdCons.Fifo.{Queued, run-Queued}
use esercitazioni_sistemi_di.ProdCons.Work.{to_put, to_take, Work, run-Work}

-- whether the semaphore call of a turn succeeds
abbrev pub succeeds : Turn → Bool
succeeds (producer i ok) = ok
succeeds (consumer i ok) = ok

-- A turn without a failing call that changes the state; the program goes on running.
abbrev pub Moves : System → Type 0
Moves s = (t : Turn) × (succeeds t ≡ true) × ((step s t).running ≡ true) × (step s t ≢ s)

-- The producer is at a semaphore at 0, or has ended.
abbrev producer_blocked : Memory → Producer → Bool
producer_blocked m p = elim p.pc [
  | ProducerPc.wait_e _ ↦ m.e == 0
  | ProducerPc.wait_write _ ↦ m.write_s == 0
  | ProducerPc.stopped ↦ true
  | _ ↦ false
]

abbrev consumer_blocked : Memory → Consumer → Bool
consumer_blocked m c = elim c.pc [
  | ConsumerPc.wait_n ↦ m.n == 0
  | ConsumerPc.wait_read ↦ m.read_s == 0
  | ConsumerPc.stopped ↦ true
  | _ ↦ false
]

-- A thread that is not blocked gets to another point.
producer_advances :
    (pc : ProducerPc) (ops : ℕ) (m : Memory)
    → producer_blocked m (record { pc = pc; num_ops = ops }) ≡ false
    → (r : Memory × Producer) × (producer_at pc ops true m ≡ some r) × (r.1.pc ≢ pc)
unfolding producer_at
producer_advances ProducerPc.head ops m h = (_, refl, ground arith)
producer_advances ProducerPc.stopped ops m h = absurd (ground arith)
producer_advances pc ops m h = (_, refl, ground arith)

consumer_advances :
    (pc : ConsumerPc) (ops : ℕ) (m : Memory)
    → consumer_blocked m (record { pc = pc; num_ops = ops }) ≡ false
    → (r : Memory × Consumer) × (consumer_at pc ops true m ≡ some r) × (r.1.pc ≢ pc)
unfolding consumer_at
consumer_advances ConsumerPc.head ops m h = (_, refl, ground arith)
consumer_advances ConsumerPc.stopped ops m h = absurd (ground arith)
consumer_advances pc ops m h = (_, refl, ground arith)

module _ (s : System) (live : s.running ≡ true) where
  producer-Moves :
      (i : ℕ) (p : Producer)
      → get_elem? s.producers i ≡ some p
      → producer_blocked s.mem p ≡ false
      → Moves s
  unfolding step move_producer after_producer
  producer-Moves i p h free =
      let (r, e, changed) = producer_advances p.pc p.num_ops s.mem free in
      let after : step s (producer i true) ≡ after_producer s i (some r) =
        ground (arith, h, e, live) in
      (
        producer i true,
        refl,
        ap (λ t. t.running) after ∙ live,
        λ same. changed (
            ground (
              arith,
              ap (λ t. get_elem? t.producers i) (sym after ∙ same),
              get_elem?-set_here s.producers i p r.1 h,
            )),
      )

  consumer-Moves :
      (i : ℕ) (c : Consumer)
      → get_elem? s.consumers i ≡ some c
      → consumer_blocked s.mem c ≡ false
      → Moves s
  unfolding step move_consumer after_consumer
  consumer-Moves i c h free =
      let (r, e, changed) = consumer_advances c.pc c.num_ops s.mem free in
      let after : step s (consumer i true) ≡ after_consumer s i (some r) =
        ground (arith, h, e, live) in
      (
        consumer i true,
        refl,
        ap (λ t. t.running) after ∙ live,
        λ same. changed (
            ground (
              arith,
              ap (λ t. get_elem? t.consumers i) (sym after ∙ same),
              get_elem?-set_here s.consumers i c r.1 h,
            )),
      )

-- If every thread is blocked then all have ended.
module _ (ts : List Turn) (s : System) (reached : run init ts ≡ s)
    (producers_blocked : (i : ℕ) (p : Producer)
      → get_elem? s.producers i ≡ some p
      → producer_blocked s.mem p ≡ true)
    (consumers_blocked : (i : ℕ) (c : Consumer)
      → get_elem? s.consumers i ≡ some c
      → consumer_blocked s.mem c ≡ true) where
  queued : Queued s (all_put init ts) (all_taken init ts)
  queued = subst (λ t. Queued t (all_put init ts) (all_taken init ts)) reached (run-Queued ts)

  work : Work s (all_put init ts) (all_taken init ts)
  work = subst (λ t. Work t (all_put init ts) (all_taken init ts)) reached (run-Work ts)

  -- Nobody is inside, so both mutexes are free.
  write_free : s.mem.write_s ≡ 1
  write_free = omega (
    arith,
    queued.2.counts.write_mutex,
    total-eq-zero producer_inside s.producers (λ i p h. ground (arith, producers_blocked i p h)),
  )

  read_free : s.mem.read_s ≡ 1
  read_free = omega (
    arith,
    queued.2.counts.read_mutex,
    total-eq-zero consumer_inside s.consumers (λ i c h. ground (arith, consumers_blocked i c h)),
  )

  -- So all slots are free or hold a value that has been announced.
  all_free : s.mem.e + length queued.0 ≡ 128
  all_free = omega (
    arith,
    queued.2.counts.free,
    total-eq-zero producer_claims s.producers
        (λ i p h. ground (arith, producers_blocked i p h, write_free)),
    total-eq-zero consumer_owes s.consumers (λ i c h. ground (arith, consumers_blocked i c h)),
  )

  all_full : s.mem.n ≡ length queued.0
  all_full = omega (
    arith,
    queued.2.counts.full,
    total-eq-zero consumer_claims s.consumers
        (λ i c h. ground (arith, consumers_blocked i c h, read_free)),
    total-eq-zero producer_owes s.producers (λ i p h. ground (arith, producers_blocked i p h)),
  )

  put_more : length (all_put init ts) ≡ length (all_taken init ts) + length queued.0
  put_more = omega (arith, ap length queued.1, length-append (all_taken init ts) queued.0)

  consumers_ended_if :
      s.mem.n ≢ 0
      → (i : ℕ) (c : Consumer) → get_elem? s.consumers i ≡ some c
      → consumer_ended c ≡ true
  consumers_ended_if full i c h = ground (arith, consumers_blocked i c h, read_free)

  no_free_left : s.mem.e ≢ 0
  no_free_left none_free = absurd (
      omega (
        arith,
        all_free,
        put_more,
        work.left_to_put,
        work.left_to_take,
        total-eq-zero to_take s.consumers (λ i c h. ground (
          arith,
          consumers_ended_if (omega (arith, all_free, all_full)) i c h,
          work.consumers_work i c h,
        )),
      ))

  producers_ended :
      (i : ℕ) (p : Producer) → get_elem? s.producers i ≡ some p → producer_ended p ≡ true
  producers_ended i p h = ground (arith, producers_blocked i p h, write_free, no_free_left)

  all_was_put : length (all_put init ts) ≡ 400
  all_was_put = omega (
    arith,
    work.left_to_put,
    total-eq-zero to_put s.producers
        (λ i p h. ground (arith, producers_ended i p h, work.producers_work i p h)),
  )

  consumers_ended :
      (i : ℕ) (c : Consumer) → get_elem? s.consumers i ≡ some c → consumer_ended c ≡ true
  consumers_ended i c h = ground (
    arith,
    consumers_blocked i c h,
    read_free,
    all_full,
    put_more,
    all_was_put,
    work.left_to_take,
    weight-le-total to_take s.consumers i c h,
    work.consumers_work i c h,
  )

  blocked-all_ended : all_ended s ≡ true
  unfolding all_ended
  blocked-all_ended = ground (
    arith,
    all_threads_intro producer_ended s.producers producers_ended,
    all_threads_intro consumer_ended s.consumers consumers_ended,
  )

-- No deadlock: in every state that the program reaches without an exit, some thread can move until
-- all threads have ended: its turn, with a semaphore call that does not fail, changes the state and
-- leaves the program running.
pub no_deadlock :
    (ts : List Turn)
    → (run init ts).running ≡ true
    → all_ended (run init ts) ≡ false
    → Moves (run init ts)
no_deadlock ts live busy =
    elim (find_thread (λ p. not (producer_blocked (run init ts).mem p)) (run init ts).producers) [
      | inl (i, p, h, free) ↦ producer-Moves (run init ts) live i p h (ground arith)
      | inr producers_stay ↦
          elim (find_thread (λ c. not (consumer_blocked (run init ts).mem c))
            (run init ts).consumers) [
              | inl (i, c, h, free) ↦ consumer-Moves (run init ts) live i c h (ground arith)
              | inr consumers_stay ↦ absurd (
                  cc (
                    blocked-all_ended ts (run init ts) refl
                        (λ i p h. ground (arith, producers_stay i p h))
                        (λ i c h. ground (arith, consumers_stay i c h)),
                    busy,
                  ))
            ]
    ]
