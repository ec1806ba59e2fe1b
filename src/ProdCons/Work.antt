-- ===== src/ProdCons/Work.antt =====
-- How much the threads of producer_consumer_n_m.c still have to do.
use esercitazioni_sistemi_di.Base.{
  ℕ, ◌+◌, ◌-◌, ◌*◌, ◌<◌, ◌≡◌, refl, Bool, some, List, [], ◌++◌, arith, get_elem?, set, length,
  length-append, ℕ_discrete, sym, subst,
}
use esercitazioni_sistemi_di.Base.Int.{ℤ, pos, ◌+ℤ◌, sum, sum-append}
use esercitazioni_sistemi_di.Base.Threads.{
  total, total-set, get_elem?-set, get_elem?-set_eq, get_elem?-replicate,
}
use esercitazioni_sistemi_di.ProdCons.{
  Memory, ProducerPc, Producer, ConsumerPc, Consumer, producer_at, consumer_at, System, Turn, run,
  init, perform_random_transaction,
}
use esercitazioni_sistemi_di.ProdCons.Buffer.{put_by, got_by}
use esercitazioni_sistemi_di.ProdCons.History.{IsKept, run-kept, all_put, all_taken}

-- What is true of a producer alone: the value it carries is 2, and it has operations left
-- inside its loop and none after it.
abbrev pub ProducerWork : Producer → Type 0
ProducerWork p = elim p.pc [
  | ProducerPc.head ↦ Unit {0}
  | ProducerPc.wait_e v ↦ (v ≡ pos 2) × (0 < p.num_ops)
  | ProducerPc.wait_write v ↦ (v ≡ pos 2) × (0 < p.num_ops)
  | ProducerPc.store v ↦ (v ≡ pos 2) × (0 < p.num_ops)
  | ProducerPc.load_index v ↦ (v ≡ pos 2) × (0 < p.num_ops)
  | ProducerPc.save_index v w ↦ (v ≡ pos 2) × (0 < p.num_ops)
  | ProducerPc.post_write ↦ 0 < p.num_ops
  | ProducerPc.post_n ↦ 0 < p.num_ops
  | ProducerPc.stopped ↦ p.num_ops ≡ 0
]

abbrev pub ConsumerWork : Consumer → Type 0
ConsumerWork c = elim c.pc [
  | ConsumerPc.head ↦ Unit {0}
  | ConsumerPc.stopped ↦ c.num_ops ≡ 0
  | _ ↦ 0 < c.num_ops
]

-- the values that a thread has still to put in the buffer, or to take out of it
abbrev pub to_put : Producer → ℕ
to_put p = elim p.pc [
  | ProducerPc.post_write ↦ p.num_ops - 1
  | ProducerPc.post_n ↦ p.num_ops - 1
  | _ ↦ p.num_ops
]

abbrev pub to_take : Consumer → ℕ
to_take c = elim c.pc [
  | ConsumerPc.post_read ↦ c.num_ops - 1
  | ConsumerPc.post_e ↦ c.num_ops - 1
  | _ ↦ c.num_ops
]

module _ (ops : ℕ) (ok : Bool) (m : Memory) {m' : Memory} where
  producer_at-Work :
      (pc : ProducerPc) {p' : Producer}
      → ProducerWork (record { pc = pc; num_ops = ops })
      → producer_at pc ops ok m ≡ some (m', p')
      → ProducerWork p'
        × (to_put p' + length (put_by pc) ≡ to_put (record { pc = pc; num_ops = ops }))
        × (sum (put_by pc) ≡ pos (2 * length (put_by pc)))
  unfolding producer_at perform_random_transaction sum ◌+ℤ◌
  producer_at-Work ProducerPc.head w e = ground arith
  producer_at-Work pc w e = ground arith

  consumer_at-Work :
      (pc : ConsumerPc) {c' : Consumer}
      → ConsumerWork (record { pc = pc; num_ops = ops })
      → consumer_at pc ops ok m ≡ some (m', c')
      → ConsumerWork c'
        × (to_take c' + length (got_by m pc) ≡ to_take (record { pc = pc; num_ops = ops }))
  unfolding consumer_at
  consumer_at-Work ConsumerPc.head w e = ground arith
  consumer_at-Work pc w e = ground arith

-- The threads have their share of 400 operations left on each side, and all values put are 2.
pub record Work (s : System) (put taken : List ℤ) : Type 0 where
  pub producers_work : (i : ℕ) (p : Producer) → get_elem? s.producers i ≡ some p → ProducerWork p
  pub consumers_work : (i : ℕ) (c : Consumer) → get_elem? s.consumers i ≡ some c → ConsumerWork c
  pub left_to_put : total to_put s.producers + length put ≡ 400
  pub left_to_take : total to_take s.consumers + length taken ≡ 400
  pub twos : sum put ≡ pos (2 * length put)

sum-twos :
    (xs ys : List ℤ)
    → sum xs ≡ pos (2 * length xs)
    → sum ys ≡ pos (2 * length ys)
    → sum (xs ++ ys) ≡ pos (2 * length (xs ++ ys))
unfolding ◌+ℤ◌
sum-twos xs ys e f = rw (sum-append, e, f, length-append) (ground arith)

producer_moves-Work :
    (s : System) (put taken : List ℤ) (i : ℕ) (p : Producer) (ok : Bool) (m' : Memory)
    (p' : Producer)
    → Work s put taken
    → get_elem? s.producers i ≡ some p
    → producer_at p.pc p.num_ops ok s.mem ≡ some (m', p')
    → Work (record s { mem = m'; producers = set s.producers i p' }) (put ++ put_by p.pc) taken
producer_moves-Work s put taken i p ok m' p' w h e =
    let (new, fewer, two) = producer_at-Work p.num_ops ok s.mem p.pc (w.producers_work i p h) e in
    record {
      producers_work = λ j q g. elim (ℕ_discrete i j) [
        | yes same ↦ subst ProducerWork (sym (get_elem?-set_eq s.producers i j p' q g same)) new
        | no ne ↦ w.producers_work j q (get_elem?-set s.producers i j p' q g ne)
      ];
      consumers_work = w.consumers_work;
      left_to_put = omega (
        arith,
        total-set to_put s.producers i p p' h,
        fewer,
        w.left_to_put,
        length-append put (put_by p.pc),
      );
      left_to_take = w.left_to_take;
      twos = sum-twos put (put_by p.pc) w.twos two;
    }

consumer_moves-Work :
    (s : System) (put taken : List ℤ) (i : ℕ) (c : Consumer) (ok : Bool) (m' : Memory)
    (c' : Consumer)
    → Work s put taken
    → get_elem? s.consumers i ≡ some c
    → consumer_at c.pc c.num_ops ok s.mem ≡ some (m', c')
    → Work
        (record s { mem = m'; consumers = set s.consumers i c' })
        put
        (taken ++ got_by s.mem c.pc)
consumer_moves-Work s put taken i c ok m' c' w h e =
    let (new, fewer) = consumer_at-Work c.num_ops ok s.mem c.pc (w.consumers_work i c h) e in
    record {
      producers_work = w.producers_work;
      consumers_work = λ j q g. elim (ℕ_discrete i j) [
        | yes same ↦ subst ConsumerWork (sym (get_elem?-set_eq s.consumers i j c' q g same)) new
        | no ne ↦ w.consumers_work j q (get_elem?-set s.consumers i j c' q g ne)
      ];
      left_to_put = w.left_to_put;
      left_to_take = omega (
        arith,
        total-set to_take s.consumers i c c' h,
        fewer,
        w.left_to_take,
        length-append taken (got_by s.mem c.pc),
      );
      twos = w.twos;
    }

Work-kept : IsKept Work
Work-kept = record {
  exits = λ s put taken w. record {
    producers_work = w.producers_work;
    consumers_work = w.consumers_work;
    left_to_put = w.left_to_put;
    left_to_take = w.left_to_take;
    twos = w.twos;
  };
  producer_moves = producer_moves-Work;
  consumer_moves = consumer_moves-Work;
}

init-Work : Work init [] []
unfolding init total sum
init-Work = record {
  producers_work = λ i p h. rw (get_elem?-replicate 20 i _ p h) tt;
  consumers_work = λ i c h. rw (get_elem?-replicate 20 i _ c h) tt;
  left_to_put = refl;
  left_to_take = refl;
  twos = refl;
}

pub run-Work : (ts : List Turn) → Work (run init ts) (all_put init ts) (all_taken init ts)
run-Work = run-kept Work Work-kept init [] [] init-Work
