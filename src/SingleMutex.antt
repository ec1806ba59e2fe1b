-- ===== src/SingleMutex.antt =====
-- Lab03/code/es1/producer_consumer_1_m.c and producer_consumer_n_1.c: producers and consumers over a
-- circular buffer, with the semaphores `e` and `n` and one mutex `s` for all threads.
pub mod Simulation
pub mod Runs
pub mod Shares
pub mod Reached
pub mod Results
pub mod Progress
mod Tests
use esercitazioni_sistemi_di.Base.{
  ℕ, ◌+◌, ◌-◌, ◌*◌, ◌%◌, ◌/◌, Bool, true, false, ◌&&◌, Option, none, some, List, [], ◌∷◌, ◌++◌, ltb,
  ◌==◌, if◌then◌else◌, get_elem?, get_or, set, replicate,
}
use esercitazioni_sistemi_di.Base.Threads.{all_threads}
use esercitazioni_sistemi_di.Base.Int.{ℤ, pos, ◌+ℤ◌}
use esercitazioni_sistemi_di.ProdCons.{
  ProducerPc, Producer, ConsumerPc, Consumer, checked, buffer_size, max_transaction, num_operations,
  transaction_of, producer_ended, consumer_ended,
}

-- The shared variables, the counts of the three semaphores, and the balances printed.
pub record Memory : Type 0 where
  pub s : ℕ
  pub n : ℕ
  pub e : ℕ
  pub transactions : List ℤ
  pub deposit : ℤ
  pub read_index : ℕ
  pub write_index : ℕ
  pub printed : List ℤ

-- `performRandomTransaction`, from what `rand` returns
abbrev pub drawn_transaction : ℕ → ℤ
drawn_transaction rand = transaction_of (rand % (2 * max_transaction))

-- One step of `performTransactions`: as in the program with two mutexes, but for `s`, on which the
-- producer waits at `wait_write` and posts at `post_write`.
unfoldable pub producer_with_s : ℕ → ProducerPc → ℕ → Bool → Memory → Option (Memory × Producer)
producer_with_s rand ProducerPc.head ops ok m = some (
  m,
  record {
    pc = if ltb 0 ops then ProducerPc.wait_e (drawn_transaction rand) else ProducerPc.stopped;
    num_ops = ops;
  },
)
producer_with_s rand (ProducerPc.wait_e v) ops ok m = checked ok (
    if m.e == 0
    then (m, record { pc = ProducerPc.wait_e v; num_ops = ops })
    else (record m { e = m.e - 1 }, record { pc = ProducerPc.wait_write v; num_ops = ops }))
producer_with_s rand (ProducerPc.wait_write v) ops ok m = checked ok (
    if m.s == 0
    then (m, record { pc = ProducerPc.wait_write v; num_ops = ops })
    else (record m { s = m.s - 1 }, record { pc = ProducerPc.store v; num_ops = ops }))
producer_with_s rand (ProducerPc.store v) ops ok m = some (
  record m { transactions = set m.transactions m.write_index v },
  record { pc = ProducerPc.load_index v; num_ops = ops },
)
producer_with_s rand (ProducerPc.load_index v) ops ok m =
    some (m, record { pc = ProducerPc.save_index v m.write_index; num_ops = ops })
producer_with_s rand (ProducerPc.save_index v w) ops ok m = some (
  record m { write_index = (w + 1) % buffer_size },
  record { pc = ProducerPc.post_write; num_ops = ops },
)
producer_with_s rand ProducerPc.post_write ops ok m =
    checked ok (record m { s = m.s + 1 }, record { pc = ProducerPc.post_n; num_ops = ops })
producer_with_s rand ProducerPc.post_n ops ok m =
    checked ok (record m { n = m.n + 1 }, record { pc = ProducerPc.head; num_ops = ops - 1 })
producer_with_s rand ProducerPc.stopped ops ok m =
    some (m, record { pc = ProducerPc.stopped; num_ops = ops })

-- One step of `processTransactions`; `wait_read` and `post_read` are those of `s`.
unfoldable pub consumer_with_s : ConsumerPc → ℕ → Bool → Memory → Option (Memory × Consumer)
consumer_with_s ConsumerPc.head ops ok m =
    some (
      m,
      record { pc = if ltb 0 ops then ConsumerPc.wait_n else ConsumerPc.stopped; num_ops = ops },
    )
consumer_with_s ConsumerPc.wait_n ops ok m = checked ok (
    if m.n == 0
    then (m, record { pc = ConsumerPc.wait_n; num_ops = ops })
    else (record m { n = m.n - 1 }, record { pc = ConsumerPc.wait_read; num_ops = ops }))
consumer_with_s ConsumerPc.wait_read ops ok m = checked ok (
    if m.s == 0
    then (m, record { pc = ConsumerPc.wait_read; num_ops = ops })
    else (record m { s = m.s - 1 }, record { pc = ConsumerPc.load_deposit; num_ops = ops }))
consumer_with_s ConsumerPc.load_deposit ops ok m = some (
  m,
  record {
    pc = ConsumerPc.save_deposit (m.deposit +ℤ get_or m.transactions m.read_index (pos 0));
    num_ops = ops;
  },
)
consumer_with_s (ConsumerPc.save_deposit d) ops ok m =
    some (record m { deposit = d }, record { pc = ConsumerPc.load_index; num_ops = ops })
consumer_with_s ConsumerPc.load_index ops ok m =
    some (m, record { pc = ConsumerPc.save_index m.read_index; num_ops = ops })
consumer_with_s (ConsumerPc.save_index r) ops ok m =
    let r' = (r + 1) % buffer_size in
    some (
      record m {
        read_index = r';
        printed = if r' % 100 == 0 then m.printed ++ (m.deposit ∷ []) else m.printed;
      },
      record { pc = ConsumerPc.post_read; num_ops = ops },
    )
consumer_with_s ConsumerPc.post_read ops ok m =
    checked ok (record m { s = m.s + 1 }, record { pc = ConsumerPc.post_e; num_ops = ops })
consumer_with_s ConsumerPc.post_e ops ok m =
    checked ok (record m { e = m.e + 1 }, record { pc = ConsumerPc.head; num_ops = ops - 1 })
consumer_with_s ConsumerPc.stopped ops ok m =
    some (m, record { pc = ConsumerPc.stopped; num_ops = ops })

-- The process. Once a thread has called `exit` no thread runs.
pub record Process : Type 0 where
  pub mem : Memory
  pub producers : List Producer
  pub consumers : List Consumer
  pub running : Bool

-- Which thread runs next, whether its semaphore call succeeds, and what its call of `rand` returns.
pub data Pick : Type 0 where
  producer : ℕ → Bool → ℕ → Pick
  consumer : ℕ → Bool → Pick

unfoldable pub after_producer_step : Process → ℕ → Option (Memory × Producer) → Process
after_producer_step s i none = record s { running = false }
after_producer_step s i (some (m, p)) = record s { mem = m; producers = set s.producers i p }

unfoldable pub after_consumer_step : Process → ℕ → Option (Memory × Consumer) → Process
after_consumer_step s i none = record s { running = false }
after_consumer_step s i (some (m, c)) = record s { mem = m; consumers = set s.consumers i c }

unfoldable pub producer_turn : Process → ℕ → Bool → ℕ → Option Producer → Process
unfolding after_producer_step producer_with_s
producer_turn s i ok rand none = s
producer_turn s i ok rand (some p) =
    after_producer_step s i (producer_with_s rand p.pc p.num_ops ok s.mem)

unfoldable pub consumer_turn : Process → ℕ → Bool → Option Consumer → Process
unfolding after_consumer_step consumer_with_s
consumer_turn s i ok none = s
consumer_turn s i ok (some c) = after_consumer_step s i (consumer_with_s c.pc c.num_ops ok s.mem)

unfoldable pub turn : Process → Pick → Process
unfolding producer_turn consumer_turn
turn s (producer i ok rand) =
    if s.running then producer_turn s i ok rand (get_elem? s.producers i) else s
turn s (consumer i ok) = if s.running then consumer_turn s i ok (get_elem? s.consumers i) else s

unfoldable pub turns : Process → List Pick → Process
unfolding turn
turns s [] = s
turns s (t ∷ ts) = turns (turn s t) ts

-- `main` up to the creation of the threads, from NUM_PRODUCERS and NUM_CONSUMERS, which divide
-- NUM_OPERATIONS. INITIAL_DEPOSIT is 0.
unfoldable pub created : ℕ → ℕ → Process
created num_producers num_consumers = record {
  mem = record {
    s = 1;
    n = 0;
    e = buffer_size;
    transactions = replicate buffer_size (pos 0);
    deposit = pos 0;
    read_index = 0;
    write_index = 0;
    printed = [];
  };
  producers =
      replicate num_producers
        (record { pc = ProducerPc.head; num_ops = num_operations / num_producers });
  consumers =
      replicate num_consumers
        (record { pc = ConsumerPc.head; num_ops = num_operations / num_consumers });
  running = true;
}

-- The `main` of producer_consumer_1_m.c, and that of producer_consumer_n_1.c.
abbrev pub one_to_many : Process
one_to_many = created 1 20

abbrev pub many_to_one : Process
many_to_one = created 100 1

-- What `main` prints after the joins: nothing while a thread is still running.
unfoldable pub joined_deposit : Process → Option ℤ
unfolding all_threads
joined_deposit s =
    if s.running
      && (all_threads producer_ended s.producers && all_threads consumer_ended s.consumers)
    then some s.mem.deposit
    else none
