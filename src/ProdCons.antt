-- ===== src/ProdCons.antt =====
-- Lab03/code/es1/producer_consumer_n_m.c: producers and consumers over a circular buffer, with the
-- semaphores `e` (free slots), `n` (full slots) and one mutex for each side.
pub mod Counts
pub mod Buffer
pub mod Inv
pub mod History
pub mod Fifo
pub mod Work
pub mod Safety
pub mod Progress
mod Tests
use esercitazioni_sistemi_di.Base.{
  ℕ, ◌+◌, ◌-◌, ◌%◌, ◌/◌, Bool, true, false, ◌&&◌, Option, none, some, List, [], ◌∷◌, ◌++◌, ltb, leb,
  ◌==◌, if◌then◌else◌, get_elem?, get_or, set, replicate,
}
use esercitazioni_sistemi_di.Base.Threads.{all_threads}
use esercitazioni_sistemi_di.Base.Int.{ℤ, pos, sub_ℕ, ◌+ℤ◌}

abbrev pub buffer_size : ℕ
buffer_size = 128

abbrev pub initial_deposit : ℤ
initial_deposit = pos 1000

abbrev pub max_transaction : ℕ
max_transaction = 1000

abbrev pub num_consumers : ℕ
num_consumers = 20

abbrev pub num_producers : ℕ
num_producers = 20

abbrev pub num_operations : ℕ
num_operations = 400

abbrev pub ops_per_consumer : ℕ
ops_per_consumer = num_operations / num_consumers

abbrev pub ops_per_producer : ℕ
ops_per_producer = num_operations / num_producers

-- `MAX_TRANSACTION - (amount + 1)` or `amount + 1`
unfoldable pub transaction_of : ℕ → ℤ
transaction_of amount =
    if leb max_transaction amount then sub_ℕ max_transaction (amount + 1) else pos (amount + 1)

-- In this program `amount` is fixed to 1: the call of `rand` is commented out.
unfoldable pub perform_random_transaction : ℤ
unfolding transaction_of
perform_random_transaction = transaction_of 1

-- The shared variables, and the counts of the four semaphores. `printed` holds the balances that
-- the consumers print.
pub record Memory : Type 0 where
  pub write_s : ℕ
  pub read_s : ℕ
  pub n : ℕ
  pub e : ℕ
  pub transactions : List ℤ
  pub deposit : ℤ
  pub read_index : ℕ
  pub write_index : ℕ
  pub printed : List ℤ

-- Where a producer stands: before the operation that the constructor names, with its
-- `currentTransaction`; an update of `write_index` is a load and a save.
pub data ProducerPc : Type 0 where
  head : ProducerPc
  wait_e : ℤ → ProducerPc
  wait_write : ℤ → ProducerPc
  store : ℤ → ProducerPc
  load_index : ℤ → ProducerPc
  save_index : ℤ → ℕ → ProducerPc
  post_write : ProducerPc
  post_n : ProducerPc
  stopped : ProducerPc

pub record Producer : Type 0 where
  pub pc : ProducerPc
  pub num_ops : ℕ

pub data ConsumerPc : Type 0 where
  head : ConsumerPc
  wait_n : ConsumerPc
  wait_read : ConsumerPc
  load_deposit : ConsumerPc
  save_deposit : ℤ → ConsumerPc
  load_index : ConsumerPc
  save_index : ℕ → ConsumerPc
  post_read : ConsumerPc
  post_e : ConsumerPc
  stopped : ConsumerPc

pub record Consumer : Type 0 where
  pub pc : ConsumerPc
  pub num_ops : ℕ

-- The check of a semaphore call's result: `none` is `exit(EXIT_FAILURE)`, of the whole process.
abbrev pub checked {ℓ} : {A : Type ℓ} → Bool → A → Option A
checked true a = some a
checked false a = none

-- One step of `performTransactions`. `ok` says whether the semaphore call succeeds, if the step is
-- one. A `sem_wait` at 0 blocks: nothing changes.
unfoldable pub producer_at : ProducerPc → ℕ → Bool → Memory → Option (Memory × Producer)
producer_at head ops ok m = some (
  m,
  record {
    pc = if ltb 0 ops then ProducerPc.wait_e perform_random_transaction else ProducerPc.stopped;
    num_ops = ops;
  },
)
producer_at (wait_e v) ops ok m = checked ok (
    if m.e == 0
    then (m, record { pc = ProducerPc.wait_e v; num_ops = ops })
    else (record m { e = m.e - 1 }, record { pc = ProducerPc.wait_write v; num_ops = ops }))
producer_at (wait_write v) ops ok m = checked ok (
    if m.write_s == 0
    then (m, record { pc = ProducerPc.wait_write v; num_ops = ops })
    else (record m { write_s = m.write_s - 1 }, record { pc = ProducerPc.store v; num_ops = ops }))
producer_at (store v) ops ok m = some (
  record m { transactions = set m.transactions m.write_index v },
  record { pc = ProducerPc.load_index v; num_ops = ops },
)
producer_at (load_index v) ops ok m =
    some (m, record { pc = ProducerPc.save_index v m.write_index; num_ops = ops })
producer_at (save_index v w) ops ok m = some (
  record m { write_index = (w + 1) % buffer_size },
  record { pc = ProducerPc.post_write; num_ops = ops },
)
producer_at post_write ops ok m =
    checked ok
      (record m { write_s = m.write_s + 1 }, record { pc = ProducerPc.post_n; num_ops = ops })
producer_at post_n ops ok m =
    checked ok (record m { n = m.n + 1 }, record { pc = ProducerPc.head; num_ops = ops - 1 })
producer_at stopped ops ok m = some (m, record { pc = ProducerPc.stopped; num_ops = ops })

-- One step of `processTransactions`.
unfoldable pub consumer_at : ConsumerPc → ℕ → Bool → Memory → Option (Memory × Consumer)
consumer_at head ops ok m =
    some (
      m,
      record { pc = if ltb 0 ops then ConsumerPc.wait_n else ConsumerPc.stopped; num_ops = ops },
    )
consumer_at wait_n ops ok m = checked ok (
    if m.n == 0
    then (m, record { pc = ConsumerPc.wait_n; num_ops = ops })
    else (record m { n = m.n - 1 }, record { pc = ConsumerPc.wait_read; num_ops = ops }))
consumer_at wait_read ops ok m = checked ok (
    if m.read_s == 0 then (m, record { pc = ConsumerPc.wait_read; num_ops = ops }) else (
      record m { read_s = m.read_s - 1 },
      record { pc = ConsumerPc.load_deposit; num_ops = ops },
    ))
consumer_at load_deposit ops ok m = some (
  m,
  record {
    pc = ConsumerPc.save_deposit (m.deposit +ℤ get_or m.transactions m.read_index (pos 0));
    num_ops = ops;
  },
)
consumer_at (save_deposit d) ops ok m =
    some (record m { deposit = d }, record { pc = ConsumerPc.load_index; num_ops = ops })
consumer_at load_index ops ok m =
    some (m, record { pc = ConsumerPc.save_index m.read_index; num_ops = ops })
consumer_at (save_index r) ops ok m =
    let r' = (r + 1) % buffer_size in
    some (
      record m {
        read_index = r';
        printed = if r' % 100 == 0 then m.printed ++ (m.deposit ∷ []) else m.printed;
      },
      record { pc = ConsumerPc.post_read; num_ops = ops },
    )
consumer_at post_read ops ok m =
    checked ok
      (record m { read_s = m.read_s + 1 }, record { pc = ConsumerPc.post_e; num_ops = ops })
consumer_at post_e ops ok m =
    checked ok (record m { e = m.e + 1 }, record { pc = ConsumerPc.head; num_ops = ops - 1 })
consumer_at stopped ops ok m = some (m, record { pc = ConsumerPc.stopped; num_ops = ops })

-- The process. Once a thread has called `exit` no thread runs.
pub record System : Type 0 where
  pub mem : Memory
  pub producers : List Producer
  pub consumers : List Consumer
  pub running : Bool

-- Which thread runs next, and whether its semaphore call succeeds.
pub data Turn : Type 0 where
  producer : ℕ → Bool → Turn
  consumer : ℕ → Bool → Turn

-- The turn of producer `i`, from its result; from its state; and from the system.
unfoldable pub after_producer : System → ℕ → Option (Memory × Producer) → System
after_producer s i none = record s { running = false }
after_producer s i (some (m, p)) = record s { mem = m; producers = set s.producers i p }

unfoldable pub move_producer : System → ℕ → Bool → Option Producer → System
unfolding after_producer producer_at
move_producer s i ok none = s
move_producer s i ok (some p) = after_producer s i (producer_at p.pc p.num_ops ok s.mem)

unfoldable pub after_consumer : System → ℕ → Option (Memory × Consumer) → System
after_consumer s i none = record s { running = false }
after_consumer s i (some (m, c)) = record s { mem = m; consumers = set s.consumers i c }

unfoldable pub move_consumer : System → ℕ → Bool → Option Consumer → System
unfolding after_consumer consumer_at
move_consumer s i ok none = s
move_consumer s i ok (some c) = after_consumer s i (consumer_at c.pc c.num_ops ok s.mem)

unfoldable pub step : System → Turn → System
unfolding move_producer move_consumer
step s (producer i ok) = if s.running then move_producer s i ok (get_elem? s.producers i) else s
step s (consumer i ok) = if s.running then move_consumer s i ok (get_elem? s.consumers i) else s

unfoldable pub run : System → List Turn → System
unfolding step
run s [] = s
run s (t ∷ ts) = run (step s t) ts

-- `main` up to the creation of the threads: a thread that is not created yet has had no turn.
unfoldable pub init : System
init = record {
  mem = record {
    write_s = 1;
    read_s = 1;
    n = 0;
    e = buffer_size;
    transactions = replicate buffer_size (pos 0);
    deposit = initial_deposit;
    read_index = 0;
    write_index = 0;
    printed = [];
  };
  producers = replicate num_producers (record { pc = ProducerPc.head; num_ops = ops_per_producer });
  consumers = replicate num_consumers (record { pc = ConsumerPc.head; num_ops = ops_per_consumer });
  running = true;
}

abbrev pub producer_ended : Producer → Bool
producer_ended p = elim p.pc [ ProducerPc.stopped ↦ true | _ ↦ false ]

abbrev pub consumer_ended : Consumer → Bool
consumer_ended c = elim c.pc [ ConsumerPc.stopped ↦ true | _ ↦ false ]

-- the joins of `main`
unfoldable pub all_ended : System → Bool
unfolding all_threads
all_ended s = all_threads producer_ended s.producers && all_threads consumer_ended s.consumers

-- What `main` prints after the joins: nothing while a thread is still running.
unfoldable pub final_deposit : System → Option ℤ
unfolding all_ended
final_deposit s = if s.running && all_ended s then some s.mem.deposit else none
