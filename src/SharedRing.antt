-- ===== src/SharedRing.antt =====
-- Lab05/src/02: producer.c and consumer.c, processes over a ring buffer in shared memory.
pub mod Counts
pub mod Cells
pub mod Inv
pub mod Runs
pub mod Results
mod Tests
use esercitazioni_sistemi_di.Base.{
  ℕ, ◌+◌, ◌-◌, ◌*◌, ◌/◌, ◌%◌, Bool, true, false, Option, none, some, List, [], ◌∷◌, ltb, leb, ◌==◌,
  if◌then◌else◌, get_elem?, get_or, set, replicate,
}
use esercitazioni_sistemi_di.Base.Int.{ℤ, pos, sub_ℕ, ◌+ℤ◌}

abbrev pub buffer_size : ℕ
buffer_size = 128

abbrev pub max_transaction : ℕ
max_transaction = 1000

abbrev pub num_operations : ℕ
num_operations = 4000

-- `struct shared_memory`, and the counts of the four named semaphores.
pub record SharedMemory : Type 0 where
  pub sem_filled : ℕ
  pub sem_empty : ℕ
  pub cs_prod : ℕ
  pub cs_cons : ℕ
  pub buf : List ℤ
  pub read_index : ℕ
  pub write_index : ℕ

-- `performRandomTransaction`, from what `rand` returns
unfoldable pub random_transaction : ℕ → ℤ
random_transaction rand =
    let amount = rand % (2 * max_transaction) in
    if leb max_transaction amount then sub_ℕ max_transaction (amount + 1) else pos (amount + 1)

-- Where a producer stands in `produce`, with its `value`; the update of an index is a load and a save.
pub data ProducePc : Type 0 where
  head : ProducePc
  wait_empty wait_cs store load_index : ℤ → ProducePc
  save_index : ℤ → ℕ → ProducePc
  post_cs post_filled : ℤ → ProducePc
  ended : ProducePc

pub record Producing : Type 0 where
  pub pc : ProducePc
  pub num_ops : ℕ
  pub local_sum : ℤ

-- Where a consumer stands in `consume`.
pub data ConsumePc : Type 0 where
  head wait_filled wait_cs read : ConsumePc
  load_index : ℤ → ConsumePc
  save_index : ℤ → ℕ → ConsumePc
  post_cs post_empty : ℤ → ConsumePc
  ended : ConsumePc

pub record Consuming : Type 0 where
  pub pc : ConsumePc
  pub num_ops : ℕ
  pub local_sum : ℤ

-- One step of `produce`. A `sem_wait` at 0 blocks: nothing changes.
unfoldable pub produce_at : ℕ → ProducePc → ℕ → ℤ → SharedMemory → SharedMemory × Producing
unfolding random_transaction
produce_at rand ProducePc.head ops sum m = (
  m,
  record {
    pc = if ltb 0 ops then ProducePc.wait_empty (random_transaction rand) else ProducePc.ended;
    num_ops = ops;
    local_sum = sum;
  },
)
produce_at rand (ProducePc.wait_empty v) ops sum m =
    if m.sem_empty == 0
    then (m, record { pc = ProducePc.wait_empty v; num_ops = ops; local_sum = sum })
    else (
      record m { sem_empty = m.sem_empty - 1 },
      record { pc = ProducePc.wait_cs v; num_ops = ops; local_sum = sum },
    )
produce_at rand (ProducePc.wait_cs v) ops sum m =
    if m.cs_prod == 0
    then (m, record { pc = ProducePc.wait_cs v; num_ops = ops; local_sum = sum })
    else (
      record m { cs_prod = m.cs_prod - 1 },
      record { pc = ProducePc.store v; num_ops = ops; local_sum = sum },
    )
produce_at rand (ProducePc.store v) ops sum m = (
  record m { buf = set m.buf m.write_index v },
  record { pc = ProducePc.load_index v; num_ops = ops; local_sum = sum },
)
produce_at rand (ProducePc.load_index v) ops sum m =
    (m, record { pc = ProducePc.save_index v m.write_index; num_ops = ops; local_sum = sum })
produce_at rand (ProducePc.save_index v w) ops sum m = (
  record m { write_index = (w + 1) % buffer_size },
  record { pc = ProducePc.post_cs v; num_ops = ops; local_sum = sum },
)
produce_at rand (ProducePc.post_cs v) ops sum m = (
  record m { cs_prod = m.cs_prod + 1 },
  record { pc = ProducePc.post_filled v; num_ops = ops; local_sum = sum },
)
produce_at rand (ProducePc.post_filled v) ops sum m = (
  record m { sem_filled = m.sem_filled + 1 },
  record { pc = ProducePc.head; num_ops = ops - 1; local_sum = sum +ℤ v },
)
produce_at rand ProducePc.ended ops sum m =
    (m, record { pc = ProducePc.ended; num_ops = ops; local_sum = sum })

-- One step of `consume`.
unfoldable pub consume_at : ConsumePc → ℕ → ℤ → SharedMemory → SharedMemory × Consuming
consume_at ConsumePc.head ops sum m = (
  m,
  record {
    pc = if ltb 0 ops then ConsumePc.wait_filled else ConsumePc.ended;
    num_ops = ops;
    local_sum = sum;
  },
)
consume_at ConsumePc.wait_filled ops sum m =
    if m.sem_filled == 0
    then (m, record { pc = ConsumePc.wait_filled; num_ops = ops; local_sum = sum })
    else (
      record m { sem_filled = m.sem_filled - 1 },
      record { pc = ConsumePc.wait_cs; num_ops = ops; local_sum = sum },
    )
consume_at ConsumePc.wait_cs ops sum m =
    if m.cs_cons == 0
    then (m, record { pc = ConsumePc.wait_cs; num_ops = ops; local_sum = sum })
    else (
      record m { cs_cons = m.cs_cons - 1 },
      record { pc = ConsumePc.read; num_ops = ops; local_sum = sum },
    )
consume_at ConsumePc.read ops sum m = (
  m,
  record {
    pc = ConsumePc.load_index (get_or m.buf m.read_index (pos 0));
    num_ops = ops;
    local_sum = sum;
  },
)
consume_at (ConsumePc.load_index v) ops sum m =
    (m, record { pc = ConsumePc.save_index v m.read_index; num_ops = ops; local_sum = sum })
consume_at (ConsumePc.save_index v r) ops sum m = (
  record m { read_index = (r + 1) % buffer_size },
  record { pc = ConsumePc.post_cs v; num_ops = ops; local_sum = sum },
)
consume_at (ConsumePc.post_cs v) ops sum m = (
  record m { cs_cons = m.cs_cons + 1 },
  record { pc = ConsumePc.post_empty v; num_ops = ops; local_sum = sum },
)
consume_at (ConsumePc.post_empty v) ops sum m = (
  record m { sem_empty = m.sem_empty + 1 },
  record { pc = ConsumePc.head; num_ops = ops - 1; local_sum = sum +ℤ v },
)
consume_at ConsumePc.ended ops sum m =
    (m, record { pc = ConsumePc.ended; num_ops = ops; local_sum = sum })

pub record Processes : Type 0 where
  pub mem : SharedMemory
  pub producers : List Producing
  pub consumers : List Consuming

-- Which process runs next, and what its call of `rand` returns. A process whose semaphore call
-- fails exits: it has no turn any more.
pub data Run : Type 0 where
  producer : ℕ → ℕ → Run
  consumer : ℕ → Run

unfoldable pub run_producer : Processes → ℕ → ℕ → Option Producing → Processes
unfolding produce_at
run_producer s i rand none = s
run_producer s i rand (some p) =
    let (mem, p') = produce_at rand p.pc p.num_ops p.local_sum s.mem in
    record s { mem = mem; producers = set s.producers i p' }

unfoldable pub run_consumer : Processes → ℕ → Option Consuming → Processes
unfolding consume_at
run_consumer s i none = s
run_consumer s i (some c) =
    let (mem, c') = consume_at c.pc c.num_ops c.local_sum s.mem in
    record s { mem = mem; consumers = set s.consumers i c' }

unfoldable pub run_one : Processes → Run → Processes
unfolding run_producer run_consumer
run_one s (producer i rand) = run_producer s i rand (get_elem? s.producers i)
run_one s (consumer i) = run_consumer s i (get_elem? s.consumers i)

unfoldable pub run_all : Processes → List Run → Processes
unfolding run_one
run_all s [] = s
run_all s (t ∷ ts) = run_all (run_one s t) ts

-- `initSemaphores` and `initMemory`, with the semaphore that the consumers add.
abbrev pub init_memory : SharedMemory
init_memory = record {
  sem_filled = 0;
  sem_empty = buffer_size;
  cs_prod = 1;
  cs_cons = 1;
  buf = replicate buffer_size (pos 0);
  read_index = buffer_size - 1;
  write_index = 0;
}

-- The two programs when their processes are created: NUM_PRODUCERS and NUM_CONSUMERS.
abbrev pub forked : ℕ → ℕ → Processes
forked num_producers num_consumers = record {
  mem = init_memory;
  producers =
      replicate num_producers (record {
        pc = ProducePc.head;
        num_ops = num_operations / num_producers;
        local_sum = pos 0;
      });
  consumers =
      replicate num_consumers (record {
        pc = ConsumePc.head;
        num_ops = num_operations / num_consumers;
        local_sum = pos 0;
      });
}
