-- ===== src/BusyRing.antt =====
-- Lab05/src/03: producer.c and consumer.c, a ring buffer in shared memory without semaphores.
pub mod Results
mod Tests
use esercitazioni_sistemi_di.Base.{
  ℕ, ◌+◌, ◌-◌, ◌%◌, Bool, List, [], ◌∷◌, get_or, set, replicate, ltb, ◌==◌, if◌then◌else◌,
}
use esercitazioni_sistemi_di.Base.Int.{ℤ, pos, ◌+ℤ◌}
use esercitazioni_sistemi_di.SharedRing.{random_transaction}

abbrev pub buffer_size : ℕ
buffer_size = 128

abbrev pub num_operations : ℕ
num_operations = 400

-- `struct shared_memory`
pub record SharedMemory : Type 0 where
  pub buf : List ℤ
  pub read_index : ℕ
  pub write_index : ℕ

-- Where the producer stands in `produce`, with its `value`. Only it writes `write_index`: the load and
-- the save of it are one step.
pub data ProducePc : Type 0 where
  head : ProducePc
  check store advance add : ℤ → ProducePc
  ended : ProducePc

pub record Producing : Type 0 where
  pub pc : ProducePc
  pub num_ops : ℕ
  pub local_sum : ℤ

-- Where the consumer stands in `consume`.
pub data ConsumePc : Type 0 where
  head busy_wait read : ConsumePc
  advance : ℤ → ConsumePc
  ended : ConsumePc

pub record Consuming : Type 0 where
  pub pc : ConsumePc
  pub num_ops : ℕ
  pub local_sum : ℤ

unfoldable pub produce_at : ℕ → ProducePc → ℕ → ℤ → SharedMemory → SharedMemory × Producing
unfolding random_transaction
produce_at rand ProducePc.head ops sum m = (
  m,
  record {
    pc = if ltb 0 ops then check (random_transaction rand) else ProducePc.ended;
    num_ops = ops;
    local_sum = sum;
  },
)
produce_at rand (check v) ops sum m = (
  m,
  record {
    pc = if (m.write_index + 1) % buffer_size == m.read_index then add v else store v;
    num_ops = ops;
    local_sum = sum;
  },
)
produce_at rand (store v) ops sum m = (
  record m { buf = set m.buf m.write_index v },
  record { pc = ProducePc.advance v; num_ops = ops; local_sum = sum },
)
produce_at rand (ProducePc.advance v) ops sum m = (
  record m { write_index = (m.write_index + 1) % buffer_size },
  record { pc = add v; num_ops = ops; local_sum = sum },
)
produce_at rand (add v) ops sum m =
    (m, record { pc = ProducePc.head; num_ops = ops - 1; local_sum = sum +ℤ v })
produce_at rand ProducePc.ended ops sum m =
    (m, record { pc = ProducePc.ended; num_ops = ops; local_sum = sum })

unfoldable pub consume_at : ConsumePc → ℕ → ℤ → SharedMemory → SharedMemory × Consuming
consume_at ConsumePc.head ops sum m = (
  m,
  record { pc = if ltb 0 ops then busy_wait else ConsumePc.ended; num_ops = ops; local_sum = sum },
)
consume_at busy_wait ops sum m = (
  m,
  record {
    pc = if ltb m.write_index m.read_index then busy_wait else read;
    num_ops = ops;
    local_sum = sum;
  },
)
consume_at read ops sum m = (
  m,
  record {
    pc = ConsumePc.advance (get_or m.buf m.read_index (pos 0));
    num_ops = ops;
    local_sum = sum;
  },
)
consume_at (ConsumePc.advance v) ops sum m = (
  record m { read_index = (m.read_index + 1) % buffer_size },
  record { pc = ConsumePc.head; num_ops = ops - 1; local_sum = sum +ℤ v },
)
consume_at ConsumePc.ended ops sum m =
    (m, record { pc = ConsumePc.ended; num_ops = ops; local_sum = sum })

pub record System : Type 0 where
  pub mem : SharedMemory
  pub producing : Producing
  pub consuming : Consuming

-- Which process runs next, and what the producer's call of `rand` returns.
pub data Run : Type 0 where
  producer : ℕ → Run
  consumer : Run

unfoldable pub step : System → Run → System
unfolding produce_at consume_at
step s (producer rand) =
    let p = s.producing in
    let (mem, p') = produce_at rand p.pc p.num_ops p.local_sum s.mem in
    record s { mem = mem; producing = p' }
step s consumer =
    let c = s.consuming in
    let (mem, c') = consume_at c.pc c.num_ops c.local_sum s.mem in
    record s { mem = mem; consuming = c' }

unfoldable pub run : System → List Run → System
unfolding step
run s [] = s
run s (t ∷ ts) = run (step s t) ts

-- `initMemory`, and both programs at their start; `garbage` is what `localSum` of the producer holds,
-- which is not initialised.
abbrev pub init : ℤ → System
init garbage = record {
  mem = record { buf = replicate buffer_size (pos 0); read_index = 0; write_index = 0 };
  producing = record { pc = ProducePc.head; num_ops = num_operations; local_sum = garbage };
  consuming = record { pc = ConsumePc.head; num_ops = num_operations; local_sum = pos 0 };
}
