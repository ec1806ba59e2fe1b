-- ===== src/FifoValues.antt =====
-- Lab07/src/01 prod_cons: integers as messages of four bytes through a FIFO, producer.c and
-- consumer.c.
pub mod Words
pub mod Messages
mod Tests
use esercitazioni_sistemi_di.Base.{
  ℕ, zero, suc, ◌+◌, ◌-◌, ◌*◌, ◌/◌, ◌%◌, ◌^◌, List, [], ◌∷◌, leb, if◌then◌else◌,
}
use esercitazioni_sistemi_di.Posix.{
  Event, Status, returned, exited, waiting, Written, write_loop, Filled, read_loop,
}

-- `MAX_TRANSACTION`
abbrev pub max_transaction : ℕ
max_transaction = 1000

-- An `int` is a word of 32 bits, as two's complement.
abbrev pub word_size : ℕ
word_size = 4294967296

-- `performRandomTransaction`, from the result of `rand()`.
unfoldable pub perform_random_transaction : ℕ → ℕ
perform_random_transaction rand =
    let amount = rand % (2 * max_transaction) in
    if leb max_transaction amount then (word_size + max_transaction) - (amount + 1) else amount + 1

-- The bytes of an `int` in memory, the lowest first.
abbrev pub bytes_of : ℕ → List ℕ
bytes_of v = v % 256 ∷ v / 256 % 256 ∷ v / 65536 % 256 ∷ v / 16777216 % 256 ∷ []

abbrev pub int_of : List ℕ → ℕ
int_of [] = 0
int_of (b ∷ bs) = b + 256 * int_of bs

-- `writeValue`
unfoldable pub write_value : List Event → ℕ → List ℕ → Written
write_value kernel value out = write_loop (λ n. n) kernel (bytes_of value) 4 0 out

-- `readValue`: the end of the input is an error.
unfoldable pub read_value : List Event → List ℕ → List ℕ → Filled
read_value kernel input value = read_loop exited (λ n. n) kernel input value 4 0

-- The end of `produce`.
pub record Produced : Type 0 where
  pub status : Status
  pub out : List ℕ
  pub local_sum : ℕ
  pub kernel : List Event

-- What follows a `writeValue`; `next` is the rest of the loop, after `localSum += value`.
unfoldable pub after_write_value :
    Status → ℕ → (List Event → List ℕ → Produced) → Written → Produced
after_write_value returned local_sum next w = next w.kernel w.out
after_write_value other local_sum next w = record {
  status = other;
  out = w.out;
  local_sum = local_sum;
  kernel = w.kernel;
}

-- `produce`; `rand k` is the result of `rand()` when `numOps` is `k`.
unfoldable pub produce : (ℕ → ℕ) → ℕ → List Event → ℕ → List ℕ → Produced
unfolding write_value after_write_value
produce rand zero kernel local_sum out = record {
  status = returned;
  out = out;
  local_sum = local_sum;
  kernel = kernel;
}
produce rand (suc num_ops) kernel local_sum out =
    let value = perform_random_transaction (rand (suc num_ops)) in
    let w = write_value kernel value out in
    after_write_value w.status local_sum
      (λ k o. produce rand num_ops k ((local_sum + value) % word_size) o) w

-- The end of `consume`.
pub record Consumed : Type 0 where
  pub status : Status
  pub input : List ℕ
  pub local_sum : ℕ
  pub kernel : List Event

unfoldable pub after_read_value :
    Status → ℕ → (List Event → List ℕ → List ℕ → Consumed) → Filled → Consumed
after_read_value returned local_sum next f = next f.kernel f.input f.buf
after_read_value other local_sum next f = record {
  status = other;
  input = f.input;
  local_sum = local_sum;
  kernel = f.kernel;
}

-- `consume`; `value` is the memory of its variable.
unfoldable pub consume : ℕ → List Event → ℕ → List ℕ → List ℕ → Consumed
unfolding read_value after_read_value
consume zero kernel local_sum input value = record {
  status = returned;
  input = input;
  local_sum = local_sum;
  kernel = kernel;
}
consume (suc num_ops) kernel local_sum input value =
    let f = read_value kernel input value in
    after_read_value f.status local_sum
      (λ k i b. consume num_ops k ((local_sum + int_of b) % word_size) i b) f
