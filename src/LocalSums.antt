-- ===== src/LocalSums.antt =====
-- Lab01/code/concurrent_threads.c: each thread adds up in its own cell, and `main` adds the cells.
pub mod Sums
pub mod Joins
mod Tests
use esercitazioni_sistemi_di.Base.{
  ℕ, zero, suc, ◌+◌, ◌-◌, ◌*◌, ◌%◌, ◌/◌, Bool, true, false, ◌&&◌, Option, none, some, List, [], ◌∷◌,
  replicate, ltb, if◌then◌else◌,
}

-- The values of an `unsigned long int`
abbrev pub word_size : ℕ
word_size = 18446744073709551616

-- A thread of `thread_work`: its loop counter, its `local`, the cell `*arg`, and whether it has
-- returned.
pub record Thread : Type 0 where
  pub i : ℕ
  pub local_sum : ℕ
  pub cell : ℕ
  pub ended : Bool

-- A new thread; its cell comes from `calloc`.
abbrev pub new_thread : Thread
new_thread = record { i = 0; local_sum = 0; cell = 0; ended = false }

-- One step of `thread_work`: a round of its loop, or the store into the cell and the return.
unfoldable pub thread_work : ℕ → ℕ → Thread → Thread
thread_work m v t =
    if t.ended
    then t
    else if ltb t.i m
    then record t { i = t.i + 1; local_sum = t.local_sum + v }
    else record t { cell = t.local_sum; ended = true }

-- The turn of thread `k`.
unfoldable pub step : ℕ → ℕ → ℕ → List Thread → List Thread
unfolding thread_work
step m v k [] = []
step m v zero (t ∷ ts) = thread_work m v t ∷ ts
step m v (suc k) (t ∷ ts) = t ∷ step m v k ts

unfoldable pub run : ℕ → ℕ → List ℕ → List Thread → List Thread
unfolding step
run m v [] ts = ts
run m v (k ∷ ks) ts = run m v ks (step m v k ts)

-- The threads that the first loop of `main` starts.
abbrev pub start : ℕ → List Thread
start n = replicate n new_thread

-- The joins of `main` return when all threads have.
abbrev pub all_ended : List Thread → Bool
all_ended [] = true
all_ended (t ∷ ts) = t.ended && all_ended ts

-- The loop of `main` that adds the cells to `shared_variable`.
abbrev pub add_cells : List Thread → ℕ → ℕ
add_cells [] shared_variable = shared_variable
add_cells (t ∷ ts) shared_variable = add_cells ts ((shared_variable + t.cell) % word_size)

-- `shared_variable` after the joins.
unfoldable pub shared_variable : List Thread → Option ℕ
shared_variable ts = if all_ended ts then some (add_cells ts 0) else none

abbrev pub expected_value : ℕ → ℕ → ℕ → ℕ
expected_value n m v = (n * (m * v)) % word_size
