-- ===== src/MutexSum.antt =====
-- Lab02/code/concurrent_threads.c: the threads add to a shared variable inside a semaphore.
pub mod Inv
pub mod Results
mod Tests
use esercitazioni_sistemi_di.Base.Threads.{all_threads}
use esercitazioni_sistemi_di.Base.{
  ℕ, zero, suc, ◌+◌, ◌-◌, ◌%◌, Bool, true, false, Option, none, some, List, [], ◌∷◌, replicate, set,
  get_elem?, ltb, ◌==◌, if◌then◌else◌,
}

-- The values of an `unsigned long int`
abbrev pub word_size : ℕ
word_size = 18446744073709551616

-- `shared_variable` and the value of `my_sem`
pub record Memory : Type 0 where
  pub shared : ℕ
  pub sem : ℕ

-- The place of a thread in `thread_work`. `shared_variable += v` loads and stores.
pub data Place : Type 0 where
  head wait_sem load : Place
  save : ℕ → Place
  post_sem ended : Place

pub record Thread : Type 0 where
  pub place : Place
  pub i : ℕ

-- One step of `thread_work`; a `sem_wait` on 0 changes nothing.
unfoldable pub thread_at : ℕ → ℕ → Place → ℕ → Memory → Memory × Thread
thread_at m v head i mem = (mem, record { place = if ltb i m then wait_sem else ended; i = i })
thread_at m v wait_sem i mem =
    if mem.sem == 0
    then (mem, record { place = wait_sem; i = i })
    else (record mem { sem = mem.sem - 1 }, record { place = load; i = i })
thread_at m v load i mem = (mem, record { place = save mem.shared; i = i })
thread_at m v (save x) i mem =
    (record mem { shared = (x + v) % word_size }, record { place = post_sem; i = i })
thread_at m v post_sem i mem =
    (record mem { sem = mem.sem + 1 }, record { place = head; i = i + 1 })
thread_at m v ended i mem = (mem, record { place = ended; i = i })

pub record System : Type 0 where
  pub mem : Memory
  pub threads : List Thread

-- The turn of thread `k`; a number that no thread has changes nothing.
unfoldable pub move : ℕ → ℕ → System → ℕ → Option Thread → System
unfolding thread_at
move m v s k none = s
move m v s k (some t) =
    let (mem, t') = thread_at m v t.place t.i s.mem in
    record { mem = mem; threads = set s.threads k t' }

unfoldable pub step : ℕ → ℕ → System → ℕ → System
unfolding move
step m v s k = move m v s k (get_elem? s.threads k)

unfoldable pub run : ℕ → ℕ → System → List ℕ → System
unfolding step
run m v s [] = s
run m v s (k ∷ ks) = run m v (step m v s k) ks

-- `main` when it has started the threads; one that is not started yet has had no turn.
abbrev pub init : ℕ → System
init n = record {
  mem = record { shared = 0; sem = 1 };
  threads = replicate n (record { place = head; i = 0 });
}

-- The joins of `main` return when all threads have ended.
abbrev pub has_ended : Thread → Bool
has_ended t = elim t.place [ ended ↦ true | _ ↦ false ]

abbrev pub joined : System → Bool
joined s = all_threads has_ended s.threads
