-- ===== src/Scheduler.antt =====
-- Lab02/code/scheduler.c: bursts of threads that share three resources, and the driver that spawns them.
pub mod Clients
pub mod Reached
pub mod Results
mod Tests
use esercitazioni_sistemi_di.Base.{
  ℕ, ◌+◌, ◌-◌, ◌≡◌, Bool, true, false, ◌&&◌, some, List, [], ◌∷◌, ◌++◌, ltb, ◌==◌, if◌then◌else◌,
  get_elem?, set,
}
use esercitazioni_sistemi_di.Base.Int.{ℤ, pos, negsuc, ◌+ℤ◌}

abbrev pub num_resources : ℕ
num_resources = 3

abbrev pub num_tasks : ℕ
num_tasks = 3

abbrev pub thread_burst : ℕ
thread_burst = 5

-- The two semaphores, and the `int` ACTIVE_THREADS.
pub record Memory : Type 0 where
  pub semaphore : ℕ
  pub sem_exit : ℕ
  pub active_threads : ℤ

-- Where a thread stands: before what the constructor names, with the `i` of its loop. The first loop
-- works twice in a section. ACTIVE_THREADS-- is a load and a save.
pub data ClientPc : Type 0 where
  pair_head pair_wait pair_first pair_second pair_post : ℕ → ClientPc
  one_head one_wait one_work one_post : ℕ → ClientPc
  exit_wait exit_load : ClientPc
  exit_save : ℤ → ClientPc
  exit_post done : ClientPc

-- A thread, with the number of its work items, which are calls of `sleep`.
pub record Client : Type 0 where
  pub pc : ClientPc
  pub items : ℕ

-- One step of `client`, from args->num_tasks. A `sem_wait` at 0 blocks: nothing changes.
unfoldable pub client_at : ℕ → ClientPc → ℕ → Memory → Memory × Client
client_at n (pair_head i) items m =
    (m, record { pc = if ltb i n then pair_wait i else one_head 0; items = items })
client_at n (pair_wait i) items m =
    if m.semaphore == 0
    then (m, record { pc = pair_wait i; items = items })
    else (record m { semaphore = m.semaphore - 1 }, record { pc = pair_first i; items = items })
client_at n (pair_first i) items m = (m, record { pc = pair_second i; items = items + 1 })
client_at n (pair_second i) items m = (m, record { pc = pair_post i; items = items + 1 })
client_at n (pair_post i) items m =
    (record m { semaphore = m.semaphore + 1 }, record { pc = pair_head (i + 2); items = items })
client_at n (one_head i) items m =
    (m, record { pc = if ltb i n then one_wait i else exit_wait; items = items })
client_at n (one_wait i) items m =
    if m.semaphore == 0
    then (m, record { pc = one_wait i; items = items })
    else (record m { semaphore = m.semaphore - 1 }, record { pc = one_work i; items = items })
client_at n (one_work i) items m = (m, record { pc = one_post i; items = items + 1 })
client_at n (one_post i) items m =
    (record m { semaphore = m.semaphore + 1 }, record { pc = one_head (i + 1); items = items })
client_at n exit_wait items m =
    if m.sem_exit == 0
    then (m, record { pc = exit_wait; items = items })
    else (record m { sem_exit = m.sem_exit - 1 }, record { pc = exit_load; items = items })
client_at n exit_load items m = (m, record { pc = exit_save m.active_threads; items = items })
client_at n (exit_save x) items m =
    (record m { active_threads = x +ℤ negsuc 0 }, record { pc = exit_post; items = items })
client_at n exit_post items m =
    (record m { sem_exit = m.sem_exit + 1 }, record { pc = done; items = items })
client_at n done items m = (m, record { pc = done; items = items })

-- The points at which a semaphore call may fail, and the process exit.
abbrev pub calls_semaphore : ClientPc → Bool
calls_semaphore pc = elim pc [
  | pair_wait _ ↦ true
  | pair_post _ ↦ true
  | one_wait _ ↦ true
  | one_post _ ↦ true
  | exit_wait ↦ true
  | exit_post ↦ true
  | _ ↦ false
]

-- The points at which a thread calls a function on `semaphore`.
abbrev uses_semaphore : ClientPc → Bool
uses_semaphore pc = elim pc [
  | pair_wait _ ↦ true
  | pair_post _ ↦ true
  | one_wait _ ↦ true
  | one_post _ ↦ true
  | _ ↦ false
]

-- What `getchar` returns.
pub data Key : Type 0 where
  enter eof other : Key

-- Where `main` stands: in its loop, or behind it; at `destroy` it destroys and frees `semaphore`, and at
-- `destroy_exit` it destroys `sem_exit`.
pub data Driver : Type 0 where
  read_key : Driver
  spawn : ℕ → Driver
  wait_exit spin destroy post_exit destroy_exit main_ended : Driver

pub record System : Type 0 where
  pub mem : Memory
  pub driver : Driver
  pub clients : List Client
  pub running : Bool

abbrev pub is_zero : ℤ → Bool
is_zero (pos n) = n == 0
is_zero (negsuc n) = false

-- One step of `main`.
unfoldable pub driver_at : Key → Driver → System → System
driver_at enter read_key s = record s { driver = spawn 0 }
driver_at eof read_key s = record s { driver = wait_exit }
driver_at other read_key s = s
driver_at key (spawn i) s =
    if ltb i thread_burst
    then record s {
      driver = spawn (i + 1);
      clients = s.clients ++ record { pc = pair_head 0; items = 0 } ∷ [];
    }
    else record s { driver = read_key }
driver_at key wait_exit s =
    if s.mem.sem_exit == 0
    then s
    else record s { mem = record s.mem { sem_exit = s.mem.sem_exit - 1 }; driver = spin }
driver_at key spin s = record s { driver = if is_zero s.mem.active_threads then destroy else spin }
driver_at key destroy s = record s { driver = post_exit }
driver_at key post_exit s = record s {
  mem = record s.mem { sem_exit = s.mem.sem_exit + 1 };
  driver = destroy_exit;
}
driver_at key destroy_exit s = record s { driver = main_ended }
driver_at key main_ended s = s

-- whether `semaphore` is gone
abbrev pub is_destroyed : Driver → Bool
is_destroyed post_exit = true
is_destroyed destroy_exit = true
is_destroyed main_ended = true
is_destroyed d = false

-- whether a thread would call a function on a semaphore that is gone: at the end `sem_exit` is, too
abbrev pub uses_destroyed : Driver → ClientPc → Bool
uses_destroyed post_exit pc = uses_semaphore pc
uses_destroyed destroy_exit pc = uses_semaphore pc
uses_destroyed main_ended pc = calls_semaphore pc
uses_destroyed d pc = false

abbrev pub moved : System → ℕ → Memory × Client → System
moved s i (m, c) = record s { mem = m; clients = set s.clients i c }

-- The steps of the program with `n` tasks for each thread, in any order: main, a thread, and a
-- semaphore call of a thread that fails. A call on a semaphore that is gone has no defined behaviour,
-- and is no step: the states reached are those of runs without one.
pub data Step (n : ℕ) : System → System → Type 0 where
  main_step : {s : System} (key : Key) → s.running ≡ true → Step n s (driver_at key s.driver s)
  client_step :
      {s : System} (i : ℕ) (c : Client)
      → s.running ≡ true
      → get_elem? s.clients i ≡ some c
      → uses_destroyed s.driver c.pc ≡ false
      → Step n s (moved s i (client_at n c.pc c.items s.mem))
  client_exits :
      {s : System} (i : ℕ) (c : Client)
      → s.running ≡ true
      → get_elem? s.clients i ≡ some c
      → uses_destroyed s.driver c.pc ≡ false
      → calls_semaphore c.pc ≡ true
      → Step n s (record s { running = false })

-- What `main` sets up before its loop.
abbrev pub init : System
init = record {
  mem = record {
    semaphore = num_resources;
    sem_exit = thread_burst;
    active_threads = pos thread_burst;
  };
  driver = read_key;
  clients = [];
  running = true;
}

-- The states that a run reaches.
pub data Reach (n : ℕ) : System → Type 0 where
  here : Reach n init
  next : {s t : System} → Reach n s → Step n s t → Reach n t
