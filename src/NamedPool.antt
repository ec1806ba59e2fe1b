-- ===== src/NamedPool.antt =====
-- Lab03/code/es2: server.c, which keeps a named semaphore for the resources, and clients of client.c.
pub mod Inv
pub mod Runs
pub mod Results
mod Tests
use esercitazioni_sistemi_di.Base.{
  ℕ, ◌+◌, ◌-◌, Bool, true, false, Option, none, some, List, [], ◌∷◌, ◌++◌, length, get_elem?,
  get_or, set, ltb, ◌==◌, if◌then◌else◌,
}

abbrev pub num_resources : ℕ
num_resources = 3

abbrev pub thread_burst : ℕ
thread_burst = 5

-- The place of a thread in `client`; it keeps the number of the semaphore that it has opened.
pub data Place : Type 0 where
  open_sem : Place
  wait_sem post_sem close_sem : ℕ → Place
  thread_ended : Place

-- The place of the main thread of a client; `spawn i` is the loop that creates threads.
pub data Driver : Type 0 where
  key : Driver
  spawn : ℕ → Driver
  driver_ended : Driver

-- What `getchar` returns.
pub data Key : Type 0 where
  enter eof other : Key

-- A process of client.c. When `exit` is called all its threads stop where they are.
pub record Client : Type 0 where
  pub is_alive : Bool
  pub driver : Driver
  pub threads : List Place

pub data Server : Type 0 where
  unlink_old create : Server
  logging : ℕ → Server
  cleanup stopped : Server

-- The semaphores created so far with their values, the one that has the name, the programs, and the
-- numbers that the server has printed: available and in use.
pub record System : Type 0 where
  pub values : List ℕ
  pub named : Option ℕ
  pub server : Server
  pub clients : List Client
  pub logs : List (ℕ × ℕ)

-- What a step of a thread does: it changes a semaphore and moves on, or it calls `exit`.
pub data Effect : Type 0 where
  moves : List ℕ → Place → Effect
  exits : Effect

abbrev pub opened : List ℕ → Option ℕ → Effect
opened values none = exits
opened values (some h) = moves values (wait_sem h)

-- `client` by steps. A `sem_wait` on 0 changes nothing; the other calls do not fail here.
unfoldable pub client_at : Place → List ℕ → Option ℕ → Effect
client_at open_sem values named = opened values named
client_at (wait_sem h) values named =
    if get_or values h 0 == 0
    then moves values (wait_sem h)
    else moves (set values h (get_or values h 0 - 1)) (post_sem h)
client_at (post_sem h) values named = moves (set values h (get_or values h 0 + 1)) (close_sem h)
client_at (close_sem h) values named = moves values thread_ended
client_at thread_ended values named = moves values thread_ended

-- The main loop of client.c by steps. Behind the loop `pthread_exit` leaves the other threads running.
unfoldable pub driver_at : Key → Driver → Client → Client
driver_at enter Driver.key c = record c { driver = spawn 0 }
driver_at eof Driver.key c = record c { driver = driver_ended }
driver_at other Driver.key c = c
driver_at k (spawn i) c =
    if ltb i thread_burst
    then record c { driver = spawn (i + 1); threads = c.threads ++ open_sem ∷ [] }
    else record c { driver = Driver.key }
driver_at k driver_ended c = c

abbrev pub created : System → Option ℕ → System
created s (some h) = record s { server = stopped }
created s none = record s {
  values = s.values ++ num_resources ∷ [];
  named = some (length s.values);
  server = logging (length s.values);
}

-- server.c by steps: `main`, and `cleanup`.
unfoldable pub server_at : Server → System → System
server_at unlink_old s = record s { named = none; server = create }
server_at create s = created s s.named
server_at (logging h) s =
    let current_value = get_or s.values h 0 in
    record s { logs = s.logs ++ (current_value, num_resources - current_value) ∷ [] }
server_at cleanup s = record s { named = none; server = stopped }
server_at stopped s = s

-- CTRL+C at the server, and a start of the server.
unfoldable pub quit_at : Server → System → System
quit_at (logging h) s = record s { server = cleanup }
quit_at server s = s

unfoldable pub start_at : Server → System → System
start_at stopped s = record s { server = unlink_old }
start_at server s = s

pub data Turn : Type 0 where
  server_turn quit_signal start_server start_client : Turn
  driver_turn : ℕ → Key → Turn
  thread_turn : ℕ → ℕ → Turn

unfoldable pub after_thread : System → ℕ → ℕ → Client → Effect → System
after_thread s i j c (moves values p) = record s {
  values = values;
  clients = set s.clients i (record c { threads = set c.threads j p });
}
after_thread s i j c exits = record s { clients = set s.clients i (record c { is_alive = false }) }

unfoldable pub move_thread : System → ℕ → ℕ → Client → Option Place → System
unfolding after_thread client_at
move_thread s i j c none = s
move_thread s i j c (some p) =
    if c.is_alive then after_thread s i j c (client_at p s.values s.named) else s

unfoldable pub move_thread_of : System → ℕ → ℕ → Option Client → System
unfolding move_thread
move_thread_of s i j none = s
move_thread_of s i j (some c) = move_thread s i j c (get_elem? c.threads j)

unfoldable pub move_driver : System → ℕ → Key → Option Client → System
unfolding driver_at
move_driver s i k none = s
move_driver s i k (some c) =
    if c.is_alive then record s { clients = set s.clients i (driver_at k c.driver c) } else s

unfoldable pub step : System → Turn → System
unfolding server_at quit_at start_at move_driver move_thread_of
step s server_turn = server_at s.server s
step s quit_signal = quit_at s.server s
step s start_server = start_at s.server s
step s start_client = record s {
  clients = s.clients ++ record { is_alive = true; driver = Driver.key; threads = [] } ∷ [];
}
step s (driver_turn i k) = move_driver s i k (get_elem? s.clients i)
step s (thread_turn i j) = move_thread_of s i j (get_elem? s.clients i)

unfoldable pub run : System → List Turn → System
unfolding step
run s [] = s
run s (t ∷ ts) = run (step s t) ts

-- Before the first start: whatever `name` a former run has left, it is no semaphore of this one.
abbrev pub init : System
init = record { values = []; named = none; server = stopped; clients = []; logs = [] }
