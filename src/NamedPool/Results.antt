-- ===== src/NamedPool/Results.antt =====
-- What the semaphores and the logs of Lab03/code/es2 say, for any starts, signals and clients.
use esercitazioni_sistemi_di.Base.{
  ℕ, ◌+◌, ◌-◌, ◌≤◌, ◌<◌, ◌≡◌, refl, ap, subst, ◌∙◌, true, Option, none, some, List, [], ◌∷◌, ◌++◌,
  length, get_elem?, get_or, set, if◌then◌else◌, if_cases, arith,
}
use esercitazioni_sistemi_di.Base.Threads.{total, total-set, total-append, total-add-le}
use esercitazioni_sistemi_di.NamedPool.{
  num_resources, Place, Key, Client, Server, unlink_old, create, logging, cleanup, stopped, System,
  Effect, moves, exits, created, server_at, quit_at, start_at, Turn, server_turn, quit_signal,
  start_server, start_client, driver_turn, thread_turn, after_thread, move_thread, move_thread_of,
  move_driver, step, run, init,
}
use esercitazioni_sistemi_di.NamedPool.Inv.{held, ServerBelow}
use esercitazioni_sistemi_di.NamedPool.Runs.{run-Inv, init-Inv}

-- For each semaphore that the server has created, in every run: its value and the threads between
-- their `sem_wait` and their `sem_post` on it, those of exited clients included, add up to
-- `NUM_RESOURCES`.
pub resources_counted :
    (ts : List Turn) (h : ℕ)
    → h < length (run init ts).values
    → get_or (run init ts).values h 0 + total (held h) (run init ts).clients ≡ num_resources
resources_counted ts h lt = (run-Inv init ts init-Inv).balance h lt

logging-logs :
    (place : Server) (s : System) (h : ℕ)
    → place ≡ logging h
    → (server_at place s).logs
      ≡ s.logs ++ (get_or s.values h 0, num_resources - get_or s.values h 0) ∷ []
unfolding server_at
logging-logs place s h e = ap (λ (p : Server). (server_at p s).logs) e

-- What the server prints next is true: the resources that are available, and as those in use the
-- number of threads between their `sem_wait` and their `sem_post`.
pub step-logs :
    (ts : List Turn) (h : ℕ)
    → (run init ts).server ≡ logging h
    → (step (run init ts) server_turn).logs
      ≡ (run init ts).logs
        ++ (get_or (run init ts).values h 0, total (held h) (run init ts).clients) ∷ []
unfolding step
step-logs ts h e =
    let s = run init ts in
    let v = run-Inv init ts init-Inv in
    let below : h < length s.values =
      subst (λ (p : Server). ServerBelow (length s.values) p) e v.server in
    logging-logs s.server s h e
    ∙ ap (λ k. s.logs ++ (get_or s.values h 0, k) ∷ []) {y = total (held h) s.clients}
        (omega (arith, v.balance h below))

-- What the threads of a client hold when it has exited.
abbrev pub lost : ℕ → Client → ℕ
lost h c = if c.is_alive then 0 else held h c

lost-le-held : (h : ℕ) (cs : List Client) → total (lost h) cs ≤ total (held h) cs
lost-le-held h cs = omega (arith, total-add-le (lost h) (λ c. 0) (held h) (λ c. ground arith) cs)

alive_set :
    (h : ℕ) (cs : List Client) (i : ℕ) (c c' : Client)
    → get_elem? cs i ≡ some c
    → c.is_alive ≡ true
    → total (lost h) cs ≤ total (lost h) (set cs i c')
alive_set h cs i c c' g live =
    let none_lost : lost h c ≡ 0 = ground arith in
    omega (arith, none_lost, total-set (lost h) cs i c c' g)

after_thread-lost :
    (h : ℕ) (s : System) (i j : ℕ) (c : Client) (e : Effect)
    → get_elem? s.clients i ≡ some c
    → c.is_alive ≡ true
    → total (lost h) s.clients ≤ total (lost h) (after_thread s i j c e).clients
unfolding after_thread
after_thread-lost h s i j c (moves values p) g live = alive_set h s.clients i c _ g live
after_thread-lost h s i j c exits g live = alive_set h s.clients i c _ g live

move_thread-lost :
    (h : ℕ) (s : System) (i j : ℕ) (c : Client) (o : Option Place)
    → get_elem? s.clients i ≡ some c
    → total (lost h) s.clients ≤ total (lost h) (move_thread s i j c o).clients
unfolding move_thread
move_thread-lost h s i j c none g = omega arith
move_thread-lost h s i j c (some p) g =
    if_cases (λ (s' : System). total (lost h) s.clients ≤ total (lost h) s'.clients) c.is_alive _ _
      (λ live. after_thread-lost h s i j c _ g live) (λ _. omega arith)

move_thread_of-lost :
    (h : ℕ) (s : System) (i j : ℕ) (o : Option Client)
    → get_elem? s.clients i ≡ o
    → total (lost h) s.clients ≤ total (lost h) (move_thread_of s i j o).clients
unfolding move_thread_of
move_thread_of-lost h s i j none g = omega arith
move_thread_of-lost h s i j (some c) g = move_thread-lost h s i j c _ g

move_driver-lost :
    (h : ℕ) (s : System) (i : ℕ) (k : Key) (o : Option Client)
    → get_elem? s.clients i ≡ o
    → total (lost h) s.clients ≤ total (lost h) (move_driver s i k o).clients
unfolding move_driver
move_driver-lost h s i k none g = omega arith
move_driver-lost h s i k (some c) g =
    if_cases (λ (s' : System). total (lost h) s.clients ≤ total (lost h) s'.clients) c.is_alive _ _
      (λ live. alive_set h s.clients i c _ g live) (λ _. omega arith)

created-clients : (s : System) (o : Option ℕ) → (created s o).clients ≡ s.clients
created-clients s none = refl
created-clients s (some h) = refl

server_at-clients : (place : Server) (s : System) → (server_at place s).clients ≡ s.clients
unfolding server_at
server_at-clients unlink_old s = refl
server_at-clients create s = created-clients s s.named
server_at-clients (logging h) s = refl
server_at-clients cleanup s = refl
server_at-clients stopped s = refl

quit_at-clients : (place : Server) (s : System) → (quit_at place s).clients ≡ s.clients
unfolding quit_at
quit_at-clients (logging h) s = refl
quit_at-clients unlink_old s = refl
quit_at-clients create s = refl
quit_at-clients cleanup s = refl
quit_at-clients stopped s = refl

start_at-clients : (place : Server) (s : System) → (start_at place s).clients ≡ s.clients
unfolding start_at
start_at-clients stopped s = refl
start_at-clients unlink_old s = refl
start_at-clients create s = refl
start_at-clients cleanup s = refl
start_at-clients (logging h) s = refl

le_same : (h : ℕ) (cs cs' : List Client) → cs' ≡ cs → total (lost h) cs ≤ total (lost h) cs'
le_same h cs cs' e = omega (arith, ap (total (lost h)) e)

step-lost :
    (h : ℕ) (s : System) (t : Turn) → total (lost h) s.clients ≤ total (lost h) (step s t).clients
unfolding step
step-lost h s server_turn = le_same h s.clients _ (server_at-clients s.server s)
step-lost h s quit_signal = le_same h s.clients _ (quit_at-clients s.server s)
step-lost h s start_server = le_same h s.clients _ (start_at-clients s.server s)
step-lost h s start_client = omega (arith, total-append (lost h) s.clients _)
step-lost h s (driver_turn i k) = move_driver-lost h s i k (get_elem? s.clients i) refl
step-lost h s (thread_turn i j) = move_thread_of-lost h s i j (get_elem? s.clients i) refl

run-lost :
    (h : ℕ) (s : System) (ts : List Turn)
    → total (lost h) s.clients ≤ total (lost h) (run s ts).clients
unfolding run
run-lost h s [] = omega arith
run-lost h s (t ∷ ts) = omega (arith, step-lost h s t, run-lost h (step s t) ts)

-- What the threads of a client held when it exited is lost: in every continuation of every run, the
-- value of the semaphore is at most `NUM_RESOURCES` less the number of those threads.
pub lost_for_ever :
    (ts later : List Turn) (h : ℕ)
    → h < length (run (run init ts) later).values
    → get_or (run (run init ts) later).values h 0 + total (lost h) (run init ts).clients
      ≤ num_resources
lost_for_ever ts later h lt =
    let s = run init ts in
    let s' = run s later in
    let v = run-Inv s later (run-Inv init ts init-Inv) in
    omega (arith, v.balance h lt, run-lost h s later, lost-le-held h s'.clients)
