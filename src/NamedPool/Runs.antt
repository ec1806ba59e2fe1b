-- ===== src/NamedPool/Runs.antt =====
-- Lab03/code/es2: the invariant holds in every run.
use esercitazioni_sistemi_di.Base.{
  ℕ, ◌+◌, ◌≤◌, ◌<◌, ◌≡◌, refl, sym, ap, subst, ◌∙◌, true, false, Option, none, some, List, [], ◌∷◌,
  ◌++◌, length, get_elem?, set, ltb, if_cases, arith, ℕ_discrete, length-append, get_or-append_left,
  get_or-append_end,
}
use esercitazioni_sistemi_di.Base.Threads.{
  total, total-set, total-append, total-add-le, weight-le-total,
}
use esercitazioni_sistemi_di.NamedPool.{
  num_resources, Place, open_sem, Driver, spawn, driver_ended, Key, enter, eof, other, Client,
  Server, unlink_old, create, logging, cleanup, stopped, System, Effect, moves, exits, driver_at,
  created, server_at, quit_at, start_at, Turn, server_turn, quit_signal, start_server, start_client,
  driver_turn, thread_turn, after_thread, move_thread, move_thread_of, move_driver, step, run, init,
  thread_burst,
}
use esercitazioni_sistemi_di.NamedPool.Inv.{
  holds, held, stray, strays, NamedBelow, ServerBelow, Inv, Fits, client_at-Fits,
}

after_thread-Inv :
    (s : System) (i j : ℕ) (c : Client) (p : Place) (e : Effect)
    → get_elem? s.clients i ≡ some c
    → get_elem? c.threads j ≡ some p
    → Fits s.values p e
    → Inv s
    → Inv (after_thread s i j c e)
unfolding after_thread
after_thread-Inv s i j c p (moves values p') h g mv v =
    let c' : Client = record c { threads = set c.threads j p' } in
    record {
      balance = λ k lt. omega (
        arith,
        mv.balance k (omega (arith, mv.size)),
        v.balance k (omega (arith, mv.size)),
        total-set (holds k) c.threads j p p' g,
        total-set (held k) s.clients i c c' h,
      );
      no_stray =
          ap (λ n. total (strays n) (set s.clients i c')) mv.size
          ∙ omega (
            arith,
            mv.no_stray,
            v.no_stray,
            total-set (stray (length s.values)) c.threads j p p' g,
            total-set (strays (length s.values)) s.clients i c c' h,
          );
      named = subst (λ n. NamedBelow n s.named) (sym mv.size) v.named;
      server = subst (λ n. ServerBelow n s.server) (sym mv.size) v.server;
    }
after_thread-Inv s i j c p exits h g mv v =
    let c' : Client = record c { is_alive = false } in
    record {
      balance = λ k lt. omega (arith, v.balance k lt, total-set (held k) s.clients i c c' h);
      no_stray = omega (arith, v.no_stray, total-set (strays (length s.values)) s.clients i c c' h);
      named = v.named;
      server = v.server;
    }

move_thread-Inv :
    (s : System) (i j : ℕ) (c : Client) (o : Option Place)
    → get_elem? s.clients i ≡ some c
    → get_elem? c.threads j ≡ o
    → Inv s
    → Inv (move_thread s i j c o)
unfolding move_thread
move_thread-Inv s i j c none h g v = v
move_thread-Inv s i j c (some p) h g v =
    let n = length s.values in
    let below : stray n p ≡ 0 = omega (
      arith,
      v.no_stray,
      weight-le-total (stray n) c.threads j p g,
      weight-le-total (strays n) s.clients i c h,
    ) in
    if_cases Inv c.is_alive _ _
      (λ _. after_thread-Inv s i j c p _ h g (client_at-Fits p s.values s.named below v.named) v)
      (λ _. v)

move_thread_of-Inv :
    (s : System) (i j : ℕ) (o : Option Client)
    → get_elem? s.clients i ≡ o
    → Inv s
    → Inv (move_thread_of s i j o)
unfolding move_thread_of
move_thread_of-Inv s i j none h v = v
move_thread_of-Inv s i j (some c) h v = move_thread-Inv s i j c (get_elem? c.threads j) h refl v

-- The main thread of a client creates threads that hold nothing.
pub driver_at-total :
    (w : Place → ℕ) (k : Key) (d : Driver) (c : Client)
    → w open_sem ≡ 0
    → total w (driver_at k d c).threads ≡ total w c.threads
unfolding driver_at
driver_at-total w enter Driver.key c z = refl
driver_at-total w eof Driver.key c z = refl
driver_at-total w other Driver.key c z = refl
driver_at-total w k (spawn i) c z =
    if_cases (λ (c' : Client). total w c'.threads ≡ total w c.threads) (ltb i thread_burst) _ _
      (λ _. omega (arith, total-append w c.threads open_sem, z)) (λ _. refl)
driver_at-total w k driver_ended c z = refl

move_driver-Inv :
    (s : System) (i : ℕ) (k : Key) (o : Option Client)
    → get_elem? s.clients i ≡ o
    → Inv s
    → Inv (move_driver s i k o)
unfolding move_driver
move_driver-Inv s i k none h v = v
move_driver-Inv s i k (some c) h v =
    let c' = driver_at k c.driver c in
    if_cases Inv c.is_alive _ _
      (λ _. record {
        balance = λ l lt. omega (
          arith,
          v.balance l lt,
          total-set (held l) s.clients i c c' h,
          driver_at-total (holds l) k c.driver c refl,
        );
        no_stray = omega (
          arith,
          v.no_stray,
          total-set (strays (length s.values)) s.clients i c c' h,
          driver_at-total (stray (length s.values)) k c.driver c refl,
        );
        named = v.named;
        server = v.server;
      })
      (λ _. v)

-- No thread holds a semaphore that is created now, or has opened one behind it.
none_hold : (n : ℕ) (cs : List Client) → total (strays n) cs ≡ 0 → total (held n) cs ≡ 0
none_hold n cs z =
    let le = total-add-le (held n) (λ c. 0) (strays n) (λ c. weights c.threads) cs in
    omega (arith, z, le)
  where
    weights : (ps : List Place) → total (holds n) ps + 0 ≤ total (stray n) ps
    weights ps = omega (arith, total-add-le (holds n) (λ p. 0) (stray n) (λ p. ground arith) ps)

fewer_strays : (n : ℕ) (cs : List Client) → total (strays n) cs ≡ 0 → total (strays (n + 1)) cs ≡ 0
fewer_strays n cs z =
    let le = total-add-le (strays (n + 1)) (λ c. 0) (strays n) (λ c. weights c.threads) cs in
    omega (arith, z, le)
  where
    weights : (ps : List Place) → total (stray (n + 1)) ps + 0 ≤ total (stray n) ps
    weights ps =
        omega (arith, total-add-le (stray (n + 1)) (λ p. 0) (stray n) (λ p. ground arith) ps)

created-Inv :
    (s : System) (o : Option ℕ) → NamedBelow (length s.values) o → Inv s → Inv (created s o)
created-Inv s (some h) b v = record {
  balance = v.balance;
  no_stray = v.no_stray;
  named = v.named;
  server = tt;
}
created-Inv s none b v =
    let n = length s.values in
    let size : length (s.values ++ num_resources ∷ []) ≡ n + 1 =
      omega (arith, length-append s.values (num_resources ∷ [])) in
    record {
      balance = λ h lt. elim (ℕ_discrete h n) [
        | yes e ↦
            ap (λ k. k + total (held h) s.clients) (get_or-append_end s.values num_resources h 0 e)
            ∙ ap (λ k. 3 + total (held k) s.clients) e
            ∙ ap (λ k. 3 + k) (none_hold n s.clients v.no_stray)
        | no ne ↦
            let before : h < n = omega (arith, size) in
            ap (λ k. k + total (held h) s.clients)
              (get_or-append_left s.values (num_resources ∷ []) h 0 before)
            ∙ v.balance h before
      ];
      no_stray = ap (λ k. total (strays k) s.clients) size ∙ fewer_strays n s.clients v.no_stray;
      named = omega (arith, size);
      server = omega (arith, size);
    }

server_at-Inv : (place : Server) (s : System) → s.server ≡ place → Inv s → Inv (server_at place s)
unfolding server_at
server_at-Inv unlink_old s e v = record {
  balance = v.balance;
  no_stray = v.no_stray;
  named = tt;
  server = tt;
}
server_at-Inv create s e v = created-Inv s s.named v.named v
server_at-Inv (logging h) s e v = record {
  balance = v.balance;
  no_stray = v.no_stray;
  named = v.named;
  server = v.server;
}
server_at-Inv cleanup s e v = record {
  balance = v.balance;
  no_stray = v.no_stray;
  named = tt;
  server = tt;
}
server_at-Inv stopped s e v = v

-- A signal or a start changes only the place of the server.
placed :
    (s : System) (place : Server)
    → Inv s
    → ServerBelow (length s.values) place
    → Inv (record s { server = place })
placed s place v b = record {
  balance = v.balance;
  no_stray = v.no_stray;
  named = v.named;
  server = b;
}

quit_at-Inv : (place : Server) (s : System) → Inv s → Inv (quit_at place s)
unfolding quit_at
quit_at-Inv (logging h) s v = placed s cleanup v tt
quit_at-Inv unlink_old s v = v
quit_at-Inv create s v = v
quit_at-Inv cleanup s v = v
quit_at-Inv stopped s v = v

start_at-Inv : (place : Server) (s : System) → Inv s → Inv (start_at place s)
unfolding start_at
start_at-Inv stopped s v = placed s unlink_old v tt
start_at-Inv unlink_old s v = v
start_at-Inv create s v = v
start_at-Inv cleanup s v = v
start_at-Inv (logging h) s v = v

abbrev new_client : Client
new_client = record { is_alive = true; driver = Driver.key; threads = [] }

step-Inv : (s : System) (t : Turn) → Inv s → Inv (step s t)
unfolding step total
step-Inv s server_turn v = server_at-Inv s.server s refl v
step-Inv s quit_signal v = quit_at-Inv s.server s v
step-Inv s start_server v = start_at-Inv s.server s v
step-Inv s start_client v = record {
  balance = λ h lt. omega (arith, v.balance h lt, total-append (held h) s.clients new_client);
  no_stray =
      omega (arith, v.no_stray, total-append (strays (length s.values)) s.clients new_client);
  named = v.named;
  server = v.server;
}
step-Inv s (driver_turn i k) v = move_driver-Inv s i k (get_elem? s.clients i) refl v
step-Inv s (thread_turn i j) v = move_thread_of-Inv s i j (get_elem? s.clients i) refl v

pub run-Inv : (s : System) (ts : List Turn) → Inv s → Inv (run s ts)
unfolding run
run-Inv s [] v = v
run-Inv s (t ∷ ts) v = run-Inv (step s t) ts (step-Inv s t v)

pub init-Inv : Inv init
unfolding total
init-Inv = record {
  balance = λ h lt. absurd (omega arith);
  no_stray = refl;
  named = tt;
  server = tt;
}
