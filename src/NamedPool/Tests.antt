-- ===== src/NamedPool/Tests.antt =====
-- Runs of Lab03/code/es2, and the theorems at them.
use esercitazioni_sistemi_di.Base.{
  ℕ, ◌+◌, ◌≤◌, ◌<◌, ◌≡◌, refl, ap, List, [], ◌∷◌, ◌++◌, length, replicate, get_or, arith,
}
use esercitazioni_sistemi_di.Base.Threads.{total}
use esercitazioni_sistemi_di.NamedPool.{
  num_resources, logging, enter, Turn, server_turn, quit_signal, start_server, start_client,
  driver_turn, thread_turn, client_at, driver_at, server_at, quit_at, start_at, after_thread,
  move_thread, move_thread_of, move_driver, step, run, init,
}
use esercitazioni_sistemi_di.NamedPool.Inv.{held}
use esercitazioni_sistemi_di.NamedPool.Results.{resources_counted, step-logs, lost, lost_for_ever}

-- The server and two clients; a thread of each has a resource.
abbrev two_held : List Turn
two_held =
    start_server
      ∷ server_turn
      ∷ server_turn
      ∷ start_client
      ∷ start_client
      ∷ replicate 3 (driver_turn 0 enter)
    ++ replicate 3 (driver_turn 1 enter)
    ++ thread_turn 0 0 ∷ thread_turn 0 0 ∷ thread_turn 1 0 ∷ thread_turn 1 0 ∷ server_turn ∷ []

-- The server ends, and a thread of the second client then finds no semaphore: the client exits.
abbrev one_lost : List Turn
one_lost = two_held ++ quit_signal ∷ server_turn ∷ thread_turn 1 1 ∷ []

-- The first client gives its resource back.
abbrev given_back : List Turn
given_back = replicate 3 (thread_turn 0 0) ++ replicate 3 (thread_turn 1 0)

logged : (run init two_held).logs ≡ (1, 2) ∷ []
unfolding run step server_at quit_at start_at move_driver driver_at move_thread_of move_thread
    after_thread client_at
logged = refl

still_running : (run init two_held).server ≡ logging 0
unfolding run step server_at quit_at start_at move_driver driver_at move_thread_of move_thread
    after_thread client_at
still_running = refl

one_value : length (run init two_held).values ≡ 1
unfolding run step server_at quit_at start_at move_driver driver_at move_thread_of move_thread
    after_thread client_at
one_value = refl

lost_one : total (lost 0) (run init one_lost).clients ≡ 1
unfolding run step server_at quit_at start_at move_driver driver_at move_thread_of move_thread
    after_thread client_at total
lost_one = refl

two_left : (run (run init one_lost) given_back).values ≡ 2 ∷ []
unfolding run step server_at quit_at start_at move_driver driver_at move_thread_of move_thread
    after_thread client_at
two_left = refl

lt_of_eq : {k : ℕ} → k ≡ 1 → 0 < k
lt_of_eq e = omega arith

resources_counted_example :
    get_or (run init two_held).values 0 0 + total (held 0) (run init two_held).clients
    ≡ num_resources
resources_counted_example = resources_counted two_held 0 (lt_of_eq one_value)

step-logs_example :
    (step (run init two_held) server_turn).logs
    ≡ (run init two_held).logs
      ++ (get_or (run init two_held).values 0 0, total (held 0) (run init two_held).clients) ∷ []
step-logs_example = step-logs two_held 0 still_running

lost_for_ever_example :
    get_or (run (run init one_lost) given_back).values 0 0
      + total (lost 0) (run init one_lost).clients
    ≤ num_resources
lost_for_ever_example =
    lost_for_ever one_lost given_back 0 (lt_of_eq (ap (λ (l : List ℕ). length l) two_left))
