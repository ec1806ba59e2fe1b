-- ===== src/ProdCons/Tests.antt =====
-- Runs of producer_consumer_n_m.c, and the theorems at them.
use esercitazioni_sistemi_di.Base.{
  ℕ, zero, suc, ◌≤◌, ◌≡◌, refl, true, false, some, List, [], ◌∷◌, ◌++◌, replicate, length,
}
use esercitazioni_sistemi_di.Base.Int.{ℤ, pos, sum, ◌+ℤ◌}
use esercitazioni_sistemi_di.ProdCons.{
  Turn, producer, consumer, run, init, perform_random_transaction, all_ended, final_deposit,
  buffer_size,
}
use esercitazioni_sistemi_di.ProdCons.History.{all_put, all_taken}
use esercitazioni_sistemi_di.ProdCons.Safety.{fifo, deposit_exact, final_deposit_lem}
use esercitazioni_sistemi_di.ProdCons.Progress.{Moves, no_deadlock}

-- one round of the loop of the `i`-th producer, then of the `i`-th consumer
abbrev round : ℕ → List Turn
round i = replicate 8 (producer i true) ++ replicate 9 (consumer i true)

abbrev rounds : ℕ → ℕ → List Turn
rounds i zero = []
rounds i (suc k) = round i ++ rounds i k

-- the threads below `k`, one pair after the other, each to its end
abbrev pairs : ℕ → List Turn
pairs zero = []
pairs (suc k) = rounds k 20 ++ producer k true ∷ consumer k true ∷ pairs k

-- All threads can end, and 1800 is printed.
full_run : final_deposit (run init (pairs 20)) ≡ some (pos 1800)
unfolding final_deposit run init perform_random_transaction ◌+ℤ◌
full_run = refl

final_deposit_lem_example : pos 1800 ≡ pos 1800
final_deposit_lem_example = final_deposit_lem (pairs 20) (pos 1800) full_run

-- Producer 0 stands before its store, consumer 0 before its read of an earlier value.
abbrev crowded : List Turn
crowded =
    replicate 8 (producer 0 true) ++ replicate 3 (consumer 0 true) ++ replicate 3 (producer 0 true)

fifo_example :
    (rest : List ℤ) × (all_put init crowded ≡ all_taken init crowded ++ rest)
    × (length rest ≤ buffer_size)
fifo_example = fifo crowded

deposit_exact_example :
    (run init (round 0)).mem.deposit ≡ pos 1000 +ℤ sum (all_taken init (round 0))
unfolding run init perform_random_transaction
deposit_exact_example = deposit_exact (round 0) refl

no_deadlock_example : Moves (run init crowded)
unfolding run init perform_random_transaction all_ended
no_deadlock_example = no_deadlock crowded refl refl

-- A failing semaphore call ends the process: later turns do nothing.
exit_stops : (run init (producer 0 true ∷ producer 0 false ∷ [])).running ≡ false
unfolding run init
exit_stops = refl
