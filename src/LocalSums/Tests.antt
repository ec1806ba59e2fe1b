-- ===== src/LocalSums/Tests.antt =====
-- Runs of Lab01/code/concurrent_threads.c.
use esercitazioni_sistemi_di.Base.{ℕ, ◌≡◌, refl, some, List, [], ◌∷◌, arith}
use esercitazioni_sistemi_di.LocalSums.{
  thread_work, step, run, start, shared_variable, expected_value,
}
use esercitazioni_sistemi_di.LocalSums.Sums.{shared_variable-exact}

-- Two threads of two rounds, interleaved.
abbrev schedule : List ℕ
schedule = 0 ∷ 1 ∷ 1 ∷ 0 ∷ 1 ∷ 0 ∷ []

summed : shared_variable (run 2 5 schedule (start 2)) ≡ some 20
unfolding shared_variable run step thread_work
summed = refl

shared_variable-exact_example : 20 ≡ expected_value 2 2 5
shared_variable-exact_example =
    shared_variable-exact 2 2 5 schedule 20 (omega arith) (omega arith) summed
