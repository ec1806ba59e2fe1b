-- ===== src/MutexSum/Tests.antt =====
-- Runs of Lab02/code/concurrent_threads.c.
use esercitazioni_sistemi_di.Base.{ℕ, ◌≡◌, refl, true, List, [], ◌∷◌, ◌++◌, ◌%◌, ◌*◌, replicate}
use esercitazioni_sistemi_di.Base.Threads.{all_threads}
use esercitazioni_sistemi_di.MutexSum.{word_size, thread_at, step, move, run, init, joined}
use esercitazioni_sistemi_di.MutexSum.Results.{shared-expected}

-- Thread 1 waits while thread 0 is inside.
abbrev schedule : List ℕ
schedule = 0 ∷ 0 ∷ 1 ∷ 1 ∷ 0 ∷ 1 ∷ []

abbrev to_the_end : List ℕ
to_the_end = schedule ++ replicate 9 0 ++ replicate 11 1

ends : joined (run 2 5 (init 2) to_the_end) ≡ true
unfolding run step move thread_at all_threads
ends = refl

summed : (run 2 5 (init 2) to_the_end).mem.shared ≡ 20
unfolding run step move thread_at
summed = refl

shared-expected_example : (run 2 5 (init 2) to_the_end).mem.shared ≡ ((2 * 2) * 5) % word_size
shared-expected_example = shared-expected 2 2 5 to_the_end ends
