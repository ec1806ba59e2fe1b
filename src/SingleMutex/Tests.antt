-- ===== src/SingleMutex/Tests.antt =====
-- Runs of producer_consumer_1_m.c and producer_consumer_n_1.c, and the theorems at them.
use esercitazioni_sistemi_di.Base.{
  ◌⊎◌, ℕ, zero, suc, ◌≡◌, refl, true, some, List, [], ◌∷◌, ◌++◌, replicate, length,
}
use esercitazioni_sistemi_di.Base.Int.{pos, sum, ◌+ℤ◌}
use esercitazioni_sistemi_di.ProdCons.{transaction_of}
use esercitazioni_sistemi_di.SingleMutex.{
  Pick, producer, consumer, turns, created, one_to_many, many_to_one, joined_deposit,
}
use esercitazioni_sistemi_di.SingleMutex.Runs.{all_put}
use esercitazioni_sistemi_di.SingleMutex.Shares.{puts_below}
use esercitazioni_sistemi_di.SingleMutex.Progress.{SomeMove, moves_or_prints}
use esercitazioni_sistemi_di.SingleMutex.Results.{joined_deposit_lem}

-- one round of the loop of a producer, then of a consumer
abbrev round : ℕ → ℕ → List Pick
round i j = replicate 8 (producer i true 0) ++ replicate 9 (consumer j true)

abbrev rounds : ℕ → ℕ → ℕ → List Pick
rounds i j zero = []
rounds i j (suc k) = round i j ++ rounds i j k

-- The consumers below `k`, one after the other to its end; the producer ends last.
abbrev consumers : ℕ → List Pick
consumers zero = producer 0 true 0 ∷ []
consumers (suc k) = rounds 0 k 20 ++ consumer k true ∷ consumers k

abbrev producers : ℕ → List Pick
producers zero = consumer 0 true ∷ []
producers (suc k) = rounds k 0 4 ++ producer k true 0 ∷ producers k

full_run_1_m : joined_deposit (turns one_to_many (consumers 20)) ≡ some (pos 400)
unfolding joined_deposit turns ◌+ℤ◌ transaction_of created
full_run_1_m = refl

full_run_n_1 : joined_deposit (turns many_to_one (producers 100)) ≡ some (pos 400)
unfolding joined_deposit turns ◌+ℤ◌ transaction_of created
full_run_n_1 = refl

joined_deposit_lem_example :
    (pos 400 ≡ sum (all_put one_to_many (consumers 20)))
    × (length (all_put one_to_many (consumers 20)) ≡ 400)
    × (puts_below one_to_many (consumers 20) 1 ≡ 400 ∷ [])
joined_deposit_lem_example = joined_deposit_lem 1 20 (consumers 20) (pos 400) refl full_run_1_m

-- Producer 0 stands inside, producer 1 and consumer 0 behind their waits for a slot and a value.
abbrev crowded : List Pick
crowded =
    replicate 8 (producer 0 true 7)
    ++ replicate 3 (producer 1 true 1999)
    ++ replicate 4 (consumer 0 true)

moves_or_prints_example :
    SomeMove (turns many_to_one crowded)
    ⊎ (joined_deposit (turns many_to_one crowded) ≡ some (turns many_to_one crowded).mem.deposit)
unfolding turns created
moves_or_prints_example = moves_or_prints 100 1 crowded refl refl
