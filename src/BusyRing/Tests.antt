-- ===== src/BusyRing/Tests.antt =====
-- Runs of Lab05/src/03, and the theorems at them.
use esercitazioni_sistemi_di.Base.{◌+◌, ◌<◌, ◌≡◌, refl, true, List, [], ◌∷◌, ◌++◌, replicate}
use esercitazioni_sistemi_di.Base.Int.{pos, ◌+ℤ◌}
use esercitazioni_sistemi_di.SharedRing.{random_transaction}
use esercitazioni_sistemi_di.BusyRing.{
  Run, producer, consumer, produce_at, consume_at, step, run, init,
}
use esercitazioni_sistemi_di.BusyRing.Results.{
  is_quiet, is_waiting, indices_in_range, stuck_for_ever,
}

-- The consumer runs first: it reads a cell that nobody has written, and waits.
abbrev consumer_first : List Run
consumer_first = replicate 6 consumer

-- Then the producer makes ten rounds.
abbrev ten_rounds : List Run
ten_rounds = replicate 30 (producer 4) ++ consumer ∷ []

dropped : (run (run (init (pos 7)) consumer_first) ten_rounds).producing.local_sum ≡ pos 57
unfolding run step produce_at consume_at random_transaction ◌+ℤ◌
dropped = refl

indices_in_range_example :
    ((run (init (pos 7)) (producer 4 ∷ producer 4 ∷ producer 4 ∷ producer 4 ∷ [])).mem.read_index
      < 128)
    × ((run (init (pos 7)) (producer 4 ∷ producer 4 ∷ producer 4 ∷ producer 4 ∷ [])).mem.write_index
        < 128)
indices_in_range_example =
    indices_in_range (pos 7) (producer 4 ∷ producer 4 ∷ producer 4 ∷ producer 4 ∷ [])

ahead :
    (run (init (pos 7)) consumer_first).mem.read_index
    ≡ (run (init (pos 7)) consumer_first).mem.write_index + 1
unfolding run step consume_at ◌+ℤ◌
ahead = refl

quiet : is_quiet (run (init (pos 7)) consumer_first).producing.pc ≡ true
unfolding run step consume_at ◌+ℤ◌
quiet = refl

waits : is_waiting (run (init (pos 7)) consumer_first).consuming.pc ≡ true
unfolding run step consume_at ◌+ℤ◌
waits = refl

stuck_for_ever_example :
    ((run (run (init (pos 7)) consumer_first) ten_rounds).mem
      ≡ (run (init (pos 7)) consumer_first).mem)
    × ((run (run (init (pos 7)) consumer_first) ten_rounds).consuming
        ≡ (run (init (pos 7)) consumer_first).consuming)
stuck_for_ever_example = stuck_for_ever (pos 7) consumer_first ten_rounds ahead quiet waits
