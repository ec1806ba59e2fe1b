-- ===== src/SharedRing/Tests.antt =====
-- Runs of Lab05/src/02, and the theorems at them.
use esercitazioni_sistemi_di.Base.{
  ◌+◌, ◌≤◌, ◌≡◌, refl, some, List, [], ◌∷◌, ◌++◌, replicate, length, get_elem?,
}
use esercitazioni_sistemi_di.Base.Int.{ℤ, pos, ◌+ℤ◌}
use esercitazioni_sistemi_di.Base.Threads.{total}
use esercitazioni_sistemi_di.SharedRing.{
  ConsumePc, Run, producer, consumer, run_producer, run_consumer, run_one, run_all, produce_at,
  consume_at, random_transaction, forked,
}
use esercitazioni_sistemi_di.SharedRing.Counts.{p_inside, c_inside}
use esercitazioni_sistemi_di.SharedRing.Cells.{IsLate}
use esercitazioni_sistemi_di.SharedRing.Runs.{all_stored, all_read}
use esercitazioni_sistemi_di.SharedRing.Results.{reads-IsLate, sections_and_counts}

-- Two rounds of producer 0 with the values 5 and 6, one of producer 1 with 7, and three of a consumer.
abbrev rounds : List Run
rounds =
    replicate 8 (producer 0 4)
    ++ replicate 8 (producer 0 5)
    ++ replicate 8 (producer 1 6)
    ++ replicate 24 (consumer 0)

abbrev read_values : List ℤ
read_values = all_read (forked 2 1) rounds

values_read : read_values ≡ pos 0 ∷ pos 5 ∷ pos 6 ∷ []
unfolding all_read run_one run_producer run_consumer produce_at consume_at random_transaction ◌+ℤ◌
values_read = refl

values_stored : all_stored (forked 2 1) rounds ≡ pos 5 ∷ pos 6 ∷ pos 7 ∷ []
unfolding all_stored run_one run_producer run_consumer produce_at consume_at random_transaction ◌+ℤ◌
values_stored = refl

-- The consumer has read twice and stands at its third read.
abbrev before_read : List Run
before_read =
    replicate 8 (producer 0 4)
    ++ replicate 8 (producer 0 5)
    ++ replicate 8 (producer 1 6)
    ++ replicate 19 (consumer 0)

at_read :
    get_elem? (run_all (forked 2 1) before_read).consumers 0
    ≡ some (record { pc = ConsumePc.read; num_ops = 3998; local_sum = pos 5 })
unfolding run_all run_one run_producer run_consumer produce_at consume_at random_transaction ◌+ℤ◌
at_read = refl

reads-IsLate_example :
    (let s = run_all (forked 2 1) before_read in
      let c = length (all_read (forked 2 1) before_read) in
      (v : ℤ) × (get_elem? (run_one s (consumer 0)).consumers 0
        ≡ some (record { pc = ConsumePc.load_index v; num_ops = 3998; local_sum = pos 5 }))
      × IsLate (all_stored (forked 2 1) before_read) c v)
reads-IsLate_example = reads-IsLate 2 1 before_read 0 3998 (pos 5) at_read

abbrev half : List Run
half = replicate 5 (producer 0 4) ++ replicate 2 (producer 1 6)

sections_and_counts_example :
    (let s = run_all (forked 2 1) half in
      let stored = length (all_stored (forked 2 1) half) in
      let got = length (all_read (forked 2 1) half) in
      (s.mem.cs_prod + total p_inside s.producers ≡ 1)
      × (s.mem.cs_cons + total c_inside s.consumers ≡ 1)
      × (got ≤ stored)
      × (stored ≤ got + 128)
      × (s.mem.sem_empty + s.mem.sem_filled ≤ 128))
sections_and_counts_example = sections_and_counts 2 1 half
