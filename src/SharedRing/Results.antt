-- ===== src/SharedRing/Results.antt =====
-- What the processes of Lab05/src/02 share, under every schedule.
use esercitazioni_sistemi_di.Base.{
  ℕ, ◌+◌, ◌≤◌, ◌≡◌, ap, ◌∙◌, some, length, List, get_elem?, get_or, arith,
}
use esercitazioni_sistemi_di.Base.Int.{ℤ, pos}
use esercitazioni_sistemi_di.Base.Threads.{total, get_elem?-set_here}
use esercitazioni_sistemi_di.SharedRing.{
  ConsumePc, Consuming, consume_at, Run, consumer, run_consumer, run_one, run_all, forked,
}
use esercitazioni_sistemi_di.SharedRing.Counts.{p_inside, c_inside}
use esercitazioni_sistemi_di.SharedRing.Cells.{IsLate}
use esercitazioni_sistemi_di.SharedRing.Inv.{found-IsLate}
use esercitazioni_sistemi_di.SharedRing.Runs.{all_stored, all_read, reached-Inv}

-- Whatever the numbers of producers and consumers and the schedule: when a consumer that stands at its
-- read of the buffer has its turn, and `c` values have been read so far, it does not get the value of
-- write number `c` (from 0), which has been stored. When fewer than `c + 128` values are stored at that
-- moment, it gets the one of write number `c - 1`, or 0 when `c` is 0; else `c + 128` are stored, and it
-- gets the one of write number `c + 127`, the newest.
pub reads-IsLate :
    (np nc : ℕ) (ts : List Run) (i ops : ℕ) (sum : ℤ)
    → get_elem? (run_all (forked np nc) ts).consumers i
      ≡ some (record { pc = ConsumePc.read; num_ops = ops; local_sum = sum })
    → (let s = run_all (forked np nc) ts in
        let c = length (all_read (forked np nc) ts) in
        (v : ℤ) × (get_elem? (run_one s (consumer i)).consumers i
          ≡ some (record { pc = ConsumePc.load_index v; num_ops = ops; local_sum = sum }))
        × IsLate (all_stored (forked np nc) ts) c v)
unfolding run_one run_consumer consume_at
reads-IsLate np nc ts i ops sum h =
    let s = run_all (forked np nc) ts in
    let v = get_or s.mem.buf s.mem.read_index (pos 0) in
    let c' : Consuming = record { pc = ConsumePc.load_index v; num_ops = ops; local_sum = sum } in
    (
      v,
      ap (λ o. get_elem? (run_consumer s i o).consumers i) h
          ∙ get_elem?-set_here s.consumers i _ c' h,
      found-IsLate s _ _ i ops sum h (reached-Inv np nc ts),
    )

-- In every reachable state, the semaphore of each critical section and the processes inside it add up
-- to 1; the consumers have read no more values than were stored and at most 128 fewer; and the free
-- slots and the announced values, as the semaphores count them, are at most 128 together.
pub sections_and_counts :
    (np nc : ℕ) (ts : List Run)
    → (let s = run_all (forked np nc) ts in
        let stored = length (all_stored (forked np nc) ts) in
        let got = length (all_read (forked np nc) ts) in
        (s.mem.cs_prod + total p_inside s.producers ≡ 1)
        × (s.mem.cs_cons + total c_inside s.consumers ≡ 1)
        × (got ≤ stored)
        × (stored ≤ got + 128)
        × (s.mem.sem_empty + s.mem.sem_filled ≤ 128))
sections_and_counts np nc ts =
    let v = reached-Inv np nc ts in
    (
      v.p_section,
      v.c_section,
      omega (arith, v.filled),
      omega (arith, v.empty),
      omega (arith, v.filled, v.empty),
    )
