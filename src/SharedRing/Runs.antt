-- ===== src/SharedRing/Runs.antt =====
-- The values stored and read over a run of Lab05/src/02; the invariant holds in every run.
use esercitazioni_sistemi_di.Base.{
  ℕ, ◌+◌, ◌/◌, ◌%◌, ◌≡◌, refl, sym, ap, subst, subst₂, Option, none, some, List, [], ◌∷◌, ◌++◌,
  get_elem?, arith, append-nil, append_assoc,
}
use esercitazioni_sistemi_di.Base.Int.{ℤ, pos}
use esercitazioni_sistemi_di.Base.Threads.{total-replicate, get_elem?-replicate}
use esercitazioni_sistemi_di.SharedRing.{
  ProducePc, Producing, ConsumePc, Consuming, Processes, Run, producer, consumer, run_producer,
  run_consumer, run_one, run_all, forked, num_operations,
}
use esercitazioni_sistemi_di.SharedRing.Counts.{
  p_inside, p_claims, p_pending, p_owes, c_inside, c_claims, c_pending, c_owes, stored_by, read_by,
}
use esercitazioni_sistemi_di.SharedRing.Cells.{Cells-zeros}
use esercitazioni_sistemi_di.SharedRing.Inv.{Inv, producer-Inv, consumer-Inv}

abbrev stored_by_process : Option Producing → List ℤ
stored_by_process none = []
stored_by_process (some p) = stored_by p.pc

abbrev read_by_process : Processes → Option Consuming → List ℤ
read_by_process s none = []
read_by_process s (some c) = read_by s.mem c.pc

-- What a turn stores, and what it reads.
abbrev pub stored_in : Processes → Run → List ℤ
stored_in s (producer i rand) = stored_by_process (get_elem? s.producers i)
stored_in s (consumer i) = []

abbrev pub read_in : Processes → Run → List ℤ
read_in s (producer i rand) = []
read_in s (consumer i) = read_by_process s (get_elem? s.consumers i)

-- All values stored in the buffer and read from it over a run, in order.
unfoldable pub all_stored : Processes → List Run → List ℤ
unfolding run_one
all_stored s [] = []
all_stored s (t ∷ ts) = stored_in s t ++ all_stored (run_one s t) ts

unfoldable pub all_read : Processes → List Run → List ℤ
unfolding run_one
all_read s [] = []
all_read s (t ∷ ts) = read_in s t ++ all_read (run_one s t) ts

run_producer-Inv :
    (s : Processes) (put got : List ℤ) (i rand : ℕ) (o : Option Producing)
    → get_elem? s.producers i ≡ o
    → Inv s put got
    → Inv (run_producer s i rand o) (put ++ stored_by_process o) got
unfolding run_producer
run_producer-Inv s put got i rand none h v = subst (λ l. Inv s l got) (sym (append-nil put)) v
run_producer-Inv s put got i rand (some p) h v = producer-Inv s put got rand i p h v

run_consumer-Inv :
    (s : Processes) (put got : List ℤ) (i : ℕ) (o : Option Consuming)
    → get_elem? s.consumers i ≡ o
    → Inv s put got
    → Inv (run_consumer s i o) put (got ++ read_by_process s o)
unfolding run_consumer
run_consumer-Inv s put got i none h v = subst (Inv s put) (sym (append-nil got)) v
run_consumer-Inv s put got i (some c) h v = consumer-Inv s put got i c h v

run_one-Inv :
    (s : Processes) (put got : List ℤ) (t : Run)
    → Inv s put got
    → Inv (run_one s t) (put ++ stored_in s t) (got ++ read_in s t)
unfolding run_one
run_one-Inv s put got (producer i rand) v =
    subst (Inv (run_one s (producer i rand)) (put ++ stored_in s (producer i rand)))
      (sym (append-nil got)) (run_producer-Inv s put got i rand _ refl v)
run_one-Inv s put got (consumer i) v =
    subst (λ l. Inv (run_one s (consumer i)) l (got ++ read_in s (consumer i)))
      (sym (append-nil put)) (run_consumer-Inv s put got i _ refl v)

run_all-Inv :
    (s : Processes) (put got : List ℤ) (ts : List Run)
    → Inv s put got
    → Inv (run_all s ts) (put ++ all_stored s ts) (got ++ all_read s ts)
unfolding run_all all_stored all_read
run_all-Inv s put got [] v = subst₂ (Inv s) (sym (append-nil put)) (sym (append-nil got)) v
run_all-Inv s put got (t ∷ ts) v =
    subst₂ (Inv (run_all (run_one s t) ts)) (append_assoc put (stored_in s t) _)
      (append_assoc got (read_in s t) _)
      (run_all-Inv (run_one s t) (put ++ stored_in s t) (got ++ read_in s t) ts
        (run_one-Inv s put got t v))

forked-Inv : (np nc : ℕ) → Inv (forked np nc) [] []
forked-Inv np nc =
    let p : Producing = record {
      pc = ProducePc.head;
      num_ops = num_operations / np;
      local_sum = pos 0;
    } in
    let c : Consuming = record {
      pc = ConsumePc.head;
      num_ops = num_operations / nc;
      local_sum = pos 0;
    } in
    record {
      p_section = omega (arith, total-replicate p_inside np p refl);
      c_section = omega (arith, total-replicate c_inside nc c refl);
      empty = omega (arith, total-replicate p_claims np p refl, total-replicate c_owes nc c refl);
      filled = omega (arith, total-replicate c_claims nc c refl, total-replicate p_owes np p refl);
      write_at = ap (λ k. (0 + k) % 128) (total-replicate p_pending np p refl);
      write_in = omega arith;
      read_at = ap (λ k. (127 + k) % 128) (total-replicate c_pending nc c refl);
      read_in_range = omega arith;
      cells = Cells-zeros;
      p_knows = λ i q h. rw (get_elem?-replicate np i _ q h) tt;
      c_knows = λ i q h. rw (get_elem?-replicate nc i _ q h) tt;
    }

-- In every state that the two programs reach.
pub reached-Inv :
    (np nc : ℕ) (ts : List Run)
    → Inv (run_all (forked np nc) ts) (all_stored (forked np nc) ts) (all_read (forked np nc) ts)
reached-Inv np nc ts = run_all-Inv (forked np nc) [] [] ts (forked-Inv np nc)
