-- ===== src/Accesses/Results.antt =====
-- What the program of Lab05/src/00/riepilogo.c comes to, under every schedule.
use esercitazioni_sistemi_di.Base.{
  get_elem?-some, ℕ, ◌+◌, ◌*◌, ◌≤◌, ◌<◌, ◌≡◌, sym, ap, ◌∙◌, subst, Bool, some, List, get_elem?,
  arith, ℕ_discrete, All,
}
use esercitazioni_sistemi_di.Base.Threads.{
  total, weight-le-total, weights-le-total, full_total, total-eq-zero,
}
use esercitazioni_sistemi_di.Accesses.{
  Thread, Place, child_ended, Child, exited, Main, main_ended, Report, parse_output, System, Turn,
  run, init,
}
use esercitazioni_sistemi_di.Accesses.Parse.{occurrences, IsReport, parse_output-IsReport}
use esercitazioni_sistemi_di.Accesses.Effects.{
  in_section, unwritten, inside, posted, started, AtPlace,
}
use esercitazioni_sistemi_di.Accesses.Inv.{
  waited, let_start, AtMain, run-Inv, init-Inv, exited_le_one,
}

same_child :
    (cs : List Child) (i : ℕ) (c d : Child)
    → get_elem? cs i ≡ some c
    → get_elem? cs i ≡ some d
    → c ≡ d
same_child cs i c d g h = ground arith

-- Two threads, of any children, are never in the critical section together.
pub section_exclusive :
    (n m : ℕ) (stop : ℕ → Bool) (ts : List Turn) (i i' j j' : ℕ) (c c' : Child) (t t' : Thread)
    → get_elem? (run n m stop (init n) ts).children i ≡ some c
    → get_elem? (run n m stop (init n) ts).children i' ≡ some c'
    → get_elem? c.threads j ≡ some t
    → get_elem? c'.threads j' ≡ some t'
    → in_section t ≡ 1
    → in_section t' ≡ 1
    → (i ≡ i') × (j ≡ j')
section_exclusive n m stop ts i i' j j' c c' t t' g g' h h' one one' =
    let s = run n m stop (init n) ts in
    let v = run-Inv n m stop (init n) ts (init-Inv n m) in
    let here = weight-le-total in_section c.threads j t h in
    let there = weight-le-total in_section c'.threads j' t' h' in
    elim (ℕ_discrete i i') [
      | no ne ↦ absurd (omega (arith, v.excl, weights-le-total inside s.children i i' c c' ne g g'))
      | yes e ↦
          let same : c ≡ c' =
            same_child s.children i c c' g
              (subst (λ k. get_elem? s.children k ≡ some c') (sym e) g') in
          let h'' : get_elem? c.threads j' ≡ some t' =
            subst (λ (d : Child). get_elem? d.threads j' ≡ some t') (sym same) h' in
          elim (ℕ_discrete j j') [
            | yes e' ↦ (e, e')
            | no ne ↦ absurd (
                omega (
                  arith,
                  v.excl,
                  weight-le-total inside s.children i c g,
                  weights-le-total in_section c.threads j j' t t' ne h h'',
                ))
          ]
    ]

-- No child starts its work before all children have said that they are ready.
pub start_barrier :
    (n m : ℕ) (stop : ℕ → Bool) (ts : List Turn) (i j : ℕ) (c d : Child)
    → get_elem? (run n m stop (init n) ts).children i ≡ some c
    → get_elem? (run n m stop (init n) ts).children j ≡ some d
    → started c ≡ 1
    → posted d ≡ 1
start_barrier n m stop ts i j c d g h one =
    let s = run n m stop (init n) ts in
    let v = run-Inv n m stop (init n) ts (init-Inv n m) in
    let some_started = weight-le-total started s.children i c g in
    let all_waited = let_start-waited n s.main (omega (arith, v.start)) in
    full_total posted posted_le_one s.children (omega (arith, v.size, v.ready, all_waited)) j d h
  where
    posted_le_one : (c : Child) → posted c ≤ 1
    posted_le_one c = ground arith

    let_start-waited : (n : ℕ) (pl : Main) → 0 < let_start n pl → waited n pl ≡ n
    let_start-waited n pl h = ground arith

-- Every number in the file is that of a child, so that `access_stats[index]++` stays in its array.
pub logged_ids :
    (n m : ℕ) (stop : ℕ → Bool) (ts : List Turn)
    → All (λ id. id < n) (run n m stop (init n) ts).shared.log
logged_ids n m stop ts = (run-Inv n m stop (init n) ts (init-Inv n m)).ids

-- A child that has exited has written once in each of its threads, `m` in each round.
exited-written :
    (m : ℕ) (pl : Place) (ts : List Thread) (id k : ℕ)
    → exited (record { place = pl; threads = ts; thread_id = id }) ≡ 1
    → AtPlace m pl ts id
    → k + total unwritten ts ≡ id
    → (k ≡ id) × ((r : ℕ) × (id ≡ r * m + m))
exited-written m child_ended ts id k e p w =
    let ((r, rounds), all) = p in
    (omega (arith, w, total-eq-zero unwritten ts (λ l t g. ap unwritten (all l t g))), (r, rounds))
exited-written m pl ts id k e p w = absurd (ground arith)

AtMain-ended :
    (n : ℕ) (pl : Main) (s : System)
    → pl ≡ main_ended
    → AtMain n pl s
    → (n ≤ total exited s.children) × (s.report ≡ parse_output n s.shared.log)
AtMain-ended n main_ended s e a = a
AtMain-ended n pl s e a = absurd (ground arith)

-- When the main process has ended it has reported on the complete file: how often each child stands
-- there, and the first of those that stand there most often.
pub final_report :
    (n m : ℕ) (stop : ℕ → Bool) (ts : List Turn)
    → 0 < n
    → (run n m stop (init n) ts).main ≡ main_ended
    → (r : Report) × ((run n m stop (init n) ts).report ≡ some r)
      × IsReport n (run n m stop (init n) ts).shared.log r
final_report n m stop ts p e =
    let s = run n m stop (init n) ts in
    let v = run-Inv n m stop (init n) ts (init-Inv n m) in
    let (r, made, is_report) = parse_output-IsReport n s.shared.log p v.ids in
    (r, (AtMain-ended n s.main s e v.at_main).1 ∙ made, is_report)

-- When the main process has ended, each child stands in the file once for each thread that it has
-- created, which its counter `thread_id` says, and this number is a multiple of `m`, and at least `m`.
pub whole_rounds :
    (n m : ℕ) (stop : ℕ → Bool) (ts : List Turn) (i : ℕ)
    → (run n m stop (init n) ts).main ≡ main_ended
    → i < n
    → (c : Child) × (get_elem? (run n m stop (init n) ts).children i ≡ some c)
      × (occurrences i (run n m stop (init n) ts).shared.log ≡ c.thread_id)
      × ((rounds : ℕ) × (c.thread_id ≡ rounds * m + m))
whole_rounds n m stop ts i e lt =
    let s = run n m stop (init n) ts in
    let v = run-Inv n m stop (init n) ts (init-Inv n m) in
    let all = (AtMain-ended n s.main s e v.at_main).0 in
    let (c, g) = get_elem?-some s.children i (omega (arith, v.size)) in
    let one = full_total exited exited_le_one s.children (omega (arith, v.size, all)) i c g in
    let child = v.child i c g in
    let (once, rounds) =
      exited-written m c.place c.threads c.thread_id _ one child.here child.written in
    (c, g, once, rounds)
