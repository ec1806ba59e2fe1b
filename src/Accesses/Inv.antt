-- ===== src/Accesses/Inv.antt =====
-- Lab05/src/00/riepilogo.c: the invariant of the whole program.
use esercitazioni_sistemi_di.Base.{
  get_elem?-lt, ℕ, ◌+◌, ◌≤◌, ◌<◌, ◌≡◌, ◌≢◌, inl, inr, refl, sym, ap, subst, ◌∙◌, Bool, Option, none,
  some, List, [], ◌∷◌, ◌++◌, length, set, get_elem?, arith, ◌==◌, if_cases, ltb, tests, length-set,
  length-replicate, ℕ_discrete, All,
}
use esercitazioni_sistemi_di.Base.Threads.{
  total, total-set, total-replicate, full_total, get_elem?-set, get_elem?-set_eq,
  get_elem?-replicate,
}
use esercitazioni_sistemi_di.Accesses.{
  Shared, Thread, post_ready, Child, exited, Main, wait_ready, post_start, set_data, wait_child,
  parse, main_ended, parse_output, Report, System, main_at, Turn, main_process, child_process,
  thread_function, move_thread, move_child, move_thread_of, step, run, init,
}
use esercitazioni_sistemi_di.Accesses.Parse.{occurrences, occurrences-append}
use esercitazioni_sistemi_di.Accesses.Effects.{inside, to_write, posted, started, IsChild, Effect}
use esercitazioni_sistemi_di.Accesses.Moves.{thread_at-Effect, child_at-Effect}

-- How many children the main process has waited for, and how many it has let start.
abbrev pub waited : ℕ → Main → ℕ
waited n (wait_ready i) = i
waited n pl = n

abbrev pub let_start : ℕ → Main → ℕ
let_start n (wait_ready i) = 0
let_start n (post_start i) = i
let_start n pl = n

-- What holds at the place of the main process.
abbrev pub AtMain : ℕ → Main → System → Type 0
AtMain n (wait_ready i) s = i ≤ n
AtMain n (post_start i) s = i ≤ n
AtMain n set_data s = Unit {0}
AtMain n (wait_child i) s = (i ≤ n) × (i ≤ total exited s.children) × (s.shared.flag ≡ 1)
AtMain n parse s = n ≤ total exited s.children
AtMain n main_ended s = (n ≤ total exited s.children) × (s.report ≡ parse_output n s.shared.log)

pub record Inv (n m : ℕ) (s : System) : Type 0 where
  pub size : length s.children ≡ n
  pub excl : s.shared.critical_section + total inside s.children ≡ 1
  pub ready : total posted s.children ≡ s.shared.main_waits_for_children + waited n s.main
  pub start : total started s.children + s.shared.children_wait_for_main ≡ let_start n s.main
  pub at_main : AtMain n s.main s
  pub child : (i : ℕ) (c : Child) → get_elem? s.children i ≡ some c → IsChild m s.shared i c
  pub ids : All (λ id. id < n) s.shared.log

pub occurrences-other :
    (i j : ℕ) (log : List ℕ) → j ≢ i → occurrences i (log ++ j ∷ []) ≡ occurrences i log
occurrences-other i j log ne = ground (arith, occurrences-append i log (j ∷ []))

pub All-append : (P : ℕ → Type 0) (xs : List ℕ) (y : ℕ) → All P xs → P y → All P (xs ++ y ∷ [])
All-append P [] y a p = (p, tt)
All-append P (x ∷ xs) y a p = (a.0, All-append P xs y a.1 p)

pub exited_le_one : (c : Child) → exited c ≤ 1
exited_le_one c = ground arith

-- A step of a child keeps what holds of the main process: where that has counted the exits, no
-- child writes any more.
AtMain-kept :
    (n m i : ℕ) (pl : Main) (s : System) (sh' : Shared) (c c' : Child)
    → length s.children ≡ n
    → get_elem? s.children i ≡ some c
    → Effect m i s.shared sh' c c'
    → AtMain n pl s
    → AtMain n pl (record s { shared = sh'; children = set s.children i c' })
AtMain-kept n m i (wait_ready k) s sh' c c' size h e a = a
AtMain-kept n m i (post_start k) s sh' c c' size h e a = a
AtMain-kept n m i set_data s sh' c c' size h e a = a
AtMain-kept n m i (wait_child k) s sh' c c' size h e a =
    (a.0, omega (arith, a.1, e.exit, total-set exited s.children i c c' h), e.flag ∙ a.2)
AtMain-kept n m i parse s sh' c c' size h e a =
    omega (arith, a, e.exit, total-set exited s.children i c c' h)
AtMain-kept n m i main_ended s sh' c c' size h e a = (
  omega (arith, a.0, e.exit, total-set exited s.children i c c' h),
  elim e.log [
    | inl same ↦ a.1 ∙ ap (parse_output n) (sym same)
    | inr (_, live) ↦ absurd (
        omega (
          arith,
          live,
          full_total exited exited_le_one s.children (omega (arith, size, a.0)) i c h,
        ))
  ],
)

Effect-Inv :
    (n m i : ℕ) (s : System) (sh' : Shared) (c c' : Child)
    → Inv n m s
    → get_elem? s.children i ≡ some c
    → Effect m i s.shared sh' c c'
    → Inv n m (record s { shared = sh'; children = set s.children i c' })
Effect-Inv n m i s sh' c c' v h e = record {
  size = length-set s.children i c' ∙ v.size;
  excl = omega (arith, v.excl, e.excl, total-set inside s.children i c c' h);
  ready = omega (arith, v.ready, e.ready, total-set posted s.children i c c' h);
  start = omega (arith, v.start, e.start, total-set started s.children i c c' h);
  at_main = AtMain-kept n m i s.main s sh' c c' v.size h e v.at_main;
  child = λ j d g. elim (ℕ_discrete i j) [
    | yes same ↦
        subst (λ k. IsChild m sh' k d) same
          (subst (λ x. IsChild m sh' i x) (sym (get_elem?-set_eq s.children i j c' d g same))
            e.child)
    | no ne ↦
        let old = v.child j d (get_elem?-set s.children i j c' d g ne) in
        record {
          written = elim e.log [
            | inl same ↦ ap (λ l. occurrences j l + to_write d) same ∙ old.written
            | inr (more, _) ↦
                ap (λ l. occurrences j l + to_write d) more
                ∙ ap (λ k. k + to_write d) (occurrences-other j i s.shared.log ne)
                ∙ old.written
          ];
          here = old.here;
        }
  ];
  ids = elim e.log [
    | inl same ↦ subst (All (λ id. id < n)) (sym same) v.ids
    | inr (more, _) ↦ subst (All (λ id. id < n)) (sym more) (
        All-append (λ id. id < n) s.shared.log i v.ids
          (omega (arith, v.size, get_elem?-lt s.children i c h)))
  ];
}

-- A step of the main process leaves the file, the critical section and the children.
main_moved :
    (n m : ℕ) (s : System) (sh' : Shared) (pl' : Main) (report' : Option Report)
    → Inv n m s
    → sh'.critical_section ≡ s.shared.critical_section
    → sh'.log ≡ s.shared.log
    → sh'.main_waits_for_children + waited n pl'
      ≡ s.shared.main_waits_for_children + waited n s.main
    → s.shared.children_wait_for_main + let_start n pl'
      ≡ sh'.children_wait_for_main + let_start n s.main
    → (let s' : System = record {
      shared = sh';
      main = pl';
      children = s.children;
      report = report';
    } in
        AtMain n pl' s' → Inv n m s')
main_moved n m s sh' pl' report' v cs log ready start here = record {
  size = v.size;
  excl = omega (arith, v.excl, cs);
  ready = omega (arith, v.ready);
  start = omega (arith, v.start);
  at_main = here;
  child = λ j c g.
      let old = v.child j c g in
      record {
        written = ap (λ l. occurrences j l + to_write c) log ∙ old.written;
        here = old.here;
      };
  ids = subst (All (λ id. id < n)) (sym log) v.ids;
}

main_at-Inv :
    (n m : ℕ) (pl : Main) (sh : Shared) (cs : List Child) (report : Option Report)
    → (let s : System = record { shared = sh; main = pl; children = cs; report = report } in
        Inv n m s → Inv n m (main_at n pl s))
unfolding main_at
main_at-Inv n m (wait_ready i) sh cs report v =
    if_cases (Inv n m) (ltb i n) _ _
      (λ lt.
        if_cases (Inv n m) (sh.main_waits_for_children == 0) _ _ (λ z. v)
          (λ ne. main_moved n m _ _ _ report v refl refl (ground arith) refl (omega tests)))
      (λ ge. main_moved n m _ _ _ report v refl refl (ground (arith, v.at_main)) refl (omega arith))
main_at-Inv n m (post_start i) sh cs report v =
    if_cases (Inv n m) (ltb i n) _ _
      (λ lt. main_moved n m _ _ _ report v refl refl refl (omega arith) (omega tests))
      (λ ge. main_moved n m _ _ _ report v refl refl refl (ground (arith, v.at_main)) tt)
main_at-Inv n m set_data sh cs report v =
    main_moved n m _ _ _ report v refl refl refl refl (omega arith, omega arith, refl)
main_at-Inv n m (wait_child i) sh cs report v =
    if_cases (Inv n m) (ltb i n) _ _
      (λ lt.
        if_cases
          (λ (pl : Main).
            Inv n m (record { shared = sh; main = pl; children = cs; report = report }))
          (ltb i (total exited cs)) _ _
          (λ more.
            main_moved n m _ _ _ report v refl refl refl refl
              (omega tests, omega tests, v.at_main.2))
          (λ _. v))
      (λ ge.
        main_moved n m _ _ _ report v refl refl refl refl
          (ground (arith, v.at_main.0, v.at_main.1)))
main_at-Inv n m parse sh cs report v =
    main_moved n m _ _ _ (parse_output n sh.log) v refl refl refl refl (v.at_main, refl)
main_at-Inv n m main_ended sh cs report v = v

move_thread-Inv :
    (n m i j : ℕ) (s : System) (c : Child) (o : Option Thread)
    → Inv n m s
    → get_elem? s.children i ≡ some c
    → get_elem? c.threads j ≡ o
    → Inv n m (move_thread i j s c o)
unfolding move_thread
move_thread-Inv n m i j s c none v h g = v
move_thread-Inv n m i j s c (some t) v h g =
    Effect-Inv n m i s _ c _ v h (thread_at-Effect m i j s.shared c t (v.child i c h) g)

move_thread_of-Inv :
    (n m i j : ℕ) (s : System) (o : Option Child)
    → Inv n m s
    → get_elem? s.children i ≡ o
    → Inv n m (move_thread_of i j s o)
unfolding move_thread_of
move_thread_of-Inv n m i j s none v h = v
move_thread_of-Inv n m i j s (some c) v h =
    move_thread-Inv n m i j s c (get_elem? c.threads j) v h refl

move_child-Inv :
    (n m : ℕ) (stop : ℕ → Bool) (i : ℕ) (s : System) (o : Option Child)
    → Inv n m s
    → get_elem? s.children i ≡ o
    → Inv n m (move_child m stop i s o)
unfolding move_child
move_child-Inv n m stop i s none v h = v
move_child-Inv n m stop i s (some c) v h =
    Effect-Inv n m i s _ c _ v h
      (child_at-Effect m stop i s.shared c.place c.threads c.thread_id (v.child i c h))

pub step-Inv :
    (n m : ℕ) (stop : ℕ → Bool) (s : System) (t : Turn) → Inv n m s → Inv n m (step n m stop s t)
unfolding step
step-Inv n m stop s main_process v = main_at-Inv n m s.main s.shared s.children s.report v
step-Inv n m stop s (child_process i) v =
    move_child-Inv n m stop i s (get_elem? s.children i) v refl
step-Inv n m stop s (thread_function i j) v =
    move_thread_of-Inv n m i j s (get_elem? s.children i) v refl

pub run-Inv :
    (n m : ℕ) (stop : ℕ → Bool) (s : System) (ts : List Turn)
    → Inv n m s
    → Inv n m (run n m stop s ts)
unfolding run
run-Inv n m stop s [] v = v
run-Inv n m stop s (t ∷ ts) v = run-Inv n m stop (step n m stop s t) ts (step-Inv n m stop s t v)

abbrev new_child : Child
new_child = record { place = post_ready; threads = []; thread_id = 0 }

pub init-Inv : (n m : ℕ) → Inv n m (init n)
unfolding init total
init-Inv n m = record {
  size = length-replicate n new_child;
  excl = omega (arith, total-replicate inside n new_child refl);
  ready = omega (arith, total-replicate posted n new_child refl);
  start = omega (arith, total-replicate started n new_child refl);
  at_main = omega arith;
  child = λ i c g.
      subst (IsChild m _ i) (sym (get_elem?-replicate n i new_child c g))
        (record { written = refl; here = (refl, refl) });
  ids = tt;
}
