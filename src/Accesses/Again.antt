-- ===== src/Accesses/Again.antt =====
-- Lab07/src/02 riepilogo/riepilogo.c: the program of Lab05/src/00/riepilogo.c with the memory mapped
-- before the children are created. Its steps on the semaphores, the flag, the threads and the file are
-- the same, but for the test of `*data`.
use esercitazioni_sistemi_di.Base.{
  ℕ, ◌+◌, ◌*◌, ◌<◌, ◌≡◌, refl, sym, ap, ◌∙◌, subst, Bool, not, Option, none, some, List, [], ◌∷◌,
  ◌++◌, arith, set, get_elem?, ◌==◌,
}
use esercitazioni_sistemi_di.Accesses.{
  Shared, Thread, Place, Child, Main, main_ended, System, Report, Turn, main_process, child_process,
  thread_function, thread_at, child_at, main_at, parse_output, move_thread, move_child,
  move_thread_of, step, run, init,
}
use esercitazioni_sistemi_di.Accesses.Parse.{occurrences, IsReport}
use esercitazioni_sistemi_di.Accesses.Results.{final_report, whole_rounds}
use esercitazioni_sistemi_di.Accesses.Ends.{reaches_end}

-- `if (*data) break;`
abbrev pub is_nonzero : ℕ → Bool
is_nonzero data_value = not (data_value == 0)

-- `thread_function`, `child_process`, `main_process`, `parseOutput`, and what `main` sets up.
unfoldable pub lab07_thread_at : ℕ → Thread → Shared → Shared × Thread
lab07_thread_at = thread_at

unfoldable pub lab07_child_at : ℕ → Place → Shared → Child → Shared × Child
lab07_child_at m = child_at m is_nonzero

unfoldable pub lab07_main_at : ℕ → Main → System → System
lab07_main_at = main_at

unfoldable pub lab07_parse_output : ℕ → List ℕ → Option Report
lab07_parse_output = parse_output

unfoldable pub lab07_init : ℕ → System
lab07_init = init

abbrev lab07_move_thread : ℕ → ℕ → System → Child → Option Thread → System
lab07_move_thread i j s c none = s
lab07_move_thread i j s c (some t) =
    let (shared, t') = lab07_thread_at i t s.shared in
    record s {
      shared = shared;
      children = set s.children i (record c { threads = set c.threads j t' });
    }

abbrev lab07_move_child : ℕ → ℕ → System → Option Child → System
lab07_move_child m i s none = s
lab07_move_child m i s (some c) =
    let (shared, c') = lab07_child_at m c.place s.shared c in
    record s { shared = shared; children = set s.children i c' }

abbrev lab07_move_thread_of : ℕ → ℕ → System → Option Child → System
lab07_move_thread_of i j s none = s
lab07_move_thread_of i j s (some c) = lab07_move_thread i j s c (get_elem? c.threads j)

unfoldable pub lab07_step : ℕ → ℕ → System → Turn → System
lab07_step n m s main_process = lab07_main_at n s.main s
lab07_step n m s (child_process i) = lab07_move_child m i s (get_elem? s.children i)
lab07_step n m s (thread_function i j) = lab07_move_thread_of i j s (get_elem? s.children i)

unfoldable pub lab07_run : ℕ → ℕ → System → List Turn → System
unfolding lab07_step
lab07_run n m s [] = s
lab07_run n m s (t ∷ ts) = lab07_run n m (lab07_step n m s t) ts

lab07_move_thread-eq :
    (i j : ℕ) (s : System) (c : Child) (o : Option Thread)
    → lab07_move_thread i j s c o ≡ move_thread i j s c o
unfolding lab07_thread_at move_thread
lab07_move_thread-eq i j s c none = refl
lab07_move_thread-eq i j s c (some t) = refl

lab07_move_thread_of-eq :
    (i j : ℕ) (s : System) (o : Option Child)
    → lab07_move_thread_of i j s o ≡ move_thread_of i j s o
unfolding move_thread_of
lab07_move_thread_of-eq i j s none = refl
lab07_move_thread_of-eq i j s (some c) = lab07_move_thread-eq i j s c (get_elem? c.threads j)

lab07_move_child-eq :
    (m i : ℕ) (s : System) (o : Option Child)
    → lab07_move_child m i s o ≡ move_child m is_nonzero i s o
unfolding lab07_child_at move_child
lab07_move_child-eq m i s none = refl
lab07_move_child-eq m i s (some c) = refl

lab07_step-eq-step :
    (n m : ℕ) (s : System) (t : Turn) → lab07_step n m s t ≡ step n m is_nonzero s t
unfolding lab07_step step lab07_main_at
lab07_step-eq-step n m s main_process = refl
lab07_step-eq-step n m s (child_process i) = lab07_move_child-eq m i s (get_elem? s.children i)
lab07_step-eq-step n m s (thread_function i j) =
    lab07_move_thread_of-eq i j s (get_elem? s.children i)

lab07_run-eq-run :
    (n m : ℕ) (s : System) (ts : List Turn) → lab07_run n m s ts ≡ run n m is_nonzero s ts
unfolding lab07_run run
lab07_run-eq-run n m s [] = refl
lab07_run-eq-run n m s (t ∷ ts) =
    lab07_run-eq-run n m (lab07_step n m s t) ts
    ∙ ap (λ s'. run n m is_nonzero s' ts) (lab07_step-eq-step n m s t)

run-append :
    (n m : ℕ) (s : System) (ts us : List Turn)
    → run n m is_nonzero s (ts ++ us) ≡ run n m is_nonzero (run n m is_nonzero s ts) us
unfolding run
run-append n m s [] us = refl
run-append n m s (t ∷ ts) us = run-append n m (step n m is_nonzero s t) ts us

-- Whatever the schedule so far, the second program can go on so that it ends, with its report on the
-- file, in which child `i` then stands once for each thread that it has created, as its counter
-- `thread_id` says; this number is a multiple of `m`, and at least `m`.
pub lab07_reports :
    (n m : ℕ) (ts : List Turn) (i : ℕ)
    → i < n
    → (ts' : List Turn) × (r : Report) × (c : Child) × (let s =
          lab07_run n m (lab07_run n m (lab07_init n) ts) ts' in
        (s.main ≡ main_ended)
        × (s.report ≡ some r)
        × IsReport n s.shared.log r
        × (get_elem? s.children i ≡ some c)
        × (occurrences i s.shared.log ≡ c.thread_id)
        × ((rounds : ℕ) × (c.thread_id ≡ rounds * m + m)))
unfolding lab07_init
lab07_reports n m ts i lt =
    let (ts', e) = reaches_end n m is_nonzero ts refl in
    let both = run-append n m (init n) ts ts' in
    let same =
      ap (λ s. lab07_run n m s ts') (lab07_run-eq-run n m (init n) ts)
      ∙ lab07_run-eq-run n m (run n m is_nonzero (init n) ts) ts' in
    let e' = ap (λ (s : System). s.main) both ∙ e in
    let (r, told, good) = final_report n m is_nonzero (ts ++ ts') (omega arith) e' in
    let (c, g, k, rounds) = whole_rounds n m is_nonzero (ts ++ ts') i e' lt in
    let here = both ∙ sym same in
    (
      ts',
      r,
      c,
      (
        ap (λ (s : System). s.main) (sym here) ∙ e',
        ap (λ (s : System). s.report) (sym here) ∙ told,
        subst (λ (s : System). IsReport n s.shared.log r) here good,
        ap (λ (s : System). get_elem? s.children i) (sym here) ∙ g,
        ap (λ (s : System). occurrences i s.shared.log) (sym here) ∙ k,
        rounds,
      ),
    )
