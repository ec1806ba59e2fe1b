-- ===== src/Polling/Runs.antt =====
-- Lab04/code/riepilogo.c: the invariant holds in every run.
use esercitazioni_sistemi_di.Base.{
  ℕ, zero, suc, ◌+◌, ◌≤◌, ◌<◌, ◌≡◌, ◌⊎◌, inl, inr, refl, sym, ap, subst, ◌∙◌, Option, none, some,
  List, [], ◌∷◌, length, get_elem?, arith, ◌==◌, if_cases, if◌then◌else◌, fun_ext, ltb, tests,
  append-nil, All,
}
use mathlib.Core.Option.{some-injective}
use esercitazioni_sistemi_di.Base.Threads.{total}
use esercitazioni_sistemi_di.Accesses.{Report, Thread}
use esercitazioni_sistemi_di.Accesses.Parse.{occurrences}
use esercitazioni_sistemi_di.Polling.{
  Shared, Child, Main, poll_ready, post_start, post_halt, parse, main_ended, lab04_parse_output,
  System, main_at, child_at, Turn, main_process, child_process, thread_function, move_thread,
  move_thread_of, move_child, Sizes, step, run, new_child, fork_children, init,
}
use esercitazioni_sistemi_di.Polling.Effects.{posted, started, IsChild, Effect, thread_at-Effect}
use esercitazioni_sistemi_di.Polling.Moves.{began, child_at-Effect}
use esercitazioni_sistemi_di.Polling.Inv.{
  let_start, let_halt, AtMain, Inv, IsChild-kept, Effect-Inv,
}

-- A step of the main process leaves the file and the children.
main_moved :
    (k : Sizes) (mc : ℕ) (checks begun : ℕ → ℕ) (s : System) (sh' : Shared) (pl' : Main)
    (report' : Option Report)
    → Inv k mc checks begun s
    → sh'.ready ≡ s.shared.ready
    → sh'.log ≡ s.shared.log
    → s.shared.start + let_start k.num_children pl' ≡ sh'.start + let_start k.num_children s.main
    → s.shared.halt ≤ sh'.halt
    → sh'.halt ≡ let_halt k.num_children pl'
    → AtMain k mc pl' s.shared.ready s.shared.log report'
    → Inv k mc checks begun
        (record { shared = sh'; main = pl'; children = s.children; report = report' })
main_moved k mc checks begun s sh' pl' report' v ready log start more halt here = record {
  size = v.size;
  ready = v.ready ∙ sym ready;
  start = omega (arith, v.start);
  halt = halt;
  at_main =
      subst (λ r. AtMain k mc pl' r sh'.log report') (sym ready)
        (subst (λ l. AtMain k mc pl' s.shared.ready l report') (sym log) here);
  child = λ j c g.
      IsChild-kept k.num_children k.m j (checks j) (begun j) s.shared sh' c more
        (ap (λ l. occurrences j l) log) (v.child j c g);
  ids = subst (All (λ id. id < k.num_children)) (sym log) v.ids;
}

main_at-Inv :
    (k : Sizes) (mc : ℕ) (checks begun : ℕ → ℕ) (pl : Main) (sh : Shared) (cs : List Child)
    (report : Option Report)
    → (let s : System = record { shared = sh; main = pl; children = cs; report = report } in
        Inv k mc checks begun s → Inv k mc checks begun (main_at k.num_children k.n pl s))
unfolding main_at
main_at-Inv k mc checks begun (poll_ready check) sh cs report v =
    if_cases (Inv k mc checks begun) (check == k.num_children) _ _
      (λ e.
        main_moved k mc checks begun _ _ _ report v refl refl refl (omega arith) v.halt
          (omega arith, polled check mc sh.ready (ground arith) v.at_main))
      (λ ne.
        main_moved k mc checks begun _ _ _ report v refl refl refl (omega arith) v.halt
          (inr (omega arith)))
  where
    polled :
        (check mc ready : ℕ)
        → check ≡ k.num_children
        → (check ≡ mc) ⊎ (check ≤ ready)
        → (mc ≡ k.num_children) ⊎ (k.num_children ≤ ready)
    polled check mc ready e p = ground arith
main_at-Inv k mc checks begun (post_start i) sh cs report v =
    if_cases (Inv k mc checks begun) (ltb i k.num_children) _ _
      (λ lt.
        main_moved k mc checks begun _ _ _ report v refl refl (omega arith) (omega arith) v.halt
          (omega tests, v.at_main.1))
      (λ ge.
        main_moved k mc checks begun _ _ _ report v refl refl (ground (arith, v.at_main.0))
          (omega arith) v.halt (omega arith, v.at_main.1))
main_at-Inv k mc checks begun (post_halt i) sh cs report v =
    if_cases (Inv k mc checks begun) (ltb i k.num_children) _ _
      (λ lt.
        main_moved k mc checks begun _ _ _ report v refl refl refl (omega arith)
          (omega (arith, v.halt)) (omega tests, v.at_main.1))
      (λ ge.
        main_moved k mc checks begun _ _ _ report v refl refl refl (omega arith)
          (ground (arith, v.halt, v.at_main.0)) v.at_main.1)
main_at-Inv k mc checks begun parse sh cs report v =
    main_moved k mc checks begun _ _ _ (lab04_parse_output k.n sh.log) v refl refl refl
      (omega arith) v.halt
      (
        record { seen = sh.log; rest = []; log_is = sym (append-nil sh.log); report_is = refl },
        v.at_main,
      )
main_at-Inv k mc checks begun main_ended sh cs report v = v

-- The rounds that child `j` begins in a turn, and in a run.
abbrev began_of : ℕ → Option Child → ℕ
began_of num_children none = 0
began_of num_children (some c) = began num_children c.place c.check

abbrev pub begun_in : Sizes → System → Turn → ℕ → ℕ
begun_in k s (child_process i) j =
    if i == j then began_of k.num_children (get_elem? s.children i) else 0
begun_in k s main_process j = 0
begun_in k s (thread_function i l) j = 0

unfoldable pub rounds_begun : Sizes → System → List Turn → ℕ → ℕ
unfolding step
rounds_begun k s [] j = 0
rounds_begun k s (t ∷ ts) j = begun_in k s t j + rounds_begun k (step k s t) ts j

-- The invariant looks at the numbers of rounds one by one.
Inv-same :
    (k : Sizes) (mc : ℕ) (checks begun begun' : ℕ → ℕ) (s : System)
    → ((j : ℕ) → begun j ≡ begun' j)
    → Inv k mc checks begun s
    → Inv k mc checks begun' s
Inv-same k mc checks begun begun' s same v = subst (λ b. Inv k mc checks b s) (fun_ext same) v

move_thread-Inv :
    (k : Sizes) (mc : ℕ) (checks begun : ℕ → ℕ) (i j : ℕ) (s : System) (c : Child)
    (o : Option Thread)
    → Inv k mc checks begun s
    → get_elem? s.children i ≡ some c
    → get_elem? c.threads j ≡ o
    → Inv k mc checks begun (move_thread i j s c o)
unfolding move_thread
move_thread-Inv k mc checks begun i j s c none v h g = v
move_thread-Inv k mc checks begun i j s c (some t) v h g =
    Effect-Inv k mc checks begun begun i s _ c _ v h
      (thread_at-Effect k.num_children k.m i (checks i) (begun i) j s.shared c t (v.child i c h) g)
      (λ l ne. refl)

move_thread_of-Inv :
    (k : Sizes) (mc : ℕ) (checks begun : ℕ → ℕ) (i j : ℕ) (s : System) (o : Option Child)
    → Inv k mc checks begun s
    → get_elem? s.children i ≡ o
    → Inv k mc checks begun (move_thread_of i j s o)
unfolding move_thread_of
move_thread_of-Inv k mc checks begun i j s none v h = v
move_thread_of-Inv k mc checks begun i j s (some c) v h =
    move_thread-Inv k mc checks begun i j s c (get_elem? c.threads j) v h refl

move_child-Inv :
    (k : Sizes) (mc : ℕ) (checks begun : ℕ → ℕ) (i : ℕ) (s : System) (o : Option Child)
    → Inv k mc checks begun s
    → get_elem? s.children i ≡ o
    → Inv k mc checks
        (λ j. begun j + (if i == j then began_of k.num_children o else 0))
        (move_child k.num_children k.m i s o)
unfolding move_child
move_child-Inv k mc checks begun i s none v h = Inv-same k mc checks begun _ s (λ j. ground arith) v
move_child-Inv k mc checks begun i s (some c) v h =
    let x = began k.num_children c.place c.check in
    let (sh', c') = child_at k.num_children k.m c.place s.shared c in
    Effect-Inv k mc checks begun (λ j. begun j + (if i == j then x else 0)) i s _ c _ v h
      (subst (λ b. Effect k.num_children k.m i (checks i) (begun i) b s.shared sh' c c')
        {x = begun i + x} {y = begun i + (if i == i then x else 0)} (ground arith)
        (child_at-Effect k.num_children k.m i (checks i) (begun i) s.shared c.place c.check
          c.threads c.file_sem (v.child i c h)))
      (λ j ne. ground arith)

step-Inv :
    (k : Sizes) (mc : ℕ) (checks begun : ℕ → ℕ) (s : System) (t : Turn)
    → Inv k mc checks begun s
    → Inv k mc checks (λ j. begun j + begun_in k s t j) (step k s t)
unfolding step
step-Inv k mc checks begun s main_process v =
    Inv-same k mc checks begun _ _ (λ j. omega arith)
      (main_at-Inv k mc checks begun s.main s.shared s.children s.report v)
step-Inv k mc checks begun s (child_process i) v =
    move_child-Inv k mc checks begun i s (get_elem? s.children i) v refl
step-Inv k mc checks begun s (thread_function i j) v =
    Inv-same k mc checks begun _ _ (λ l. omega arith)
      (move_thread_of-Inv k mc checks begun i j s (get_elem? s.children i) v refl)

run-Inv :
    (k : Sizes) (mc : ℕ) (checks begun : ℕ → ℕ) (s : System) (ts : List Turn)
    → Inv k mc checks begun s
    → Inv k mc checks (λ j. begun j + rounds_begun k s ts j) (run k s ts)
unfolding run rounds_begun
run-Inv k mc checks begun s [] v = Inv-same k mc checks begun _ s (λ j. omega arith) v
run-Inv k mc checks begun s (t ∷ ts) v =
    Inv-same k mc checks _ _ _ (λ j. omega arith)
      (run-Inv k mc checks (λ j. begun j + begun_in k s t j) (step k s t) ts
        (step-Inv k mc checks begun s t v))

fork_children-new :
    (checks : ℕ → ℕ) (i n j : ℕ) (c : Child)
    → get_elem? (fork_children checks i n) j ≡ some c
    → c ≡ new_child (checks (i + j))
fork_children-new checks i zero j c h = ground arith
fork_children-new checks i (suc n) zero c h =
    sym (some-injective _ _ h) ∙ ap (λ k. new_child (checks k)) {x = i} {y = i + 0} (omega arith)
fork_children-new checks i (suc n) (suc j) c h =
    fork_children-new checks (i + 1) n j c h
    ∙ ap (λ k. new_child (checks k)) {x = i + 1 + j} {y = i + suc j} (omega arith)

total-fork_children :
    (w : Child → ℕ) (checks : ℕ → ℕ) (i n : ℕ)
    → ((check : ℕ) → w (new_child check) ≡ 0)
    → total w (fork_children checks i n) ≡ 0
unfolding total
total-fork_children w checks i zero h = refl
total-fork_children w checks i (suc n) h =
    omega (arith, h (checks i), total-fork_children w checks (i + 1) n h)

length-fork_children : (checks : ℕ → ℕ) (i n : ℕ) → length (fork_children checks i n) ≡ n
length-fork_children checks i zero = refl
length-fork_children checks i (suc n) = omega (arith, length-fork_children checks (i + 1) n)

init-Inv : (k : Sizes) (mc : ℕ) (checks : ℕ → ℕ) → Inv k mc checks (λ j. 0) (init k mc checks)
unfolding init total
init-Inv k mc checks =
    let a = k.num_children in
    record {
      size = length-fork_children checks 0 a;
      ready = total-fork_children posted checks 0 a (λ c. refl);
      start = omega (arith, total-fork_children started checks 0 a (λ c. refl));
      halt = refl;
      at_main = inl refl;
      child = λ i c g.
          subst (IsChild a k.m i (checks i) 0 _) (sym (fork_children-new checks 0 a i c g))
            (record {
              section = refl;
              rounds = 0;
              begun_is = refl;
              written = omega arith;
              here = (refl, refl, ap checks {x = 0 + i} {y = i} (omega arith));
            });
      ids = tt;
    }

-- In every state that a run reaches.
pub reached-Inv :
    (k : Sizes) (mc : ℕ) (checks : ℕ → ℕ) (ts : List Turn)
    → Inv k mc checks (rounds_begun k (init k mc checks) ts) (run k (init k mc checks) ts)
reached-Inv k mc checks ts =
    Inv-same k mc checks _ _ _ (λ j. omega arith)
      (run-Inv k mc checks (λ j. 0) (init k mc checks) ts (init-Inv k mc checks))
