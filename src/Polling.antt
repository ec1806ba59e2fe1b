-- ===== src/Polling.antt =====
-- Lab04/code/riepilogo.c: children that log their accesses to a file, and a main process that polls
-- one named semaphore and posts the two others.
pub mod Effects
pub mod Moves
pub mod Inv
pub mod Runs
pub mod Results
mod Tests
use esercitazioni_sistemi_di.Base.{
  ℕ, zero, suc, ◌+◌, ◌-◌, Option, none, some, List, [], ◌∷◌, ◌++◌, set, get_elem?, ltb, ◌==◌,
  if◌then◌else◌,
}
use esercitazioni_sistemi_di.Accesses.{
  Thread, wait_section, append_id, post_section, thread_ended, has_ended, Report, parse_output,
}

-- What all processes share: the counts of `ready_sem`, `start_sem` and `halt_sem`, and the file.
pub record Shared : Type 0 where
  pub ready : ℕ
  pub start : ℕ
  pub halt : ℕ
  pub log : List ℕ

-- The place of a child in `childProcess`, with the counters of its loops.
pub data Place : Type 0 where
  post_ready wait_start test_halt : Place
  create join : ℕ → Place
  child_ended : Place

-- A child: its place, its variable `check`, the threads of this round, and its copy of `file_sem`,
-- which the processes do not share.
pub record Child : Type 0 where
  pub place : Place
  pub check : ℕ
  pub threads : List Thread
  pub file_sem : ℕ

-- The place of the main process in `mainProcess` and behind it, with `check` and the counters.
pub data Main : Type 0 where
  poll_ready post_start post_halt : ℕ → Main
  parse main_ended : Main

-- `thread_function` of a child, by steps, on `file_sem` of the child and the file.
unfoldable pub thread_at : ℕ → Thread → ℕ → List ℕ → ℕ × List ℕ × Thread
thread_at child_id wait_section file_sem log =
    if file_sem == 0 then (file_sem, log, wait_section) else (file_sem - 1, log, append_id)
thread_at child_id append_id file_sem log = (file_sem, log ++ child_id ∷ [], post_section)
thread_at child_id post_section file_sem log = (file_sem + 1, log, thread_ended)
thread_at child_id thread_ended file_sem log = (file_sem, log, thread_ended)

-- `childProcess` by steps, with `N` children and `M` threads in a round. A `pthread_join` of a thread
-- that has not ended, and a `sem_wait` on 0, change nothing.
unfoldable pub child_at : ℕ → ℕ → Place → Shared → Child → Shared × Child
child_at num_children m post_ready sh c =
    (record sh { ready = sh.ready + 1 }, record c { place = wait_start })
child_at num_children m wait_start sh c =
    if sh.start == 0
    then (sh, c)
    else (record sh { start = sh.start - 1 }, record c { place = test_halt })
child_at num_children m test_halt sh c =
    if c.check == num_children
    then (sh, record c { place = child_ended })
    else (sh, record c { place = create 0; check = sh.halt; threads = [] })
child_at num_children m (create i) sh c =
    if ltb i m
    then (sh, record c { place = create (i + 1); threads = c.threads ++ wait_section ∷ [] })
    else (sh, record c { place = join 0 })
child_at num_children m (join j) sh c =
    if ltb j m
    then (
      sh,
      record c { place = if has_ended (get_elem? c.threads j) then join (j + 1) else join j },
    )
    else (sh, record c { place = test_halt })
child_at num_children m child_ended sh c = (sh, c)

-- `parseOutput`; its array has as many cells as the variable `n` says. A number behind it leaves no
-- defined result.
unfoldable pub lab04_parse_output : ℕ → List ℕ → Option Report
lab04_parse_output = parse_output

pub record System : Type 0 where
  pub shared : Shared
  pub main : Main
  pub children : List Child
  pub report : Option Report

-- `mainProcess` by steps, and `parseOutput` behind it.
unfoldable pub main_at : ℕ → ℕ → Main → System → System
main_at num_children n (poll_ready check) s =
    if check == num_children
    then record s { main = post_start 0 }
    else record s { main = poll_ready s.shared.ready }
main_at num_children n (post_start i) s =
    if ltb i num_children
    then record s {
      shared = record s.shared { start = s.shared.start + 1 };
      main = post_start (i + 1);
    }
    else record s { main = post_halt 0 }
main_at num_children n (post_halt i) s =
    if ltb i num_children
    then record s {
      shared = record s.shared { halt = s.shared.halt + 1 };
      main = post_halt (i + 1);
    }
    else record s { main = parse }
main_at num_children n parse s = record s {
  main = main_ended;
  report = lab04_parse_output n s.shared.log;
}
main_at num_children n main_ended s = s

-- Whose turn it is: a thread is named by its child and its place in the round.
pub data Turn : Type 0 where
  main_process : Turn
  child_process : ℕ → Turn
  thread_function : ℕ → ℕ → Turn

unfoldable pub move_thread : ℕ → ℕ → System → Child → Option Thread → System
unfolding thread_at
move_thread i j s c none = s
move_thread i j s c (some t) =
    let (file_sem, log, t') = thread_at i t c.file_sem s.shared.log in
    record s {
      shared = record s.shared { log = log };
      children = set s.children i (record c { threads = set c.threads j t'; file_sem = file_sem });
    }

unfoldable pub move_thread_of : ℕ → ℕ → System → Option Child → System
unfolding move_thread
move_thread_of i j s none = s
move_thread_of i j s (some c) = move_thread i j s c (get_elem? c.threads j)

unfoldable pub move_child : ℕ → ℕ → ℕ → System → Option Child → System
unfolding child_at
move_child num_children m i s none = s
move_child num_children m i s (some c) =
    let (shared, c') = child_at num_children m c.place s.shared c in
    record s { shared = shared; children = set s.children i c' }

-- The numbers of the two macros and of the variable `n`, which `argv[1]` may set.
pub record Sizes : Type 0 where
  pub num_children : ℕ
  pub m : ℕ
  pub n : ℕ

unfoldable pub step : Sizes → System → Turn → System
unfolding main_at move_child move_thread_of
step k s main_process = main_at k.num_children k.n s.main s
step k s (child_process i) = move_child k.num_children k.m i s (get_elem? s.children i)
step k s (thread_function i j) = move_thread_of i j s (get_elem? s.children i)

unfoldable pub run : Sizes → System → List Turn → System
unfolding step
run k s [] = s
run k s (t ∷ ts) = run k (step k s t) ts

-- A child when it is created; `check` is not initialised, and holds anything.
abbrev pub new_child : ℕ → Child
new_child check = record { place = post_ready; check = check; threads = []; file_sem = 1 }

-- The loop of `main` that creates the children, from number `i` on.
abbrev pub fork_children : (ℕ → ℕ) → ℕ → ℕ → List Child
fork_children checks i zero = []
fork_children checks i (suc k) = new_child (checks i) ∷ fork_children checks (i + 1) k

-- `main`: the semaphores as they are created, an empty file, and the children; `main_check` and
-- `checks` are what the variables `check` hold at first.
unfoldable pub init : Sizes → ℕ → (ℕ → ℕ) → System
init k main_check checks = record {
  shared = record { ready = 0; start = 0; halt = 0; log = [] };
  main = poll_ready main_check;
  children = fork_children checks 0 k.num_children;
  report = none;
}
