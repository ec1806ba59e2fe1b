-- ===== src/Accesses.antt =====
-- Lab05/src/00/riepilogo.c: children that log their accesses to a file until the main process tells
-- them to end, and the statistics of the file.
pub mod Parse
pub mod Effects
pub mod Moves
pub mod Inv
pub mod Results
pub mod Progress
pub mod Ends
pub mod Again
mod Tests
use esercitazioni_sistemi_di.Base.{
  ℕ, zero, suc, ◌+◌, ◌-◌, Bool, true, false, Option, none, some, List, [], ◌∷◌, ◌++◌, replicate,
  length, set, get_elem?, get_or, ltb, ◌==◌, if◌then◌else◌,
}
use esercitazioni_sistemi_di.Base.Int.{ℤ, pos, negsuc, ltb_ℤ}
use esercitazioni_sistemi_di.Base.Threads.{total}

-- What the processes share: the three semaphores, `*data`, and the file.
pub record Shared : Type 0 where
  pub main_waits_for_children : ℕ
  pub children_wait_for_main : ℕ
  pub critical_section : ℕ
  pub flag : ℕ
  pub log : List ℕ

-- The place of a thread in `thread_function`.
pub data Thread : Type 0 where
  wait_section append_id post_section thread_ended : Thread

-- The place of a child in `child_process`, with the counter `j` of its loops.
pub data Place : Type 0 where
  post_ready wait_start : Place
  create : ℕ → Place
  join : ℕ → Place
  check child_ended : Place

-- A child: its place, the threads of this round, and its counter `thread_id`.
pub record Child : Type 0 where
  pub place : Place
  pub threads : List Thread
  pub thread_id : ℕ

-- The place of the main process in `main_process`, with the counter `i` of its loops.
pub data Main : Type 0 where
  wait_ready : ℕ → Main
  post_start : ℕ → Main
  set_data : Main
  wait_child : ℕ → Main
  parse main_ended : Main

-- `thread_function` of a child, by steps. The `write` of the four bytes of `child_id`, at the end of
-- the file, is one step.
unfoldable pub thread_at : ℕ → Thread → Shared → Shared × Thread
thread_at child_id wait_section sh =
    if sh.critical_section == 0
    then (sh, wait_section)
    else (record sh { critical_section = sh.critical_section - 1 }, append_id)
thread_at child_id append_id sh = (record sh { log = sh.log ++ child_id ∷ [] }, post_section)
thread_at child_id post_section sh =
    (record sh { critical_section = sh.critical_section + 1 }, thread_ended)
thread_at child_id thread_ended sh = (sh, thread_ended)

abbrev pub has_ended : Option Thread → Bool
has_ended (some thread_ended) = true
has_ended t = false

-- `child_process` by steps; `m` is the number of threads of a round, `stop` the test of `*data`. A
-- `pthread_join` of a thread that has not ended, and a `sem_wait` on 0, change nothing.
unfoldable pub child_at : ℕ → (ℕ → Bool) → Place → Shared → Child → Shared × Child
child_at m stop post_ready sh c = (
  record sh { main_waits_for_children = sh.main_waits_for_children + 1 },
  record c { place = wait_start },
)
child_at m stop wait_start sh c = if sh.children_wait_for_main == 0 then (sh, c) else (
  record sh { children_wait_for_main = sh.children_wait_for_main - 1 },
  record c { place = create 0; threads = []; thread_id = 0 },
)
child_at m stop (create j) sh c =
    if ltb j m
    then (
      sh,
      record c {
        place = create (j + 1);
        threads = c.threads ++ wait_section ∷ [];
        thread_id = c.thread_id + 1;
      },
    )
    else (sh, record c { place = join 0 })
child_at m stop (join j) sh c =
    if ltb j m
    then (
      sh,
      record c { place = if has_ended (get_elem? c.threads j) then join (j + 1) else join j },
    )
    else (sh, record c { place = check })
child_at m stop check sh c =
    if stop sh.flag
    then (sh, record c { place = child_ended })
    else (sh, record c { place = create 0; threads = [] })
child_at m stop child_ended sh c = (sh, c)

-- The first loop of `parseOutput`: how often each index stands in the file. `access_stats[index]++`
-- behind the end of the array has no defined behaviour: then there is no result.
abbrev pub count_accesses : List ℕ → List ℕ → Option (List ℕ)
count_accesses [] access_stats = some access_stats
count_accesses (index ∷ log) access_stats =
    let rest = count_accesses log (set access_stats index (get_or access_stats index 0 + 1)) in
    if ltb index (length access_stats) then rest else none

-- The second loop: the child with the most accesses, and their number.
abbrev pub find_max : List ℕ → ℕ → ℤ × ℤ → ℤ × ℤ
find_max [] i (max_child_id, max_accesses) = (max_child_id, max_accesses)
find_max (accesses ∷ access_stats) i (max_child_id, max_accesses) = find_max access_stats (i + 1) (
    if ltb_ℤ max_accesses (pos accesses)
    then (pos i, pos accesses)
    else (max_child_id, max_accesses))

-- What `parseOutput` prints.
pub record Report : Type 0 where
  pub access_stats : List ℕ
  pub max_child_id : ℤ
  pub max_accesses : ℤ

abbrev pub report_on : Option (List ℕ) → Option Report
report_on none = none
report_on (some access_stats) =
    let (max_child_id, max_accesses) = find_max access_stats 0 (negsuc 0, negsuc 0) in
    some (record {
      access_stats = access_stats;
      max_child_id = max_child_id;
      max_accesses = max_accesses;
    })

unfoldable pub parse_output : ℕ → List ℕ → Option Report
parse_output n log = report_on (count_accesses log (replicate n 0))

pub record System : Type 0 where
  pub shared : Shared
  pub main : Main
  pub children : List Child
  pub report : Option Report

-- 1 for a child that has exited
abbrev pub exited : Child → ℕ
exited c = elim c.place [ child_ended ↦ 1 | _ ↦ 0 ]

-- `main_process` by steps. The `wait` number `i` returns when more than `i` children have exited.
unfoldable pub main_at : ℕ → Main → System → System
main_at n (wait_ready i) s =
    if ltb i n
    then if s.shared.main_waits_for_children == 0 then s else record s {
      shared = record s.shared { main_waits_for_children = s.shared.main_waits_for_children - 1 };
      main = wait_ready (i + 1);
    }
    else record s { main = post_start 0 }
main_at n (post_start i) s =
    if ltb i n
    then record s {
      shared = record s.shared { children_wait_for_main = s.shared.children_wait_for_main + 1 };
      main = post_start (i + 1);
    }
    else record s { main = set_data }
main_at n set_data s = record s { shared = record s.shared { flag = 1 }; main = wait_child 0 }
main_at n (wait_child i) s =
    if ltb i n
    then record s {
      main = if ltb i (total exited s.children) then wait_child (i + 1) else wait_child i;
    }
    else record s { main = parse }
main_at n parse s = record s { main = main_ended; report = parse_output n s.shared.log }
main_at n main_ended s = s

-- Whose turn it is: a thread is named by its child and its place in the round.
pub data Turn : Type 0 where
  main_process : Turn
  child_process : ℕ → Turn
  thread_function : ℕ → ℕ → Turn

unfoldable pub move_thread : ℕ → ℕ → System → Child → Option Thread → System
unfolding thread_at
move_thread i j s c none = s
move_thread i j s c (some t) =
    let (shared, t') = thread_at i t s.shared in
    record s {
      shared = shared;
      children = set s.children i (record c { threads = set c.threads j t' });
    }

unfoldable pub move_child : ℕ → (ℕ → Bool) → ℕ → System → Option Child → System
unfolding child_at
move_child m stop i s none = s
move_child m stop i s (some c) =
    let (shared, c') = child_at m stop c.place s.shared c in
    record s { shared = shared; children = set s.children i c' }

unfoldable pub move_thread_of : ℕ → ℕ → System → Option Child → System
unfolding move_thread
move_thread_of i j s none = s
move_thread_of i j s (some c) = move_thread i j s c (get_elem? c.threads j)

unfoldable pub step : ℕ → ℕ → (ℕ → Bool) → System → Turn → System
unfolding main_at move_child move_thread_of
step n m stop s main_process = main_at n s.main s
step n m stop s (child_process i) = move_child m stop i s (get_elem? s.children i)
step n m stop s (thread_function i j) = move_thread_of i j s (get_elem? s.children i)

unfoldable pub run : ℕ → ℕ → (ℕ → Bool) → System → List Turn → System
unfolding step
run n m stop s [] = s
run n m stop s (t ∷ ts) = run n m stop (step n m stop s t) ts

-- `main`: the semaphores and the shared memory as they are created, an empty file, and the `n`
-- children of its loop; one that is not created yet has had no turn.
unfoldable pub init : ℕ → System
init n = record {
  shared = record {
    main_waits_for_children = 0;
    children_wait_for_main = 0;
    critical_section = 1;
    flag = 0;
    log = [];
  };
  main = wait_ready 0;
  children = replicate n (record { place = post_ready; threads = []; thread_id = 0 });
  report = none;
}

-- `if (*data == 1) break;`
abbrev pub is_told_to_end : ℕ → Bool
is_told_to_end data_value = data_value == 1
