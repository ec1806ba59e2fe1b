-- ===== src/Polling/Tests.antt =====
-- Runs of Lab04/code/riepilogo.c.
use esercitazioni_sistemi_di.Base.{
  ℕ, ◌*◌, ◌<◌, ◌≡◌, ◌⊎◌, refl, some, List, [], ◌∷◌, ◌++◌, replicate, get_elem?, arith,
}
use esercitazioni_sistemi_di.Base.Int.{pos}
use esercitazioni_sistemi_di.Accesses.{append_id, thread_ended, parse_output}
use esercitazioni_sistemi_di.Accesses.Parse.{occurrences}
use esercitazioni_sistemi_di.Polling.{
  Child, child_ended, join, Turn, main_process, child_process, thread_function, thread_at, child_at,
  main_at, move_thread, move_child, move_thread_of, Sizes, step, run, init, lab04_parse_output,
}
use esercitazioni_sistemi_di.Polling.Effects.{posted}
use esercitazioni_sistemi_di.Polling.Runs.{rounds_begun}
use esercitazioni_sistemi_di.Polling.Results.{rounds_written, ready_before_start}

-- One child with one thread in a round; the variables `check` hold 7 at first.
abbrev one_child : Sizes
one_child = record { num_children = 1; m = 1; n = 1 }

abbrev sevens : ℕ → ℕ
sevens i = 7

-- The child is let start and creates its thread, which enters the critical section.
abbrev first_part : List Turn
first_part =
    child_process 0 ∷ replicate 4 main_process
    ++ replicate 4 (child_process 0)
    ++ thread_function 0 0 ∷ []

-- The main process ends, and then the thread writes.
abbrev second_part : List Turn
second_part =
    replicate 4 main_process ++ replicate 2 (thread_function 0 0) ++ replicate 3 (child_process 0)

-- Another round, which sees the halt semaphore before it.
abbrev third_part : List Turn
third_part =
    replicate 3 (child_process 0)
    ++ replicate 3 (thread_function 0 0)
    ++ replicate 3 (child_process 0)

abbrev busy_child : Child
busy_child = record { place = join 0; check = 0; threads = append_id ∷ []; file_sem = 0 }

abbrev whole : List Turn
whole = first_part ++ second_part ++ third_part

busy : get_elem? (run one_child (init one_child 7 sevens) first_part).children 0 ≡ some busy_child
unfolding run step init main_at child_at thread_at move_child move_thread_of move_thread
busy = refl

-- The report counts no access, but the file has two.
late_report :
    (run one_child (init one_child 7 sevens) whole).report
    ≡ some (record { access_stats = 0 ∷ []; max_child_id = pos 0; max_accesses = pos 0 })
unfolding run step init main_at child_at thread_at move_child move_thread_of move_thread
    lab04_parse_output parse_output
late_report = refl

two_accesses : (run one_child (init one_child 7 sevens) whole).shared.log ≡ 0 ∷ 0 ∷ []
unfolding run step init main_at child_at thread_at move_child move_thread_of move_thread
two_accesses = refl

abbrev last_child : Child
last_child = record { place = child_ended; check = 1; threads = thread_ended ∷ []; file_sem = 1 }

ended : get_elem? (run one_child (init one_child 7 sevens) whole).children 0 ≡ some last_child
unfolding run step init main_at child_at thread_at move_child move_thread_of move_thread
ended = refl

-- With 1 in `check` of the child there is no round.
no_round :
    get_elem?
      (run one_child
        (init one_child 7 (λ i. 1))
        (child_process 0 ∷ replicate 4 main_process ++ replicate 2 (child_process 0))).children
      0
    ≡ some (record { place = child_ended; check = 1; threads = []; file_sem = 1 })
unfolding run step init main_at child_at thread_at move_child move_thread_of move_thread
no_round = refl

two_rounds : rounds_begun one_child (init one_child 7 sevens) whole 0 ≡ 2
unfolding rounds_begun step init main_at child_at thread_at move_child move_thread_of move_thread
two_rounds = refl

rounds_written_example :
    (let s = run one_child (init one_child 7 sevens) whole in
      let rounds = rounds_begun one_child (init one_child 7 sevens) whole 0 in
      (occurrences 0 s.shared.log ≡ rounds * 1)
      × (((rounds ≡ 0) × (one_child.num_children ≡ sevens 0))
          ⊎ ((0 < rounds) × (s.shared.halt ≡ 1))))
rounds_written_example = rounds_written one_child 7 sevens whole 0 last_child ended refl

ready_before_start_example : posted busy_child ≡ 1
ready_before_start_example =
    ready_before_start one_child 7 sevens first_part 0 0 busy_child busy_child (omega arith) busy
      busy refl
