-- ===== src/Accesses/Tests.antt =====
-- Runs of Lab05/src/00/riepilogo.c and of Lab07/src/02 riepilogo/riepilogo.c.
use esercitazioni_sistemi_di.Base.{
  ℕ, ◌+◌, ◌*◌, ◌≡◌, refl, some, none, List, [], ◌∷◌, ◌++◌, get_elem?, arith,
}
use esercitazioni_sistemi_di.Base.Int.{pos, negsuc}
use esercitazioni_sistemi_di.Base.Threads.{total}
use esercitazioni_sistemi_di.Accesses.{
  append_id, Child, join, main_ended, Report, Turn, main_process, child_process, thread_function,
  thread_at, child_at, main_at, move_thread, move_child, move_thread_of, step, run, init,
  is_told_to_end, parse_output,
}
use esercitazioni_sistemi_di.Accesses.Parse.{occurrences, IsReport}
use esercitazioni_sistemi_di.Accesses.Results.{final_report, whole_rounds}
use esercitazioni_sistemi_di.Accesses.Ends.{reaches_end}
use esercitazioni_sistemi_di.Accesses.Again.{lab07_run, lab07_init, lab07_reports}

-- One child with one thread in a round, up to the critical section, and then to the end.
abbrev first_part : List Turn
first_part =
    let m = main_process in
    let c = child_process 0 in c ∷ m ∷ m ∷ m ∷ m ∷ c ∷ c ∷ c ∷ c ∷ thread_function 0 0 ∷ []

abbrev second_part : List Turn
second_part =
    let m = main_process in
    let c = child_process 0 in
    let t = thread_function 0 0 in t ∷ t ∷ c ∷ c ∷ m ∷ c ∷ m ∷ m ∷ m ∷ m ∷ []

abbrev busy_child : Child
busy_child = record { place = join 0; threads = append_id ∷ []; thread_id = 1 }

busy : get_elem? (run 1 1 is_told_to_end (init 1) first_part).children 0 ≡ some busy_child
unfolding run step init main_at child_at thread_at move_child move_thread_of move_thread
busy = refl

ends : (run 1 1 is_told_to_end (init 1) (first_part ++ second_part)).main ≡ main_ended
unfolding run step init main_at child_at thread_at move_child move_thread_of move_thread total
ends = refl

reported :
    (run 1 1 is_told_to_end (init 1) (first_part ++ second_part)).report
    ≡ some (record { access_stats = 1 ∷ []; max_child_id = pos 0; max_accesses = pos 1 })
unfolding run step init main_at child_at thread_at move_child move_thread_of move_thread
    parse_output total
reported = refl

-- No child gives no maximum.
nobody :
    parse_output 0 []
    ≡ some (record { access_stats = []; max_child_id = negsuc 0; max_accesses = negsuc 0 })
unfolding parse_output
nobody = refl

-- A number behind the array leaves the result undefined.
no_cell : parse_output 2 (0 ∷ 2 ∷ []) ≡ none
unfolding parse_output
no_cell = refl

final_report_example :
    (r : Report) × ((run 1 1 is_told_to_end (init 1) (first_part ++ second_part)).report ≡ some r)
    × IsReport 1 (run 1 1 is_told_to_end (init 1) (first_part ++ second_part)).shared.log r
final_report_example =
    final_report 1 1 is_told_to_end (first_part ++ second_part) (omega arith) ends

whole_rounds_example :
    (let s = run 1 1 is_told_to_end (init 1) (first_part ++ second_part) in
      (c : Child) × (get_elem? s.children 0 ≡ some c)
      × (occurrences 0 s.shared.log ≡ c.thread_id)
      × ((rounds : ℕ) × (c.thread_id ≡ rounds * 1 + 1)))
whole_rounds_example =
    whole_rounds 1 1 is_told_to_end (first_part ++ second_part) 0 ends (omega arith)

reaches_end_example :
    (ts' : List Turn) × ((run 1 1 is_told_to_end
        (run 1 1 is_told_to_end (init 1) first_part)
        ts').main
      ≡ main_ended)
reaches_end_example = reaches_end 1 1 is_told_to_end first_part refl

lab07_reports_example :
    (ts' : List Turn) × (r : Report) × (c : Child) × (let s =
        lab07_run 1 1 (lab07_run 1 1 (lab07_init 1) first_part) ts' in
      (s.main ≡ main_ended)
      × (s.report ≡ some r)
      × IsReport 1 s.shared.log r
      × (get_elem? s.children 0 ≡ some c)
      × (occurrences 0 s.shared.log ≡ c.thread_id)
      × ((rounds : ℕ) × (c.thread_id ≡ rounds * 1 + 1)))
lab07_reports_example = lab07_reports 1 1 first_part 0 (omega arith)
