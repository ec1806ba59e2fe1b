-- ===== src/Dekker/Tests.antt =====
-- Runs of Esercizi_Personali/dekker.c.
use esercitazioni_sistemi_di.Base.{◌≡◌, refl, true, false, ◌&&◌, List, [], ◌∷◌}
use esercitazioni_sistemi_di.Dekker.{Process, p0, p1, init, run, step, dekker_at, give_turn}
use esercitazioni_sistemi_di.Dekker.Exclusion.{in_critical, has_ended, mutual_exclusion, can_leave}

-- Both raise their flags; the second one's turn has not come.
abbrev schedule : List Process
schedule = p0 ∷ p1 ∷ p0 ∷ p1 ∷ p0 ∷ p1 ∷ p1 ∷ p0 ∷ p0 ∷ []

mutual_exclusion_example :
    (in_critical (run schedule init).place0 && in_critical (run schedule init).place1) ≡ false
mutual_exclusion_example = mutual_exclusion schedule

can_leave_example :
    (qs : List Process) × (let s = run qs (run schedule init) in
      (has_ended s.place0 && has_ended s.place1) ≡ true)
can_leave_example = can_leave schedule

inside : (run schedule init).place0 ≡ give_turn
unfolding run step dekker_at
inside = refl
