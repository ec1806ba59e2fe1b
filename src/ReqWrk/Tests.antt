-- ===== src/ReqWrk/Tests.antt =====
-- Runs of Lab05/src/01/req_wrk.c.
use esercitazioni_sistemi_di.Base.{◌≡◌, refl, List, [], ◌∷◌, ◌++◌, replicate}
use esercitazioni_sistemi_di.ReqWrk.{
  num, request_ended, init, Turn, parent, child, step, run, move_request, move_work,
}
use esercitazioni_sistemi_di.ReqWrk.Phases.{squares}
use esercitazioni_sistemi_di.ReqWrk.Results.{prints_squares, can_finish, Ended}

-- The child is blocked at first, and the parent later.
abbrev schedule : List Turn
schedule = child ∷ replicate 14 parent ++ replicate 13 child ++ replicate 12 parent

ends : (run schedule init).request ≡ request_ended
unfolding run step move_request move_work
ends = refl

printed : (run schedule init).printed ≡ 0 ∷ 1 ∷ 4 ∷ 9 ∷ 16 ∷ 25 ∷ 36 ∷ 49 ∷ 64 ∷ 81 ∷ []
unfolding run step move_request move_work
printed = refl

prints_squares_example : (run schedule init).printed ≡ squares num
prints_squares_example = prints_squares schedule ends

can_finish_example : (ts : List Turn) × Ended (run ts (run (child ∷ parent ∷ []) init))
can_finish_example = can_finish (child ∷ parent ∷ [])
