-- ===== src/Dekker.antt =====
-- Esercizi_Personali/dekker.c: mutual exclusion of two processes by shared variables.
pub mod Exclusion
mod Tests
use esercitazioni_sistemi_di.Base.{Bool, true, false, List, [], ◌∷◌, not, if◌then◌else◌}

-- The process with `me = 0`, and the other, `me = 1`.
pub data Process : Type 0 where
  p0 p1 : Process

abbrev pub other_of : Process → Process
other_of p0 = p1
other_of p1 = p0

abbrev pub same : Process → Process → Bool
same p0 p0 = true
same p0 p1 = false
same p1 p0 = false
same p1 p1 = true

-- The place of a process in `dekker`, named by what it does next.
pub data Place : Type 0 where
  raise_flag test_flag test_turn lower_flag wait_turn raise_again critical give_turn leave ended :
      Place

-- `flag`, `turn`, and the place of each process.
pub record System : Type 0 where
  pub flag0 : Bool
  pub flag1 : Bool
  pub turn : Process
  pub place0 : Place
  pub place1 : Place

abbrev pub flag : System → Process → Bool
flag s p0 = s.flag0
flag s p1 = s.flag1

abbrev pub place : System → Process → Place
place s p0 = s.place0
place s p1 = s.place1

abbrev pub set_flag : System → Process → Bool → System
set_flag s p0 b = record s { flag0 = b }
set_flag s p1 b = record s { flag1 = b }

abbrev pub go : System → Process → Place → System
go s p0 l = record s { place0 = l }
go s p1 l = record s { place1 = l }

abbrev pub init : System
init = record { flag0 = false; flag1 = false; turn = p0; place0 = raise_flag; place1 = raise_flag }

-- One step of `dekker` in the process `me`: one access to a shared variable.
unfoldable pub dekker_at : Place → Process → System → System
dekker_at raise_flag me s = go (set_flag s me true) me test_flag
dekker_at test_flag me s = go s me (if flag s (other_of me) then test_turn else critical)
dekker_at test_turn me s = go s me (if same s.turn (other_of me) then lower_flag else test_flag)
dekker_at lower_flag me s = go (set_flag s me false) me wait_turn
dekker_at wait_turn me s = go s me (if same s.turn (other_of me) then wait_turn else raise_again)
dekker_at raise_again me s = go (set_flag s me true) me test_flag
dekker_at critical me s = go s me give_turn
dekker_at give_turn me s = go (record s { turn = other_of me }) me leave
dekker_at leave me s = go (set_flag s me false) me ended
dekker_at ended me s = s

unfoldable pub step : Process → System → System
step p s = dekker_at (place s p) p s

unfoldable pub run : List Process → System → System
unfolding step
run [] s = s
run (p ∷ ps) s = run ps (step p s)
