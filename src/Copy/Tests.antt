-- ===== src/Copy/Tests.antt =====
-- Copies at concrete inputs.
use esercitazioni_sistemi_di.Base.{ℕ, ◌≡◌, refl, List, [], ◌∷◌, arith}
use esercitazioni_sistemi_di.Posix.{
  Event, chunk, eintr, failed, returned, exited, read_loop, write_loop,
}
use esercitazioni_sistemi_di.Copy.{perform_copy}
use esercitazioni_sistemi_di.Copy.Returns.{perform_copy-exact}

abbrev source : List ℕ
source = 10 ∷ 20 ∷ 30 ∷ []

abbrev block : List ℕ
block = 0 ∷ 0 ∷ []

-- short transfers and interruptions
abbrev calls : List Event
calls =
    chunk 0
    ∷ eintr
    ∷ chunk 9
    ∷ chunk 0
    ∷ eintr
    ∷ chunk 0
    ∷ chunk 7
    ∷ chunk 7
    ∷ chunk 7
    ∷ chunk 7
    ∷ chunk 7
    ∷ chunk 7
    ∷ []

perform_copy-exact_example :
    ((perform_copy 4 2 calls source block []).status ≡ returned)
    × ((perform_copy 4 2 calls source block []).dest ≡ source)
perform_copy-exact_example =
    perform_copy-exact 2 calls source block (omega arith) (omega arith) tt (omega arith)

-- The second write fails: one byte has arrived.
failing_write :
    perform_copy 4 2 (chunk 9 ∷ chunk 0 ∷ failed ∷ []) source block []
    ≡ record { status = exited; src = 30 ∷ []; dest = 10 ∷ []; kernel = [] }
unfolding perform_copy read_loop write_loop
failing_write = refl
