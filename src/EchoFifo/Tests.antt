-- ===== src/EchoFifo/Tests.antt =====
-- Runs of the loop of Lab06/src/03 EchoFIFO/echo.c.
use esercitazioni_sistemi_di.Base.{ℕ, ◌≡◌, ◌≢◌, refl, List, [], ◌∷◌, ◌++◌, arith, replicate}
use esercitazioni_sistemi_di.Posix.{overflowed, Event, chunk, eintr, returned, write_loop}
use esercitazioni_sistemi_di.EchoFifo.{newline, echo_loop, read_one_by_one, write_msg, quit_command}
use esercitazioni_sistemi_di.EchoFifo.Client.{client_loop}
use esercitazioni_sistemi_di.EchoFifo.Quit.{echo_loop-never_quits}
use esercitazioni_sistemi_di.EchoFifo.Rounds.{echo_loop-echoes}

abbrev hi : List ℕ
hi = b'h' ∷ b'i' ∷ []

abbrev kernel : List Event
kernel = chunk 1 ∷ eintr ∷ chunk 1 ∷ chunk 1 ∷ chunk 2 ∷ eintr ∷ chunk 1 ∷ chunk 1 ∷ []

abbrev buffer : List ℕ
buffer = replicate 8 0

echo_loop-never_quits_example :
    (echo_loop 3 (quit_command ++ newline ∷ []) buffer kernel []).status ≢ returned
echo_loop-never_quits_example =
    echo_loop-never_quits 3 (quit_command ++ newline ∷ []) buffer kernel []

echo_loop-echoes_example :
    (buf' : List ℕ) × (kernel' : List Event) × (echo_loop 1 (hi ++ newline ∷ []) buffer kernel []
      ≡ echo_loop 0 [] buf' kernel' (hi ++ (newline ∷ [])))
echo_loop-echoes_example =
    echo_loop-echoes 0 hi [] buffer kernel [] (omega arith, omega arith) (omega arith, omega arith)
      (omega arith) tt (omega arith)

-- What comes out is the line, newline included.
echoed : (echo_loop 1 (hi ++ newline ∷ []) buffer kernel []).out ≡ hi ++ newline ∷ []
unfolding echo_loop read_one_by_one write_loop
echoed = refl

-- A line of two bytes and its newline do not fit a buffer of two cells.
does_not_fit :
    (echo_loop 1 (hi ++ newline ∷ []) (0 ∷ 0 ∷ []) (chunk 0 ∷ chunk 0 ∷ chunk 0 ∷ []) []).status
    ≡ overflowed
unfolding echo_loop read_one_by_one write_loop
does_not_fit = refl

-- The client sends the quit command, and shows what it then receives.
quit_is_answered :
    (client_loop
      (quit_command ∷ [])
      (hi ++ newline ∷ [])
      buffer
      (chunk 3 ∷ chunk 0 ∷ chunk 0 ∷ chunk 0 ∷ [])
      []
      []).shown
    ≡ (hi ++ newline ∷ []) ∷ []
unfolding client_loop write_msg write_loop read_one_by_one
quit_is_answered = refl
