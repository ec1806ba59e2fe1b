-- ===== src/EchoFifo/Quit.antt =====
-- Whether the loop of echo.c can end by its quit command.
use esercitazioni_sistemi_di.Base.{
  ℕ, zero, suc, ◌≡◌, ◌≢◌, refl, true, false, List, [], ◌∷◌, set, get_or, length, ltb, arith,
  if_cases, get_or-set_ne,
}
use esercitazioni_sistemi_di.Posix.{Event, Status, returned, Filled, Written}
use esercitazioni_sistemi_di.EchoFifo.{
  Echo, newline, quits, quit_command, memcmp_zero, after_write, after_read, echo_loop,
  read_one_by_one,
}
use esercitazioni_sistemi_di.EchoFifo.Lines.{read_one_by_one-ends}

-- A match with "QUIT" has a 'T' at index 3.
memcmp_last : (xs : List ℕ) → memcmp_zero xs quit_command 4 ≡ true → get_or xs 3 0 ≡ b'T'
memcmp_last [] h = ground arith
memcmp_last (a ∷ []) h = ground arith
memcmp_last (a ∷ b ∷ []) h = ground arith
memcmp_last (a ∷ b ∷ c ∷ []) h = ground arith
memcmp_last (a ∷ b ∷ c ∷ d ∷ xs) h = ground arith

-- What `readOneByOne` returns never passes the test: its fourth byte would have to be both the
-- separator and a 'T'.
pub not-quits :
    (kernel : List Event) (input buf : List ℕ)
    → (let f = read_one_by_one kernel input buf 0 newline in
        f.status ≡ returned → quits f.read_bytes (set f.buf f.read_bytes 0) ≡ false)
not-quits kernel input buf done =
    let f = read_one_by_one kernel input buf 0 newline in
    let (k, count, sep) = read_one_by_one-ends kernel input buf 0 newline done in
    ground (
      arith,
      memcmp_last (set f.buf f.read_bytes 0),
      get_or-set_ne f.buf f.read_bytes k 0 0 (omega arith),
    )

after_write-waits :
    (status : Status) (input buf : List ℕ) (next : List Event → List ℕ → Echo) (w : Written)
    → ((k : List Event) (o : List ℕ) → (next k o).status ≢ returned)
    → (after_write status input buf next w).status ≢ returned
unfolding after_write
after_write-waits returned input buf next w h = h w.kernel w.out
after_write-waits status input buf next w h = λ e. ground arith

after_read-waits :
    (status : Status) (out : List ℕ) (next : List ℕ → List ℕ → List Event → List ℕ → Echo)
    (f : Filled)
    → (status ≡ returned → quits f.read_bytes (set f.buf f.read_bytes 0) ≡ false)
    → ((i b : List ℕ) (k : List Event) (o : List ℕ) → (next i b k o).status ≢ returned)
    → (after_read status out next f).status ≢ returned
unfolding after_read
after_read-waits returned out next f no_quit h =
    if_cases (λ (e : Echo). e.status ≢ returned) (ltb f.read_bytes (length f.buf)) _ _
      (λ room.
        if_cases (λ (e : Echo). e.status ≢ returned) (quits f.read_bytes (set f.buf f.read_bytes 0))
          _ _ (λ q. absurd (cc (no_quit refl)))
          (λ _.
            after_write-waits _ f.input _ (λ k o. next f.input (set f.buf f.read_bytes 0) k o) _
              (h f.input _)))
      (λ behind e. ground arith)
after_read-waits status out next f no_quit h = λ e. ground arith

-- No message makes the loop of echo.c end by its `break`: not "QUIT" and a newline either, whose
-- five bytes are compared with the four of the quit command. A message that does not fit the buffer
-- ends the run as overflowed, which is no `break` either.
pub echo_loop-never_quits :
    (fuel : ℕ) (input buf : List ℕ) (kernel : List Event) (out : List ℕ)
    → (echo_loop fuel input buf kernel out).status ≢ returned
unfolding echo_loop
echo_loop-never_quits zero input buf kernel out = λ e. ground arith
echo_loop-never_quits (suc fuel) input buf kernel out =
    after_read-waits _ out (λ i b k o. echo_loop fuel i b k o)
      (read_one_by_one kernel input buf 0 newline) (not-quits kernel input buf)
      (λ i b k o. echo_loop-never_quits fuel i b k o)
