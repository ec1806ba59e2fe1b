-- ===== src/EchoFifo/Client.antt =====
-- The main loop of Lab06/src/03 EchoFIFO/client.c.
use esercitazioni_sistemi_di.Base.{
  ℕ, ◌+◌, ◌-◌, ◌%◌, ◌^◌, ◌≢◌, Bool, ◌&&◌, List, [], ◌∷◌, ◌++◌, arith, ◌==◌, if◌then◌else◌, set,
  take, ltb, length, if_cases,
}
use esercitazioni_sistemi_di.Posix.{
  Event, Status, returned, exited, overflowed, Filled, Written, blit,
}
use esercitazioni_sistemi_di.EchoFifo.{
  newline, strlen, memcmp_zero, quit_command, write_msg, read_one_by_one,
}

-- The state of the client between two calls; `shown` are the answers that it has printed.
pub record Client : Type 0 where
  pub status : Status
  pub input : List ℕ
  pub buf : List ℕ
  pub out : List ℕ
  pub kernel : List Event
  pub shown : List (List ℕ)

-- The test for the end: `bytes_sent - 1`, an `int`, is compared as a `size_t`.
abbrev pub client_quits : ℕ → List ℕ → Bool
client_quits bytes_sent buf =
    (bytes_sent + (2 ^ 64 - 1)) % 2 ^ 64 == 4 && memcmp_zero buf quit_command 4

unfoldable pub after_answer :
    Status
    → List ℕ
    → List (List ℕ)
    → (List ℕ → List ℕ → List Event → List (List ℕ) → Client)
    → Filled
    → Client
after_answer returned out shown next f =
    let buf = set f.buf f.read_bytes 0 in
    if ltb f.read_bytes (length f.buf)
    then next f.input buf f.kernel (shown ++ take (strlen buf) buf ∷ [])
    else record {
      status = overflowed;
      input = f.input;
      buf = f.buf;
      out = out;
      kernel = f.kernel;
      shown = shown;
    }
after_answer other out shown next f = record {
  status = other;
  input = f.input;
  buf = f.buf;
  out = out;
  kernel = f.kernel;
  shown = shown;
}

-- What follows when the message has been sent: `bytes_sent` is still 0.
unfoldable pub after_message :
    Status
    → List ℕ
    → List ℕ
    → List (List ℕ)
    → (List ℕ → List ℕ → List Event → List ℕ → List (List ℕ) → Client)
    → Written
    → Client
unfolding after_answer read_one_by_one
after_message returned input buf shown next w =
    let f = read_one_by_one w.kernel input buf 0 newline in
    if client_quits 0 buf
    then record {
      status = returned;
      input = input;
      buf = buf;
      out = w.out;
      kernel = w.kernel;
      shown = shown;
    }
    else after_answer f.status w.out shown (λ i b k t. next i b k w.out t) f
after_message other input buf shown next w = record {
  status = other;
  input = input;
  buf = buf;
  out = w.out;
  kernel = w.kernel;
  shown = shown;
}

-- The loop. `lines` are the lines that `fgets` reads; when there are none the program ends with an error.
unfoldable pub client_loop :
    List (List ℕ) → List ℕ → List ℕ → List Event → List ℕ → List (List ℕ) → Client
unfolding after_message write_msg
client_loop [] input buf kernel out shown = record {
  status = exited;
  input = input;
  buf = buf;
  out = out;
  kernel = kernel;
  shown = shown;
}
client_loop (line ∷ lines) input buf kernel out shown =
    let buf' = blit buf 0 (line ++ 0 ∷ []) in
    let w = write_msg kernel buf' out in
    after_message w.status input buf' shown (λ i b k o t. client_loop lines i b k o t) w

after_answer-goes_on :
    (status : Status) (out : List ℕ) (shown : List (List ℕ))
    (next : List ℕ → List ℕ → List Event → List (List ℕ) → Client) (f : Filled)
    → ((i b : List ℕ) (k : List Event) (t : List (List ℕ)) → (next i b k t).status ≢ returned)
    → (after_answer status out shown next f).status ≢ returned
unfolding after_answer
after_answer-goes_on returned out shown next f h =
    if_cases (λ (c : Client). c.status ≢ returned) (ltb f.read_bytes (length f.buf)) _ _
      (λ room. h f.input (set f.buf f.read_bytes 0) f.kernel _) (λ behind e. ground arith)
after_answer-goes_on status out shown next f h = λ e. ground arith

after_message-goes_on :
    (status : Status) (input buf : List ℕ) (shown : List (List ℕ))
    (next : List ℕ → List ℕ → List Event → List ℕ → List (List ℕ) → Client) (w : Written)
    → ((i b : List ℕ) (k : List Event) (o : List ℕ) (t : List (List ℕ))
        → (next i b k o t).status ≢ returned)
    → (after_message status input buf shown next w).status ≢ returned
unfolding after_message
after_message-goes_on returned input buf shown next w h =
    after_answer-goes_on _ w.out shown (λ i b k t. next i b k w.out t)
      (read_one_by_one w.kernel input buf 0 newline) (λ i b k t. h i b k w.out t)
after_message-goes_on status input buf shown next w h = λ e. ground arith

-- No line that the user types ends the client by its `break`, the quit command included: it waits for an
-- answer, or ends with an error.
pub client_loop-never_quits :
    (lines : List (List ℕ)) (input buf : List ℕ) (kernel : List Event) (out : List ℕ)
    (shown : List (List ℕ))
    → (client_loop lines input buf kernel out shown).status ≢ returned
unfolding client_loop
client_loop-never_quits [] input buf kernel out shown = λ e. ground arith
client_loop-never_quits (line ∷ lines) input buf kernel out shown =
    after_message-goes_on _ input _ shown (λ i b k o t. client_loop lines i b k o t)
      (write_msg kernel (blit buf 0 (line ++ 0 ∷ [])) out)
      (λ i b k o t. client_loop-never_quits lines i b k o t)
