-- ===== src/EchoFifo.antt =====
-- Lab06/src/03 EchoFIFO: rw.c, and the loops of echo.c and client.c.
pub mod Lines
pub mod Quit
pub mod Rounds
pub mod Client
mod Tests
use esercitazioni_sistemi_di.Base.{
  ℕ, zero, suc, ◌+◌, ◌-◌, ◌%◌, ◌^◌, Bool, true, false, ◌&&◌, not, Option, none, some, List, [], ◌∷◌,
  ◌++◌, ◌==◌, if◌then◌else◌, take, set, get_or, positive, ltb, length,
}
use esercitazioni_sistemi_di.Posix.{
  Event, chunk, eintr, failed, Status, returned, exited, waiting, overflowed, Filled, Written,
  write_loop,
}

-- `readOneByOne`: a byte at a time into `buf + bytes_read`, until the separator has been read. The end
-- of the input is an error. A byte that would be stored behind the buffer, which has no defined
-- behaviour, ends the run as `overflowed`.
unfoldable pub read_one_by_one : List Event → List ℕ → List ℕ → ℕ → ℕ → Filled
read_one_by_one [] input buf bytes_read separator = record {
  status = waiting;
  input = input;
  buf = buf;
  read_bytes = bytes_read;
  kernel = [];
}
read_one_by_one (eintr ∷ kernel) input buf bytes_read separator =
    read_one_by_one kernel input buf bytes_read separator
read_one_by_one (failed ∷ kernel) input buf bytes_read separator = record {
  status = exited;
  input = input;
  buf = buf;
  read_bytes = bytes_read;
  kernel = kernel;
}
read_one_by_one (chunk n ∷ kernel) [] buf bytes_read separator = record {
  status = exited;
  input = [];
  buf = buf;
  read_bytes = bytes_read;
  kernel = kernel;
}
read_one_by_one (chunk n ∷ kernel) (x ∷ input) buf bytes_read separator =
    let buf' = set buf bytes_read x in
    elim (ltb bytes_read (length buf)) [
      | true ↦ elim (get_or buf' bytes_read 0 == separator) [
        | true ↦ record {
          status = returned;
          input = input;
          buf = buf';
          read_bytes = bytes_read + 1;
          kernel = kernel;
        }
        | false ↦ read_one_by_one kernel input buf' (bytes_read + 1) separator
      ]
      | false ↦ record {
        status = overflowed;
        input = input;
        buf = buf;
        read_bytes = bytes_read;
        kernel = kernel;
      }
    ]

-- `strlen`
abbrev pub strlen : List ℕ → ℕ
strlen [] = 0
strlen (x ∷ xs) = if x == 0 then 0 else suc (strlen xs)

-- `writeMsg`: the message up to its terminator; the argument `size` is not used.
unfoldable pub write_msg : List Event → List ℕ → List ℕ → Written
write_msg kernel buf out = write_loop (λ n. n) kernel buf (strlen buf) 0 out

-- `memcmp(buf, command, n) == 0`
abbrev pub memcmp_zero : List ℕ → List ℕ → ℕ → Bool
memcmp_zero xs ys zero = true
memcmp_zero [] ys (suc n) = false
memcmp_zero (x ∷ xs) [] (suc n) = false
memcmp_zero (x ∷ xs) (y ∷ ys) (suc n) = x == y && memcmp_zero xs ys n

-- `QUIT_COMMAND` and the separator `'\\n'`
abbrev pub quit_command : List ℕ
quit_command = b'Q' ∷ b'U' ∷ b'I' ∷ b'T' ∷ []

abbrev pub newline : ℕ
newline = 10

-- The state of the echo program between two calls.
pub record Echo : Type 0 where
  pub status : Status
  pub input : List ℕ
  pub buf : List ℕ
  pub out : List ℕ
  pub kernel : List Event

-- The test by which the loop of echo.c ends.
abbrev pub quits : ℕ → List ℕ → Bool
quits bytes_read buf = bytes_read == 4 && memcmp_zero buf quit_command 4

-- What follows when the message has been sent back, and when it has been read. `next` is the next
-- round of `while (1)`. The terminator may not fit either.
unfoldable pub after_write :
    Status → List ℕ → List ℕ → (List Event → List ℕ → Echo) → Written → Echo
after_write returned input buf next w = next w.kernel w.out
after_write other input buf next w = record {
  status = other;
  input = input;
  buf = buf;
  out = w.out;
  kernel = w.kernel;
}

unfoldable pub after_read :
    Status → List ℕ → (List ℕ → List ℕ → List Event → List ℕ → Echo) → Filled → Echo
unfolding after_write write_msg
after_read returned out next f =
    let buf = set f.buf f.read_bytes 0 in
    let w = write_msg f.kernel buf out in
    if ltb f.read_bytes (length f.buf)
    then (if quits f.read_bytes buf
        then record { status = returned; input = f.input; buf = buf; out = out; kernel = f.kernel }
        else after_write w.status f.input buf (λ k o. next f.input buf k o) w)
    else record { status = overflowed; input = f.input; buf = f.buf; out = out; kernel = f.kernel }
after_read other out next f = record {
  status = other;
  input = f.input;
  buf = f.buf;
  out = out;
  kernel = f.kernel;
}

-- The loop of echo.c; the fuel bounds its rounds, at 0 the result counts as waiting.
unfoldable pub echo_loop : ℕ → List ℕ → List ℕ → List Event → List ℕ → Echo
unfolding after_read read_one_by_one
echo_loop zero input buf kernel out = record {
  status = waiting;
  input = input;
  buf = buf;
  out = out;
  kernel = kernel;
}
echo_loop (suc fuel) input buf kernel out =
    let f = read_one_by_one kernel input buf 0 newline in
    after_read f.status out (λ i b k o. echo_loop fuel i b k o) f
