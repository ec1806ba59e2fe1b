-- ===== src/Pipe/Processes.antt =====
-- Lab06/src/02 Pipe/main.c: the readers and the writers, by steps.
use esercitazioni_sistemi_di.Base.{
  ℕ, ◌+◌, ◌-◌, ◌*◌, ◌/◌, ◌%◌, Bool, Option, none, some, List, [], ◌∷◌, ◌++◌, length, get_elem?, set,
  replicate, take, drop, min, ltb, ◌==◌, if◌then◌else◌,
}
use esercitazioni_sistemi_di.Posix.{blit}
use esercitazioni_sistemi_di.Pipe.{create_msg}

abbrev pub writers_count : ℕ
writers_count = 2

abbrev pub readers_count : ℕ
readers_count = 3

abbrev pub msg_count : ℕ
msg_count = 12

-- an `int` in memory
abbrev pub int_bytes : ℕ → List ℕ
int_bytes x = x % 256 ∷ x / 256 % 256 ∷ x / 65536 % 256 ∷ x / 16777216 % 256 ∷ []

abbrev pub as_bytes : List ℕ → List ℕ
as_bytes [] = []
as_bytes (x ∷ xs) = int_bytes x ++ as_bytes xs

pub record Shared : Type 0 where
  pub write_mutex : ℕ
  pub read_mutex : ℕ
  pub pipe : List ℕ

-- Where a writer stands. In `writing wi sent` its call of `write` has put `sent` bytes into the pipe,
-- and the calls before it `wi` bytes.
pub data WriterPc : Type 0 where
  head wait_mutex : WriterPc
  writing : ℕ → ℕ → WriterPc
  post_mutex ended : WriterPc

pub record Writer : Type 0 where
  pub pc : WriterPc
  pub i : ℕ
  pub data_elems : List ℕ

-- Where a reader stands. In `reading ri` its calls of `read` have moved `ri` bytes. In `overrun ri` the
-- last of them has stored bytes behind the array `data`, and what the process does is not defined.
pub data ReaderPc : Type 0 where
  head wait_mutex : ReaderPc
  reading overrun : ℕ → ReaderPc
  post_mutex ended : ReaderPc

pub record Reader : Type 0 where
  pub pc : ReaderPc
  pub i : ℕ
  pub data_bytes : List ℕ

-- The bytes that go into the pipe: `write` takes them from `(int *) data + wi` on; those behind the
-- array, which such an address may reach, are none.
unfoldable pub bytes_put : ℕ → ℕ → WriterPc → List ℕ → List ℕ
bytes_put elems n (writing wi sent) data_elems =
    take (min n (4 * elems - wi - sent)) (drop (4 * wi + sent) (as_bytes data_elems))
bytes_put elems n pc data_elems = []

-- A step of `writer`, with `elems` for MSG_ELEMS. In a call of `write` at most `n` bytes move; the
-- call returns when all have, or with `stop`, which stands for a signal, after those that have. One
-- that is interrupted before any byte has moved is made again.
unfoldable pub writer_at : ℕ → ℕ → Bool → WriterPc → ℕ → List ℕ → Shared → Shared × Writer
unfolding bytes_put
writer_at elems n stop WriterPc.head i data_elems sh =
    if ltb i (msg_count / writers_count)
    then (
      sh,
      record { pc = WriterPc.wait_mutex; i = i; data_elems = create_msg data_elems elems i },
    )
    else (sh, record { pc = WriterPc.ended; i = i; data_elems = data_elems })
writer_at elems n stop WriterPc.wait_mutex i data_elems sh =
    if sh.write_mutex == 0
    then (sh, record { pc = WriterPc.wait_mutex; i = i; data_elems = data_elems })
    else (
      record sh { write_mutex = sh.write_mutex - 1 },
      record { pc = writing 0 0; i = i; data_elems = data_elems },
    )
writer_at elems n stop (writing wi sent) i data_elems sh =
    let sent' = sent + min n (4 * elems - wi - sent) in
    (
      record sh { pipe = sh.pipe ++ bytes_put elems n (writing wi sent) data_elems },
      record {
        pc =
            if wi + sent' == 4 * elems
            then WriterPc.post_mutex
            else if stop
            then writing (wi + sent') 0
            else writing wi sent';
        i = i;
        data_elems = data_elems;
      },
    )
writer_at elems n stop WriterPc.post_mutex i data_elems sh = (
  record sh { write_mutex = sh.write_mutex + 1 },
  record { pc = WriterPc.head; i = i + 1; data_elems = data_elems },
)
writer_at elems n stop WriterPc.ended i data_elems sh =
    (sh, record { pc = WriterPc.ended; i = i; data_elems = data_elems })

-- The bytes that a call of `read` takes; with none in the pipe it waits, since `main` keeps the end
-- for writing open.
unfoldable pub bytes_got : ℕ → ℕ → ReaderPc → List ℕ → List ℕ
bytes_got elems n (reading ri) pipe = take (min n (4 * elems - ri)) pipe
bytes_got elems n pc pipe = []

-- A step of `reader`; what it prints is left out. A call of `read` stores from `(int *) data + ri` on,
-- and a reader that has stored behind its array has no step any more.
unfoldable pub reader_at : ℕ → ℕ → ReaderPc → ℕ → List ℕ → Shared → Shared × Reader
unfolding bytes_got
reader_at elems n ReaderPc.head i data_bytes sh = (
  sh,
  record {
    pc = if ltb i (msg_count / readers_count) then ReaderPc.wait_mutex else ReaderPc.ended;
    i = i;
    data_bytes = data_bytes;
  },
)
reader_at elems n ReaderPc.wait_mutex i data_bytes sh =
    if sh.read_mutex == 0
    then (sh, record { pc = ReaderPc.wait_mutex; i = i; data_bytes = data_bytes })
    else (
      record sh { read_mutex = sh.read_mutex - 1 },
      record { pc = reading 0; i = i; data_bytes = data_bytes },
    )
reader_at elems n (reading ri) i data_bytes sh =
    let moved = bytes_got elems n (reading ri) sh.pipe in
    let ri' = ri + length moved in
    let taken = record sh { pipe = drop (length moved) sh.pipe } in
    if ltb (4 * elems) (4 * ri + length moved)
    then (taken, record { pc = overrun ri'; i = i; data_bytes = data_bytes })
    else (
      taken,
      record {
        pc = if ri' == 4 * elems then ReaderPc.post_mutex else reading ri';
        i = i;
        data_bytes = blit data_bytes (4 * ri) moved;
      },
    )
reader_at elems n (overrun ri) i data_bytes sh =
    (sh, record { pc = overrun ri; i = i; data_bytes = data_bytes })
reader_at elems n ReaderPc.post_mutex i data_bytes sh = (
  record sh { read_mutex = sh.read_mutex + 1 },
  record { pc = ReaderPc.head; i = i + 1; data_bytes = data_bytes },
)
reader_at elems n ReaderPc.ended i data_bytes sh =
    (sh, record { pc = ReaderPc.ended; i = i; data_bytes = data_bytes })

pub record System : Type 0 where
  pub shared : Shared
  pub writers : List Writer
  pub readers : List Reader

-- Whose turn it is, and what the kernel does in a call of `write` or `read`.
pub data Turn : Type 0 where
  writer : ℕ → ℕ → Bool → Turn
  reader : ℕ → ℕ → Turn

unfoldable pub move_writer : ℕ → System → ℕ → ℕ → Bool → Option Writer → System
unfolding writer_at
move_writer elems s k n stop none = s
move_writer elems s k n stop (some w) =
    let (shared, w') = writer_at elems n stop w.pc w.i w.data_elems s.shared in
    record s { shared = shared; writers = set s.writers k w' }

unfoldable pub move_reader : ℕ → System → ℕ → ℕ → Option Reader → System
unfolding reader_at
move_reader elems s k n none = s
move_reader elems s k n (some r) =
    let (shared, r') = reader_at elems n r.pc r.i r.data_bytes s.shared in
    record s { shared = shared; readers = set s.readers k r' }

unfoldable pub step : ℕ → System → Turn → System
unfolding move_writer move_reader
step elems s (writer k n stop) = move_writer elems s k n stop (get_elem? s.writers k)
step elems s (reader k n) = move_reader elems s k n (get_elem? s.readers k)

unfoldable pub run : ℕ → System → List Turn → System
unfolding step
run elems s [] = s
run elems s (t ∷ ts) = run elems (step elems s t) ts

-- `main`: the two mutexes, an empty pipe and the processes. The arrays `data`, which are not
-- initialised, hold zeros here; no one reads a cell before it is written.
unfoldable pub forked : ℕ → ℕ → ℕ → System
forked elems num_writers num_readers = record {
  shared = record { write_mutex = 1; read_mutex = 1; pipe = [] };
  writers =
      replicate num_writers (record { pc = WriterPc.head; i = 0; data_elems = replicate elems 0 });
  readers =
      replicate num_readers
        (record { pc = ReaderPc.head; i = 0; data_bytes = replicate (4 * elems) 0 });
}
