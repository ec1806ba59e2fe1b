-- ===== src/Posix.antt =====
-- The loops over read(2) and write(2) that the exercises share: Lab06/src/01 copy/copy.c,
-- Lab06/src/02 Pipe/main.c, Lab06/src/03 EchoFIFO/rw.c, Lab07/src/01 prod_cons.
-- The kernel's choices are a list, an entry for each call. A run that has used up the list waits in
-- its next call.
pub mod Writing
pub mod Reading
use esercitazioni_sistemi_di.Base.{
  ℕ, suc, ◌+◌, ◌-◌, true, false, List, [], ◌∷◌, ◌++◌, positive, min, take, drop, length,
}

-- What the kernel does at one call: it moves at most `suc n` bytes, or returns -1 with EINTR, or
-- returns -1 with another error. A read at the end of the input moves none.
pub data Event : Type 0 where
  chunk : ℕ → Event
  eintr : Event
  failed : Event

-- How a function ended: it returned; it called `exit(EXIT_FAILURE)`; it waits in a call; it
-- stored bytes behind a buffer, and what follows is not defined.
pub data Status : Type 0 where
  returned exited waiting overflowed : Status

-- `memcpy` of `bs` to `buf + off`
abbrev pub blit : List ℕ → ℕ → List ℕ → List ℕ
blit buf off bs = take off buf ++ (bs ++ drop (off + length bs) buf)

-- The end of a loop that writes: what the descriptor has received, and the number of bytes written.
pub record Written : Type 0 where
  pub status : Status
  pub out : List ℕ
  pub written_bytes : ℕ
  pub kernel : List Event

-- `while (bytes_left > 0) { ret = write(fd, buf + written_bytes, bytes_left); … }`.
-- `addr` is the offset in bytes that this pointer arithmetic gives: four times the count for an
-- `int *`, else the count.
unfoldable pub write_loop : (ℕ → ℕ) → List Event → List ℕ → ℕ → ℕ → List ℕ → Written
write_loop addr [] buf left written out = record {
  status = elim (positive left) [ true ↦ waiting | false ↦ returned ];
  out = out;
  written_bytes = written;
  kernel = [];
}
write_loop addr (e ∷ kernel) buf left written out = elim (positive left) [
  | false ↦ record { status = returned; out = out; written_bytes = written; kernel = e ∷ kernel }
  | true ↦ elim e [
    | chunk n ↦
        let ret = min (suc n) left in
        write_loop addr kernel buf (left - ret) (written + ret)
          (out ++ take ret (drop (addr written) buf))
    | eintr ↦ write_loop addr kernel buf left written out
    | failed ↦ record { status = exited; out = out; written_bytes = written; kernel = kernel }
  ]
]

-- The end of a loop that reads.
pub record Filled : Type 0 where
  pub status : Status
  pub input : List ℕ
  pub buf : List ℕ
  pub read_bytes : ℕ
  pub kernel : List Event

-- `while (bytes_left > 0) { ret = read(fd, buf + read_bytes, bytes_left); … }`. `at_end` is what
-- a result of 0 leads to: a `break`, or an error exit.
unfoldable pub read_loop : Status → (ℕ → ℕ) → List Event → List ℕ → List ℕ → ℕ → ℕ → Filled
read_loop at_end addr [] input buf left read = record {
  status = elim (positive left) [ true ↦ waiting | false ↦ returned ];
  input = input;
  buf = buf;
  read_bytes = read;
  kernel = [];
}
read_loop at_end addr (e ∷ kernel) input buf left read = elim (positive left) [
  | false ↦ record {
    status = returned;
    input = input;
    buf = buf;
    read_bytes = read;
    kernel = e ∷ kernel;
  }
  | true ↦ elim e [
    | chunk n ↦ elim input [
      | [] ↦ record { status = at_end; input = []; buf = buf; read_bytes = read; kernel = kernel }
      | x ∷ xs ↦
          let ret = min (suc n) (min left (length (x ∷ xs))) in
          read_loop at_end addr kernel (drop ret (x ∷ xs))
            (blit buf (addr read) (take ret (x ∷ xs))) (left - ret) (read + ret)
    ]
    | eintr ↦ read_loop at_end addr kernel input buf left read
    | failed ↦ record {
      status = exited;
      input = input;
      buf = buf;
      read_bytes = read;
      kernel = kernel;
    }
  ]
]

-- the calls at which the kernel moves bytes
abbrev pub chunks : List Event → ℕ
chunks [] = 0
chunks (chunk n ∷ kernel) = suc (chunks kernel)
chunks (eintr ∷ kernel) = chunks kernel
chunks (failed ∷ kernel) = chunks kernel

-- No call fails, interruptions apart.
abbrev pub NoFailure : List Event → Type 0
NoFailure [] = Unit {0}
NoFailure (chunk n ∷ kernel) = NoFailure kernel
NoFailure (eintr ∷ kernel) = NoFailure kernel
NoFailure (failed ∷ kernel) = ⊥
