-- ===== src/Copy.antt =====
-- Lab06/src/01 copy/copy.c: a copy between two descriptors, block by block.
pub mod Prefix
pub mod Returns
mod Tests
use esercitazioni_sistemi_di.Base.{ℕ, zero, suc, List, ◌==◌, if◌then◌else◌}
use esercitazioni_sistemi_di.Posix.{
  Event, Status, returned, waiting, Filled, Written, read_loop, write_loop,
}

-- The end of the copy: what is left of the source, what the destination has received.
pub record Copied : Type 0 where
  pub status : Status
  pub src : List ℕ
  pub dest : List ℕ
  pub kernel : List Event

-- the inner loop that fills the buffer
abbrev fill : ℕ → List Event → List ℕ → List ℕ → Filled
fill block_size kernel src buf = read_loop returned (λ n. n) kernel src buf block_size 0

-- the inner loop that empties it
abbrev flush : List Event → List ℕ → ℕ → List ℕ → Written
flush kernel buf read_bytes dest = write_loop (λ n. n) kernel buf read_bytes 0 dest

-- What follows when the buffer has been emptied. `next` is the next round of `while (1)`.
unfoldable pub after_flush : Status → List ℕ → (List Event → List ℕ → Copied) → Written → Copied
after_flush returned src next w = next w.kernel w.out
after_flush other src next w = record { status = other; src = src; dest = w.out; kernel = w.kernel }

-- What follows when it has been filled.
unfoldable pub after_fill :
    Status → List ℕ → (List Event → List ℕ → List ℕ → List ℕ → Copied) → Filled → Copied
unfolding after_flush
after_fill returned dest next f =
    let w = flush f.kernel f.buf f.read_bytes dest in
    if f.read_bytes == 0
    then record { status = returned; src = f.input; dest = dest; kernel = f.kernel }
    else after_flush w.status f.input (λ k out. next k f.input f.buf out) w
after_fill other dest next f = record {
  status = other;
  src = f.input;
  dest = dest;
  kernel = f.kernel;
}

-- `performCopyBetweenDescriptors`. The fuel bounds the rounds of `while (1)`; at 0 the result counts
-- as waiting.
unfoldable pub perform_copy : ℕ → ℕ → List Event → List ℕ → List ℕ → List ℕ → Copied
unfolding after_fill
perform_copy zero block_size kernel src buf dest = record {
  status = waiting;
  src = src;
  dest = dest;
  kernel = kernel;
}
perform_copy (suc fuel) block_size kernel src buf dest =
    let f = fill block_size kernel src buf in
    after_fill f.status dest (λ k s b out. perform_copy fuel block_size k s b out) f
