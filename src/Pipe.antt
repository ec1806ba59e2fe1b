-- ===== src/Pipe.antt =====
-- Lab06/src/02 Pipe/main.c: messages of equal integers through a pipe.
pub mod Check
pub mod Transfer
pub mod Processes
pub mod Moves
pub mod Takes
pub mod Inv
pub mod Runs
pub mod Parts
pub mod Results
mod Tests
use esercitazioni_sistemi_di.Base.{
  ℕ, zero, suc, ◌+◌, ◌*◌, Bool, true, false, List, set, get_or, ◌==◌, if◌then◌else◌,
}
use esercitazioni_sistemi_di.Posix.{Event, returned, Written, write_loop, Filled, read_loop}

-- `write_to_pipe`: `(int *) data + wi` counts in integers of four bytes, `wi` in bytes. The
-- result is `written_bytes`. The bytes behind `data`, which such an address may reach, are none.
unfoldable pub write_to_pipe : List Event → List ℕ → ℕ → List ℕ → Written
write_to_pipe kernel data_bytes data_len out =
    write_loop (λ wi. 4 * wi) kernel data_bytes data_len 0 out

-- `read_from_pipe`: the end of the input leaves the loop.
unfoldable pub read_from_pipe : List Event → List ℕ → List ℕ → ℕ → Filled
read_from_pipe kernel input data_bytes data_len =
    read_loop returned (λ ri. 4 * ri) kernel input data_bytes data_len 0

-- `create_msg`: the loop from `i` on, `left` elements before its end.
unfoldable pub create_from : ℕ → ℕ → List ℕ → ℕ → List ℕ
create_from zero i data_elems value = data_elems
create_from (suc left) i data_elems value = create_from left (i + 1) (set data_elems i value) value

unfoldable pub create_msg : List ℕ → ℕ → ℕ → List ℕ
create_msg data_elems elem_count value = create_from elem_count 0 data_elems value

-- `is_msg_ok`, in the same way.
unfoldable pub is_ok_from : ℕ → ℕ → List ℕ → Bool
is_ok_from zero i data_elems = true
is_ok_from (suc left) i data_elems =
    let rest = is_ok_from left (i + 1) data_elems in
    if get_or data_elems 0 0 == get_or data_elems i 0 then rest else false

unfoldable pub is_msg_ok : List ℕ → ℕ → Bool
is_msg_ok data_elems elem_count = is_ok_from elem_count 0 data_elems
