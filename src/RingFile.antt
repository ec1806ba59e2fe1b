-- ===== src/RingFile.antt =====
-- Lab03/code/es3/common.c: a ring buffer of integers in a file, its two indices behind the elements.
pub mod Cells
pub mod Queues
mod Tests
use esercitazioni_sistemi_di.Base.{
  ℕ, zero, suc, ◌+◌, ◌%◌, Option, none, some, List, [], ◌∷◌, ◌++◌, length, get_elem?, set,
  replicate, ltb, if◌then◌else◌, ◌>>=◌, ◌-◌,
}
use esercitazioni_sistemi_di.Base.Int.{ℤ, pos, negsuc}

-- `BUFFER_SIZE`
abbrev pub buffer_size : ℕ
buffer_size = 128

-- `initFile`: `numElems + 2` zeros.
unfoldable pub init_file : ℕ → List ℤ
init_file num_elems = replicate (num_elems + 2) (pos 0)

-- `fseek` to the integer of an index and `fread`; `none` where a call fails, by which the program
-- exits: before the start of the file, and at its end.
abbrev pub read_at : List ℤ → ℤ → Option ℤ
read_at file (pos k) = get_elem? file k
read_at file (negsuc k) = none

-- `fseek` and `fwrite`; behind the end the file grows, with zeros in between.
abbrev pub write_at : List ℤ → ℤ → ℤ → Option (List ℤ)
write_at file (pos k) v = some (
    if ltb k (length file)
    then set file k v
    else file ++ replicate (k - length file) (pos 0) ++ v ∷ [])
write_at file (negsuc k) v = none

-- `(index + 1) % numElems`, as C divides: the remainder has the sign of `index + 1`.
abbrev pub next_index : ℤ → ℕ → ℤ
next_index (pos k) num_elems = pos ((k + 1) % num_elems)
next_index (negsuc zero) num_elems = pos 0
next_index (negsuc (suc k)) num_elems =
    let r = suc k % num_elems in if ltb 0 r then negsuc (r - 1) else pos 0

-- `writeToBufferFile`
unfoldable pub write_to_buffer_file : ℤ → ℕ → List ℤ → Option (List ℤ)
write_to_buffer_file value num_elems file = do
  let windex_offset = pos (num_elems + 1)
  write_index ← read_at file windex_offset
  file' ← write_at file write_index value
  write_at file' windex_offset (next_index write_index num_elems)

-- `readFromBufferFile`: the value and the file.
unfoldable pub read_from_buffer_file : ℕ → List ℤ → Option (ℤ × List ℤ)
read_from_buffer_file num_elems file = do
  let rindex_offset = pos num_elems
  read_index ← read_at file rindex_offset
  value ← read_at file read_index
  file' ← write_at file rindex_offset (next_index read_index num_elems)
  some (value, file')
