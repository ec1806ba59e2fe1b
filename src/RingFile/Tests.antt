-- ===== src/RingFile/Tests.antt =====
-- Runs of Lab03/code/es3/common.c.
use esercitazioni_sistemi_di.Base.{◌≡◌, refl, some, none, List, [], ◌∷◌}
use esercitazioni_sistemi_di.Base.Int.{pos, negsuc}
use esercitazioni_sistemi_di.RingFile.{
  init_file, buffer_size, write_to_buffer_file, read_from_buffer_file,
}
use esercitazioni_sistemi_di.RingFile.Queues.{Op, write, read, file_run, file_run-fifo}

abbrev ops : List Op
ops = write (pos 7) ∷ write (negsuc 2) ∷ read ∷ write (pos 5) ∷ read ∷ read ∷ []

file_run-fifo_example : file_run ops (init_file buffer_size) ≡ some (pos 7 ∷ negsuc 2 ∷ pos 5 ∷ [])
file_run-fifo_example = file_run-fifo ops (pos 7 ∷ negsuc 2 ∷ pos 5 ∷ []) refl

-- A small buffer, its indices behind two elements: the second write takes the first slot again, and
-- a negative index ends the program.
wraps :
    write_to_buffer_file (pos 9) 2 (pos 4 ∷ pos 5 ∷ pos 1 ∷ pos 1 ∷ [])
    ≡ some (pos 4 ∷ pos 9 ∷ pos 1 ∷ pos 0 ∷ [])
unfolding write_to_buffer_file
wraps = refl

bad_index : read_from_buffer_file 2 (pos 4 ∷ pos 5 ∷ negsuc 0 ∷ pos 1 ∷ []) ≡ none
unfolding read_from_buffer_file
bad_index = refl
