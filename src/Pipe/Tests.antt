-- ===== src/Pipe/Tests.antt =====
-- Runs of Lab06/src/02 Pipe/main.c.
use esercitazioni_sistemi_di.Base.{
  ℕ, ◌+◌, ◌*◌, ◌≤◌, ◌<◌, ◌≡◌, refl, sym, subst, true, false, List, [], ◌∷◌, ◌++◌, length, take,
  drop, arith, All,
}
use esercitazioni_sistemi_di.Base.Threads.{total}
use esercitazioni_sistemi_di.Posix.{chunk, returned, read_loop}
use esercitazioni_sistemi_di.Pipe.{read_from_pipe, create_msg, create_from}
use esercitazioni_sistemi_di.Pipe.Processes.{
  Turn, writer, reader, writer_at, reader_at, bytes_put, bytes_got, move_writer, move_reader, step,
  run, forked,
}
use esercitazioni_sistemi_di.Pipe.Moves.{message, w_inside}
use esercitazioni_sistemi_di.Pipe.Takes.{r_inside, r_done, overran}
use esercitazioni_sistemi_di.Pipe.Runs.{interrupts, all_put, all_got}
use esercitazioni_sistemi_di.Pipe.Results.{reads_messages, sections_and_bytes}

abbrev numbers : List ℕ
numbers = 4 ∷ 4 ∷ 5 ∷ []

abbrev text : List ℕ
text = 10 ∷ 11 ∷ 12 ∷ 13 ∷ 14 ∷ 15 ∷ 16 ∷ 17 ∷ []

-- A pipe that is closed early gives a short count, and no error.
closed :
    (read_from_pipe (chunk 7 ∷ chunk 7 ∷ []) (1 ∷ 2 ∷ []) (0 ∷ 0 ∷ 0 ∷ 0 ∷ []) 4).read_bytes ≡ 2
unfolding read_from_pipe read_loop
closed = refl

closed_returns :
    (read_from_pipe (chunk 7 ∷ chunk 7 ∷ []) (1 ∷ 2 ∷ []) (0 ∷ 0 ∷ 0 ∷ 0 ∷ []) 4).status ≡ returned
unfolding read_from_pipe read_loop
closed_returns = refl

-- Arrays of one element. A writer sends its messages 0 and 1, the second in two parts, while a reader
-- takes them.
abbrev two_messages : List Turn
two_messages =
    writer 0 0 false
    ∷ writer 0 0 false
    ∷ writer 0 8 false
    ∷ writer 0 0 false
    ∷ writer 0 0 false
    ∷ writer 0 0 false
    ∷ writer 0 3 false
    ∷ reader 2 0
    ∷ reader 2 0
    ∷ reader 2 8
    ∷ reader 2 0
    ∷ reader 2 0
    ∷ reader 2 0
    ∷ writer 0 8 false
    ∷ reader 2 8
    ∷ []

abbrev bytes_taken : List ℕ
bytes_taken = all_got 1 (forked 1 2 3) two_messages

taken : bytes_taken ≡ 0 ∷ 0 ∷ 0 ∷ 0 ∷ 1 ∷ 0 ∷ 0 ∷ 0 ∷ []
unfolding all_got forked step move_writer move_reader writer_at reader_at bytes_put bytes_got
    create_msg create_from
taken = refl

-- A `write` that a signal stops after two bytes goes on at the eighth: the rest of the array is lost.
abbrev stopped : List Turn
stopped = writer 0 0 false ∷ writer 0 0 false ∷ writer 0 2 true ∷ writer 0 8 false ∷ []

put_two : all_put 1 (forked 1 2 3) stopped ≡ 0 ∷ 0 ∷ []
unfolding all_put forked step move_writer writer_at bytes_put create_msg create_from
put_two = refl

no_signal : All (λ t. interrupts t ≡ false) two_messages
no_signal = (
  refl,
  (
    refl,
    (
      refl,
      (
        refl,
        (refl, (refl, (refl, (refl, (refl, (refl, (refl, (refl, (refl, (refl, (refl, tt))))))))))),
      ),
    ),
  ),
)

inside_array : total overran (run 1 (forked 1 2 3) two_messages).readers ≡ 0
unfolding total run forked step move_writer move_reader writer_at reader_at bytes_put bytes_got
    create_msg create_from
inside_array = refl

-- A message that comes in two parts does not fit: the second part is stored behind the array.
abbrev two_parts : List Turn
two_parts =
    writer 0 0 false
    ∷ writer 0 0 false
    ∷ writer 0 8 false
    ∷ reader 2 0
    ∷ reader 2 0
    ∷ reader 2 3
    ∷ reader 2 3
    ∷ []

second_part_behind : total overran (run 1 (forked 1 2 3) two_parts).readers ≡ 1
unfolding total run forked step move_writer move_reader writer_at reader_at bytes_put bytes_got
    create_msg create_from
second_part_behind = refl

eight : 8 ≤ length bytes_taken
eight = subst (λ (l : List ℕ). 8 ≤ length l) (sym taken) (omega arith)

reads_messages_example :
    (v : ℕ) × (v < 6) × (take 4 (drop 4 (all_got 1 (forked 1 2 3) two_messages)) ≡ message 1 v)
reads_messages_example =
    reads_messages 1 2 3 two_messages 1 no_signal (omega arith) inside_array eight

sections_and_bytes_example :
    (let s = run 1 (forked 1 2 3) two_messages in
      let put = all_put 1 (forked 1 2 3) two_messages in
      let got = all_got 1 (forked 1 2 3) two_messages in
      (s.shared.write_mutex + total w_inside s.writers ≡ 1)
      × (s.shared.read_mutex + total r_inside s.readers ≡ 1)
      × ((rounds : ℕ) × (length got ≡ rounds * 4 + total r_done s.readers))
      × (got ++ s.shared.pipe ≡ put))
sections_and_bytes_example =
    sections_and_bytes 1 2 3 two_messages no_signal (omega arith) inside_array
