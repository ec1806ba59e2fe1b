-- ===== src/RingFile/Queues.antt =====
-- Lab03/code/es3/common.c as a queue: first in, first out, as long as the buffer is not full.
use esercitazioni_sistemi_di.Base.{
  ℕ, suc, ◌+◌, ◌%◌, ◌≤◌, ◌<◌, ◌≡◌, refl, sym, ap, ◌∙◌, Option, none, some, List, [], ◌∷◌, ◌++◌,
  length, get_or, set, arith, length-set, get_or-set_self, get_or-set_ne, get_or-append_left,
  get_or-append_end, length-append, dec_lt, ◌>>=◌, ltb, if_cases, if◌then◌else◌, tests,
  Option-cases, inl, inr,
}
use esercitazioni_sistemi_di.Base.Int.{ℤ, pos}
use esercitazioni_sistemi_di.RingFile.{
  buffer_size, init_file, read_at, write_at, next_index, write_to_buffer_file,
  read_from_buffer_file,
}
use esercitazioni_sistemi_di.RingFile.Cells.{read_at-get_or, write_at-set}

abbrev cell : List ℤ → ℕ → ℤ
cell file k = get_or file k (pos 0)

-- The file holds `queue`, oldest first: its elements, from `read_index` on and around the end, and
-- the two indices.
pub record IsQueue (file queue : List ℤ) : Type 0 where
  pub read_index : ℕ
  pub size : length file ≡ 130
  pub read_in : read_index < 128
  pub fits : length queue ≤ 128
  pub read_cell : cell file 128 ≡ pos read_index
  pub write_cell : cell file 129 ≡ pos ((read_index + length queue) % 128)
  pub slots :
      (k : ℕ) → k < length queue → cell file ((read_index + k) % 128) ≡ get_or queue k (pos 0)

write_result :
    (file : List ℤ) (v : ℤ) (w : ℕ)
    → length file ≡ 130
    → w < 128
    → cell file 129 ≡ pos w
    → write_to_buffer_file v 128 file ≡ some (set (set file w v) 129 (pos ((w + 1) % 128)))
unfolding write_to_buffer_file
write_result file v w size b e =
    let read = read_at-get_or file 129 (omega arith) ∙ ap some e in
    let put = write_at-set file w v (omega arith) in
    let put' =
      write_at-set (set file w v) 129 (pos ((w + 1) % 128)) (omega (arith, length-set file w v)) in
    ap (λ o. o >>= (λ i. write_at file i v >>= (λ f. write_at f (pos 129) (next_index i 128)))) read
    ∙ ap (λ o. o >>= (λ f. write_at f (pos 129) (pos ((w + 1) % 128)))) put
    ∙ put'

read_result :
    (file : List ℤ) (r : ℕ)
    → length file ≡ 130
    → r < 128
    → cell file 128 ≡ pos r
    → read_from_buffer_file 128 file ≡ some (cell file r, set file 128 (pos ((r + 1) % 128)))
unfolding read_from_buffer_file
read_result file r size b e =
    let read = read_at-get_or file 128 (omega arith) ∙ ap some e in
    let got = read_at-get_or file r (omega arith) in
    let put = write_at-set file 128 (pos ((r + 1) % 128)) (omega arith) in
    ap
      (λ o. o >>= (λ i.
        read_at file i
        >>= (λ v. write_at file (pos 128) (next_index i 128) >>= (λ f. some (v, f)))))
      read
    ∙ ap (λ o. o >>= (λ v. write_at file (pos 128) (pos ((r + 1) % 128)) >>= (λ f. some (v, f))))
        got
    ∙ ap (λ o. o >>= (λ f. some (cell file r, f))) put

-- A new file holds the empty queue.
pub init_file-IsQueue : IsQueue (init_file buffer_size) []
unfolding init_file
init_file-IsQueue = record {
  read_index = 0;
  size = refl;
  read_in = omega arith;
  fits = omega arith;
  read_cell = refl;
  write_cell = refl;
  slots = λ k lt. absurd (omega arith);
}

-- A write appends to a queue that is not full.
pub write-IsQueue :
    (file queue : List ℤ) (v : ℤ)
    → IsQueue file queue
    → length queue < 128
    → (file' : List ℤ) × (write_to_buffer_file v buffer_size file ≡ some file')
      × IsQueue file' (queue ++ v ∷ [])
write-IsQueue file queue v q b =
    let r = q.read_index in
    let w = (r + length queue) % 128 in
    let file' = set file w v in
    let w_in : w < 128 = omega arith in
    let r_in = q.read_in in
    let size : length file' ≡ 130 = length-set file w v ∙ q.size in
    (
      set file' 129 (pos ((w + 1) % 128)),
      write_result file v w q.size w_in q.write_cell,
      record {
        read_index = r;
        size = length-set file' 129 _ ∙ size;
        read_in = q.read_in;
        fits = omega (arith, length-append queue (v ∷ []));
        read_cell =
            get_or-set_ne file' 129 128 _ (pos 0) (omega arith)
            ∙ get_or-set_ne file w 128 v (pos 0) (omega arith)
            ∙ q.read_cell;
        write_cell =
            get_or-set_self file' 129 _ (pos 0) (omega arith)
            ∙ ap pos (omega (arith, length-append queue (v ∷ [])));
        slots = λ k lt.
            get_or-set_ne file' 129 ((r + k) % 128) _ (pos 0) (omega arith)
            ∙ elim (dec_lt k (length queue)) [
              | yes old ↦
                  get_or-set_ne file w ((r + k) % 128) v (pos 0) (omega arith)
                  ∙ q.slots k old
                  ∙ sym (get_or-append_left queue (v ∷ []) k (pos 0) old)
              | no new ↦
                  let e : k ≡ length queue = omega (arith, length-append queue (v ∷ [])) in
                  ap (λ j. cell file' ((r + j) % 128)) e
                  ∙ get_or-set_self file w v (pos 0) (omega (arith, q.size))
                  ∙ sym (get_or-append_end queue v k (pos 0) e)
            ];
      },
    )

-- A read takes the oldest value.
pub read-IsQueue :
    (file queue : List ℤ) (v : ℤ)
    → IsQueue file (v ∷ queue)
    → (file' : List ℤ) × (read_from_buffer_file buffer_size file ≡ some (v, file'))
      × IsQueue file' queue
read-IsQueue file queue v q =
    let r = q.read_index in
    let r_in = q.read_in in
    let len = q.fits in
    let r' = (r + 1) % 128 in
    let front : cell file r ≡ v =
      ap (cell file) (the_front r q.read_in) ∙ q.slots 0 (omega arith) in
    (
      set file 128 (pos r'),
      read_result file r q.size q.read_in q.read_cell
          ∙ ap (λ x. some (x, set file 128 (pos r'))) front,
      record {
        read_index = r';
        size = length-set file 128 _ ∙ q.size;
        read_in = omega arith;
        fits = omega arith;
        read_cell = get_or-set_self file 128 _ (pos 0) (omega (arith, q.size));
        write_cell =
            get_or-set_ne file 128 129 _ (pos 0) (omega arith)
            ∙ q.write_cell
            ∙ ap pos (omega arith);
        slots = λ k lt.
            get_or-set_ne file 128 ((r' + k) % 128) _ (pos 0) (omega arith)
            ∙ ap (cell file) (turned r k)
            ∙ q.slots (suc k) (omega arith);
      },
    )
  where
    the_front : (r : ℕ) → r < 128 → r ≡ (r + 0) % 128
    the_front r h = omega arith

    turned : (r k : ℕ) → ((r + 1) % 128 + k) % 128 ≡ (r + suc k) % 128
    turned r k = omega arith

-- The operations of the two programs on the file.
pub data Op : Type 0 where
  write : ℤ → Op
  read : Op

-- The values that a queue gives back; `none` where the buffer would overflow or is empty.
abbrev pub queue_run : List Op → List ℤ → Option (List ℤ)
queue_run [] queue = some []
queue_run (write v ∷ ops) queue =
    if ltb (length queue) buffer_size then queue_run ops (queue ++ v ∷ []) else none
queue_run (read ∷ ops) [] = none
queue_run (read ∷ ops) (v ∷ queue) = do vs ← queue_run ops queue; some (v ∷ vs)

-- The values that the file gives back.
unfoldable pub file_run : List Op → List ℤ → Option (List ℤ)
file_run [] file = some []
file_run (write v ∷ ops) file = do
  file' ← write_to_buffer_file v buffer_size file
  file_run ops file'
file_run (read ∷ ops) file = do
  (v, file') ← read_from_buffer_file buffer_size file
  vs ← file_run ops file'
  some (v ∷ vs)

file_run-refines :
    (ops : List Op) (file queue vs : List ℤ)
    → IsQueue file queue
    → queue_run ops queue ≡ some vs
    → file_run ops file ≡ some vs
unfolding file_run
file_run-refines [] file queue vs q e = e
file_run-refines (write v ∷ ops) file queue vs q e =
    if_cases (λ (o : Option (List ℤ)). o ≡ some vs → file_run (write v ∷ ops) file ≡ some vs)
      (ltb (length queue) buffer_size) _ _
      (λ lt e'.
        let (file', done, q') = write-IsQueue file queue v q (omega tests) in
        ap (λ o. o >>= (λ f. file_run ops f)) done ∙ file_run-refines ops file' _ vs q' e')
      (λ _ e'. absurd (ground arith)) e
file_run-refines (read ∷ ops) file [] vs q e = absurd (ground arith)
file_run-refines (read ∷ ops) file (v ∷ queue) vs q e =
    let (file', done, q') = read-IsQueue file queue v q in
    elim (Option-cases (queue_run ops queue)) [
      | inl none_left ↦ absurd (ground arith)
      | inr (vs', left) ↦
          ap (λ o. o >>= (λ (x, f). file_run ops f >>= (λ xs. some (x ∷ xs)))) done
          ∙ ap (λ o. o >>= (λ xs. some (v ∷ xs)))
              (file_run-refines ops file' queue vs' q' left ∙ sym left)
          ∙ e
    ]

-- Writes and reads that neither overflow the buffer nor find it empty give back, from a new file,
-- the values that a queue gives back.
pub file_run-fifo :
    (ops : List Op) (vs : List ℤ)
    → queue_run ops [] ≡ some vs
    → file_run ops (init_file buffer_size) ≡ some vs
file_run-fifo ops vs e = file_run-refines ops (init_file buffer_size) [] vs init_file-IsQueue e
