-- ===== src/EchoFifo/Rounds.antt =====
-- A round of echo.c sends a line back.
use esercitazioni_sistemi_di.Base.{
  ℕ, suc, ◌+◌, ◌≤◌, ◌<◌, ◌≡◌, ◌≢◌, refl, ap, ◌∙◌, false, true, ltb, lt→ltb, List, [], ◌∷◌, ◌++◌,
  length, take, drop, set, All, arith, length-append, set-split, take-append_of_le,
  take_of_length_le, if_cases,
}
use esercitazioni_sistemi_di.Posix.{Event, Status, returned, Filled, Written, chunks, NoFailure}
use esercitazioni_sistemi_di.Posix.Writing.{write_loop-Sent, write_loop-returns}
use esercitazioni_sistemi_di.EchoFifo.{
  Echo, newline, strlen, quits, after_write, after_read, write_msg, echo_loop, read_one_by_one,
}
use esercitazioni_sistemi_di.EchoFifo.Lines.{read_one_by_one-IsLine}
use esercitazioni_sistemi_di.EchoFifo.Quit.{not-quits}

-- The terminator that echo.c writes ends the message.
pub strlen-terminated : (xs ys : List ℕ) → All (λ x. x ≢ 0) xs → strlen (xs ++ 0 ∷ ys) ≡ length xs
strlen-terminated [] ys h = refl
strlen-terminated (x ∷ xs) ys h = ground (arith, h.0, strlen-terminated xs ys h.1)

pub All-end : (xs : List ℕ) → All (λ x. x ≢ 0) xs → All (λ x. x ≢ 0) (xs ++ newline ∷ [])
All-end [] h = (omega arith, tt)
All-end (x ∷ xs) h = (h.0, All-end xs h.1)

-- `writeMsg` sends a terminated message, its terminator excluded.
write_msg-sends :
    (kernel : List Event) (text rest out : List ℕ)
    → All (λ x. x ≢ 0) text
    → NoFailure kernel
    → length text ≤ chunks kernel
    → (let w = write_msg kernel (text ++ 0 ∷ rest) out in
        (w.status ≡ returned) × (w.out ≡ out ++ text))
unfolding write_msg
write_msg-sends kernel text rest out h ok c =
    let len = strlen-terminated text rest h in
    let n = strlen (text ++ 0 ∷ rest) in
    let s = write_loop-Sent kernel (text ++ 0 ∷ rest) n 0 out in
    let (done, ok', left) =
      write_loop-returns (λ j. j) kernel (text ++ 0 ∷ rest) n 0 out ok (omega (arith, len)) in
    (
      done,
      s.sent
          ∙ ap (λ k. out ++ take k (text ++ 0 ∷ rest)) (s.all done ∙ len)
          ∙ ap (λ l. out ++ l)
              (take-append_of_le (length text) text (0 ∷ rest) (omega arith)
                ∙ take_of_length_le (length text) text (omega arith)),
    )

-- The round goes on when the message has been read, does not quit and has been sent.
after_write-next :
    (status : Status) (input buf : List ℕ) (next : List Event → List ℕ → Echo) (w : Written)
    → status ≡ returned
    → after_write status input buf next w ≡ next w.kernel w.out
unfolding after_write
after_write-next returned input buf next w e = refl
after_write-next status input buf next w e = absurd (ground arith)

after_read-next :
    (status : Status) (out : List ℕ) (next : List ℕ → List ℕ → List Event → List ℕ → Echo)
    (f : Filled)
    → status ≡ returned
    → ltb f.read_bytes (length f.buf) ≡ true
    → quits f.read_bytes (set f.buf f.read_bytes 0) ≡ false
    → (let w = write_msg f.kernel (set f.buf f.read_bytes 0) out in
        w.status ≡ returned
        → after_read status out next f ≡ next f.input (set f.buf f.read_bytes 0) w.kernel w.out)
unfolding after_read
after_read-next returned out next f e room no_quit sent =
    let w = write_msg f.kernel (set f.buf f.read_bytes 0) out in
    let Goes : Echo → Type 0 = λ e. e ≡ next f.input (set f.buf f.read_bytes 0) w.kernel w.out in
    if_cases Goes (ltb f.read_bytes (length f.buf)) _ _
      (λ _.
        if_cases Goes (quits f.read_bytes (set f.buf f.read_bytes 0)) _ _
          (λ q. absurd (cc (q, no_quit)))
          (λ _.
            after_write-next w.status f.input _ (λ k o. next f.input (set f.buf f.read_bytes 0) k o)
              w sent))
      (λ behind. absurd (cc (room, behind)))
after_read-next status out next f e room no_quit sent = absurd (ground arith)

-- The terminator stands behind the line.
terminated :
    (buf text : List ℕ) (n : ℕ)
    → n < length buf
    → take n buf ≡ text
    → set buf n 0 ≡ text ++ 0 ∷ drop (suc n) buf
terminated buf text n h e = set-split buf n 0 h ∙ ap (λ t. t ++ 0 ∷ drop (suc n) buf) e

-- A line that fits the buffer, with its terminator, comes back unchanged, and the next round starts
-- behind it. No call fails, and the kernel moves bytes often enough.
pub echo_loop-echoes :
    (fuel : ℕ) (line rest buf : List ℕ) (kernel : List Event) (out : List ℕ)
    → All (λ x. x ≢ newline) line
    → All (λ x. x ≢ 0) line
    → length line + 1 < length buf
    → NoFailure kernel
    → length line + length line + 1 < chunks kernel
    → (buf' : List ℕ) × (kernel' : List Event) × (echo_loop
          (suc fuel)
          (line ++ newline ∷ rest)
          buf
          kernel
          out
        ≡ echo_loop fuel rest buf' kernel' (out ++ (line ++ newline ∷ [])))
unfolding echo_loop
echo_loop-echoes fuel line rest buf kernel out no_newline no_zero fits ok enough =
    let f = read_one_by_one kernel (line ++ newline ∷ rest) buf 0 newline in
    let l =
      read_one_by_one-IsLine kernel line rest buf 0 newline no_newline (omega arith) ok
        (omega arith) in
    let text = line ++ newline ∷ [] in
    let tail = drop (suc f.read_bytes) f.buf in
    let buf_eq = terminated f.buf text f.read_bytes (omega (arith, l.count, l.size)) l.text in
    let (done, sent) =
      write_msg-sends f.kernel text tail out (All-end line no_zero) l.calls.0
        (omega (arith, length-append line (newline ∷ []), l.calls.1)) in
    let w = write_msg f.kernel (set f.buf f.read_bytes 0) out in
    let same = ap (λ b. write_msg f.kernel b out) buf_eq in
    (
      set f.buf f.read_bytes 0,
      w.kernel,
      after_read-next f.status out (λ i b k o. echo_loop fuel i b k o) f l.done
            (lt→ltb _ _ (omega (arith, l.count, l.size)))
            (not-quits kernel (line ++ newline ∷ rest) buf l.done)
            (ap (λ (v : Written). v.status) same ∙ done)
          ∙ ap (λ i. echo_loop fuel i (set f.buf f.read_bytes 0) w.kernel w.out) l.input
          ∙ ap (λ o. echo_loop fuel rest (set f.buf f.read_bytes 0) w.kernel o)
              (ap (λ (v : Written). v.out) same ∙ sent),
    )
