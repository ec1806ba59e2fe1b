-- ===== src/Pipe/Takes.antt =====
-- Lab06/src/02 Pipe/main.c: what a step of a reader takes from the pipe.
use esercitazioni_sistemi_di.Base.{
  ℕ, zero, suc, ◌+◌, ◌-◌, ◌*◌, ◌≡◌, refl, ap, List, [], ◌∷◌, ◌++◌, length, take, drop, min, ◌==◌,
  if_cases, ltb, arith,
}
use esercitazioni_sistemi_di.Posix.{blit}
use esercitazioni_sistemi_di.Pipe.Processes.{
  Shared, ReaderPc, reading, overrun, Reader, bytes_got, reader_at,
}

abbrev pub r_inside : Reader → ℕ
r_inside r = elim r.pc [ reading _ ↦ 1 | overrun _ ↦ 1 | ReaderPc.post_mutex ↦ 1 | _ ↦ 0 ]

-- the bytes of the message that a reader has begun
abbrev pub r_done : Reader → ℕ
r_done r = elim r.pc [ reading ri ↦ ri | overrun ri ↦ ri | _ ↦ 0 ]

-- whether a reader has stored bytes behind its array
abbrev pub overran : Reader → ℕ
overran r = elim r.pc [ overrun _ ↦ 1 | _ ↦ 0 ]

-- A step of a reader: whether it completes a message.
pub record RMove (elems : ℕ) (sh sh' : Shared) (r r' : Reader) (got : List ℕ) : Type 0 where
  pub rounds : ℕ
  pub section : sh'.read_mutex + r_inside r' ≡ sh.read_mutex + r_inside r
  pub other_section : sh'.write_mutex ≡ sh.write_mutex
  pub pipe : got ++ sh'.pipe ≡ sh.pipe
  pub count : r_done r + length got ≡ rounds * (4 * elems) + r_done r'

take-drop_rest : (n : ℕ) (xs : List ℕ) → take n xs ++ drop (length (take n xs)) xs ≡ xs
take-drop_rest zero xs = refl
take-drop_rest (suc n) [] = refl
take-drop_rest (suc n) (x ∷ xs) = ap (λ l. x ∷ l) (take-drop_rest n xs)

gets_none :
    (elems : ℕ) (sh sh' : Shared) (r r' : Reader)
    → sh'.read_mutex + r_inside r' ≡ sh.read_mutex + r_inside r
    → sh'.write_mutex ≡ sh.write_mutex
    → sh'.pipe ≡ sh.pipe
    → r_done r ≡ r_done r'
    → RMove elems sh sh' r r' []
gets_none elems sh sh' r r' section other pipe done = record {
  rounds = 0;
  section = section;
  other_section = other;
  pipe = pipe;
  count = omega arith;
}

pub reader_at-RMove :
    (elems n : ℕ) (pc : ReaderPc) (i : ℕ) (data_bytes : List ℕ) (sh : Shared)
    → (let (sh', r') = reader_at elems n pc i data_bytes sh in
        RMove elems sh sh'
          (record { pc = pc; i = i; data_bytes = data_bytes })
          r'
          (bytes_got elems n pc sh.pipe))
unfolding reader_at
reader_at-RMove elems n ReaderPc.head i data_bytes sh =
    gets_none elems sh _ _ _ (ground arith) refl refl (ground arith)
reader_at-RMove elems n ReaderPc.wait_mutex i data_bytes sh =
    if_cases
      (λ (x : Shared × Reader).
        RMove elems sh x.0 (record { pc = ReaderPc.wait_mutex; i = i; data_bytes = data_bytes }) x.1
          [])
      (sh.read_mutex == 0) _ _ (λ e. gets_none elems sh _ _ _ refl refl refl refl)
      (λ ne. gets_none elems sh _ _ _ (ground arith) refl refl refl)
reader_at-RMove elems n (reading ri) i data_bytes sh =
    let moved = take (min n (4 * elems - ri)) sh.pipe in
    let taken : Shared = record sh { pipe = drop (length moved) sh.pipe } in
    let r : Reader = record { pc = reading ri; i = i; data_bytes = data_bytes } in
    if_cases (λ (x : Shared × Reader). RMove elems sh x.0 r x.1 moved)
      (ltb (4 * elems) (4 * ri + length moved)) _ _
      (λ behind. record {
        rounds = 0;
        section = refl;
        other_section = refl;
        pipe = take-drop_rest (min n (4 * elems - ri)) sh.pipe;
        count = omega arith;
      })
      (λ inside.
        if_cases
          (λ (pc : ReaderPc).
            RMove elems sh taken r
              (record { pc = pc; i = i; data_bytes = blit data_bytes (4 * ri) moved }) moved)
          (ri + length moved == 4 * elems) _ _
          (λ e. record {
            rounds = 1;
            section = refl;
            other_section = refl;
            pipe = take-drop_rest (min n (4 * elems - ri)) sh.pipe;
            count = ground arith;
          })
          (λ ne. record {
            rounds = 0;
            section = refl;
            other_section = refl;
            pipe = take-drop_rest (min n (4 * elems - ri)) sh.pipe;
            count = omega arith;
          }))
reader_at-RMove elems n (overrun ri) i data_bytes sh = gets_none elems sh _ _ _ refl refl refl refl
reader_at-RMove elems n ReaderPc.post_mutex i data_bytes sh =
    gets_none elems sh _ _ _ (omega arith) refl refl refl
reader_at-RMove elems n ReaderPc.ended i data_bytes sh =
    gets_none elems sh _ _ _ refl refl refl refl
