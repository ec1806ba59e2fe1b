-- ===== src/Posix/Reading.antt =====
-- What a loop over read(2) has put in its buffer when it ends.
use esercitazioni_sistemi_di.Base.{
  ℕ, zero, suc, ◌+◌, ◌-◌, ◌≤◌, ◌<◌, ◌≡◌, refl, sym, ap, ◌∙◌, ◌⊎◌, inl, inr, List, [], ◌∷◌, ◌++◌,
  min, take, drop, length, arith, append_assoc, append-nil, take-add, drop-add, length-append,
  length-take, length-drop, take-append_of_le, take_of_length_le,
}
use esercitazioni_sistemi_di.Posix.{
  Event, chunk, eintr, failed, Status, returned, exited, waiting, Filled, read_loop, blit, chunks,
  NoFailure,
}

module _ (buf : List ℕ) (off : ℕ) (bs : List ℕ) (fits : off + length bs ≤ length buf) where
  length-blit : length (blit buf off bs) ≡ length buf
  length-blit = omega (
    arith,
    length-append (take off buf) (bs ++ drop (off + length bs) buf),
    length-append bs (drop (off + length bs) buf),
    length-take off buf,
    length-drop (off + length bs) buf,
  )

  -- A copy into the buffer extends what stands before it.
  take-blit : take (off + length bs) (blit buf off bs) ≡ take off buf ++ bs
  take-blit =
      ap (take (off + length bs))
        (sym (append_assoc (take off buf) bs (drop (off + length bs) buf)))
      ∙ take-append_of_le (off + length bs) (take off buf ++ bs) (drop (off + length bs) buf)
          (omega (arith, length-append (take off buf) bs, length-take off buf))
      ∙ take_of_length_le (off + length bs) (take off buf ++ bs)
          (omega (arith, length-append (take off buf) bs, length-take off buf))

-- The input goes into the buffer in order: `count` bytes of it stand after what was there, and the
-- rest is still to be read. If the loop returns, `left` bytes were read or the input has ended.
pub record Got (at_end : Status) (input buf : List ℕ) (left read : ℕ) (f : Filled) : Type 0 where
  pub count : ℕ
  pub at_most : count ≤ left
  pub there : count ≤ length input
  pub rest : f.input ≡ drop count input
  pub data_in : take (read + count) f.buf ≡ take read buf ++ take count input
  pub size : length f.buf ≡ length buf
  pub total : f.read_bytes ≡ read + count
  pub all : f.status ≡ returned → (count ≡ left) ⊎ ((count ≡ length input) × (at_end ≡ returned))

Got-none :
    (at_end : Status) (input buf : List ℕ) (left read : ℕ) (status : Status) (kernel : List Event)
    → (status ≡ returned → (left ≡ 0) ⊎ ((length input ≡ 0) × (at_end ≡ returned)))
    → Got at_end input buf left read
        (record { status = status; input = input; buf = buf; read_bytes = read; kernel = kernel })
Got-none at_end input buf left read status kernel h = record {
  count = 0;
  at_most = omega arith;
  there = omega arith;
  rest = refl;
  data_in = ap (λ k. take k buf) (omega arith) ∙ sym (append-nil (take read buf));
  size = refl;
  total = omega arith;
  all = λ e. elim (h e) [ inl z ↦ inl (sym z) | inr z ↦ inr (sym z.0, z.1) ];
}

-- One call that reads `ret` bytes, before the rest of the loop.
Got-chunk :
    (at_end : Status) (input buf : List ℕ) (left read ret : ℕ) (f : Filled)
    → ret ≤ left
    → ret ≤ length input
    → read + left ≤ length buf
    → Got at_end (drop ret input) (blit buf read (take ret input)) (left - ret) (read + ret) f
    → Got at_end input buf left read f
Got-chunk at_end input buf left read ret f b b' fits g =
    let moved : length (take ret input) ≡ ret = omega (arith, length-take ret input) in
    let inside : read + length (take ret input) ≤ length buf = omega arith in
    let held : take (read + ret) (blit buf read (take ret input))
        ≡ take read buf ++ take ret input =
      ap (λ k. take (read + k) (blit buf read (take ret input))) (sym moved)
      ∙ take-blit buf read (take ret input) inside in
    record {
      count = ret + g.count;
      at_most = omega (arith, g.at_most);
      there = omega (arith, g.there, length-drop ret input);
      rest = g.rest ∙ sym (drop-add ret g.count input);
      data_in =
          ap (λ k. take k f.buf) {y = read + ret + g.count} (omega arith)
          ∙ g.data_in
          ∙ ap (λ l. l ++ take g.count (drop ret input)) held
          ∙ append_assoc (take read buf) (take ret input) (take g.count (drop ret input))
          ∙ ap (λ l. take read buf ++ l) (sym (take-add ret g.count input));
      size = g.size ∙ length-blit buf read (take ret input) inside;
      total = omega (arith, g.total);
      all = λ e. elim (g.all e) [
        | inl z ↦ inl (omega arith)
        | inr z ↦ inr (omega (arith, z.0, length-drop ret input), z.1)
      ];
    }

-- Whatever the kernel does, the bytes read stand in the buffer in the order of the input.
pub read_loop-Got :
    (at_end : Status) (kernel : List Event) (input buf : List ℕ) (left read : ℕ)
    → read + left ≤ length buf
    → Got at_end input buf left read (read_loop at_end (λ n. n) kernel input buf left read)
unfolding read_loop
read_loop-Got at_end [] input buf zero read b =
    Got-none at_end input buf zero read returned [] (λ _. inl refl)
read_loop-Got at_end [] input buf (suc left) read b =
    Got-none at_end input buf (suc left) read waiting [] (λ e. ground arith)
read_loop-Got at_end (e ∷ kernel) input buf zero read b =
    Got-none at_end input buf zero read returned (e ∷ kernel) (λ _. inl refl)
read_loop-Got at_end (chunk n ∷ kernel) [] buf (suc left) read b =
    Got-none at_end [] buf (suc left) read at_end kernel (λ e. inr (refl, e))
read_loop-Got at_end (chunk n ∷ kernel) (x ∷ xs) buf (suc left) read b =
    let ret = min (suc n) (min (suc left) (length (x ∷ xs))) in
    Got-chunk at_end (x ∷ xs) buf (suc left) read ret _ (omega arith) (omega arith) b (
      read_loop-Got at_end kernel _ _ _ _ (
        omega (
          arith,
          length-blit buf read (take ret (x ∷ xs)) (omega (arith, length-take ret (x ∷ xs))),
        )))
read_loop-Got at_end (eintr ∷ kernel) input buf (suc left) read b =
    read_loop-Got at_end kernel input buf (suc left) read b
read_loop-Got at_end (failed ∷ kernel) input buf (suc left) read b =
    Got-none at_end input buf (suc left) read exited kernel (λ e. ground arith)

-- If no call fails and the kernel answers often enough, the loop ends: each byte costs at most one
-- call, and the end of the input one more.
pub read_loop-ends :
    (at_end : Status) (addr : ℕ → ℕ) (kernel : List Event) (input buf : List ℕ) (left read : ℕ)
    → NoFailure kernel
    → min left (length input) < chunks kernel
    → (let f = read_loop at_end addr kernel input buf left read in
        ((f.status ≡ returned) ⊎ (f.status ≡ at_end))
        × NoFailure f.kernel
        × (chunks kernel + read ≤ chunks f.kernel + f.read_bytes + 1))
unfolding read_loop
read_loop-ends at_end addr [] input buf left read h b = absurd (omega arith)
read_loop-ends at_end addr (e ∷ kernel) input buf zero read h b = (inl refl, h, omega arith)
read_loop-ends at_end addr (chunk n ∷ kernel) [] buf (suc left) read h b =
    (inr refl, h, omega arith)
read_loop-ends at_end addr (chunk n ∷ kernel) (x ∷ xs) buf (suc left) read h b =
    let ret = min (suc n) (min (suc left) (length (x ∷ xs))) in
    let (r, f, c) =
      read_loop-ends at_end addr kernel (drop ret (x ∷ xs))
        (blit buf (addr read) (take ret (x ∷ xs))) (suc left - ret) (read + ret) h
        (omega (arith, length-drop ret (x ∷ xs))) in
    (r, f, omega arith)
read_loop-ends at_end addr (eintr ∷ kernel) input buf (suc left) read h b =
    read_loop-ends at_end addr kernel input buf (suc left) read h b
read_loop-ends at_end addr (failed ∷ kernel) input buf (suc left) read h b = absurd h

-- With enough input the loop returns, whatever the end of the input would lead to.
pub read_loop-returns :
    (at_end : Status) (addr : ℕ → ℕ) (kernel : List Event) (input buf : List ℕ) (left read : ℕ)
    → NoFailure kernel
    → left ≤ length input
    → left ≤ chunks kernel
    → (let f = read_loop at_end addr kernel input buf left read in
        (f.status ≡ returned) × NoFailure f.kernel × (chunks kernel ≤ chunks f.kernel + left))
unfolding read_loop
read_loop-returns at_end addr [] input buf zero read h b c = (refl, tt, omega arith)
read_loop-returns at_end addr [] input buf (suc left) read h b c = absurd (omega arith)
read_loop-returns at_end addr (e ∷ kernel) input buf zero read h b c = (refl, h, omega arith)
read_loop-returns at_end addr (chunk n ∷ kernel) [] buf (suc left) read h b c = absurd (omega arith)
read_loop-returns at_end addr (chunk n ∷ kernel) (x ∷ xs) buf (suc left) read h b c =
    let ret = min (suc n) (min (suc left) (length (x ∷ xs))) in
    let (r, f, d) =
      read_loop-returns at_end addr kernel (drop ret (x ∷ xs))
        (blit buf (addr read) (take ret (x ∷ xs))) (suc left - ret) (read + ret) h
        (omega (arith, length-drop ret (x ∷ xs))) (omega arith) in
    (r, f, omega arith)
read_loop-returns at_end addr (eintr ∷ kernel) input buf (suc left) read h b c =
    read_loop-returns at_end addr kernel input buf (suc left) read h b c
read_loop-returns at_end addr (failed ∷ kernel) input buf (suc left) read h b c = absurd h
