-- ===== src/Pipe/Transfer.antt =====
-- `write_to_pipe` and `read_from_pipe` of Lab06/src/02 Pipe/main.c.
use esercitazioni_sistemi_di.Base.{
  ℕ, zero, suc, ◌+◌, ◌-◌, ◌*◌, ◌≤◌, ◌<◌, ◌≡◌, refl, sym, ap, ◌∙◌, List, [], ◌∷◌, ◌++◌, take, drop,
  arith, min,
}
use esercitazioni_sistemi_di.Posix.{Event, chunk, eintr, failed, returned, Written, write_loop}
use esercitazioni_sistemi_di.Pipe.{write_to_pipe}

-- The next call that moves bytes, interrupted ones aside, moves up to `n` of them.
abbrev pub NextMoves : ℕ → List Event → List Event → Type 0
NextMoves n [] rest = ⊥
NextMoves n (chunk m ∷ kernel) rest = (n ≡ suc m) × (rest ≡ kernel)
NextMoves n (eintr ∷ kernel) rest = NextMoves n kernel rest
NextMoves n (failed ∷ kernel) rest = ⊥

write_loop-moves :
    (addr : ℕ → ℕ) (n : ℕ) (kernel rest : List Event) (buf : List ℕ) (left written : ℕ)
    (out : List ℕ)
    → NextMoves n kernel rest
    → (let ret = min n (suc left) in
        write_loop addr kernel buf (suc left) written out
        ≡ write_loop addr rest buf
            (suc left - ret)
            (written + ret)
            (out ++ take ret (drop (addr written) buf)))
unfolding write_loop
write_loop-moves addr n [] rest buf left written out h = absurd h
write_loop-moves addr n (chunk m ∷ kernel) rest buf left written out h = rw (h.0, h.1) refl
write_loop-moves addr n (eintr ∷ kernel) rest buf left written out h =
    write_loop-moves addr n kernel rest buf left written out h
write_loop-moves addr n (failed ∷ kernel) rest buf left written out h = absurd h

write_loop-ended :
    (addr : ℕ → ℕ) (kernel : List Event) (buf : List ℕ) (written : ℕ) (out : List ℕ)
    → write_loop addr kernel buf 0 written out
      ≡ record { status = returned; out = out; written_bytes = written; kernel = kernel }
unfolding write_loop
write_loop-ended addr [] buf written out = refl
write_loop-ended addr (e ∷ kernel) buf written out = refl

-- A call that moves all that is left ends the loop, and one that moves less does not.
write_loop-last :
    (addr : ℕ → ℕ) (n : ℕ) (kernel rest : List Event) (buf : List ℕ) (left written : ℕ)
    (out : List ℕ)
    → NextMoves n kernel rest
    → suc left ≤ n
    → write_loop addr kernel buf (suc left) written out ≡ record {
      status = returned;
      out = out ++ take (suc left) (drop (addr written) buf);
      written_bytes = written + suc left;
      kernel = rest;
    }
write_loop-last addr n kernel rest buf left written out h b =
    let all : min n (suc left) ≡ suc left = omega arith in
    let text = out ++ take (suc left) (drop (addr written) buf) in
    write_loop-moves addr n kernel rest buf left written out h
    ∙ ap
        (λ ret.
          write_loop addr rest buf (suc left - ret) (written + ret)
            (out ++ take ret (drop (addr written) buf)))
        all
    ∙ ap (λ k. write_loop addr rest buf k (written + suc left) text) (the_rest left)
    ∙ write_loop-ended addr rest buf (written + suc left) text
  where
    the_rest : (k : ℕ) → suc k - suc k ≡ 0
    the_rest k = omega arith

write_loop-part :
    (addr : ℕ → ℕ) (n : ℕ) (kernel rest : List Event) (buf : List ℕ) (left written : ℕ)
    (out : List ℕ)
    → NextMoves n kernel rest
    → n ≤ left
    → write_loop addr kernel buf (suc left) written out
      ≡ write_loop addr rest buf
          (suc (left - n))
          (written + n)
          (out ++ take n (drop (addr written) buf))
write_loop-part addr n kernel rest buf left written out h b =
    let some_bytes : min n (suc left) ≡ n = omega arith in
    let left_over : suc left - n ≡ suc (left - n) = omega arith in
    write_loop-moves addr n kernel rest buf left written out h
    ∙ ap
        (λ ret.
          write_loop addr rest buf (suc left - ret) (written + ret)
            (out ++ take ret (drop (addr written) buf)))
        some_bytes
    ∙ ap (λ k. write_loop addr rest buf k (written + n) (out ++ take n (drop (addr written) buf)))
        left_over

-- When the first `write` that is not interrupted moves all bytes, the pipe receives the message and
-- the result is its length, which is not 0.
pub write_to_pipe-whole :
    (n : ℕ) (kernel rest : List Event) (xs : List ℕ) (len : ℕ) (out : List ℕ)
    → NextMoves n kernel rest
    → 0 < len
    → len ≤ n
    → write_to_pipe kernel xs len out
      ≡ record { status = returned; out = out ++ take len xs; written_bytes = len; kernel = rest }
unfolding write_to_pipe
write_to_pipe-whole n kernel rest xs zero out h p b = absurd (omega arith)
write_to_pipe-whole n kernel rest xs (suc len) out h p b =
    write_loop-last (λ wi. 4 * wi) n kernel rest xs len 0 out h b
    ∙ ap
        (λ (k : ℕ). record {
          status = returned;
          out = out ++ take (suc len) xs;
          written_bytes = k;
          kernel = rest;
        })
        (zero_add len)
  where
    zero_add : (k : ℕ) → 0 + suc k ≡ suc k
    zero_add k = omega arith

-- When it moves `n` bytes, fewer than the message has, and the next one the others, the pipe
-- receives the first `n` bytes and then those from `4 * n` on, in place of those from `n` on.
pub write_to_pipe-split :
    (n m : ℕ) (kernel middle rest : List Event) (xs : List ℕ) (len : ℕ) (out : List ℕ)
    → NextMoves n kernel middle
    → NextMoves m middle rest
    → n < len
    → len ≤ n + m
    → (write_to_pipe kernel xs len out).out ≡ (out ++ take n xs) ++ take (len - n) (drop (4 * n) xs)
unfolding write_to_pipe
write_to_pipe-split n m kernel middle rest xs zero out h k b c = absurd (omega arith)
write_to_pipe-split n m kernel middle rest xs (suc len) out h k b c =
    let left_over : suc len - n ≡ suc (len - n) = omega arith in
    let start : 0 + n ≡ n = omega arith in
    ap (λ (w : Written). w.out)
      (write_loop-part (λ wi. 4 * wi) n kernel middle xs len 0 out h (omega arith)
        ∙ write_loop-last (λ wi. 4 * wi) m middle rest xs (len - n) (0 + n) (out ++ take n xs) k
            (omega arith))
    ∙ ap (λ j. (out ++ take n xs) ++ take (suc (len - n)) (drop (4 * j) xs)) start
    ∙ ap (λ j. (out ++ take n xs) ++ take j (drop (4 * n) xs)) (sym left_over)
