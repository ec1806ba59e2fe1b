-- ===== src/Posix/Writing.antt =====
-- What a loop over write(2) has sent when it ends.
use esercitazioni_sistemi_di.Base.{
  ℕ, zero, suc, ◌+◌, ◌-◌, ◌≤◌, ◌≡◌, refl, sym, ap, ◌∙◌, List, [], ◌∷◌, ◌++◌, min, take, drop, arith,
  append_assoc, append-nil, take-add, drop-add,
}
use esercitazioni_sistemi_di.Posix.{
  Event, chunk, eintr, failed, Status, returned, exited, Written, write_loop, chunks, NoFailure,
}

-- The bytes of the buffer go out in order and once: what has been sent is a prefix of them, and all
-- of them if the loop returns.
pub record Sent (buf : List ℕ) (left written : ℕ) (out : List ℕ) (w : Written) : Type 0 where
  pub count : ℕ
  pub at_most : count ≤ left
  pub sent : w.out ≡ out ++ take count (drop written buf)
  pub total : w.written_bytes ≡ written + count
  pub all : w.status ≡ returned → count ≡ left

-- One call that moves `ret` bytes, before the rest of the loop.
Sent-chunk :
    (buf : List ℕ) (left written : ℕ) (out : List ℕ) (ret : ℕ) (w : Written)
    → ret ≤ left
    → Sent buf (left - ret) (written + ret) (out ++ take ret (drop written buf)) w
    → Sent buf left written out w
Sent-chunk buf left written out ret w b s = record {
  count = ret + s.count;
  at_most = omega (arith, s.at_most);
  sent =
      s.sent
      ∙ append_assoc out (take ret (drop written buf)) (take s.count (drop (written + ret) buf))
      ∙ ap (λ l. out ++ (take ret (drop written buf) ++ take s.count l)) (drop-add written ret buf)
      ∙ sym (ap (λ l. out ++ l) (take-add ret s.count (drop written buf)));
  total = omega (arith, s.total);
  all = λ e. omega (arith, s.all e);
}

Sent-none :
    (buf : List ℕ) (left written : ℕ) (out : List ℕ) (status : Status) (kernel : List Event)
    → (status ≡ returned → left ≡ 0)
    → Sent buf left written out
        (record { status = status; out = out; written_bytes = written; kernel = kernel })
Sent-none buf left written out status kernel h = record {
  count = 0;
  at_most = omega arith;
  sent = sym (append-nil out);
  total = omega arith;
  all = λ e. sym (h e);
}

-- Whatever the kernel does, the loop has sent a prefix of the bytes, and all if it returns.
pub write_loop-Sent :
    (kernel : List Event) (buf : List ℕ) (left written : ℕ) (out : List ℕ)
    → Sent buf left written out (write_loop (λ n. n) kernel buf left written out)
unfolding write_loop
write_loop-Sent [] buf left written out = Sent-none buf left written out _ [] (λ e. ground arith)
write_loop-Sent (e ∷ kernel) buf zero written out =
    Sent-none buf zero written out returned (e ∷ kernel) (λ _. refl)
write_loop-Sent (chunk n ∷ kernel) buf (suc left) written out =
    Sent-chunk buf (suc left) written out (min (suc n) (suc left)) _ (omega arith)
      (write_loop-Sent kernel buf _ _ _)
write_loop-Sent (eintr ∷ kernel) buf (suc left) written out =
    write_loop-Sent kernel buf (suc left) written out
write_loop-Sent (failed ∷ kernel) buf (suc left) written out =
    Sent-none buf (suc left) written out exited kernel (λ e. ground arith)

-- If no call fails and the kernel moves bytes often enough, the loop returns; each byte costs at
-- most one such call.
pub write_loop-returns :
    (addr : ℕ → ℕ) (kernel : List Event) (buf : List ℕ) (left written : ℕ) (out : List ℕ)
    → NoFailure kernel
    → left ≤ chunks kernel
    → (let w = write_loop addr kernel buf left written out in
        (w.status ≡ returned) × NoFailure w.kernel × (chunks kernel ≤ chunks w.kernel + left))
unfolding write_loop
write_loop-returns addr [] buf zero written out h b = (refl, tt, omega arith)
write_loop-returns addr [] buf (suc left) written out h b = absurd (omega arith)
write_loop-returns addr (e ∷ kernel) buf zero written out h b = (refl, h, omega arith)
write_loop-returns addr (chunk n ∷ kernel) buf (suc left) written out h b =
    let (r, f, c) =
      write_loop-returns addr kernel buf (suc left - min (suc n) (suc left))
        (written + min (suc n) (suc left)) _ h (omega arith) in
    (r, f, omega arith)
write_loop-returns addr (eintr ∷ kernel) buf (suc left) written out h b =
    write_loop-returns addr kernel buf (suc left) written out h b
write_loop-returns addr (failed ∷ kernel) buf (suc left) written out h b = absurd h
