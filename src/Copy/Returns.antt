-- ===== src/Copy/Returns.antt =====
-- copy.c comes to its end.
use esercitazioni_sistemi_di.Base.{
  ℕ, zero, suc, ◌+◌, ◌*◌, ◌≤◌, ◌<◌, ◌≡◌, ◌≢◌, refl, sym, ap, ◌∙◌, inl, inr, List, [], ◌++◌, length,
  arith, append-nil, ◌==◌, if_cases, length-drop,
}
use esercitazioni_sistemi_di.Posix.{Event, Status, returned, Filled, Written, chunks, NoFailure}
use esercitazioni_sistemi_di.Posix.Writing.{write_loop-returns}
use esercitazioni_sistemi_di.Posix.Reading.{Got, read_loop-Got, read_loop-ends}
use esercitazioni_sistemi_di.Copy.{Copied, fill, flush, after_flush, after_fill, perform_copy}
use esercitazioni_sistemi_di.Copy.Prefix.{perform_copy-IsCopy}

-- what each round must be given: no failing call, and three calls that move bytes for each byte
abbrev Enough : List Event → List ℕ → Type 0
Enough kernel src = NoFailure kernel × (3 * length src < chunks kernel)

after_flush-returned :
    (status : Status) (src : List ℕ) (next : List Event → List ℕ → Copied) (w : Written)
    → status ≡ returned
    → (next w.kernel w.out).status ≡ returned
    → (after_flush status src next w).status ≡ returned
unfolding after_flush
after_flush-returned returned src next w e h = h
after_flush-returned status src next w e h = e

after_fill-returned :
    (status : Status) (src buf dest : List ℕ) (block_size : ℕ)
    (next : List Event → List ℕ → List ℕ → List ℕ → Copied) (f : Filled)
    → status ≡ returned
    → Got returned src buf block_size 0 f
    → NoFailure f.kernel
    → 3 * length src < chunks f.kernel + f.read_bytes + 1
    → ((k : List Event) (out : List ℕ)
        → f.read_bytes ≢ 0
        → Enough k f.input
        → (next k f.input f.buf out).status ≡ returned)
    → (after_fill status dest next f).status ≡ returned
unfolding after_fill
after_fill-returned returned src buf dest block_size next f e g ok enough ih =
    if_cases (λ (c : Copied). c.status ≡ returned) (f.read_bytes == 0) _ _ (λ _. refl)
      (λ nz.
        let some_read : f.read_bytes ≢ 0 = (λ z. ground (arith, z, nz)) in
        let (done, ok', left) =
          write_loop-returns (λ n. n) f.kernel f.buf f.read_bytes 0 dest ok
            (omega (arith, g.total, g.there)) in
        after_flush-returned _ f.input (λ k out. next k f.input f.buf out)
          (flush f.kernel f.buf f.read_bytes dest) done
          (ih _ _ some_read
            (ok', omega (arith, g.total, g.there, ap length g.rest, length-drop g.count src))))
after_fill-returned status src buf dest block_size next f e g ok enough ih = e

perform_copy-returned :
    (fuel block_size : ℕ) (kernel : List Event) (src buf dest : List ℕ)
    → 0 < block_size
    → block_size ≤ length buf
    → length src < fuel
    → Enough kernel src
    → (perform_copy fuel block_size kernel src buf dest).status ≡ returned
unfolding perform_copy
perform_copy-returned zero block_size kernel src buf dest p b u h = absurd (omega arith)
perform_copy-returned (suc fuel) block_size kernel src buf dest p b u (ok, enough) =
    let g = read_loop-Got returned kernel src buf block_size 0 (omega arith) in
    let (done, ok', left) =
      read_loop-ends returned (λ n. n) kernel src buf block_size 0 ok (omega arith) in
    after_fill-returned _ src buf dest block_size _ (fill block_size kernel src buf)
      (elim done [ inl e ↦ e | inr e ↦ e ]) g ok' (omega arith)
      (λ k out some_read enough'.
        perform_copy-returned fuel block_size k _ _ out p (omega (arith, g.size))
          (omega (arith, g.total, g.there, ap length g.rest, length-drop g.count src)) enough')

-- Whatever the calls transfer, and whatever is interrupted, the copy returns and the destination has
-- received the source, byte for byte. No call fails, and the kernel moves bytes often enough.
pub perform_copy-exact :
    (block_size : ℕ) (kernel : List Event) (src buf : List ℕ)
    → 0 < block_size
    → block_size ≤ length buf
    → NoFailure kernel
    → 3 * length src < chunks kernel
    → (let c = perform_copy (suc (length src)) block_size kernel src buf [] in
        (c.status ≡ returned) × (c.dest ≡ src))
perform_copy-exact block_size kernel src buf p b ok enough =
    let done =
      perform_copy-returned (suc (length src)) block_size kernel src buf [] p b (omega arith)
        (ok, enough) in
    let (lost, split, all) =
      perform_copy-IsCopy (suc (length src)) block_size kernel src buf [] p b in
    let out = (perform_copy (suc (length src)) block_size kernel src buf []).dest in
    (done, sym (split ∙ ap (λ l. out ++ l) (all done) ∙ append-nil out))

-- Also when a call fails, or the copy is still waiting in one: what the destination has received is
-- the beginning of the source.
pub perform_copy-prefix :
    (fuel block_size : ℕ) (kernel : List Event) (src buf : List ℕ)
    → 0 < block_size
    → block_size ≤ length buf
    → (lost : List ℕ) × (src ≡ (perform_copy fuel block_size kernel src buf []).dest ++ lost)
perform_copy-prefix fuel block_size kernel src buf p b =
    let (lost, split, all) = perform_copy-IsCopy fuel block_size kernel src buf [] p b in
    (lost, split)
