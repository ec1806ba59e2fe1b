-- ===== src/Copy/Prefix.antt =====
-- What copy.c has written when it ends.
use esercitazioni_sistemi_di.Base.{
  ℕ, zero, suc, ◌+◌, ◌-◌, ◌≤◌, ◌<◌, ◌≡◌, refl, sym, ap, ◌∙◌, subst, inl, inr, List, [], ◌++◌, take,
  drop, length, arith, ◌==◌, ==_iff, if_cases, append_assoc, take-add, take-append-drop,
  nil_of_length,
}
use esercitazioni_sistemi_di.Posix.{Event, Status, returned, Filled, Written}
use esercitazioni_sistemi_di.Posix.Writing.{Sent, write_loop-Sent}
use esercitazioni_sistemi_di.Posix.Reading.{Got, read_loop-Got}
use esercitazioni_sistemi_di.Copy.{Copied, fill, flush, after_flush, after_fill, perform_copy}

-- The destination holds a prefix of the source, and all of it if the copy returned.
abbrev pub IsCopy : List ℕ → List ℕ → Copied → Type 0
IsCopy src dest c =
    (lost : List ℕ) × (dest ++ src ≡ c.dest ++ lost) × (c.status ≡ returned → lost ≡ [])

after_flush-IsCopy :
    (status : Status) (src buf dest : List ℕ) (n : ℕ) (next : List Event → List ℕ → Copied)
    (w : Written)
    → w.status ≡ status
    → Sent buf n 0 dest w
    → ((k : List Event) (out : List ℕ) → IsCopy src out (next k out))
    → IsCopy (take n buf ++ src) dest (after_flush status src next w)
unfolding after_flush
after_flush-IsCopy returned src buf dest n next w e s ih =
    let (lost, split, all) = ih w.kernel w.out in
    (
      lost,
      sym (append_assoc dest (take n buf) src)
          ∙ ap (λ l. l ++ src) (ap (λ k. dest ++ take k buf) (sym (s.all e)) ∙ sym s.sent)
          ∙ split,
      all,
    )
after_flush-IsCopy status src buf dest n next w e s ih = (
  take (n - s.count) (drop s.count buf) ++ src,
  ap (λ k. dest ++ (take k buf ++ src)) {y = s.count + (n - s.count)} (omega (arith, s.at_most))
      ∙ ap (λ l. dest ++ (l ++ src)) (take-add s.count (n - s.count) buf)
      ∙ ap (λ l. dest ++ l)
          (append_assoc (take s.count buf) (take (n - s.count) (drop s.count buf)) src)
      ∙ sym (append_assoc dest (take s.count buf) (take (n - s.count) (drop s.count buf) ++ src))
      ∙ ap (λ l. l ++ (take (n - s.count) (drop s.count buf) ++ src)) (sym s.sent),
  λ h. absurd (ground arith),
)

-- What stands in the buffer and what is left make up the source.
fill_split :
    (src buf : List ℕ) (block_size : ℕ) (f : Filled)
    → Got returned src buf block_size 0 f
    → take f.read_bytes f.buf ++ f.input ≡ src
fill_split src buf block_size f g =
    ap (λ k. take k f.buf ++ f.input) g.total
    ∙ ap (λ l. l ++ f.input) g.data_in
    ∙ ap (λ l. take g.count src ++ l) g.rest
    ∙ take-append-drop g.count src

after_fill-IsCopy :
    (status : Status) (block_size : ℕ) (src buf dest : List ℕ)
    (next : List Event → List ℕ → List ℕ → List ℕ → Copied) (f : Filled)
    → f.status ≡ status
    → 0 < block_size
    → Got returned src buf block_size 0 f
    → ((k : List Event) (s out : List ℕ) → IsCopy s out (next k s f.buf out))
    → IsCopy src dest (after_fill status dest next f)
unfolding after_fill
after_fill-IsCopy returned block_size src buf dest next f e b g ih =
    if_cases (IsCopy src dest) (f.read_bytes == 0) _ _
      (λ z. (
        src,
        refl,
        λ _.
            let none_read : f.read_bytes ≡ 0 = (==_iff f.read_bytes 0).0 z in
            nil_of_length src (elim (g.all e) [
              | inl full ↦ absurd (omega (arith, g.total))
              | inr end ↦ omega (arith, g.total, end.0)
            ]),
      ))
      (λ _.
        subst (λ l. IsCopy l dest flushed) (fill_split src buf block_size f g)
          (after_flush-IsCopy w.status f.input f.buf dest f.read_bytes then_next w refl
            (write_loop-Sent f.kernel f.buf f.read_bytes 0 dest) (λ k out. ih k f.input out)))
  where
    w : Written
    w = flush f.kernel f.buf f.read_bytes dest

    then_next : List Event → List ℕ → Copied
    then_next k out = next k f.input f.buf out

    flushed : Copied
    flushed = after_flush w.status f.input then_next w
after_fill-IsCopy status block_size src buf dest next f e b g ih =
    (src, refl, λ h. absurd (ground arith))

pub perform_copy-IsCopy :
    (fuel block_size : ℕ) (kernel : List Event) (src buf dest : List ℕ)
    → 0 < block_size
    → block_size ≤ length buf
    → IsCopy src dest (perform_copy fuel block_size kernel src buf dest)
unfolding perform_copy
perform_copy-IsCopy zero block_size kernel src buf dest p b =
    (src, refl, λ h. absurd (ground arith))
perform_copy-IsCopy (suc fuel) block_size kernel src buf dest p b =
    let g = read_loop-Got returned kernel src buf block_size 0 (omega arith) in
    after_fill-IsCopy _ block_size src buf dest _ (fill block_size kernel src buf) refl p g
      (λ k s out. perform_copy-IsCopy fuel block_size k s _ out p (omega (arith, g.size)))
