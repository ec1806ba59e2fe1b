-- ===== src/FifoValues/Messages.antt =====
-- Lab07/src/01 prod_cons: what the producer sends is what the consumer adds up.
use esercitazioni_sistemi_di.Base.{
  ℕ, zero, suc, ◌+◌, ◌*◌, ◌%◌, ◌≤◌, ◌≡◌, refl, sym, ap, ◌∙◌, List, [], ◌++◌, length, take, drop,
  arith, append_assoc, append-nil, take_of_length_le, inl, inr,
}
use esercitazioni_sistemi_di.Posix.{
  Event, Status, returned, exited, Written, Filled, chunks, NoFailure,
}
use esercitazioni_sistemi_di.Posix.Writing.{write_loop-Sent, write_loop-returns}
use esercitazioni_sistemi_di.Posix.Reading.{read_loop-Got, read_loop-returns}
use esercitazioni_sistemi_di.FifoValues.{
  bytes_of, int_of, word_size, perform_random_transaction, write_value, read_value, Produced,
  after_write_value, produce, Consumed, after_read_value, consume,
}
use esercitazioni_sistemi_di.FifoValues.Words.{int_of-bytes_of, transaction_in}

-- `writeValue` sends the four bytes.
pub write_value-sends :
    (kernel : List Event) (v : ℕ) (out : List ℕ)
    → NoFailure kernel
    → 4 ≤ chunks kernel
    → (let w = write_value kernel v out in
        (w.status ≡ returned)
        × (w.out ≡ out ++ bytes_of v)
        × NoFailure w.kernel
        × (chunks kernel ≤ chunks w.kernel + 4))
unfolding write_value
write_value-sends kernel v out ok enough =
    let s = write_loop-Sent kernel (bytes_of v) 4 0 out in
    let (done, ok', left) = write_loop-returns (λ j. j) kernel (bytes_of v) 4 0 out ok enough in
    (done, s.sent ∙ ap (λ k. out ++ take k (bytes_of v)) (s.all done), ok', left)

-- `readValue` takes the four bytes at the front of the input.
pub read_value-takes :
    (kernel : List Event) (v : ℕ) (rest value : List ℕ)
    → length value ≡ 4
    → NoFailure kernel
    → 4 ≤ chunks kernel
    → (let f = read_value kernel (bytes_of v ++ rest) value in
        (f.status ≡ returned)
        × (f.buf ≡ bytes_of v)
        × (f.input ≡ rest)
        × NoFailure f.kernel
        × (chunks kernel ≤ chunks f.kernel + 4))
unfolding read_value
read_value-takes kernel v rest value size ok enough =
    let g = read_loop-Got exited kernel (bytes_of v ++ rest) value 4 0 (omega arith) in
    let (done, ok', left) =
      read_loop-returns exited (λ j. j) kernel (bytes_of v ++ rest) value 4 0 ok (omega arith)
        enough in
    let count : g.count ≡ 4 = elim (g.all done) [
      | inl e ↦ e
      | inr (_, other) ↦ absurd (ground arith)
    ] in
    let all : 0 + g.count ≡ 4 = omega (arith, count) in
    let text = ap (λ k. take k (read_value kernel (bytes_of v ++ rest) value).buf) all in
    (
      done,
      sym (take_of_length_le 4 _ (omega (arith, g.size)))
          ∙ sym text
          ∙ g.data_in
          ∙ ap (λ k. take k (bytes_of v ++ rest)) count,
      g.rest ∙ ap (λ k. drop k (bytes_of v ++ rest)) count,
      ok',
      left,
    )

-- The bytes of all messages of a producer, and the sum of their values.
abbrev pub messages : (ℕ → ℕ) → ℕ → List ℕ
messages rand zero = []
messages rand (suc n) = bytes_of (perform_random_transaction (rand (suc n))) ++ messages rand n

abbrev pub word_sum : (ℕ → ℕ) → ℕ → ℕ → ℕ
word_sum rand zero sum = sum
word_sum rand (suc n) sum =
    word_sum rand n ((sum + perform_random_transaction (rand (suc n))) % word_size)

after_write_value-next :
    (status : Status) (sum : ℕ) (next : List Event → List ℕ → Produced) (w : Written)
    → status ≡ returned
    → after_write_value status sum next w ≡ next w.kernel w.out
unfolding after_write_value
after_write_value-next returned sum next w e = refl
after_write_value-next status sum next w e = absurd (ground arith)

after_read_value-next :
    (status : Status) (sum : ℕ) (next : List Event → List ℕ → List ℕ → Consumed) (f : Filled)
    → status ≡ returned
    → after_read_value status sum next f ≡ next f.kernel f.input f.buf
unfolding after_read_value
after_read_value-next returned sum next f e = refl
after_read_value-next status sum next f e = absurd (ground arith)

-- What a producer comes to.
pub record IsProduced (rand : ℕ → ℕ) (n sum : ℕ) (out : List ℕ) (p : Produced) : Type 0 where
  pub done : p.status ≡ returned
  pub sent : p.out ≡ out ++ messages rand n
  pub total : p.local_sum ≡ word_sum rand n sum

pub produce-IsProduced :
    (rand : ℕ → ℕ) (n : ℕ) (kernel : List Event) (sum : ℕ) (out : List ℕ)
    → NoFailure kernel
    → 4 * n ≤ chunks kernel
    → IsProduced rand n sum out (produce rand n kernel sum out)
unfolding produce
produce-IsProduced rand zero kernel sum out ok enough = record {
  done = refl;
  sent = sym (append-nil out);
  total = refl;
}
produce-IsProduced rand (suc n) kernel sum out ok enough =
    let v = perform_random_transaction (rand (suc n)) in
    let w = write_value kernel v out in
    let (done, sent, ok', left) = write_value-sends kernel v out ok (omega arith) in
    let p = produce-IsProduced rand n w.kernel ((sum + v) % word_size) w.out ok' (omega arith) in
    let step =
      after_write_value-next w.status sum (λ k o. produce rand n k ((sum + v) % word_size) o) w
        done in
    record {
      done = ap (λ (q : Produced). q.status) step ∙ p.done;
      sent =
          ap (λ (q : Produced). q.out) step
          ∙ p.sent
          ∙ ap (λ o. o ++ messages rand n) sent
          ∙ append_assoc out (bytes_of v) (messages rand n);
      total = ap (λ (q : Produced). q.local_sum) step ∙ p.total;
    }

-- What a consumer comes to.
pub record IsConsumed (rand : ℕ → ℕ) (n sum : ℕ) (rest : List ℕ) (c : Consumed) : Type 0 where
  pub done : c.status ≡ returned
  pub input : c.input ≡ rest
  pub total : c.local_sum ≡ word_sum rand n sum

pub consume-IsConsumed :
    (rand : ℕ → ℕ) (n : ℕ) (kernel : List Event) (sum : ℕ) (rest value : List ℕ)
    → length value ≡ 4
    → NoFailure kernel
    → 4 * n ≤ chunks kernel
    → IsConsumed rand n sum rest (consume n kernel sum (messages rand n ++ rest) value)
unfolding consume
consume-IsConsumed rand zero kernel sum rest value size ok enough = record {
  done = refl;
  input = refl;
  total = refl;
}
consume-IsConsumed rand (suc n) kernel sum rest value size ok enough =
    let v = perform_random_transaction (rand (suc n)) in
    let f = read_value kernel (messages rand (suc n) ++ rest) value in
    let (done, taken, left_over, ok', left) =
      read_value-takes kernel v (messages rand n ++ rest) value size ok (omega arith) in
    let c =
      consume-IsConsumed rand n f.kernel ((sum + v) % word_size) rest f.buf (ap length taken) ok'
        (omega arith) in
    let step =
      after_read_value-next f.status sum (λ k i b. consume n k ((sum + int_of b) % word_size) i b) f
        done
      ∙ ap (λ i. consume n f.kernel ((sum + int_of f.buf) % word_size) i f.buf) left_over
      ∙ ap (λ x. consume n f.kernel ((sum + x) % word_size) (messages rand n ++ rest) f.buf)
          (ap int_of taken ∙ int_of-bytes_of v (transaction_in (rand (suc n)))) in
    record {
      done = ap (λ (q : Consumed). q.status) step ∙ c.done;
      input = ap (λ (q : Consumed). q.input) step ∙ c.input;
      total = ap (λ (q : Consumed). q.local_sum) step ∙ c.total;
    }

-- A consumer that reads as many values as a producer has sent, and what it has sent, ends with the
-- producer's sum and leaves nothing unread, however the calls split the bytes and are interrupted.
-- No call fails, and the kernel moves bytes often enough on both sides.
pub consume-produce :
    (rand : ℕ → ℕ) (n : ℕ) (kernel kernel' : List Event) (value : List ℕ)
    → length value ≡ 4
    → NoFailure kernel
    → NoFailure kernel'
    → 4 * n ≤ chunks kernel
    → 4 * n ≤ chunks kernel'
    → (let p = produce rand n kernel 0 [] in
        let c = consume n kernel' 0 p.out value in
        (p.status ≡ returned)
        × (c.status ≡ returned)
        × (c.local_sum ≡ p.local_sum)
        × (c.input ≡ []))
consume-produce rand n kernel kernel' value size ok ok' enough enough' =
    let p = produce-IsProduced rand n kernel 0 [] ok enough in
    let c = consume-IsConsumed rand n kernel' 0 [] value size ok' enough' in
    let same =
      ap (λ i. consume n kernel' 0 i value) (p.sent ∙ sym (append-nil (messages rand n))) in
    (
      p.done,
      ap (λ (q : Consumed). q.status) same ∙ c.done,
      ap (λ (q : Consumed). q.local_sum) same ∙ c.total ∙ sym p.total,
      ap (λ (q : Consumed). q.input) same ∙ c.input,
    )
