-- ===== src/ProdCons/Inv.antt =====
-- The invariant of producer_consumer_n_m.c, and that every turn of every thread keeps it.
use esercitazioni_sistemi_di.Base.{
  ℕ, ◌+◌, ◌≤◌, ◌≡◌, refl, ◌≢◌, Bool, some, List, [], ◌∷◌, ◌++◌, arith, get_elem?, set, length, take,
  length-append, take-append_of_le, append-nil, ℕ_discrete, subst, ap, sym, ◌∙◌,
}
use esercitazioni_sistemi_di.Base.Int.{ℤ, ◌+ℤ◌, sum, sum-append, int_laws}
use esercitazioni_sistemi_di.Base.Threads.{
  total, total-set, total-add-le, weight-le-total, weights-le-total, get_elem?-set,
  get_elem?-set_eq,
}
use esercitazioni_sistemi_di.ProdCons.{
  Memory, ProducerPc, Producer, ConsumerPc, Consumer, producer_at, consumer_at,
}
use esercitazioni_sistemi_di.ProdCons.Counts.{
  Counts, producer_inside, producer_claims, consumer_inside, consumer_claims, consumer_added, puts,
  gets, producer_at-Counts, consumer_at-Counts,
}
use esercitazioni_sistemi_di.ProdCons.Buffer.{
  Holds, ProducerFresh, ConsumerFresh, put_by, got_by, slot, producer_at-own, producer_at-other,
  producer_at-consumer, producer_at-Holds, consumer_at-own, consumer_at-other, consumer_at-producer,
  consumer_at-Holds,
}

-- `taken` has left the buffer, `queue` stands in it.
pub record Inv (d0 : ℤ) (m : Memory) (ps : List Producer) (cs : List Consumer)
    (taken queue : List ℤ) : Type 0 where
  pub counts : Counts m ps cs (length queue)
  pub holds : Holds m queue
  pub producers_fresh : (i : ℕ) (p : Producer) → get_elem? ps i ≡ some p → ProducerFresh m p.pc
  pub consumers_fresh : (i : ℕ) (c : Consumer) → get_elem? cs i ≡ some c → ConsumerFresh m c.pc
  pub balance : m.deposit ≡ d0 +ℤ sum taken +ℤ sum (take (total consumer_added cs) queue)

-- the consumers inside that have not updated `deposit` yet
abbrev consumer_before : Consumer → ℕ
consumer_before c = elim c.pc [
  | ConsumerPc.load_deposit ↦ 1
  | ConsumerPc.save_deposit _ ↦ 1
  | _ ↦ 0
]

added-before-le :
    (cs : List Consumer)
    → total consumer_added cs + total consumer_before cs ≤ total consumer_inside cs
added-before-le = total-add-le consumer_added consumer_before consumer_inside (λ c. ground arith)

-- A consumer that has added the value is inside.
pub added-le-inside : (cs : List Consumer) → total consumer_added cs ≤ total consumer_inside cs
added-le-inside cs = omega (arith, added-before-le cs)

added-le-claims : (cs : List Consumer) → total consumer_added cs ≤ total consumer_claims cs
added-le-claims cs =
    omega (arith, total-add-le consumer_added (λ c. 0) consumer_claims (λ c. ground arith) cs)

length-puts : (pc : ProducerPc) → length (put_by pc) ≡ puts pc
length-puts ProducerPc.head = refl
length-puts pc = refl

deposit-producer_at :
    (pc : ProducerPc) (ops : ℕ) (ok : Bool) (m : Memory) {m' : Memory} {p' : Producer}
    → producer_at pc ops ok m ≡ some (m', p')
    → m'.deposit ≡ m.deposit
unfolding producer_at
deposit-producer_at ProducerPc.head ops ok m e = ground arith
deposit-producer_at pc ops ok m e = ground arith

length-gets : (m : Memory) (pc : ConsumerPc) → length (got_by m pc) ≡ gets pc
length-gets m ConsumerPc.head = refl
length-gets m pc = refl

-- the consumers that a step adds to those that have added the oldest value
abbrev adds : ConsumerPc → ℕ
adds (ConsumerPc.save_deposit _) = 1
adds _ = 0

added-consumer_at :
    (pc : ConsumerPc) (ops : ℕ) (ok : Bool) (m : Memory) {m' : Memory} {c' : Consumer}
    → consumer_at pc ops ok m ≡ some (m', c')
    → consumer_added c' + gets pc ≡ consumer_added (record { pc = pc; num_ops = ops }) + adds pc
unfolding consumer_at
added-consumer_at ConsumerPc.head ops ok m e = ground arith
added-consumer_at pc ops ok m e = ground arith

module _ (d0 : ℤ) (taken queue : List ℤ) (x d : ℤ) where
  balance-add :
      d ≡ d0 +ℤ sum taken +ℤ sum (take 0 (x ∷ queue))
      → d +ℤ x ≡ d0 +ℤ sum taken +ℤ sum (take 1 (x ∷ queue))
  unfolding sum
  balance-add h = rw h (omega int_laws)

  balance-move :
      d ≡ d0 +ℤ sum taken +ℤ sum (take 1 (x ∷ queue))
      → d ≡ d0 +ℤ sum (taken ++ x ∷ []) +ℤ sum (take 0 queue)
  unfolding sum
  balance-move h = rw (h, sum-append) (omega int_laws)

-- Adding what stands at `read_index` adds the oldest value.
balance-read :
    (d0 : ℤ) (m : Memory) (taken queue : List ℤ)
    → Holds m queue
    → 1 ≤ length queue
    → m.deposit ≡ d0 +ℤ sum taken +ℤ sum (take 0 queue)
    → m.deposit +ℤ slot m m.read_index ≡ d0 +ℤ sum taken +ℤ sum (take 1 queue)
balance-read d0 m taken [] h b e = absurd (omega arith)
balance-read d0 m taken (x ∷ queue) h b e =
    subst (λ y. m.deposit +ℤ y ≡ d0 +ℤ sum taken +ℤ sum (take 1 (x ∷ queue)))
      (sym (h.slots 0 (omega arith)) ∙ ap (slot m) (omega (arith, h.read_in)))
      (balance-add d0 taken queue x m.deposit e)

module _ {d0 : ℤ} {m : Memory} {ps : List Producer} {cs : List Consumer} {taken queue : List ℤ}
    (v : Inv d0 m ps cs taken queue) where
  open v use {counts, holds, producers_fresh, consumers_fresh, balance}

  -- While a producer has a slot and a consumer a value, they are at different slots.
  apart : 1 ≤ total producer_claims ps → 1 ≤ total consumer_claims cs → m.write_index ≢ m.read_index
  apart a b = omega (arith, holds.write_at, holds.read_in)

  pub producer_at-Inv :
      (i : ℕ) (pc : ProducerPc) (ops : ℕ) (ok : Bool) {m' : Memory} {p' : Producer}
      → get_elem? ps i ≡ some (record { pc = pc; num_ops = ops })
      → producer_at pc ops ok m ≡ some (m', p')
      → Inv d0 m' (set ps i p') cs taken (queue ++ put_by pc)
  producer_at-Inv i pc ops ok {m'} {p'} h e = record {
    counts =
        subst (λ n. Counts m' (set ps i p') cs n)
          (omega (arith, length-append queue (put_by pc), length-puts pc))
          (producer_at-Counts counts i pc ops ok h e);
    holds =
        producer_at-Holds ops ok m pc queue
          (omega (arith, weight-le-total producer_claims ps i mover h)) holds own e;
    producers_fresh = λ j q g. elim (ℕ_discrete i j) [
      | yes same ↦
          subst (λ x. ProducerFresh m' x.pc) (sym (get_elem?-set_eq ps i j p' q g same))
            (producer_at-own ops ok m pc (omega (arith, holds.size, holds.write_at)) own e)
      | no ne ↦
          let old : get_elem? ps j ≡ some q = get_elem?-set ps i j p' q g ne in
          producer_at-other ops ok m pc q.pc q.num_ops
            (omega (arith, weights-le-total producer_inside ps i j mover q ne h old))
            (producers_fresh j q old) e
    ];
    consumers_fresh = λ j c g.
        producer_at-consumer ops ok m pc c.pc c.num_ops
          (λ a b.
            apart (omega (arith, weight-le-total producer_claims ps i mover h))
              (omega (arith, weight-le-total consumer_claims cs j c g)))
          (consumers_fresh j c g) e;
    balance =
        deposit-producer_at pc ops ok m e
        ∙ balance
        ∙ ap (λ l. d0 +ℤ sum taken +ℤ sum l)
            (sym (
              take-append_of_le (total consumer_added cs) queue (put_by pc)
                (omega (arith, added-le-claims cs))));
  }
    where
      mover : Producer
      mover = record { pc = pc; num_ops = ops }

      own : ProducerFresh m pc
      own = producers_fresh i mover h

  balance-same :
      (m' : Memory) (rest : List ℤ) (k : ℕ)
      → queue ≡ rest
      → k ≡ total consumer_added cs
      → m'.deposit ≡ m.deposit
      → m'.deposit ≡ d0 +ℤ sum (taken ++ []) +ℤ sum (take k rest)
  balance-same m' rest k split a e = rw (append-nil, a, ← split) (e ∙ balance)

  -- The deposit, at each point of the consumer that moves.
  balance-consumer_at :
      (i : ℕ) (pc : ConsumerPc) (ops : ℕ) (ok : Bool) {m' : Memory} {c' : Consumer} (rest : List ℤ)
      → get_elem? cs i ≡ some (record { pc = pc; num_ops = ops })
      → consumer_at pc ops ok m ≡ some (m', c')
      → queue ≡ got_by m pc ++ rest
      → total consumer_added (set cs i c') + gets pc ≡ total consumer_added cs + adds pc
      → m'.deposit
        ≡ d0 +ℤ sum (taken ++ got_by m pc) +ℤ sum (take (total consumer_added (set cs i c')) rest)
  unfolding consumer_at
  balance-consumer_at i ConsumerPc.head ops ok {m'} rest h e split a =
      balance-same m' rest _ split (omega arith) (ground arith)
  balance-consumer_at i (ConsumerPc.save_deposit d) ops ok {m'} {c'} rest h e split a =
      rw (append-nil, one, ← split)
        (ground
          (arith, consumers_fresh i mover h, balance-read d0 m taken queue holds some_left before))
    where
      mover : Consumer
      mover = record { pc = ConsumerPc.save_deposit d; num_ops = ops }

      none_added : total consumer_added cs ≡ 0
      none_added = omega (arith, added-before-le cs, weight-le-total consumer_before cs i mover h)

      one : total consumer_added (set cs i c') ≡ 1
      one = omega (arith, none_added)

      some_left : 1 ≤ length queue
      some_left = omega (arith, weight-le-total consumer_claims cs i mover h)

      before : m.deposit ≡ d0 +ℤ sum taken +ℤ sum (take 0 queue)
      before = subst (λ k. m.deposit ≡ d0 +ℤ sum taken +ℤ sum (take k queue)) none_added balance
  balance-consumer_at i (ConsumerPc.save_index r) ops ok {m'} {c'} rest h e split a =
      rw zero_left
        (balance-move d0 taken rest (slot m m.read_index) m'.deposit ((ground arith) ∙ before))
    where
      mover : Consumer
      mover = record { pc = ConsumerPc.save_index r; num_ops = ops }

      one : total consumer_added cs ≡ 1
      one = omega (arith, added-before-le cs, weight-le-total consumer_added cs i mover h)

      zero_left : total consumer_added (set cs i c') ≡ 0
      zero_left = omega (arith, one)

      before : m.deposit ≡ d0 +ℤ sum taken +ℤ sum (take 1 (slot m m.read_index ∷ rest))
      before =
          subst (λ l. m.deposit ≡ d0 +ℤ sum taken +ℤ sum (take 1 l)) split
            (subst (λ k. m.deposit ≡ d0 +ℤ sum taken +ℤ sum (take k queue)) one balance)
  balance-consumer_at i pc ops ok {m'} rest h e split a =
      balance-same m' rest _ split (omega arith) (ground arith)

  module _ (i : ℕ) (pc : ConsumerPc) (ops : ℕ) (ok : Bool) {m' : Memory} {c' : Consumer}
      (h : get_elem? cs i ≡ some (record { pc = pc; num_ops = ops }))
      (e : consumer_at pc ops ok m ≡ some (m', c')) where
    abbrev mover : Consumer
    mover = record { pc = pc; num_ops = ops }

    own : ConsumerFresh m pc
    own = consumers_fresh i mover h

    consumer_at-rest :
        (rest : List ℤ)
        → queue ≡ got_by m pc ++ rest
        → Holds m' rest
        → Inv d0 m' ps (set cs i c') (taken ++ got_by m pc) rest
    consumer_at-rest rest split held = record {
      counts =
          subst (λ n. Counts m' ps (set cs i c') n)
            (omega (arith, ap length split, length-append (got_by m pc) rest, length-gets m pc))
            (consumer_at-Counts counts i pc ops ok h e);
      holds = held;
      producers_fresh = λ j p g. consumer_at-producer ops ok m pc p.pc (producers_fresh j p g) e;
      consumers_fresh = λ j q g. elim (ℕ_discrete i j) [
        | yes same ↦
            subst (λ x. ConsumerFresh m' x.pc) (sym (get_elem?-set_eq cs i j c' q g same))
              (consumer_at-own ops ok m pc own e)
        | no ne ↦
            let old : get_elem? cs j ≡ some q = get_elem?-set cs i j c' q g ne in
            consumer_at-other ops ok m pc q.pc q.num_ops
              (omega (arith, weights-le-total consumer_inside cs i j mover q ne h old))
              (consumers_fresh j q old) e
      ];
      balance = balance-consumer_at i pc ops ok rest h e split (
          omega (arith, added-consumer_at pc ops ok m e, total-set consumer_added cs i mover c' h));
    }

    pub consumer_at-Inv :
        (rest : List ℤ) × (queue ≡ got_by m pc ++ rest)
        × Inv d0 m' ps (set cs i c') (taken ++ got_by m pc) rest
    consumer_at-Inv =
        let (rest, split, held) =
          consumer_at-Holds ops ok m pc queue
            (omega (arith, weight-le-total consumer_claims cs i mover h)) holds own e in
        (rest, split, consumer_at-rest rest split held)
