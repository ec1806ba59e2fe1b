-- ===== src/SingleMutex/Simulation.antt =====
-- A step of the program with the mutex `s` is a step of the one with `write_s` and `read_s`, or none.
use esercitazioni_sistemi_di.Base.{
  ℕ, ◌+◌, ◌-◌, ◌≤◌, ◌≡◌, refl, sym, ap, subst, subst₂, ◌∙◌, Bool, some, List, [], ◌++◌, arith,
  append-nil, get_elem?, set, take, ℕ_discrete, inl, inr, ◌⊎◌,
}
use esercitazioni_sistemi_di.Base.Int.{ℤ, ◌+ℤ◌, sum}
use esercitazioni_sistemi_di.Base.Threads.{total, total-set, get_elem?-set, get_elem?-set_eq}
use esercitazioni_sistemi_di.ProdCons
use esercitazioni_sistemi_di.ProdCons.{
  ProducerPc, Producer, ConsumerPc, Consumer, producer_at, consumer_at,
}
use esercitazioni_sistemi_di.ProdCons.Counts.{
  producer_inside, producer_claims, producer_owes, consumer_inside, consumer_claims, consumer_owes,
  consumer_added,
}
use esercitazioni_sistemi_di.ProdCons.Buffer.{ProducerFresh, ConsumerFresh, put_by, got_by}
use esercitazioni_sistemi_di.ProdCons.Inv.{Inv, producer_at-Inv, consumer_at-Inv}
use esercitazioni_sistemi_di.SingleMutex.{Memory, producer_with_s, consumer_with_s}

-- The memory of the program with two mutexes.
abbrev pub with_two : Memory → ℕ → ℕ → ProdCons.Memory
with_two m w r = record {
  write_s = w;
  read_s = r;
  n = m.n;
  e = m.e;
  transactions = m.transactions;
  deposit = m.deposit;
  read_index = m.read_index;
  write_index = m.write_index;
  printed = m.printed;
}

-- A producer that holds before and after the same changes nothing.
quiet_producer :
    {d0 : ℤ} {m : ProdCons.Memory} {ps : List Producer} {cs : List Consumer} {taken queue : List ℤ}
    → Inv d0 m ps cs taken queue
    → (i : ℕ) (p p' : Producer) → get_elem? ps i ≡ some p
    → producer_inside p' ≡ producer_inside p
    → producer_claims p' ≡ producer_claims p
    → producer_owes p' ≡ producer_owes p
    → ProducerFresh m p'.pc
    → Inv d0 m (set ps i p') cs taken queue
quiet_producer {m = m} {ps = ps} v i p p' h a b c f = record {
  counts = record {
    write_mutex = omega (arith, v.counts.write_mutex, total-set producer_inside ps i p p' h);
    read_mutex = v.counts.read_mutex;
    free = omega (arith, v.counts.free, total-set producer_claims ps i p p' h);
    full = omega (arith, v.counts.full, total-set producer_owes ps i p p' h);
  };
  holds = v.holds;
  producers_fresh = λ j q g. elim (ℕ_discrete i j) [
    | yes same ↦ subst (λ x. ProducerFresh m x.pc) (sym (get_elem?-set_eq ps i j p' q g same)) f
    | no ne ↦ v.producers_fresh j q (get_elem?-set ps i j p' q g ne)
  ];
  consumers_fresh = v.consumers_fresh;
  balance = v.balance;
}

quiet_consumer :
    {d0 : ℤ} {m : ProdCons.Memory} {ps : List Producer} {cs : List Consumer} {taken queue : List ℤ}
    → Inv d0 m ps cs taken queue
    → (i : ℕ) (c c' : Consumer) → get_elem? cs i ≡ some c
    → consumer_inside c' ≡ consumer_inside c
    → consumer_claims c' ≡ consumer_claims c
    → consumer_owes c' ≡ consumer_owes c
    → consumer_added c' ≡ consumer_added c
    → ConsumerFresh m c'.pc
    → Inv d0 m ps (set cs i c') taken queue
quiet_consumer {d0} {m} {ps} {cs} {taken} {queue} v i c c' h a b d k f = record {
  counts = record {
    write_mutex = v.counts.write_mutex;
    read_mutex = omega (arith, v.counts.read_mutex, total-set consumer_inside cs i c c' h);
    free = omega (arith, v.counts.free, total-set consumer_owes cs i c c' h);
    full = omega (arith, v.counts.full, total-set consumer_claims cs i c c' h);
  };
  holds = v.holds;
  producers_fresh = v.producers_fresh;
  consumers_fresh = λ j q g. elim (ℕ_discrete i j) [
    | yes same ↦ subst (λ x. ConsumerFresh m x.pc) (sym (get_elem?-set_eq cs i j c' q g same)) f
    | no ne ↦ v.consumers_fresh j q (get_elem?-set cs i j c' q g ne)
  ];
  balance = v.balance ∙ ap (λ t. d0 +ℤ sum taken +ℤ sum (take t queue)) same_added;
}
  where
    same_added : total consumer_added cs ≡ total consumer_added (set cs i c')
    same_added = omega (arith, total-set consumer_added cs i c c' h)

-- What a step does, seen by the program with two mutexes: the same, or nothing. Of the two mutexes
-- at most one is taken, and then `s` is.
module _ (ops : ℕ) (ok : Bool) (m : Memory) (w r : ℕ) {m' : Memory} (split : w + r ≡ 1 + m.s)
    (w_le : w ≤ 1) (r_le : r ≤ 1) where
  producer_same :
      (rand : ℕ) (pc : ProducerPc) {p' : Producer}
      → producer_with_s rand pc ops ok m ≡ some (m', p')
      → ((w' : ℕ) × (w' + r ≡ 1 + m'.s)
          × (producer_at pc ops ok (with_two m w r) ≡ some (with_two m' w' r, p')))
        ⊎ ((m' ≡ m)
            × (put_by pc ≡ [])
            × ProducerFresh (with_two m w r) p'.pc
            × (producer_inside p' ≡ producer_inside (record { pc = pc; num_ops = ops }))
            × (producer_claims p' ≡ producer_claims (record { pc = pc; num_ops = ops }))
            × (producer_owes p' ≡ producer_owes (record { pc = pc; num_ops = ops })))
  unfolding producer_with_s producer_at
  producer_same rand ProducerPc.head e = inr (ground arith)
  producer_same rand (ProducerPc.wait_write v) e = elim (ℕ_discrete m.s 0) [
    | yes taken ↦ inr (ground arith)
    | no free ↦ inl (w - 1, ground arith, ground arith)
  ]
  producer_same rand ProducerPc.post_write e = inl (w + 1, ground arith, ground arith)
  producer_same rand pc e = inl (w, ground arith, ground arith)

  consumer_same :
      (pc : ConsumerPc) {c' : Consumer}
      → consumer_with_s pc ops ok m ≡ some (m', c')
      → ((r' : ℕ) × (w + r' ≡ 1 + m'.s)
          × (consumer_at pc ops ok (with_two m w r) ≡ some (with_two m' w r', c')))
        ⊎ ((m' ≡ m)
            × (got_by (with_two m w r) pc ≡ [])
            × ConsumerFresh (with_two m w r) c'.pc
            × (consumer_inside c' ≡ consumer_inside (record { pc = pc; num_ops = ops }))
            × (consumer_claims c' ≡ consumer_claims (record { pc = pc; num_ops = ops }))
            × (consumer_owes c' ≡ consumer_owes (record { pc = pc; num_ops = ops }))
            × (consumer_added c' ≡ consumer_added (record { pc = pc; num_ops = ops })))
  unfolding consumer_with_s consumer_at
  consumer_same ConsumerPc.head e = inr (ground arith)
  consumer_same ConsumerPc.wait_read e = elim (ℕ_discrete m.s 0) [
    | yes taken ↦ inr (ground arith)
    | no free ↦ inl (r - 1, ground arith, ground arith)
  ]
  consumer_same ConsumerPc.post_read e = inl (r + 1, ground arith, ground arith)
  consumer_same pc e = inl (r, ground arith, ground arith)

-- the value that a consumer at this point takes out of the buffer by its step
abbrev pub got_with_s : Memory → ConsumerPc → List ℤ
got_with_s m pc = got_by (with_two m 1 1) pc

got_with_two :
    (m : Memory) (w r : ℕ) (pc : ConsumerPc) → got_by (with_two m w r) pc ≡ got_with_s m pc
got_with_two m w r (ConsumerPc.save_index i) = refl
got_with_two m w r pc = refl

-- What holds in every state of the program with the mutex `s`.
pub record SharedInv (d0 : ℤ) (m : Memory) (ps : List Producer) (cs : List Consumer)
    (taken queue : List ℤ) : Type 0 where
  pub w : ℕ
  pub r : ℕ
  pub split : w + r ≡ 1 + m.s
  pub two : Inv d0 (with_two m w r) ps cs taken queue

module _ {d0 : ℤ} {m : Memory} {ps : List Producer} {cs : List Consumer} {taken queue : List ℤ}
    (v : SharedInv d0 m ps cs taken queue) where
  w_le : v.w ≤ 1
  w_le = omega (arith, v.two.counts.write_mutex)

  r_le : v.r ≤ 1
  r_le = omega (arith, v.two.counts.read_mutex)

  pub producer_with_s-Inv :
      (rand i : ℕ) (p : Producer) (ok : Bool) {m' : Memory} {p' : Producer}
      → get_elem? ps i ≡ some p
      → producer_with_s rand p.pc p.num_ops ok m ≡ some (m', p')
      → SharedInv d0 m' (set ps i p') cs taken (queue ++ put_by p.pc)
  producer_with_s-Inv rand i p ok {m'} {p'} h e =
      elim (producer_same p.num_ops ok m v.w v.r v.split w_le r_le rand p.pc e) [
        | inl same ↦ record {
          w = same.0;
          r = v.r;
          split = same.1;
          two = producer_at-Inv v.two i p.pc p.num_ops ok h same.2;
        }
        | inr same ↦
            subst₂ (λ n l. SharedInv d0 n (set ps i p') cs taken l) (sym same.0)
              (sym (append-nil queue) ∙ ap (λ l. queue ++ l) (sym same.1))
              (record {
                w = v.w;
                r = v.r;
                split = v.split;
                two = quiet_producer v.two i p p' h same.3 same.4 same.5 same.2;
              })
      ]

  pub consumer_with_s-Inv :
      (i : ℕ) (c : Consumer) (ok : Bool) {m' : Memory} {c' : Consumer}
      → get_elem? cs i ≡ some c
      → consumer_with_s c.pc c.num_ops ok m ≡ some (m', c')
      → (rest : List ℤ) × (queue ≡ got_with_s m c.pc ++ rest)
        × SharedInv d0 m' ps (set cs i c') (taken ++ got_with_s m c.pc) rest
  consumer_with_s-Inv i c ok {m'} {c'} h e =
      elim (consumer_same c.num_ops ok m v.w v.r v.split w_le r_le c.pc e) [
        | inl same ↦
            let (rest, split, after) = consumer_at-Inv v.two i c.pc c.num_ops ok h same.2 in
            let got = got_with_two m v.w v.r c.pc in
            (
              rest,
              split ∙ ap (λ l. l ++ rest) got,
              record {
                w = v.w;
                r = same.0;
                split = same.1;
                two =
                    subst (λ l. Inv d0 (with_two m' v.w same.0) ps (set cs i c') (taken ++ l) rest)
                      got after;
              },
            )
        | inr same ↦
            let none_got : got_with_s m c.pc ≡ [] = sym (got_with_two m v.w v.r c.pc) ∙ same.1 in
            (
              queue,
              sym (ap (λ l. l ++ queue) none_got),
              subst₂ (λ n l. SharedInv d0 n ps (set cs i c') l queue) (sym same.0)
                  (sym (append-nil taken) ∙ ap (λ l. taken ++ l) (sym none_got))
                  (record {
                    w = v.w;
                    r = v.r;
                    split = v.split;
                    two = quiet_consumer v.two i c c' h same.3 same.4 same.5 same.6 same.2;
                  }),
            )
      ]
