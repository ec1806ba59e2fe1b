-- ===== src/SingleMutex/Runs.antt =====
-- The values that go through the buffer in a run, the invariant of all runs, and what the threads of
-- the program with the mutex `s` still have to do.
use esercitazioni_sistemi_di.Base.{
  ℕ, ◌+◌, ◌<◌, ◌≡◌, refl, sym, ap, subst, ◌∙◌, Bool, false, Option, none, some, List, [], ◌∷◌, ◌++◌,
  arith, append_assoc, get_elem?, set, if◌then◌else◌, length, length-append, ℕ_discrete,
}
use esercitazioni_sistemi_di.Base.Int.{ℤ, pos}
use esercitazioni_sistemi_di.Base.Threads.{total, total-set, get_elem?-set, get_elem?-set_eq}
use esercitazioni_sistemi_di.ProdCons.{ProducerPc, Producer, ConsumerPc, Consumer}
use esercitazioni_sistemi_di.ProdCons.Buffer.{put_by}
use esercitazioni_sistemi_di.ProdCons.History.{put_by_thread}
use esercitazioni_sistemi_di.ProdCons.Work.{ConsumerWork, to_put, to_take}
use esercitazioni_sistemi_di.SingleMutex.{
  Memory, Process, Pick, producer, consumer, producer_with_s, consumer_with_s, turn,
}
use esercitazioni_sistemi_di.SingleMutex.Simulation.{
  SharedInv, got_with_s, producer_with_s-Inv, consumer_with_s-Inv,
}

-- What is true of a producer alone: it has operations left inside its loop and none after it.
abbrev pub ProducerBusy : Producer → Type 0
ProducerBusy p = elim p.pc [
  | ProducerPc.head ↦ Unit {0}
  | ProducerPc.stopped ↦ p.num_ops ≡ 0
  | _ ↦ 0 < p.num_ops
]

-- `put` has been put in the buffer in all and `taken` out of it; `total_put` and `total_taken` are
-- the numbers of values for all threads together.
pub record Going (total_put total_taken : ℕ) (s : Process) (put taken : List ℤ) : Type 0 where
  pub rest : List ℤ
  pub order : put ≡ taken ++ rest
  pub inv : SharedInv (pos 0) s.mem s.producers s.consumers taken rest
  pub producers_busy : (i : ℕ) (p : Producer) → get_elem? s.producers i ≡ some p → ProducerBusy p
  pub consumers_busy : (i : ℕ) (c : Consumer) → get_elem? s.consumers i ≡ some c → ConsumerWork c
  pub left_to_put : total to_put s.producers + length put ≡ total_put
  pub left_to_take : total to_take s.consumers + length taken ≡ total_taken

module _ (ops : ℕ) (ok : Bool) (m : Memory) {m' : Memory} where
  pub producer_with_s-Busy :
      (rand : ℕ) (pc : ProducerPc) {p' : Producer}
      → ProducerBusy (record { pc = pc; num_ops = ops })
      → producer_with_s rand pc ops ok m ≡ some (m', p')
      → ProducerBusy p'
        × (to_put p' + length (put_by pc) ≡ to_put (record { pc = pc; num_ops = ops }))
  unfolding producer_with_s
  producer_with_s-Busy rand ProducerPc.head w e = ground arith
  producer_with_s-Busy rand pc w e = ground arith

  consumer_with_s-Work :
      (pc : ConsumerPc) {c' : Consumer}
      → ConsumerWork (record { pc = pc; num_ops = ops })
      → consumer_with_s pc ops ok m ≡ some (m', c')
      → ConsumerWork c'
        × (to_take c' + length (got_with_s m pc) ≡ to_take (record { pc = pc; num_ops = ops }))
  unfolding consumer_with_s
  consumer_with_s-Work ConsumerPc.head w e = ground arith
  consumer_with_s-Work pc w e = ground arith

pub exit-puts :
    (rand : ℕ) (pc : ProducerPc) (ops : ℕ) (ok : Bool) (m : Memory)
    → producer_with_s rand pc ops ok m ≡ none
    → put_by pc ≡ []
unfolding producer_with_s
exit-puts rand ProducerPc.head ops ok m e = refl
exit-puts rand pc ops ok m e = ground arith

pub exit-gets :
    (pc : ConsumerPc) (ops : ℕ) (ok : Bool) (m : Memory)
    → consumer_with_s pc ops ok m ≡ none
    → got_with_s m pc ≡ []
unfolding consumer_with_s
exit-gets ConsumerPc.head ops ok m e = refl
exit-gets pc ops ok m e = ground arith

abbrev pub got_by_thread : Memory → Option Consumer → List ℤ
got_by_thread m none = []
got_by_thread m (some c) = got_with_s m c.pc

-- The value that a turn puts in the buffer, and the one that it takes out of it.
abbrev pub put_in : Process → Pick → List ℤ
put_in s (producer i ok rand) = if s.running then put_by_thread (get_elem? s.producers i) else []
put_in s (consumer i ok) = []

abbrev pub taken_in : Process → Pick → List ℤ
taken_in s (producer i ok rand) = []
taken_in s (consumer i ok) = if s.running then got_by_thread s.mem (get_elem? s.consumers i) else []

-- All values put in the buffer and taken out of it over a run, in order.
unfoldable pub all_put : Process → List Pick → List ℤ
unfolding turn
all_put s [] = []
all_put s (t ∷ ts) = put_in s t ++ all_put (turn s t) ts

unfoldable pub all_taken : Process → List Pick → List ℤ
unfolding turn
all_taken s [] = []
all_taken s (t ∷ ts) = taken_in s t ++ all_taken (turn s t) ts

module _ {tp tt : ℕ} {s : Process} {put taken : List ℤ} (g : Going tp tt s put taken) where
  pub exits : Going tp tt (record s { running = false }) put taken
  exits = record {
    rest = g.rest;
    order = g.order;
    inv = g.inv;
    producers_busy = g.producers_busy;
    consumers_busy = g.consumers_busy;
    left_to_put = g.left_to_put;
    left_to_take = g.left_to_take;
  }

  pub producer_moves :
      (rand i : ℕ) (p : Producer) (ok : Bool) (m' : Memory) (p' : Producer)
      → get_elem? s.producers i ≡ some p
      → producer_with_s rand p.pc p.num_ops ok s.mem ≡ some (m', p')
      → Going tp tt
          (record s { mem = m'; producers = set s.producers i p' })
          (put ++ put_by p.pc)
          taken
  producer_moves rand i p ok m' p' h e =
      let (new, fewer) =
        producer_with_s-Busy p.num_ops ok s.mem rand p.pc (g.producers_busy i p h) e in
      record {
        rest = g.rest ++ put_by p.pc;
        order = ap (λ l. l ++ put_by p.pc) g.order ∙ append_assoc taken g.rest (put_by p.pc);
        inv = producer_with_s-Inv g.inv rand i p ok h e;
        producers_busy = λ j q k. elim (ℕ_discrete i j) [
          | yes same ↦ subst ProducerBusy (sym (get_elem?-set_eq s.producers i j p' q k same)) new
          | no ne ↦ g.producers_busy j q (get_elem?-set s.producers i j p' q k ne)
        ];
        consumers_busy = g.consumers_busy;
        left_to_put = omega (
          arith,
          total-set to_put s.producers i p p' h,
          fewer,
          g.left_to_put,
          length-append put (put_by p.pc),
        );
        left_to_take = g.left_to_take;
      }

  pub consumer_moves :
      (i : ℕ) (c : Consumer) (ok : Bool) (m' : Memory) (c' : Consumer)
      → get_elem? s.consumers i ≡ some c
      → consumer_with_s c.pc c.num_ops ok s.mem ≡ some (m', c')
      → Going tp tt
          (record s { mem = m'; consumers = set s.consumers i c' })
          put
          (taken ++ got_with_s s.mem c.pc)
  consumer_moves i c ok m' c' h e =
      let (new, fewer) = consumer_with_s-Work c.num_ops ok s.mem c.pc (g.consumers_busy i c h) e in
      let (rest, split, after) = consumer_with_s-Inv g.inv i c ok h e in
      let got = got_with_s s.mem c.pc in
      record {
        rest = rest;
        order = g.order ∙ ap (λ l. taken ++ l) split ∙ sym (append_assoc taken got rest);
        inv = after;
        producers_busy = g.producers_busy;
        consumers_busy = λ j q k. elim (ℕ_discrete i j) [
          | yes same ↦ subst ConsumerWork (sym (get_elem?-set_eq s.consumers i j c' q k same)) new
          | no ne ↦ g.consumers_busy j q (get_elem?-set s.consumers i j c' q k ne)
        ];
        left_to_put = g.left_to_put;
        left_to_take = omega (
          arith,
          total-set to_take s.consumers i c c' h,
          fewer,
          g.left_to_take,
          length-append taken got,
        );
      }
