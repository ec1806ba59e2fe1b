-- ===== src/ProdCons/Counts.antt =====
-- The semaphores of producer_consumer_n_m.c count what the threads hold.
use esercitazioni_sistemi_di.Base.{ℕ, ◌+◌, ◌-◌, ◌≡◌, Bool, some, List, arith, get_elem?, set}
use esercitazioni_sistemi_di.Base.Threads.{total, total-set}
use esercitazioni_sistemi_di.ProdCons.{
  Memory, ProducerPc, Producer, ConsumerPc, Consumer, producer_at, consumer_at,
}

-- the producers between `sem_wait(write_s)` and `sem_post(write_s)`
abbrev pub producer_inside : Producer → ℕ
producer_inside p = elim p.pc [
  | ProducerPc.store _ ↦ 1
  | ProducerPc.load_index _ ↦ 1
  | ProducerPc.save_index _ _ ↦ 1
  | ProducerPc.post_write ↦ 1
  | _ ↦ 0
]

-- a free slot that a producer has taken and not filled yet
abbrev pub producer_claims : Producer → ℕ
producer_claims p = elim p.pc [
  | ProducerPc.wait_write _ ↦ 1
  | ProducerPc.store _ ↦ 1
  | ProducerPc.load_index _ ↦ 1
  | ProducerPc.save_index _ _ ↦ 1
  | _ ↦ 0
]

-- a filled slot that its producer has not announced yet
abbrev pub producer_owes : Producer → ℕ
producer_owes p = elim p.pc [ ProducerPc.post_write ↦ 1 | ProducerPc.post_n ↦ 1 | _ ↦ 0 ]

abbrev pub consumer_inside : Consumer → ℕ
consumer_inside c = elim c.pc [
  | ConsumerPc.load_deposit ↦ 1
  | ConsumerPc.save_deposit _ ↦ 1
  | ConsumerPc.load_index ↦ 1
  | ConsumerPc.save_index _ ↦ 1
  | ConsumerPc.post_read ↦ 1
  | _ ↦ 0
]

abbrev pub consumer_claims : Consumer → ℕ
consumer_claims c = elim c.pc [
  | ConsumerPc.wait_read ↦ 1
  | ConsumerPc.load_deposit ↦ 1
  | ConsumerPc.save_deposit _ ↦ 1
  | ConsumerPc.load_index ↦ 1
  | ConsumerPc.save_index _ ↦ 1
  | _ ↦ 0
]

abbrev pub consumer_owes : Consumer → ℕ
consumer_owes c = elim c.pc [ ConsumerPc.post_read ↦ 1 | ConsumerPc.post_e ↦ 1 | _ ↦ 0 ]

-- the consumers that have added the oldest value to `deposit` and not moved `read_index` yet
abbrev pub consumer_added : Consumer → ℕ
consumer_added c = elim c.pc [ ConsumerPc.load_index ↦ 1 | ConsumerPc.save_index _ ↦ 1 | _ ↦ 0 ]

-- `len` values stand in the buffer.
pub record Counts (m : Memory) (ps : List Producer) (cs : List Consumer) (len : ℕ) : Type 0 where
  pub write_mutex : m.write_s + total producer_inside ps ≡ 1
  pub read_mutex : m.read_s + total consumer_inside cs ≡ 1
  pub free : m.e + total producer_claims ps + len + total consumer_owes cs ≡ 128
  pub full : m.n + total consumer_claims cs + total producer_owes ps ≡ len

-- how many values a producer at this point adds to the buffer by its step
abbrev pub puts : ProducerPc → ℕ
puts (ProducerPc.save_index _ _) = 1
puts _ = 0

abbrev pub gets : ConsumerPc → ℕ
gets (ConsumerPc.save_index _) = 1
gets _ = 0

module _ {m : Memory} {ps : List Producer} {cs : List Consumer} {len : ℕ}
    (k : Counts m ps cs len) where
  pub producer_at-Counts :
      (i : ℕ) (pc : ProducerPc) (ops : ℕ) (ok : Bool) {m' : Memory} {p' : Producer}
      → get_elem? ps i ≡ some (record { pc = pc; num_ops = ops })
      → producer_at pc ops ok m ≡ some (m', p')
      → Counts m' (set ps i p') cs (len + puts pc)
  unfolding producer_at
  producer_at-Counts i ProducerPc.head ops ok {p' = p'} h e =
      let p : Producer = record { pc = ProducerPc.head; num_ops = ops } in
      ground (
        arith,
        total-set producer_inside ps i p p' h,
        total-set producer_claims ps i p p' h,
        total-set producer_owes ps i p p' h,
      )
  producer_at-Counts i pc ops ok {p' = p'} h e =
      let p : Producer = record { pc = pc; num_ops = ops } in
      ground (
        arith,
        total-set producer_inside ps i p p' h,
        total-set producer_claims ps i p p' h,
        total-set producer_owes ps i p p' h,
      )

  pub consumer_at-Counts :
      (i : ℕ) (pc : ConsumerPc) (ops : ℕ) (ok : Bool) {m' : Memory} {c' : Consumer}
      → get_elem? cs i ≡ some (record { pc = pc; num_ops = ops })
      → consumer_at pc ops ok m ≡ some (m', c')
      → Counts m' ps (set cs i c') (len - gets pc)
  unfolding consumer_at
  consumer_at-Counts i ConsumerPc.head ops ok {c' = c'} h e =
      let c : Consumer = record { pc = ConsumerPc.head; num_ops = ops } in
      ground (
        arith,
        total-set consumer_inside cs i c c' h,
        total-set consumer_claims cs i c c' h,
        total-set consumer_owes cs i c c' h,
      )
  consumer_at-Counts i pc ops ok {c' = c'} h e =
      let c : Consumer = record { pc = pc; num_ops = ops } in
      ground (
        arith,
        total-set consumer_inside cs i c c' h,
        total-set consumer_claims cs i c c' h,
        total-set consumer_owes cs i c c' h,
      )
