-- ===== src/SharedRing/Counts.antt =====
-- The semaphores of Lab05/src/02 count what the processes hold, and the indices what they have moved.
use esercitazioni_sistemi_di.Base.{ℕ, ◌+◌, ◌%◌, ◌≤◌, ◌≡◌, List, [], ◌∷◌, length, arith, get_or, ◌⊎◌}
use esercitazioni_sistemi_di.Base.Int.{ℤ, pos}
use esercitazioni_sistemi_di.SharedRing.{
  SharedMemory, ProducePc, Producing, ConsumePc, Consuming, produce_at, consume_at,
}

-- between the wait and the post of the producers' section
abbrev pub p_inside : Producing → ℕ
p_inside p = elim p.pc [
  | ProducePc.store _ ↦ 1
  | ProducePc.load_index _ ↦ 1
  | ProducePc.save_index _ _ ↦ 1
  | ProducePc.post_cs _ ↦ 1
  | _ ↦ 0
]

-- a free slot taken, and not filled yet
abbrev pub p_claims : Producing → ℕ
p_claims p = elim p.pc [ ProducePc.wait_cs _ ↦ 1 | ProducePc.store _ ↦ 1 | _ ↦ 0 ]

-- a slot filled, before the index has moved
abbrev pub p_pending : Producing → ℕ
p_pending p = elim p.pc [ ProducePc.load_index _ ↦ 1 | ProducePc.save_index _ _ ↦ 1 | _ ↦ 0 ]

-- a slot filled, and not announced yet
abbrev pub p_owes : Producing → ℕ
p_owes p = elim p.pc [
  | ProducePc.load_index _ ↦ 1
  | ProducePc.save_index _ _ ↦ 1
  | ProducePc.post_cs _ ↦ 1
  | ProducePc.post_filled _ ↦ 1
  | _ ↦ 0
]

abbrev pub c_inside : Consuming → ℕ
c_inside c = elim c.pc [
  | ConsumePc.read ↦ 1
  | ConsumePc.load_index _ ↦ 1
  | ConsumePc.save_index _ _ ↦ 1
  | ConsumePc.post_cs _ ↦ 1
  | _ ↦ 0
]

abbrev pub c_claims : Consuming → ℕ
c_claims c = elim c.pc [ ConsumePc.wait_cs ↦ 1 | ConsumePc.read ↦ 1 | _ ↦ 0 ]

abbrev pub c_pending : Consuming → ℕ
c_pending c = elim c.pc [ ConsumePc.load_index _ ↦ 1 | ConsumePc.save_index _ _ ↦ 1 | _ ↦ 0 ]

abbrev pub c_owes : Consuming → ℕ
c_owes c = elim c.pc [
  | ConsumePc.load_index _ ↦ 1
  | ConsumePc.save_index _ _ ↦ 1
  | ConsumePc.post_cs _ ↦ 1
  | ConsumePc.post_empty _ ↦ 1
  | _ ↦ 0
]

-- An index that has been loaded is still the one in memory.
abbrev pub PKnows : SharedMemory → ProducePc → Type 0
PKnows m (ProducePc.save_index v w) = w ≡ m.write_index
PKnows m _ = Unit {0}

abbrev pub CKnows : SharedMemory → ConsumePc → Type 0
CKnows m (ConsumePc.save_index v r) = r ≡ m.read_index
CKnows m _ = Unit {0}

-- the value stored by a producer's step, and the one read by a consumer's
abbrev pub stored_by : ProducePc → List ℤ
stored_by (ProducePc.store v) = v ∷ []
stored_by _ = []

abbrev pub read_by : SharedMemory → ConsumePc → List ℤ
read_by m ConsumePc.read = get_or m.buf m.read_index (pos 0) ∷ []
read_by m _ = []

-- A producer's step: what it holds and has stored before and after.
pub record PMove (m m' : SharedMemory) (p p' : Producing) (new : ℕ) : Type 0 where
  pub section : m'.cs_prod + p_inside p' ≡ m.cs_prod + p_inside p
  pub other_section : m'.cs_cons ≡ m.cs_cons
  pub empty : m'.sem_empty + p_claims p' + new ≡ m.sem_empty + p_claims p
  pub filled : m'.sem_filled + p_owes p' ≡ m.sem_filled + p_owes p + new
  pub index : (m'.write_index + p_pending p') % 128 ≡ (m.write_index + p_pending p + new) % 128
  pub in_range : m'.write_index ≤ 127
  pub index_moves : (m'.write_index ≡ m.write_index) ⊎ (p_inside p ≡ 1)
  pub other_index : m'.read_index ≡ m.read_index
  pub knows : PKnows m' p'.pc

pub produce_at-PMove :
    (rand : ℕ) (pc : ProducePc) (ops : ℕ) (sum : ℤ) (m : SharedMemory)
    → PKnows m pc
    → m.write_index ≤ 127
    → (let (m', p') = produce_at rand pc ops sum m in
        PMove m m' (record { pc = pc; num_ops = ops; local_sum = sum }) p' (length (stored_by pc)))
unfolding produce_at
produce_at-PMove rand ProducePc.head ops sum m k b = ground arith
produce_at-PMove rand pc ops sum m k b = ground arith

pub record CMove (m m' : SharedMemory) (c c' : Consuming) (new : ℕ) : Type 0 where
  pub section : m'.cs_cons + c_inside c' ≡ m.cs_cons + c_inside c
  pub other_section : m'.cs_prod ≡ m.cs_prod
  pub filled : m'.sem_filled + c_claims c' + new ≡ m.sem_filled + c_claims c
  pub empty : m'.sem_empty + c_owes c' ≡ m.sem_empty + c_owes c + new
  pub index : (m'.read_index + c_pending c') % 128 ≡ (m.read_index + c_pending c + new) % 128
  pub in_range : m'.read_index ≤ 127
  pub index_moves : (m'.read_index ≡ m.read_index) ⊎ (c_inside c ≡ 1)
  pub other_index : m'.write_index ≡ m.write_index
  pub buf : m'.buf ≡ m.buf
  pub knows : CKnows m' c'.pc

pub consume_at-CMove :
    (pc : ConsumePc) (ops : ℕ) (sum : ℤ) (m : SharedMemory)
    → CKnows m pc
    → m.read_index ≤ 127
    → (let (m', c') = consume_at pc ops sum m in
        CMove m m' (record { pc = pc; num_ops = ops; local_sum = sum }) c' (length (read_by m pc)))
unfolding consume_at
consume_at-CMove ConsumePc.head ops sum m k b = ground arith
consume_at-CMove pc ops sum m k b = ground arith
