-- ===== src/ProdCons/Buffer.antt =====
-- The buffer of producer_consumer_n_m.c: what stands in its slots, and what the threads' local
-- variables say about it.
use esercitazioni_sistemi_di.Base.{
  ℕ, suc, ◌+◌, ◌%◌, ◌≤◌, ◌<◌, ◌≡◌, refl, ◌≢◌, Bool, some, List, [], ◌∷◌, ◌++◌, arith, set, length,
  get_or, length-set, get_or-set_self, get_or-set_ne, get_or-append_left, get_or-append_end,
  append-nil, length-append, dec_lt, ℕ_discrete, subst, ap, sym, ◌∙◌,
}
use esercitazioni_sistemi_di.Base.Int.{ℤ, pos, ◌+ℤ◌}
use esercitazioni_sistemi_di.ProdCons.{
  Memory, ProducerPc, Producer, ConsumerPc, Consumer, producer_at, consumer_at,
}
use esercitazioni_sistemi_di.ProdCons.Counts.{
  producer_inside, producer_claims, consumer_inside, consumer_claims,
}

abbrev pub slot : Memory → ℕ → ℤ
slot m k = get_or m.transactions k (pos 0)

-- What a producer's local variables say of the memory.
abbrev pub ProducerFresh : Memory → ProducerPc → Type 0
ProducerFresh m (ProducerPc.load_index v) = slot m m.write_index ≡ v
ProducerFresh m (ProducerPc.save_index v w) = (slot m m.write_index ≡ v) × (w ≡ m.write_index)
ProducerFresh m _ = Unit {0}

abbrev pub ConsumerFresh : Memory → ConsumerPc → Type 0
ConsumerFresh m (ConsumerPc.save_deposit d) = d ≡ m.deposit +ℤ slot m m.read_index
ConsumerFresh m (ConsumerPc.save_index r) = r ≡ m.read_index
ConsumerFresh m _ = Unit {0}

-- the value that a producer at this point puts in the buffer by its step
abbrev pub put_by : ProducerPc → List ℤ
put_by (ProducerPc.save_index v w) = v ∷ []
put_by _ = []

-- the value that a consumer at this point takes out of the buffer by its step
abbrev pub got_by : Memory → ConsumerPc → List ℤ
got_by m (ConsumerPc.save_index r) = slot m m.read_index ∷ []
got_by m _ = []

-- `queue` stands in the buffer, from `read_index` on.
pub record Holds (m : Memory) (queue : List ℤ) : Type 0 where
  pub size : length m.transactions ≡ 128
  pub read_in : m.read_index < 128
  pub write_at : m.write_index ≡ (m.read_index + length queue) % 128
  pub slots :
      (k : ℕ) → k < length queue → slot m ((m.read_index + k) % 128) ≡ get_or queue k (pos 0)

Holds-same :
    {m m' : Memory} {queue : List ℤ}
    → Holds m queue
    → m'.transactions ≡ m.transactions
    → m'.read_index ≡ m.read_index
    → m'.write_index ≡ m.write_index
    → Holds m' queue
Holds-same h t r w = record {
  size = rw t h.size;
  read_in = rw r h.read_in;
  write_at = rw (r, w) h.write_at;
  slots = λ k b. rw (t, r) (h.slots k b);
}

-- The slot at `write_index` is none of those in use.
write-ne-slot : (r len k : ℕ) → r < 128 → len < 128 → k < len → (r + len) % 128 ≢ (r + k) % 128
write-ne-slot r len k a b c = omega arith

Holds-store :
    {m : Memory} {queue : List ℤ} (v : ℤ)
    → Holds m queue
    → length queue < 128
    → Holds (record m { transactions = set m.transactions m.write_index v }) queue
Holds-store {m} {queue} v h b = record {
  size = length-set m.transactions m.write_index v ∙ h.size;
  read_in = h.read_in;
  write_at = h.write_at;
  slots = λ k kb.
      get_or-set_ne m.transactions m.write_index ((m.read_index + k) % 128) v (pos 0)
        (rw h.write_at (write-ne-slot m.read_index (length queue) k h.read_in b kb))
      ∙ h.slots k kb;
}

Holds-put :
    {m : Memory} {queue : List ℤ} (v : ℤ) (w : ℕ)
    → Holds m queue
    → (slot m m.write_index ≡ v) × (w ≡ m.write_index)
    → Holds (record m { write_index = (w + 1) % 128 }) (queue ++ v ∷ [])
Holds-put {m} {queue} v w h f = record {
  size = h.size;
  read_in = h.read_in;
  write_at = omega (arith, h.write_at, f.1, length-append queue (v ∷ []));
  slots = λ k kb. elim (dec_lt k (length queue)) [
    | yes old ↦ h.slots k old ∙ sym (get_or-append_left queue (v ∷ []) k (pos 0) old)
    | no new ↦ elim (ℕ_discrete k (length queue)) [
      | yes e ↦ (rw (e, ← h.write_at) f.0) ∙ sym (get_or-append_end queue v k (pos 0) e)
      | no ne ↦ absurd (omega (arith, length-append queue (v ∷ [])))
    ]
  ];
}

-- When the oldest value is released the rest stands in the buffer.
Holds-get :
    {m m' : Memory} {queue : List ℤ} (x : ℤ)
    → Holds m (x ∷ queue)
    → m'.transactions ≡ m.transactions
    → m'.read_index ≡ (m.read_index + 1) % 128
    → m'.write_index ≡ m.write_index
    → Holds m' queue
Holds-get {m} {m'} {queue} x h t r w = record {
  size = rw t h.size;
  read_in = omega arith;
  write_at = omega (arith, h.write_at);
  slots = λ k kb. rw t (ap (slot m) (shift k) ∙ h.slots (suc k) (omega arith));
}
  where
    shift : (k : ℕ) → (m'.read_index + k) % 128 ≡ (m.read_index + suc k) % 128
    shift k = omega arith

module _ (ops : ℕ) (ok : Bool) (m : Memory) {m' : Memory} {p' : Producer} where
  -- A producer's own variables stay true.
  pub producer_at-own :
      (pc : ProducerPc)
      → m.write_index < length m.transactions
      → ProducerFresh m pc
      → producer_at pc ops ok m ≡ some (m', p')
      → ProducerFresh m' p'.pc
  unfolding producer_at
  producer_at-own ProducerPc.head b f e = ground arith
  producer_at-own (ProducerPc.store v) b f e =
      ground (arith, get_or-set_self m.transactions m.write_index v (pos 0) b)
  producer_at-own pc b f e = ground arith

  -- Those of another producer do, since the two are not inside together.
  pub producer_at-other :
      (pc : ProducerPc) (qc : ProducerPc) (o : ℕ)
      → producer_inside (record { pc = pc; num_ops = ops })
          + producer_inside (record { pc = qc; num_ops = o })
        ≤ 1
      → ProducerFresh m qc
      → producer_at pc ops ok m ≡ some (m', p')
      → ProducerFresh m' qc
  unfolding producer_at
  producer_at-other ProducerPc.head ProducerPc.head o b f e = ground arith
  producer_at-other pc qc o b f e = ground arith

  -- Those of a consumer do, if the slot that it reads is not the one written.
  pub producer_at-consumer :
      (pc : ProducerPc) (qc : ConsumerPc) (o : ℕ)
      → (1 ≤ producer_claims (record { pc = pc; num_ops = ops })
          → 1 ≤ consumer_claims (record { pc = qc; num_ops = o })
          → m.write_index ≢ m.read_index)
      → ConsumerFresh m qc
      → producer_at pc ops ok m ≡ some (m', p')
      → ConsumerFresh m' qc
  unfolding producer_at
  producer_at-consumer ProducerPc.head ConsumerPc.head o b f e = ground arith
  producer_at-consumer (ProducerPc.store v) (ConsumerPc.save_deposit d) o b f e = ground (
    arith,
    get_or-set_ne m.transactions m.write_index m.read_index v (pos 0)
        (b (omega arith) (omega arith)),
  )
  producer_at-consumer pc qc o b f e = ground arith

  -- The queue stays in the buffer, with what the producer puts at its end.
  pub producer_at-Holds :
      (pc : ProducerPc) (queue : List ℤ)
      → length queue + producer_claims (record { pc = pc; num_ops = ops }) ≤ 128
      → Holds m queue
      → ProducerFresh m pc
      → producer_at pc ops ok m ≡ some (m', p')
      → Holds m' (queue ++ put_by pc)
  unfolding producer_at
  producer_at-Holds ProducerPc.head queue b h f e =
      rw append-nil (Holds-same h (ground arith) (ground arith) (ground arith))
  producer_at-Holds (ProducerPc.store v) queue b h f e =
      rw append-nil (subst (λ n. Holds n queue) (ground arith) (Holds-store v h (omega arith)))
  producer_at-Holds (ProducerPc.save_index v w) queue b h f e =
      subst (λ n. Holds n (queue ++ v ∷ [])) (ground arith) (Holds-put v w h f)
  producer_at-Holds pc queue b h f e =
      rw append-nil (Holds-same h (ground arith) (ground arith) (ground arith))

module _ (ops : ℕ) (ok : Bool) (m : Memory) {m' : Memory} {c' : Consumer} where
  pub consumer_at-own :
      (pc : ConsumerPc)
      → ConsumerFresh m pc
      → consumer_at pc ops ok m ≡ some (m', c')
      → ConsumerFresh m' c'.pc
  unfolding consumer_at
  consumer_at-own ConsumerPc.head f e = ground arith
  consumer_at-own pc f e = ground arith

  pub consumer_at-other :
      (pc : ConsumerPc) (qc : ConsumerPc) (o : ℕ)
      → consumer_inside (record { pc = pc; num_ops = ops })
          + consumer_inside (record { pc = qc; num_ops = o })
        ≤ 1
      → ConsumerFresh m qc
      → consumer_at pc ops ok m ≡ some (m', c')
      → ConsumerFresh m' qc
  unfolding consumer_at
  consumer_at-other ConsumerPc.head ConsumerPc.head o b f e = ground arith
  consumer_at-other pc qc o b f e = ground arith

  pub consumer_at-producer :
      (pc : ConsumerPc) (qc : ProducerPc)
      → ProducerFresh m qc
      → consumer_at pc ops ok m ≡ some (m', c')
      → ProducerFresh m' qc
  unfolding consumer_at
  consumer_at-producer ConsumerPc.head ProducerPc.head f e = ground arith
  consumer_at-producer pc qc f e = ground arith

  -- The queue stays in the buffer, without what the consumer takes off its front.
  pub consumer_at-Holds :
      (pc : ConsumerPc) (queue : List ℤ)
      → consumer_claims (record { pc = pc; num_ops = ops }) ≤ length queue
      → Holds m queue
      → ConsumerFresh m pc
      → consumer_at pc ops ok m ≡ some (m', c')
      → (rest : List ℤ) × (queue ≡ got_by m pc ++ rest) × Holds m' rest
  unfolding consumer_at
  consumer_at-Holds ConsumerPc.head queue b h f e =
      (queue, refl, Holds-same h (ground arith) (ground arith) (ground arith))
  consumer_at-Holds (ConsumerPc.save_index r) [] b h f e = absurd (omega arith)
  consumer_at-Holds (ConsumerPc.save_index r) (x ∷ queue) b h f e = (
    queue,
    ap (λ y. y ∷ queue) (sym (h.slots 0 (omega arith)) ∙ ap (slot m) (omega arith)),
    Holds-get x h (ground arith) (ground arith) (ground arith),
  )
  consumer_at-Holds pc queue b h f e =
      (queue, refl, Holds-same h (ground arith) (ground arith) (ground arith))
