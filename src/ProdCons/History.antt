-- ===== src/ProdCons/History.antt =====
-- The values that go through the buffer of producer_consumer_n_m.c over a whole run, and the rule
-- that lifts an invariant from the steps of the threads to runs.
use esercitazioni_sistemi_di.Base.{
  ℕ, ◌≡◌, refl, sym, ap, subst, subst₂, ◌∙◌, Bool, true, false, Option, none, some, List, [], ◌∷◌,
  ◌++◌, arith, append-nil, append_assoc, get_elem?, set, if◌then◌else◌,
}
use esercitazioni_sistemi_di.Base.Int.{ℤ}
use esercitazioni_sistemi_di.ProdCons.{
  Memory, ProducerPc, Producer, ConsumerPc, Consumer, producer_at, consumer_at, System, Turn,
  producer, consumer, after_producer, move_producer, after_consumer, move_consumer, step, run,
}
use esercitazioni_sistemi_di.ProdCons.Buffer.{put_by, got_by}

-- the value that the thread puts in the buffer, or takes out of it
abbrev pub put_by_thread : Option Producer → List ℤ
put_by_thread none = []
put_by_thread (some p) = put_by p.pc

abbrev got_by_thread : Memory → Option Consumer → List ℤ
got_by_thread m none = []
got_by_thread m (some c) = got_by m c.pc

-- The value that a turn puts in the buffer: the `currentTransaction` of a producer that advances
-- `write_index`.
abbrev pub put_in : System → Turn → List ℤ
put_in s (producer i ok) = if s.running then put_by_thread (get_elem? s.producers i) else []
put_in s (consumer i ok) = []

-- The value that a turn takes out of it: what stands at `read_index` when a consumer advances it.
abbrev pub taken_in : System → Turn → List ℤ
taken_in s (producer i ok) = []
taken_in s (consumer i ok) = if s.running then got_by_thread s.mem (get_elem? s.consumers i) else []

-- All values put in the buffer and taken out of it over a run, in order.
unfoldable pub all_put : System → List Turn → List ℤ
unfolding step
all_put s [] = []
all_put s (t ∷ ts) = put_in s t ++ all_put (step s t) ts

unfoldable pub all_taken : System → List Turn → List ℤ
unfolding step
all_taken s [] = []
all_taken s (t ∷ ts) = taken_in s t ++ all_taken (step s t) ts

-- A thread that exits is at a semaphore call, and moves no value.
exit-puts :
    (pc : ProducerPc) (ops : ℕ) (ok : Bool) (m : Memory)
    → producer_at pc ops ok m ≡ none
    → put_by pc ≡ []
unfolding producer_at
exit-puts ProducerPc.head ops ok m e = refl
exit-puts pc ops ok m e = ground arith

exit-gets :
    (pc : ConsumerPc) (ops : ℕ) (ok : Bool) (m : Memory)
    → consumer_at pc ops ok m ≡ none
    → got_by m pc ≡ []
unfolding consumer_at
exit-gets ConsumerPc.head ops ok m e = refl
exit-gets pc ops ok m e = ground arith

-- A property of a system, the values put so far and the values taken so far, that every step of a
-- thread keeps.
pub record IsKept (P : System → List ℤ → List ℤ → Type 0) : Type 0 where
  pub exits :
      (s : System) (put taken : List ℤ) → P s put taken → P (record s { running = false }) put taken
  pub producer_moves :
      (s : System) (put taken : List ℤ) (i : ℕ) (p : Producer) (ok : Bool) (m' : Memory)
      (p' : Producer)
      → P s put taken
      → get_elem? s.producers i ≡ some p
      → producer_at p.pc p.num_ops ok s.mem ≡ some (m', p')
      → P (record s { mem = m'; producers = set s.producers i p' }) (put ++ put_by p.pc) taken
  pub consumer_moves :
      (s : System) (put taken : List ℤ) (i : ℕ) (c : Consumer) (ok : Bool) (m' : Memory)
      (c' : Consumer)
      → P s put taken
      → get_elem? s.consumers i ≡ some c
      → consumer_at c.pc c.num_ops ok s.mem ≡ some (m', c')
      → P (record s { mem = m'; consumers = set s.consumers i c' }) put (taken ++ got_by s.mem c.pc)

module _ (P : System → List ℤ → List ℤ → Type 0) (kept : IsKept P) where
  module _ (s : System) (put taken : List ℤ) (v : P s put taken) where
    no_put : (l : List ℤ) → l ≡ [] → P s (put ++ l) taken
    no_put l e = subst (λ t. P s t taken) (sym (ap (λ t. put ++ t) e ∙ append-nil put)) v

    no_taken : (l : List ℤ) → l ≡ [] → P s put (taken ++ l)
    no_taken l e = subst (λ t. P s put t) (sym (ap (λ t. taken ++ t) e ∙ append-nil taken)) v

  module _ (s : System) (put taken : List ℤ) (v : P s put taken) where
    after_producer-kept :
        (i : ℕ) (ok : Bool) (p : Producer)
        → get_elem? s.producers i ≡ some p
        → (r : Option (Memory × Producer)) → producer_at p.pc p.num_ops ok s.mem ≡ r
        → P (after_producer s i r) (put ++ put_by p.pc) taken
    unfolding after_producer
    after_producer-kept i ok p h none e =
        no_put _ put taken (kept.exits s put taken v) _ (exit-puts p.pc p.num_ops ok s.mem e)
    after_producer-kept i ok p h (some (m, p')) e =
        kept.producer_moves s put taken i p ok m p' v h e

    after_consumer-kept :
        (i : ℕ) (ok : Bool) (c : Consumer)
        → get_elem? s.consumers i ≡ some c
        → (r : Option (Memory × Consumer)) → consumer_at c.pc c.num_ops ok s.mem ≡ r
        → P (after_consumer s i r) put (taken ++ got_by s.mem c.pc)
    unfolding after_consumer
    after_consumer-kept i ok c h none e =
        no_taken _ put taken (kept.exits s put taken v) _ (exit-gets c.pc c.num_ops ok s.mem e)
    after_consumer-kept i ok c h (some (m, c')) e =
        kept.consumer_moves s put taken i c ok m c' v h e

    move_producer-kept :
        (i : ℕ) (ok : Bool) (o : Option Producer)
        → get_elem? s.producers i ≡ o
        → P (move_producer s i ok o) (put ++ put_by_thread o) taken
    unfolding move_producer
    move_producer-kept i ok none h = no_put s put taken v [] refl
    move_producer-kept i ok (some p) h = after_producer-kept i ok p h _ refl

    move_consumer-kept :
        (i : ℕ) (ok : Bool) (o : Option Consumer)
        → get_elem? s.consumers i ≡ o
        → P (move_consumer s i ok o) put (taken ++ got_by_thread s.mem o)
    unfolding move_consumer
    move_consumer-kept i ok none h = no_taken s put taken v [] refl
    move_consumer-kept i ok (some c) h = after_consumer-kept i ok c h _ refl

    -- No turn does anything after an exit.
    if-producer-kept :
        (b : Bool) (t : System) (new : List ℤ)
        → P t (put ++ new) taken
        → P (if b then t else s) (put ++ (if b then new else [])) taken
    if-producer-kept true t new k = k
    if-producer-kept false t new k = no_put s put taken v [] refl

    if-consumer-kept :
        (b : Bool) (t : System) (out : List ℤ)
        → P t put (taken ++ out)
        → P (if b then t else s) put (taken ++ (if b then out else []))
    if-consumer-kept true t out k = k
    if-consumer-kept false t out k = no_taken s put taken v [] refl

    step-kept : (t : Turn) → P (step s t) (put ++ put_in s t) (taken ++ taken_in s t)
    unfolding step
    step-kept (producer i ok) =
        subst (λ l. P (step s (producer i ok)) (put ++ put_in s (producer i ok)) l)
          (sym (append-nil taken)) (if-producer-kept s.running _ _ (move_producer-kept i ok _ refl))
    step-kept (consumer i ok) =
        subst (λ l. P (step s (consumer i ok)) l (taken ++ taken_in s (consumer i ok)))
          (sym (append-nil put)) (if-consumer-kept s.running _ _ (move_consumer-kept i ok _ refl))

  -- Every run keeps the property.
  pub run-kept :
      (s : System) (put taken : List ℤ)
      → P s put taken
      → (ts : List Turn) → P (run s ts) (put ++ all_put s ts) (taken ++ all_taken s ts)
  unfolding run all_put all_taken
  run-kept s put taken v [] = no_taken s (put ++ []) taken (no_put s put taken v [] refl) [] refl
  run-kept s put taken v (t ∷ ts) =
      subst₂ (P (run (step s t) ts)) (append_assoc put (put_in s t) (all_put (step s t) ts))
        (append_assoc taken (taken_in s t) (all_taken (step s t) ts))
        (run-kept (step s t) (put ++ put_in s t) (taken ++ taken_in s t) (step-kept s put taken v t)
          ts)
