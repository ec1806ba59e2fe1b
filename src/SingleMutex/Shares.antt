-- ===== src/SingleMutex/Shares.antt =====
-- How many values each producer of the program with the mutex `s` puts in the buffer.
use esercitazioni_sistemi_di.Base.{
  ℕ, zero, suc, ◌+◌, ◌≤◌, ◌<◌, ◌≡◌, refl, sym, ap, ap₂, subst, ◌∙◌, Bool, true, false, Option, none,
  some, List, [], ◌∷◌, get_elem?, set, get_elem?-set_ne, length, arith, ◌==◌, if◌then◌else◌,
  if_cases, ℕ_discrete, ◌/◌, replicate,
}
use mathlib.Core.Option.{some-injective}
use esercitazioni_sistemi_di.Base.Threads.{get_elem?-set_here, get_elem?-replicate_here}
use esercitazioni_sistemi_di.ProdCons.{ProducerPc, Producer, Consumer, num_operations}
use esercitazioni_sistemi_di.ProdCons.Buffer.{put_by}
use esercitazioni_sistemi_di.ProdCons.History.{put_by_thread}
use esercitazioni_sistemi_di.ProdCons.Work.{to_put}
use esercitazioni_sistemi_di.SingleMutex.{
  Memory, Process, Pick, producer, consumer, producer_with_s, consumer_with_s, after_producer_step,
  after_consumer_step, producer_turn, consumer_turn, turn, turns, created,
}
use esercitazioni_sistemi_di.SingleMutex.Runs.{
  ProducerBusy, producer_with_s-Busy, exit-puts, put_in,
}

-- The number of values that producer `j` puts in the buffer in a turn, and in a run.
abbrev pub puts_in : Process → Pick → ℕ → ℕ
puts_in s (producer i ok rand) j = if i == j then length (put_in s (producer i ok rand)) else 0
puts_in s (consumer i ok) j = 0

unfoldable pub puts_of : Process → List Pick → ℕ → ℕ
unfolding turn
puts_of s [] j = 0
puts_of s (t ∷ ts) j = puts_in s t j + puts_of (turn s t) ts j

-- The numbers for the producers below `k`, the last one first.
unfoldable pub puts_below : Process → List Pick → ℕ → List ℕ
puts_below s ts zero = []
puts_below s ts (suc k) = puts_of s ts k ∷ puts_below s ts k

-- Producer `j` has put `count` values in the buffer, of the `share` that are its part.
record Share (share j count : ℕ) (ps : List Producer) : Type 0 where
  pub p : Producer
  pub here : get_elem? ps j ≡ some p
  pub busy : ProducerBusy p
  pub left : to_put p + count ≡ share

-- The number may be written in another way.
Share-count :
    (share j count count' : ℕ) (ps : List Producer)
    → count ≡ count'
    → Share share j count ps
    → Share share j count' ps
Share-count share j count count' ps e v = subst (λ n. Share share j n ps) e v

module _ (share j count : ℕ) (s : Process) (v : Share share j count s.producers) where
  -- What producer `i` puts in the buffer, as far as it counts for `j`.
  abbrev put_for : ℕ → Option Producer → ℕ
  put_for i none = 0
  put_for i (some p) = if i == j then length (put_by p.pc) else 0

  after_producer_step-Share :
      (rand i : ℕ) (ok : Bool) (p : Producer)
      → get_elem? s.producers i ≡ some p
      → (r : Option (Memory × Producer)) → producer_with_s rand p.pc p.num_ops ok s.mem ≡ r
      → Share share j (count + put_for i (some p)) (after_producer_step s i r).producers
  unfolding after_producer_step
  after_producer_step-Share rand i ok p h none e =
      let nothing = ap length (exit-puts rand p.pc p.num_ops ok s.mem e) in
      Share-count share j count _ s.producers (ground (arith, nothing)) v
  after_producer_step-Share rand i ok p h (some (m, p')) e = elim (ℕ_discrete i j) [
    | yes same ↦
        let it : v.p ≡ p =
          some-injective _ _ (sym v.here ∙ ap (get_elem? s.producers) (sym same) ∙ h) in
        let (busy, fewer) =
          producer_with_s-Busy p.num_ops ok s.mem rand p.pc (subst ProducerBusy it v.busy) e in
        record {
          p = p';
          here =
              ap (get_elem? (set s.producers i p')) (sym same)
              ∙ get_elem?-set_here s.producers i p p' h;
          busy = busy;
          left = ground (arith, ap to_put it, fewer, v.left, same);
        }
    | no ne ↦ record {
      p = v.p;
      here = get_elem?-set_ne s.producers p' ne ∙ v.here;
      busy = v.busy;
      left = ground (arith, v.left, ne);
    }
  ]

  producer_turn-Share :
      (rand i : ℕ) (ok : Bool) (o : Option Producer)
      → get_elem? s.producers i ≡ o
      → Share share j (count + put_for i o) (producer_turn s i ok rand o).producers
  unfolding producer_turn
  producer_turn-Share rand i ok none h = Share-count share j count _ s.producers (omega arith) v
  producer_turn-Share rand i ok (some p) h = after_producer_step-Share rand i ok p h _ refl

  consumers_keep :
      (i : ℕ) (ok : Bool) (o : Option Consumer) → (consumer_turn s i ok o).producers ≡ s.producers
  unfolding consumer_turn after_consumer_step
  consumers_keep i ok none = refl
  consumers_keep i ok (some c) = same (consumer_with_s c.pc c.num_ops ok s.mem)
    where
      same : (r : Option (Memory × Consumer)) → (after_consumer_step s i r).producers ≡ s.producers
      same none = refl
      same (some (m, c')) = refl

  if_running :
      (b : Bool) (t : Process) (i : ℕ) (o : Option Producer)
      → Share share j (count + put_for i o) t.producers
      → Share share j
          (count + (if i == j then length (if b then put_by_thread o else []) else 0))
          (if b then t else s).producers
  if_running true t i none w = Share-count share j _ _ t.producers (ground arith) w
  if_running true t i (some p) w = w
  if_running false t i o w = Share-count share j count _ s.producers (ground arith) v

  turn-Share : (t : Pick) → Share share j (count + puts_in s t j) (turn s t).producers
  unfolding turn
  turn-Share (producer i ok rand) =
      if_running s.running _ i _ (producer_turn-Share rand i ok (get_elem? s.producers i) refl)
  turn-Share (consumer i ok) = Share-count share j count (count + 0) _ (omega arith) (
      if_cases (λ (t : Process). Share share j count t.producers) s.running _ _
        (λ live.
          subst (Share share j count) (sym (consumers_keep i ok (get_elem? s.consumers i))) v)
        (λ over. v))

turns-Share :
    (share j count : ℕ) (s : Process) (ts : List Pick)
    → Share share j count s.producers
    → Share share j (count + puts_of s ts j) (turns s ts).producers
unfolding turns puts_of
turns-Share share j count s [] v = Share-count share j count _ s.producers (omega arith) v
turns-Share share j count s (t ∷ ts) v =
    Share-count share j _ _ _ (omega arith)
      (turns-Share share j (count + puts_in s t j) (turn s t) ts (turn-Share share j count s v t))

created-Share : (np nc j : ℕ) → j < np → Share (num_operations / np) j 0 (created np nc).producers
unfolding created
created-Share np nc j lt = record {
  p = record { pc = ProducerPc.head; num_ops = num_operations / np };
  here = get_elem?-replicate_here np j _ lt;
  busy = tt;
  left = omega arith;
}

-- When all producers have ended, each one has put its share.
pub puts_below-share :
    (np nc : ℕ) (ts : List Pick) (k : ℕ)
    → k ≤ np
    → ((i : ℕ) (p : Producer)
        → get_elem? (turns (created np nc) ts).producers i ≡ some p
        → to_put p ≡ 0)
    → puts_below (created np nc) ts k ≡ replicate k (num_operations / np)
unfolding puts_below
puts_below-share np nc ts zero le ended = refl
puts_below-share np nc ts (suc k) le ended =
    let v =
      turns-Share (num_operations / np) k 0 (created np nc) ts
        (created-Share np nc k (omega arith)) in
    let all : puts_of (created np nc) ts k ≡ num_operations / np =
      omega (arith, v.left, ended k v.p v.here) in
    ap₂ (λ (n : ℕ) (l : List ℕ). n ∷ l) all (puts_below-share np nc ts k (omega arith) ended)
