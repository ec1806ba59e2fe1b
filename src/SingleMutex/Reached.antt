-- ===== src/SingleMutex/Reached.antt =====
-- The invariant of the program with the mutex `s` holds in every state that it reaches.
use esercitazioni_sistemi_di.Base.{
  ℕ, zero, suc, ◌*◌, ◌/◌, ◌≡◌, refl, sym, ap, subst, subst₂, ◌∙◌, Bool, true, false, Option, none,
  some, List, [], ◌∷◌, ◌++◌, arith, append-nil, append_assoc, get_elem?, if◌then◌else◌,
  length-replicate, replicate, take,
}
use esercitazioni_sistemi_di.Base.Int.{ℤ, pos, ◌+ℤ◌, sum}
use esercitazioni_sistemi_di.Base.Threads.{total, total-replicate, get_elem?-replicate}
use esercitazioni_sistemi_di.ProdCons.{ProducerPc, Producer, ConsumerPc, Consumer, num_operations}
use esercitazioni_sistemi_di.ProdCons.Buffer.{put_by}
use esercitazioni_sistemi_di.ProdCons.Counts.{
  producer_inside, producer_claims, producer_owes, consumer_inside, consumer_claims, consumer_owes,
  consumer_added,
}
use esercitazioni_sistemi_di.ProdCons.History.{put_by_thread}
use esercitazioni_sistemi_di.ProdCons.Work.{to_put, to_take}
use esercitazioni_sistemi_di.SingleMutex.{
  Memory, Process, Pick, producer, consumer, producer_with_s, consumer_with_s, after_producer_step,
  after_consumer_step, producer_turn, consumer_turn, turn, turns, created,
}
use esercitazioni_sistemi_di.SingleMutex.Simulation.{got_with_s}
use esercitazioni_sistemi_di.SingleMutex.Runs.{
  Going, exits, exit-puts, exit-gets, producer_moves, consumer_moves, put_in, taken_in,
  got_by_thread, all_put, all_taken,
}

module _ {tp tt : ℕ} {s : Process} {put taken : List ℤ} (g : Going tp tt s put taken) where
  puts_none : (l : List ℤ) → l ≡ [] → Going tp tt s (put ++ l) taken
  puts_none l e = subst (λ t. Going tp tt s t taken) (sym (ap (λ t. put ++ t) e ∙ append-nil put)) g

  takes_none : (l : List ℤ) → l ≡ [] → Going tp tt s put (taken ++ l)
  takes_none l e =
      subst (λ t. Going tp tt s put t) (sym (ap (λ t. taken ++ t) e ∙ append-nil taken)) g

module _ {tp tt : ℕ} {s : Process} {put taken : List ℤ} (g : Going tp tt s put taken) where
  after_producer_step-Going :
      (rand i : ℕ) (ok : Bool) (p : Producer)
      → get_elem? s.producers i ≡ some p
      → (r : Option (Memory × Producer)) → producer_with_s rand p.pc p.num_ops ok s.mem ≡ r
      → Going tp tt (after_producer_step s i r) (put ++ put_by p.pc) taken
  unfolding after_producer_step
  after_producer_step-Going rand i ok p h none e =
      puts_none (exits g) _ (exit-puts rand p.pc p.num_ops ok s.mem e)
  after_producer_step-Going rand i ok p h (some (m, p')) e = producer_moves g rand i p ok m p' h e

  after_consumer_step-Going :
      (i : ℕ) (ok : Bool) (c : Consumer)
      → get_elem? s.consumers i ≡ some c
      → (r : Option (Memory × Consumer)) → consumer_with_s c.pc c.num_ops ok s.mem ≡ r
      → Going tp tt (after_consumer_step s i r) put (taken ++ got_with_s s.mem c.pc)
  unfolding after_consumer_step
  after_consumer_step-Going i ok c h none e =
      takes_none (exits g) _ (exit-gets c.pc c.num_ops ok s.mem e)
  after_consumer_step-Going i ok c h (some (m, c')) e = consumer_moves g i c ok m c' h e

  producer_turn-Going :
      (rand i : ℕ) (ok : Bool) (o : Option Producer)
      → get_elem? s.producers i ≡ o
      → Going tp tt (producer_turn s i ok rand o) (put ++ put_by_thread o) taken
  unfolding producer_turn
  producer_turn-Going rand i ok none h = puts_none g [] refl
  producer_turn-Going rand i ok (some p) h = after_producer_step-Going rand i ok p h _ refl

  consumer_turn-Going :
      (i : ℕ) (ok : Bool) (o : Option Consumer)
      → get_elem? s.consumers i ≡ o
      → Going tp tt (consumer_turn s i ok o) put (taken ++ got_by_thread s.mem o)
  unfolding consumer_turn
  consumer_turn-Going i ok none h = takes_none g [] refl
  consumer_turn-Going i ok (some c) h = after_consumer_step-Going i ok c h _ refl

  -- No turn does anything after an exit.
  if_running_puts :
      (b : Bool) (t : Process) (new : List ℤ)
      → Going tp tt t (put ++ new) taken
      → Going tp tt (if b then t else s) (put ++ (if b then new else [])) taken
  if_running_puts true t new k = k
  if_running_puts false t new k = puts_none g [] refl

  if_running_takes :
      (b : Bool) (t : Process) (out : List ℤ)
      → Going tp tt t put (taken ++ out)
      → Going tp tt (if b then t else s) put (taken ++ (if b then out else []))
  if_running_takes true t out k = k
  if_running_takes false t out k = takes_none g [] refl

  turn-Going : (t : Pick) → Going tp tt (turn s t) (put ++ put_in s t) (taken ++ taken_in s t)
  unfolding turn
  turn-Going (producer i ok rand) =
      takes_none (if_running_puts s.running _ _ (producer_turn-Going rand i ok _ refl)) [] refl
  turn-Going (consumer i ok) =
      puts_none (if_running_takes s.running _ _ (consumer_turn-Going i ok _ refl)) [] refl

pub turns-Going :
    {tp tt : ℕ} (s : Process) (put taken : List ℤ)
    → Going tp tt s put taken
    → (ts : List Pick) → Going tp tt (turns s ts) (put ++ all_put s ts) (taken ++ all_taken s ts)
unfolding turns all_put all_taken
turns-Going s put taken g [] = takes_none (puts_none g [] refl) [] refl
turns-Going {tp} {tt} s put taken g (t ∷ ts) =
    subst₂ (Going tp tt (turns (turn s t) ts))
      (append_assoc put (put_in s t) (all_put (turn s t) ts))
      (append_assoc taken (taken_in s t) (all_taken (turn s t) ts))
      (turns-Going (turn s t) (put ++ put_in s t) (taken ++ taken_in s t) (turn-Going g t) ts)

total-same : {A : Type 0} (w : A → ℕ) (k : ℕ) (a : A) → total w (replicate k a) ≡ k * w a
unfolding total
total-same w zero a = omega arith
total-same w (suc k) a = ground (arith, total-same w k a)

pub created-Going :
    (np nc : ℕ)
    → Going (np * (num_operations / np)) (nc * (num_operations / nc)) (created np nc) [] []
unfolding created sum ◌+ℤ◌
created-Going np nc =
    let p : Producer = record { pc = ProducerPc.head; num_ops = num_operations / np } in
    let c : Consumer = record { pc = ConsumerPc.head; num_ops = num_operations / nc } in
    record {
      rest = [];
      order = refl;
      inv = record {
        w = 1;
        r = 1;
        split = refl;
        two = record {
          counts = record {
            write_mutex = omega (arith, total-replicate producer_inside np p refl);
            read_mutex = omega (arith, total-replicate consumer_inside nc c refl);
            free = omega (
              arith,
              total-replicate producer_claims np p refl,
              total-replicate consumer_owes nc c refl,
            );
            full = omega (
              arith,
              total-replicate consumer_claims nc c refl,
              total-replicate producer_owes np p refl,
            );
          };
          holds = record {
            size = length-replicate 128 (pos 0);
            read_in = omega arith;
            write_at = refl;
            slots = λ k h. elim h [ ];
          };
          producers_fresh = λ i q h. rw (get_elem?-replicate np i _ q h) tt;
          consumers_fresh = λ i q h. rw (get_elem?-replicate nc i _ q h) tt;
          balance = sym (
              ap (λ k. pos 0 +ℤ sum [] +ℤ sum (take k []))
                (total-replicate consumer_added nc c refl));
        };
      };
      producers_busy = λ i q h. rw (get_elem?-replicate np i _ q h) tt;
      consumers_busy = λ i q h. rw (get_elem?-replicate nc i _ q h) tt;
      left_to_put = omega (arith, total-same to_put np p);
      left_to_take = omega (arith, total-same to_take nc c);
    }

-- In every state that the program reaches what it has put in the buffer and not taken yet stands in it.
pub reached-Going :
    (np nc : ℕ) (ts : List Pick)
    → Going
        (np * (num_operations / np))
        (nc * (num_operations / nc))
        (turns (created np nc) ts)
        (all_put (created np nc) ts)
        (all_taken (created np nc) ts)
reached-Going np nc ts = turns-Going (created np nc) [] [] (created-Going np nc) ts
