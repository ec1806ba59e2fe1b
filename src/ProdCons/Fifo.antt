-- ===== src/ProdCons/Fifo.antt =====
-- The buffer of producer_consumer_n_m.c is a bounded first-in first-out queue, in every run.
use esercitazioni_sistemi_di.Base.{
  ◌≡◌, refl, sym, ap, ◌∙◌, List, [], ◌++◌, arith, append_assoc, length-replicate,
}
use esercitazioni_sistemi_di.Base.Int.{ℤ, pos, ◌+ℤ◌, sum}
use esercitazioni_sistemi_di.Base.Threads.{total, get_elem?-replicate}
use esercitazioni_sistemi_di.ProdCons.{System, Turn, run, init, initial_deposit}
use esercitazioni_sistemi_di.ProdCons.Buffer.{put_by, got_by}
use esercitazioni_sistemi_di.ProdCons.Inv.{Inv, producer_at-Inv, consumer_at-Inv}
use esercitazioni_sistemi_di.ProdCons.History.{IsKept, run-kept, all_put, all_taken}

-- What has been put and not taken stands in the buffer.
abbrev pub Queued : System → List ℤ → List ℤ → Type 0
Queued s put taken =
    (rest : List ℤ) × (put ≡ taken ++ rest)
    × Inv initial_deposit s.mem s.producers s.consumers taken rest

Queued-kept : IsKept Queued
Queued-kept = record {
  exits = λ s put taken q. q;
  producer_moves = λ s put taken i p ok m' p' q h e.
      let (rest, split, v) = q in
      (
        rest ++ put_by p.pc,
        ap (λ l. l ++ put_by p.pc) split ∙ append_assoc taken rest (put_by p.pc),
        producer_at-Inv v i p.pc p.num_ops ok h e,
      );
  consumer_moves = λ s put taken i c ok m' c' q h e.
      let (rest, split, v) = q in
      let (rest', split', v') = consumer_at-Inv v i c.pc c.num_ops ok h e in
      (
        rest',
        split ∙ ap (λ l. taken ++ l) split' ∙ sym (append_assoc taken (got_by s.mem c.pc) rest'),
        v',
      );
}

init-Queued : Queued init [] []
unfolding init total sum ◌+ℤ◌
init-Queued = (
  [],
  refl,
  record {
    counts = record { write_mutex = refl; read_mutex = refl; free = refl; full = refl };
    holds = record {
      size = length-replicate 128 (pos 0);
      read_in = omega arith;
      write_at = refl;
      slots = λ k h. elim h [ ];
    };
    producers_fresh = λ i p h. rw (get_elem?-replicate 20 i _ p h) tt;
    consumers_fresh = λ i c h. rw (get_elem?-replicate 20 i _ c h) tt;
    balance = refl;
  },
)

-- In every state that the program reaches what it has put in the buffer and not taken yet stands
-- in it.
pub run-Queued : (ts : List Turn) → Queued (run init ts) (all_put init ts) (all_taken init ts)
run-Queued = run-kept Queued Queued-kept init [] [] init-Queued
