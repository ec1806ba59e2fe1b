-- ===== src/SharedRing/Inv.antt =====
-- The invariant of Lab05/src/02, and every step of a process keeps it.
use esercitazioni_sistemi_di.Base.{
  ℕ, ◌+◌, ◌-◌, ◌%◌, ◌≤◌, ◌<◌, ◌≡◌, sym, ap, subst, ◌∙◌, ◌⊎◌, inl, inr, some, List, ◌++◌, length,
  get_elem?, get_or, set, arith, length-append, ℕ_discrete,
}
use esercitazioni_sistemi_di.Base.Int.{ℤ, pos}
use esercitazioni_sistemi_di.Base.Threads.{
  total, total-set, total-add-le, weight-le-total, weights-le-total, get_elem?-set,
  get_elem?-set_eq,
}
use esercitazioni_sistemi_di.SharedRing.{
  SharedMemory, Producing, ConsumePc, Consuming, produce_at, consume_at, Processes,
}
use esercitazioni_sistemi_di.SharedRing.Counts.{
  p_inside, p_claims, p_pending, p_owes, c_inside, c_claims, c_pending, c_owes, PKnows, CKnows,
  stored_by, read_by, produce_at-PMove, consume_at-CMove,
}
use esercitazioni_sistemi_di.SharedRing.Cells.{Cells, produce_at-Cells, IsLate, read-IsLate}

pub record Inv (s : Processes) (put got : List ℤ) : Type 0 where
  pub p_section : s.mem.cs_prod + total p_inside s.producers ≡ 1
  pub c_section : s.mem.cs_cons + total c_inside s.consumers ≡ 1
  pub empty :
      s.mem.sem_empty + total p_claims s.producers + length put + total c_owes s.consumers
      ≡ 128 + length got
  pub filled :
      s.mem.sem_filled + total c_claims s.consumers + total p_owes s.producers + length got
      ≡ length put
  pub write_at : (s.mem.write_index + total p_pending s.producers) % 128 ≡ length put % 128
  pub write_in : s.mem.write_index ≤ 127
  pub read_at : (s.mem.read_index + total c_pending s.consumers) % 128 ≡ (length got + 127) % 128
  pub read_in_range : s.mem.read_index ≤ 127
  pub cells : Cells s.mem.buf put
  pub p_knows : (i : ℕ) (p : Producing) → get_elem? s.producers i ≡ some p → PKnows s.mem p.pc
  pub c_knows : (i : ℕ) (c : Consuming) → get_elem? s.consumers i ≡ some c → CKnows s.mem c.pc

abbrev p_other : Producing → ℕ
p_other p = p_inside p - p_pending p

abbrev c_other : Consuming → ℕ
c_other c = c_inside c - c_pending c

p_parts : (ps : List Producing) → total p_pending ps + total p_other ps ≤ total p_inside ps
p_parts = total-add-le p_pending p_other p_inside (λ p. ground arith)

c_parts : (cs : List Consuming) → total c_pending cs + total c_other cs ≤ total c_inside cs
c_parts = total-add-le c_pending c_other c_inside (λ c. ground arith)

PKnows-other :
    (m m' : SharedMemory) (p : Producing)
    → (m'.write_index ≡ m.write_index) ⊎ (p_inside p ≡ 0)
    → PKnows m p.pc
    → PKnows m' p.pc
PKnows-other m m' p h k = ground arith

CKnows-other :
    (m m' : SharedMemory) (c : Consuming)
    → (m'.read_index ≡ m.read_index) ⊎ (c_inside c ≡ 0)
    → CKnows m c.pc
    → CKnows m' c.pc
CKnows-other m m' c h k = ground arith

pub producer-Inv :
    (s : Processes) (put got : List ℤ) (rand i : ℕ) (p : Producing)
    → get_elem? s.producers i ≡ some p
    → Inv s put got
    → (let (m', p') = produce_at rand p.pc p.num_ops p.local_sum s.mem in
        Inv (record s { mem = m'; producers = set s.producers i p' }) (put ++ stored_by p.pc) got)
producer-Inv s put got rand i p h v =
    let ps = s.producers in
    let (m', p') = produce_at rand p.pc p.num_ops p.local_sum s.mem in
    let mv = produce_at-PMove rand p.pc p.num_ops p.local_sum s.mem (v.p_knows i p h) v.write_in in
    let more = length-append put (stored_by p.pc) in
    record {
      p_section = omega (arith, mv.section, v.p_section, total-set p_inside ps i p p' h);
      c_section = omega (arith, mv.other_section, v.c_section);
      empty = omega (arith, mv.empty, v.empty, more, total-set p_claims ps i p p' h);
      filled = omega (arith, mv.filled, v.filled, more, total-set p_owes ps i p p' h);
      write_at = omega (
        arith,
        mv.index,
        v.write_at,
        more,
        total-set p_pending ps i p p' h,
        weight-le-total p_pending ps i p h,
      );
      write_in = mv.in_range;
      read_at = ap (λ r. (r + total c_pending s.consumers) % 128) mv.other_index ∙ v.read_at;
      read_in_range = omega (arith, mv.other_index, v.read_in_range);
      cells = produce_at-Cells rand p.pc p.num_ops p.local_sum s.mem put v.cells (λ two. omega (
        arith,
        v.write_at,
        v.write_in,
        v.p_section,
        p_parts ps,
        weight-le-total p_other ps i p h,
        store_is_other p two,
      ));
      p_knows = λ j q g. elim (ℕ_discrete i j) [
        | yes same ↦
            subst (λ (q : Producing). PKnows m' q.pc) (sym (get_elem?-set_eq ps i j p' q g same))
              mv.knows
        | no ne ↦
            let there = get_elem?-set ps i j p' q g ne in
            PKnows-other s.mem m' q
              (elim mv.index_moves [
                | inl same ↦ inl same
                | inr one ↦
                    inr
                      (omega (arith, v.p_section, weights-le-total p_inside ps i j p q ne h there))
              ])
              (v.p_knows j q there)
      ];
      c_knows = λ j c g. CKnows-other s.mem m' c (inl mv.other_index) (v.c_knows j c g);
    }
  where
    store_is_other : (p : Producing) → p_inside p + p_claims p ≡ 2 → p_other p ≡ 1
    store_is_other p two = ground arith

-- What a consumer that stands at its read finds there.
pub found-IsLate :
    (s : Processes) (put got : List ℤ) (i : ℕ) (ops : ℕ) (sum : ℤ)
    → get_elem? s.consumers i
      ≡ some (record { pc = ConsumePc.read; num_ops = ops; local_sum = sum })
    → Inv s put got
    → IsLate put (length got) (get_or s.mem.buf s.mem.read_index (pos 0))
found-IsLate s put got i ops sum h v =
    let c : Consuming = record { pc = ConsumePc.read; num_ops = ops; local_sum = sum } in
    let cs = s.consumers in
    let some_left : length got < length put =
      omega (arith, v.filled, weight-le-total c_claims cs i c h) in
    let no_more : length put ≤ length got + 128 = omega (arith, v.empty) in
    let quiet : total c_pending cs ≡ 0 =
      omega (arith, v.c_section, c_parts cs, weight-le-total c_other cs i c h) in
    read-IsLate s.mem.buf put (length got) s.mem.read_index v.cells some_left no_more
      (omega (arith, v.read_at, v.read_in_range, quiet))

pub consumer-Inv :
    (s : Processes) (put got : List ℤ) (i : ℕ) (c : Consuming)
    → get_elem? s.consumers i ≡ some c
    → Inv s put got
    → (let (m', c') = consume_at c.pc c.num_ops c.local_sum s.mem in
        Inv
          (record s { mem = m'; consumers = set s.consumers i c' })
          put
          (got ++ read_by s.mem c.pc))
consumer-Inv s put got i c h v =
    let cs = s.consumers in
    let (m', c') = consume_at c.pc c.num_ops c.local_sum s.mem in
    let mv = consume_at-CMove c.pc c.num_ops c.local_sum s.mem (v.c_knows i c h) v.read_in_range in
    let more = length-append got (read_by s.mem c.pc) in
    record {
      p_section = omega (arith, mv.other_section, v.p_section);
      c_section = omega (arith, mv.section, v.c_section, total-set c_inside cs i c c' h);
      empty = omega (arith, mv.empty, v.empty, more, total-set c_owes cs i c c' h);
      filled = omega (arith, mv.filled, v.filled, more, total-set c_claims cs i c c' h);
      write_at = ap (λ w. (w + total p_pending s.producers) % 128) mv.other_index ∙ v.write_at;
      write_in = omega (arith, mv.other_index, v.write_in);
      read_at = omega (
        arith,
        mv.index,
        v.read_at,
        more,
        total-set c_pending cs i c c' h,
        weight-le-total c_pending cs i c h,
      );
      read_in_range = mv.in_range;
      cells = subst (λ b. Cells b put) (sym mv.buf) v.cells;
      p_knows = λ j p g. PKnows-other s.mem m' p (inl mv.other_index) (v.p_knows j p g);
      c_knows = λ j d g. elim (ℕ_discrete i j) [
        | yes same ↦
            subst (λ (d : Consuming). CKnows m' d.pc) (sym (get_elem?-set_eq cs i j c' d g same))
              mv.knows
        | no ne ↦
            let there = get_elem?-set cs i j c' d g ne in
            CKnows-other s.mem m' d
              (elim mv.index_moves [
                | inl same ↦ inl same
                | inr one ↦
                    inr
                      (omega (arith, v.c_section, weights-le-total c_inside cs i j c d ne h there))
              ])
              (v.c_knows j d there)
      ];
    }
