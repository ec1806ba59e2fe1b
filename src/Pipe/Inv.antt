-- ===== src/Pipe/Inv.antt =====
-- Lab06/src/02 Pipe/main.c: the invariant of the readers and the writers.
use esercitazioni_sistemi_di.Base.{
  ℕ, ◌+◌, ◌*◌, ◌<◌, ◌≡◌, ◌⊎◌, inl, inr, refl, sym, ap, subst, ◌∙◌, Bool, false, some, List, [], ◌∷◌,
  ◌++◌, length, set, get_elem?, arith, append_assoc, length-append, ℕ_discrete, All,
}
use esercitazioni_sistemi_di.Base.Threads.{
  total, total-set, weight-le-total, weights-le-total, get_elem?-set, get_elem?-set_eq,
}
use native.Mathlib.Nat.{add-mul}
use esercitazioni_sistemi_di.Pipe.Processes.{
  WriterPc, writing, Writer, Reader, bytes_put, writer_at, bytes_got, reader_at, System,
}
use esercitazioni_sistemi_di.Pipe.Moves.{message, messages, w_inside, WKnows, writer_at-WMove}
use esercitazioni_sistemi_di.Pipe.Takes.{r_inside, r_done, reader_at-RMove}

-- `put` and `got` are the bytes that have gone into the pipe and come out of it.
pub record Inv (elems : ℕ) (s : System) (put got : List ℕ) : Type 0 where
  pub w_section : s.shared.write_mutex + total w_inside s.writers ≡ 1
  pub r_section : s.shared.read_mutex + total r_inside s.readers ≡ 1
  pub values : List ℕ
  pub part : List ℕ
  pub stream : put ≡ messages elems values ++ part
  pub small : All (λ v. v < 6) values
  pub complete : (part ≡ []) ⊎ (s.shared.write_mutex ≡ 0)
  pub short : length part < 4 * elems
  pub pipe : got ++ s.shared.pipe ≡ put
  pub rounds : ℕ
  pub count : length got ≡ rounds * (4 * elems) + total r_done s.readers
  pub w_size : (k : ℕ) (w : Writer) → get_elem? s.writers k ≡ some w → length w.data_elems ≡ elems
  pub w_knows :
      (k : ℕ) (w : Writer)
      → get_elem? s.writers k ≡ some w
      → WKnows elems w.pc w.i w.data_elems part

messages-append :
    (elems : ℕ) (xs ys : List ℕ)
    → messages elems (xs ++ ys) ≡ messages elems xs ++ messages elems ys
messages-append elems [] ys = refl
messages-append elems (x ∷ xs) ys =
    ap (λ l. message elems x ++ l) (messages-append elems xs ys)
    ∙ sym (append_assoc (message elems x) (messages elems xs) (messages elems ys))

All-join : (P : ℕ → Type 0) (xs ys : List ℕ) → All P xs → All P ys → All P (xs ++ ys)
All-join P [] ys a b = b
All-join P (x ∷ xs) ys a b = (a.0, All-join P xs ys a.1 b)

-- What a writer knows when another one, which is inside, moves.
WKnows-other :
    (elems : ℕ) (pc : WriterPc) (i : ℕ) (data_elems part part' : List ℕ)
    → (part' ≡ part) ⊎ (w_inside (record { pc = pc; i = i; data_elems = data_elems }) ≡ 0)
    → WKnows elems pc i data_elems part
    → WKnows elems pc i data_elems part'
WKnows-other elems WriterPc.head i data_elems part part' h k = tt
WKnows-other elems WriterPc.wait_mutex i data_elems part part' h k = k
WKnows-other elems (writing wi sent) i data_elems part part' (inl e) k =
    (k.0, k.1, k.2, k.3, e ∙ k.4)
WKnows-other elems (writing wi sent) i data_elems part part' (inr z) k = absurd (omega arith)
WKnows-other elems WriterPc.post_mutex i data_elems part part' (inl e) k = e ∙ k
WKnows-other elems WriterPc.post_mutex i data_elems part part' (inr z) k = absurd (omega arith)
WKnows-other elems WriterPc.ended i data_elems part part' h k = tt

pub writer-Inv :
    (elems : ℕ) (s : System) (put got : List ℕ) (k n : ℕ) (stop : Bool) (w : Writer)
    → stop ≡ false
    → 0 < elems
    → get_elem? s.writers k ≡ some w
    → Inv elems s put got
    → (let (sh', w') = writer_at elems n stop w.pc w.i w.data_elems s.shared in
        Inv elems
          (record s { shared = sh'; writers = set s.writers k w' })
          (put ++ bytes_put elems n w.pc w.data_elems)
          got)
writer-Inv elems s put got k n stop w calm some_elems h v =
    let ws = s.writers in
    let (sh', w') = writer_at elems n stop w.pc w.i w.data_elems s.shared in
    let new_bytes = bytes_put elems n w.pc w.data_elems in
    let mv =
      writer_at-WMove elems n stop w.pc w.i w.data_elems s.shared v.part calm some_elems
        (v.w_size k w h) (v.w_knows k w h) v.complete
        (omega (arith, v.w_section, weight-le-total w_inside ws k w h)) in
    record {
      w_section = omega (arith, mv.section, v.w_section, total-set w_inside ws k w w' h);
      r_section = omega (arith, mv.other_section, v.r_section);
      values = v.values ++ mv.new;
      part = mv.part';
      stream =
          ap (λ l. l ++ new_bytes) v.stream
          ∙ append_assoc (messages elems v.values) v.part new_bytes
          ∙ ap (λ l. messages elems v.values ++ l) mv.stream
          ∙ sym (append_assoc (messages elems v.values) (messages elems mv.new) mv.part')
          ∙ ap (λ l. l ++ mv.part') (sym (messages-append elems v.values mv.new));
      small = All-join (λ v. v < 6) v.values mv.new v.small mv.values;
      complete = mv.complete;
      short = mv.short v.short;
      pipe =
          ap (λ l. got ++ l) mv.pipe
          ∙ sym (append_assoc got s.shared.pipe new_bytes)
          ∙ ap (λ l. l ++ new_bytes) v.pipe;
      rounds = v.rounds;
      count = v.count;
      w_size = λ j u g. elim (ℕ_discrete k j) [
        | yes same ↦
            ap (λ (u : Writer). length u.data_elems) (get_elem?-set_eq ws k j w' u g same) ∙ mv.size
        | no ne ↦ v.w_size j u (get_elem?-set ws k j w' u g ne)
      ];
      w_knows = λ j u g. elim (ℕ_discrete k j) [
        | yes same ↦
            subst (λ (u : Writer). WKnows elems u.pc u.i u.data_elems mv.part')
              (sym (get_elem?-set_eq ws k j w' u g same)) mv.knows
        | no ne ↦
            let there = get_elem?-set ws k j w' u g ne in
            WKnows-other elems u.pc u.i u.data_elems v.part mv.part'
              (elim mv.moves [
                | inl same ↦ inl same
                | inr one ↦
                    inr
                      (omega (arith, v.w_section, weights-le-total w_inside ws k j w u ne h there))
              ])
              (v.w_knows j u there)
      ];
    }

pub reader-Inv :
    (elems : ℕ) (s : System) (put got : List ℕ) (k n : ℕ) (r : Reader)
    → get_elem? s.readers k ≡ some r
    → Inv elems s put got
    → (let (sh', r') = reader_at elems n r.pc r.i r.data_bytes s.shared in
        Inv elems
          (record s { shared = sh'; readers = set s.readers k r' })
          put
          (got ++ bytes_got elems n r.pc s.shared.pipe))
reader-Inv elems s put got k n r h v =
    let rs = s.readers in
    let (sh', r') = reader_at elems n r.pc r.i r.data_bytes s.shared in
    let new_bytes = bytes_got elems n r.pc s.shared.pipe in
    let mv = reader_at-RMove elems n r.pc r.i r.data_bytes s.shared in
    record {
      w_section = omega (arith, mv.other_section, v.w_section);
      r_section = omega (arith, mv.section, v.r_section, total-set r_inside rs k r r' h);
      values = v.values;
      part = v.part;
      stream = v.stream;
      small = v.small;
      complete = elim v.complete [ inl e ↦ inl e | inr z ↦ inr (mv.other_section ∙ z) ];
      short = v.short;
      pipe = append_assoc got new_bytes sh'.pipe ∙ ap (λ l. got ++ l) mv.pipe ∙ v.pipe;
      rounds = v.rounds + mv.rounds;
      count = omega (
        arith,
        v.count,
        mv.count,
        length-append got new_bytes,
        add-mul v.rounds mv.rounds (4 * elems),
        total-set r_done rs k r r' h,
      );
      w_size = v.w_size;
      w_knows = v.w_knows;
    }
