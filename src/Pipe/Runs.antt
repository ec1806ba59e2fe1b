-- ===== src/Pipe/Runs.antt =====
-- Lab06/src/02 Pipe/main.c: the bytes put and got over a run, and the invariant in every run.
use esercitazioni_sistemi_di.Base.{
  ℕ, ◌*◌, ◌<◌, ◌≡◌, inl, refl, sym, ap, subst, subst₂, ◌∙◌, Bool, false, Option, none, some, List,
  [], ◌∷◌, ◌++◌, length, replicate, get_elem?, arith, append-nil, append_assoc, length-replicate,
  All,
}
use esercitazioni_sistemi_di.Base.Threads.{total-replicate, get_elem?-replicate}
use esercitazioni_sistemi_di.Pipe.Processes.{
  WriterPc, Writer, ReaderPc, Reader, bytes_put, bytes_got, System, Turn, writer, reader,
  move_writer, move_reader, step, run, forked,
}
use esercitazioni_sistemi_di.Pipe.Moves.{w_inside, WKnows}
use esercitazioni_sistemi_di.Pipe.Takes.{r_inside, r_done}
use esercitazioni_sistemi_di.Pipe.Inv.{Inv, writer-Inv, reader-Inv}

-- whether a call of `write` is interrupted in this turn
abbrev pub interrupts : Turn → Bool
interrupts (writer k n stop) = stop
interrupts (reader k n) = false

abbrev put_by : ℕ → ℕ → Option Writer → List ℕ
put_by elems n none = []
put_by elems n (some w) = bytes_put elems n w.pc w.data_elems

abbrev got_by : ℕ → ℕ → List ℕ → Option Reader → List ℕ
got_by elems n pipe none = []
got_by elems n pipe (some r) = bytes_got elems n r.pc pipe

abbrev put_in : ℕ → System → Turn → List ℕ
put_in elems s (writer k n stop) = put_by elems n (get_elem? s.writers k)
put_in elems s (reader k n) = []

abbrev got_in : ℕ → System → Turn → List ℕ
got_in elems s (writer k n stop) = []
got_in elems s (reader k n) = got_by elems n s.shared.pipe (get_elem? s.readers k)

-- All bytes that the writers put into the pipe over a run, and all that the readers take.
unfoldable pub all_put : ℕ → System → List Turn → List ℕ
unfolding step
all_put elems s [] = []
all_put elems s (t ∷ ts) = put_in elems s t ++ all_put elems (step elems s t) ts

unfoldable pub all_got : ℕ → System → List Turn → List ℕ
unfolding step
all_got elems s [] = []
all_got elems s (t ∷ ts) = got_in elems s t ++ all_got elems (step elems s t) ts

move_writer-Inv :
    (elems : ℕ) (s : System) (put got : List ℕ) (k n : ℕ) (stop : Bool) (o : Option Writer)
    → stop ≡ false
    → 0 < elems
    → get_elem? s.writers k ≡ o
    → Inv elems s put got
    → Inv elems (move_writer elems s k n stop o) (put ++ put_by elems n o) got
unfolding move_writer
move_writer-Inv elems s put got k n stop none calm some_elems h v =
    subst (λ l. Inv elems s l got) (sym (append-nil put)) v
move_writer-Inv elems s put got k n stop (some w) calm some_elems h v =
    writer-Inv elems s put got k n stop w calm some_elems h v

move_reader-Inv :
    (elems : ℕ) (s : System) (put got : List ℕ) (k n : ℕ) (o : Option Reader)
    → get_elem? s.readers k ≡ o
    → Inv elems s put got
    → Inv elems (move_reader elems s k n o) put (got ++ got_by elems n s.shared.pipe o)
unfolding move_reader
move_reader-Inv elems s put got k n none h v = subst (Inv elems s put) (sym (append-nil got)) v
move_reader-Inv elems s put got k n (some r) h v = reader-Inv elems s put got k n r h v

step-Inv :
    (elems : ℕ) (s : System) (put got : List ℕ) (t : Turn)
    → interrupts t ≡ false
    → 0 < elems
    → Inv elems s put got
    → Inv elems (step elems s t) (put ++ put_in elems s t) (got ++ got_in elems s t)
unfolding step
step-Inv elems s put got (writer k n stop) calm some_elems v =
    subst (Inv elems (step elems s (writer k n stop)) (put ++ put_in elems s (writer k n stop)))
      (sym (append-nil got)) (move_writer-Inv elems s put got k n stop _ calm some_elems refl v)
step-Inv elems s put got (reader k n) calm some_elems v =
    subst (λ l. Inv elems (step elems s (reader k n)) l (got ++ got_in elems s (reader k n)))
      (sym (append-nil put)) (move_reader-Inv elems s put got k n _ refl v)

run-Inv :
    (elems : ℕ) (s : System) (put got : List ℕ) (ts : List Turn)
    → All (λ t. interrupts t ≡ false) ts
    → 0 < elems
    → Inv elems s put got
    → Inv elems (run elems s ts) (put ++ all_put elems s ts) (got ++ all_got elems s ts)
unfolding run all_put all_got
run-Inv elems s put got [] calm some_elems v =
    subst₂ (Inv elems s) (sym (append-nil put)) (sym (append-nil got)) v
run-Inv elems s put got (t ∷ ts) calm some_elems v =
    subst₂ (Inv elems (run elems (step elems s t) ts)) (append_assoc put (put_in elems s t) _)
      (append_assoc got (got_in elems s t) _)
      (run-Inv elems (step elems s t) (put ++ put_in elems s t) (got ++ got_in elems s t) ts calm.1
        some_elems (step-Inv elems s put got t calm.0 some_elems v))

forked-Inv : (elems nw nr : ℕ) → 0 < elems → Inv elems (forked elems nw nr) [] []
unfolding forked
forked-Inv elems nw nr some_elems =
    let w : Writer = record { pc = WriterPc.head; i = 0; data_elems = replicate elems 0 } in
    let r : Reader = record { pc = ReaderPc.head; i = 0; data_bytes = replicate (4 * elems) 0 } in
    record {
      w_section = omega (arith, total-replicate w_inside nw w refl);
      r_section = omega (arith, total-replicate r_inside nr r refl);
      values = [];
      part = [];
      stream = refl;
      small = tt;
      complete = inl refl;
      short = omega arith;
      pipe = refl;
      rounds = 0;
      count = omega (arith, total-replicate r_done nr r refl);
      w_size = λ k u g.
          ap (λ (u : Writer). length u.data_elems) (get_elem?-replicate nw k w u g)
          ∙ length-replicate elems 0;
      w_knows = λ k u g.
          subst (λ (u : Writer). WKnows elems u.pc u.i u.data_elems [])
            (sym (get_elem?-replicate nw k w u g)) tt;
    }

-- In every run without an interrupted call of `write`.
pub reached-Inv :
    (elems nw nr : ℕ) (ts : List Turn)
    → All (λ t. interrupts t ≡ false) ts
    → 0 < elems
    → (let s = forked elems nw nr in
        Inv elems (run elems s ts) (all_put elems s ts) (all_got elems s ts))
reached-Inv elems nw nr ts calm some_elems =
    run-Inv elems (forked elems nw nr) [] [] ts calm some_elems (forked-Inv elems nw nr some_elems)
