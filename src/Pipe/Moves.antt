-- ===== src/Pipe/Moves.antt =====
-- Lab06/src/02 Pipe/main.c: what a step of a writer puts into the pipe.
use esercitazioni_sistemi_di.Base.{
  ℕ, ◌+◌, ◌-◌, ◌*◌, ◌≤◌, ◌<◌, ◌≡◌, ◌⊎◌, inl, inr, refl, sym, ap, ap₂, ◌∙◌, Bool, false, List, [],
  ◌∷◌, ◌++◌, length, replicate, take, drop, min, ltb, ◌==◌, if_cases, arith, tests, append-nil,
  take-add, length-take, length-replicate, All, get_or-replicate, same_cells, take_of_length_le,
}
use esercitazioni_sistemi_di.Pipe.{create_from, create_msg}
use esercitazioni_sistemi_di.Pipe.Check.{create_from-length, create_from-value}
use esercitazioni_sistemi_di.Pipe.Processes.{
  as_bytes, Shared, WriterPc, writing, Writer, bytes_put, writer_at,
}

-- What a message of the value `v` is in the pipe, and several after another.
abbrev pub message : ℕ → ℕ → List ℕ
message elems v = as_bytes (replicate elems v)

abbrev pub messages : ℕ → List ℕ → List ℕ
messages elems [] = []
messages elems (v ∷ vs) = message elems v ++ messages elems vs

length-as_bytes : (xs : List ℕ) → length (as_bytes xs) ≡ 4 * length xs
length-as_bytes [] = omega arith
length-as_bytes (x ∷ xs) = omega (arith, length-as_bytes xs)

pub length-message : (elems v : ℕ) → length (message elems v) ≡ 4 * elems
length-message elems v =
    length-as_bytes (replicate elems v) ∙ ap (λ k. 4 * k) (length-replicate elems v)

create_msg-fills :
    (xs : List ℕ) (elems v : ℕ) → length xs ≡ elems → create_msg xs elems v ≡ replicate elems v
unfolding create_msg
create_msg-fills xs elems v e = same_cells _ _ (size ∙ sym (length-replicate elems v)) (λ i lt.
    let below : i < elems = omega (arith, size) in
    create_from-value elems 0 xs v i (omega arith) (omega arith) (omega arith)
    ∙ sym (get_or-replicate elems i v below))
  where
    size : length (create_from elems 0 xs v) ≡ elems
    size = create_from-length elems 0 xs v ∙ e

abbrev pub w_inside : Writer → ℕ
w_inside w = elim w.pc [ writing _ _ ↦ 1 | WriterPc.post_mutex ↦ 1 | _ ↦ 0 ]

-- What a writer that is not interrupted knows; `part` is what stands in the pipe of a message that is
-- not complete.
abbrev pub WKnows : ℕ → WriterPc → ℕ → List ℕ → List ℕ → Type 0
WKnows elems WriterPc.wait_mutex i data_elems part = (i < 6) × (data_elems ≡ replicate elems i)
WKnows elems (writing wi sent) i data_elems part =
    (i < 6)
    × (data_elems ≡ replicate elems i)
    × (wi ≡ 0)
    × (sent < 4 * elems)
    × (part ≡ take sent (message elems i))
WKnows elems WriterPc.post_mutex i data_elems part = part ≡ []
WKnows elems pc i data_elems part = Unit {0}

-- A step of a writer: the messages that it completes, and what is then in the pipe of the next.
pub record WMove (elems : ℕ) (sh sh' : Shared) (w w' : Writer) (part put : List ℕ) : Type 0 where
  pub new : List ℕ
  pub part' : List ℕ
  pub section : sh'.write_mutex + w_inside w' ≡ sh.write_mutex + w_inside w
  pub other_section : sh'.read_mutex ≡ sh.read_mutex
  pub pipe : sh'.pipe ≡ sh.pipe ++ put
  pub stream : part ++ put ≡ messages elems new ++ part'
  pub values : All (λ v. v < 6) new
  pub moves : (part' ≡ part) ⊎ (w_inside w ≡ 1)
  pub complete : (part' ≡ []) ⊎ (sh'.write_mutex ≡ 0)
  pub size : length w'.data_elems ≡ elems
  pub short : length part < 4 * elems → length part' < 4 * elems
  pub knows : WKnows elems w'.pc w'.i w'.data_elems part'

-- A step that puts nothing into the pipe.
puts_none :
    (elems : ℕ) (sh sh' : Shared) (w w' : Writer) (part : List ℕ)
    → sh'.write_mutex + w_inside w' ≡ sh.write_mutex + w_inside w
    → sh'.read_mutex ≡ sh.read_mutex
    → sh'.pipe ≡ sh.pipe
    → (part ≡ []) ⊎ (sh'.write_mutex ≡ 0)
    → length w'.data_elems ≡ elems
    → WKnows elems w'.pc w'.i w'.data_elems part
    → WMove elems sh sh' w w' part []
puts_none elems sh sh' w w' part section other pipe complete size knows = record {
  new = [];
  part' = part;
  section = section;
  other_section = other;
  pipe = pipe ∙ sym (append-nil sh.pipe);
  stream = append-nil part;
  values = tt;
  moves = inl refl;
  complete = complete;
  size = size;
  short = λ lt. lt;
  knows = knows;
}

-- What stands in the pipe after a part of a call.
more_of :
    (elems n wi sent i : ℕ) (data_elems part : List ℕ)
    → wi ≡ 0
    → data_elems ≡ replicate elems i
    → part ≡ take sent (message elems i)
    → part ++ bytes_put elems n (writing wi sent) data_elems
      ≡ take (sent + min n (4 * elems - wi - sent)) (message elems i)
unfolding bytes_put
more_of elems n wi sent i data_elems part e d p =
    ap₂ (λ (a b : List ℕ). a ++ b) p
      (ap₂ (λ (k : ℕ) (xs : List ℕ). take (min n (4 * elems - wi - sent)) (drop k (as_bytes xs)))
        {x = 4 * wi + sent} {y = sent} (omega arith) d)
    ∙ sym (take-add sent (min n (4 * elems - wi - sent)) (message elems i))

writing-WMove :
    (elems n wi sent i : ℕ) (stop : Bool) (data_elems : List ℕ) (sh : Shared) (part : List ℕ)
    → stop ≡ false
    → length data_elems ≡ elems
    → WKnows elems (writing wi sent) i data_elems part
    → sh.write_mutex ≡ 0
    → (let pc = writing wi sent in
        let (sh', w') = writer_at elems n stop pc i data_elems sh in
        WMove elems sh sh'
          (record { pc = pc; i = i; data_elems = data_elems })
          w'
          part
          (bytes_put elems n pc data_elems))
unfolding writer_at
writing-WMove elems n wi sent i stop data_elems sh part calm size
      (lt, filled, none_yet, short, is_part) closed =
    let w : Writer = record { pc = writing wi sent; i = i; data_elems = data_elems } in
    let ret = min n (4 * elems - wi - sent) in
    let sent' = sent + ret in
    let put = bytes_put elems n (writing wi sent) data_elems in
    let sh' : Shared = record sh { pipe = sh.pipe ++ put } in
    let bytes = more_of elems n wi sent i data_elems part none_yet filled is_part in
    if_cases
      (λ (pc : WriterPc).
        WMove elems sh sh' w (record { pc = pc; i = i; data_elems = data_elems }) part put)
      (wi + sent' == 4 * elems) _ _
      (λ e.
        let full : wi + sent' ≡ 4 * elems = ground arith in
        record {
          new = i ∷ [];
          part' = [];
          section = refl;
          other_section = refl;
          pipe = refl;
          stream =
              bytes
              ∙ take_of_length_le sent' (message elems i)
                  (omega (arith, length-message elems i, full))
              ∙ sym (append-nil (message elems i))
              ∙ sym (append-nil (message elems i ++ []));
          values = (lt, tt);
          moves = inr refl;
          complete = inl refl;
          size = size;
          short = λ lt. omega arith;
          knows = refl;
        })
      (λ ne.
        if_cases
          (λ (pc : WriterPc).
            WMove elems sh sh' w (record { pc = pc; i = i; data_elems = data_elems }) part put)
          stop _ _ (λ e. absurd (ground arith))
          (λ _. record {
            new = [];
            part' = take sent' (message elems i);
            section = refl;
            other_section = refl;
            pipe = refl;
            stream = bytes;
            values = tt;
            moves = inr refl;
            complete = inr closed;
            size = size;
            short = λ lt. ground (arith, length-take sent' (message elems i));
            knows = (lt, filled, none_yet, ground arith, refl);
          }))

pub writer_at-WMove :
    (elems n : ℕ) (stop : Bool) (pc : WriterPc) (i : ℕ) (data_elems : List ℕ) (sh : Shared)
    (part : List ℕ)
    → stop ≡ false
    → 0 < elems
    → length data_elems ≡ elems
    → WKnows elems pc i data_elems part
    → (part ≡ []) ⊎ (sh.write_mutex ≡ 0)
    → (let w : Writer = record { pc = pc; i = i; data_elems = data_elems } in
        sh.write_mutex + w_inside w ≤ 1
        → (let (sh', w') = writer_at elems n stop pc i data_elems sh in
            WMove elems sh sh' w w' part (bytes_put elems n pc data_elems)))
unfolding writer_at
writer_at-WMove elems n stop WriterPc.head i data_elems sh part calm some_elems size k complete le =
    if_cases
      (λ (r : Shared × Writer).
        WMove elems sh r.0 (record { pc = WriterPc.head; i = i; data_elems = data_elems }) r.1 part
          [])
      (ltb i 6) _ _
      (λ lt.
        let filled = create_msg-fills data_elems elems i size in
        puts_none elems sh _ _ _ part refl refl refl complete
          (ap length filled ∙ length-replicate elems i) (omega tests, filled))
      (λ ge. puts_none elems sh _ _ _ part refl refl refl complete size tt)
writer_at-WMove elems n stop WriterPc.wait_mutex i data_elems sh part calm some_elems size k
      complete le =
    if_cases
      (λ (r : Shared × Writer).
        WMove elems sh r.0 (record { pc = WriterPc.wait_mutex; i = i; data_elems = data_elems }) r.1
          part [])
      (sh.write_mutex == 0) _ _ (λ e. puts_none elems sh _ _ _ part refl refl refl complete size k)
      (λ ne.
        let empty : part ≡ [] = elim complete [ inl e ↦ e | inr z ↦ absurd (ground arith) ] in
        puts_none elems sh _ _ _ part (ground arith) refl refl (inl empty) size
          (k.0, k.1, refl, omega arith, empty))
writer_at-WMove elems n stop (writing wi sent) i data_elems sh part calm some_elems size k complete
      le =
    writing-WMove elems n wi sent i stop data_elems sh part calm size k (omega arith)
writer_at-WMove elems n stop WriterPc.post_mutex i data_elems sh part calm some_elems size k
      complete le =
    puts_none elems sh _ _ _ part (omega arith) refl refl (inl k) size tt
writer_at-WMove elems n stop WriterPc.ended i data_elems sh part calm some_elems size k complete
      le =
    puts_none elems sh _ _ _ part refl refl refl complete size tt
