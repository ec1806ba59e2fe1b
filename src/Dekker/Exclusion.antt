-- ===== src/Dekker/Exclusion.antt =====
-- Esercizi_Personali/dekker.c: the invariant is a test on a state, and a statement on all states is
-- decided by trying them.
use esercitazioni_sistemi_di.Base.{
  ◌≡◌, refl, Bool, true, false, ◌&&◌, ◌||◌, not, List, [], ◌∷◌, ◌++◌, arith,
}
use esercitazioni_sistemi_di.Dekker.{
  Process, p0, p1, Place, raise_flag, test_flag, test_turn, lower_flag, wait_turn, raise_again,
  critical, give_turn, leave, ended, System, init, same, step, run, dekker_at,
}

and_left : (a b : Bool) → (a && b) ≡ true → a ≡ true
and_left true b h = refl
and_left false b h = h

and_right : (a b : Bool) → (a && b) ≡ true → b ≡ true
and_right true b h = h
and_right false b h = absurd (ground arith)

or_right : (a b : Bool) → (not a || b) ≡ true → a ≡ true → b ≡ true
or_right true b h e = h
or_right false b h e = absurd (ground arith)

-- Tests on all values of a finite type.
abbrev all_bools : (Bool → Bool) → Bool
all_bools f = f true && f false

all_bools_sound : (f : Bool → Bool) → all_bools f ≡ true → (b : Bool) → f b ≡ true
all_bools_sound f h true = and_left (f true) (f false) h
all_bools_sound f h false = and_right (f true) (f false) h

abbrev all_processes : (Process → Bool) → Bool
all_processes f = f p0 && f p1

all_processes_sound : (f : Process → Bool) → all_processes f ≡ true → (p : Process) → f p ≡ true
all_processes_sound f h p0 = and_left (f p0) (f p1) h
all_processes_sound f h p1 = and_right (f p0) (f p1) h

abbrev all_places : (Place → Bool) → Bool
all_places f =
    (f raise_flag && f test_flag && f test_turn && f lower_flag && f wait_turn)
    && (f raise_again && f critical && f give_turn && f leave && f ended)

all_places_sound : (f : Place → Bool) → all_places f ≡ true → (l : Place) → f l ≡ true
all_places_sound f h raise_flag = ground arith
all_places_sound f h test_flag = ground arith
all_places_sound f h test_turn = ground arith
all_places_sound f h lower_flag = ground arith
all_places_sound f h wait_turn = ground arith
all_places_sound f h raise_again = ground arith
all_places_sound f h critical = ground arith
all_places_sound f h give_turn = ground arith
all_places_sound f h leave = ground arith
all_places_sound f h ended = ground arith

abbrev all_states : (System → Bool) → Bool
all_states f = all_bools (λ b. all_bools (λ c. all_processes (λ t. all_places (λ l.
    all_places (λ m. f (record { flag0 = b; flag1 = c; turn = t; place0 = l; place1 = m }))))))

all_states_sound : (f : System → Bool) → all_states f ≡ true → (s : System) → f s ≡ true
all_states_sound f h s =
    let at : Bool → Bool → Process → Place → Place → Bool =
      λ b c t l m. f (record { flag0 = b; flag1 = c; turn = t; place0 = l; place1 = m }) in
    let h1 =
      all_bools_sound
        (λ b.
          all_bools (λ c. all_processes (λ t. all_places (λ l. all_places (λ m. at b c t l m)))))
        h s.flag0 in
    let h2 =
      all_bools_sound
        (λ c. all_processes (λ t. all_places (λ l. all_places (λ m. at s.flag0 c t l m)))) h1
        s.flag1 in
    let h3 =
      all_processes_sound (λ t. all_places (λ l. all_places (λ m. at s.flag0 s.flag1 t l m))) h2
        s.turn in
    let h4 = all_places_sound (λ l. all_places (λ m. at s.flag0 s.flag1 s.turn l m)) h3 s.place0 in
    all_places_sound (λ m. at s.flag0 s.flag1 s.turn s.place0 m) h4 s.place1

-- Whether the flag of a process at this place is raised, whether it is in its critical section, and
-- whether it has given the turn away.
abbrev raised : Place → Bool
raised raise_flag = false
raised wait_turn = false
raised raise_again = false
raised ended = false
raised l = true

abbrev pub in_critical : Place → Bool
in_critical critical = true
in_critical give_turn = true
in_critical leave = true
in_critical l = false

abbrev gave : Place → Bool
gave leave = true
gave ended = true
gave l = false

abbrev pub has_ended : Place → Bool
has_ended ended = true
has_ended l = false

abbrev iff : Bool → Bool → Bool
iff true b = b
iff false b = not b

-- The invariant: each flag follows its process's place; the two are not in their critical sections
-- together; and a turn that a process has given away is back only if the other has given it too.
abbrev invariant : System → Bool
invariant s =
    iff s.flag0 (raised s.place0)
    && iff s.flag1 (raised s.place1)
    && not (in_critical s.place0 && in_critical s.place1)
    && (not (gave s.place0 && same s.turn p0) || gave s.place1)
    && (not (gave s.place1 && same s.turn p1) || gave s.place0)

-- Each of the two processes runs six steps, in turn, six times.
abbrev plan : List Process
plan =
    let p = p0 ∷ p0 ∷ p0 ∷ p0 ∷ p0 ∷ p0 ∷ [] in
    let q = p1 ∷ p1 ∷ p1 ∷ p1 ∷ p1 ∷ p1 ∷ [] in
    p ++ q ++ p ++ q ++ p ++ q ++ p ++ q ++ p ++ q ++ p ++ q

abbrev both_ended : System → Bool
both_ended s = has_ended s.place0 && has_ended s.place1

-- From a state with the invariant: both steps keep it, it excludes, and the plan ends.
abbrev kept_at : System → Bool
kept_at s = not (invariant s) || (invariant (step p0 s) && invariant (step p1 s))

abbrev exclusive_at : System → Bool
exclusive_at s = not (invariant s) || not (in_critical s.place0 && in_critical s.place1)

abbrev ends_at : System → Bool
ends_at s = not (invariant s) || both_ended (run plan s)

all_kept : all_states kept_at ≡ true
unfolding step dekker_at
all_kept = refl

all_exclusive : all_states exclusive_at ≡ true
all_exclusive = refl

all_end : all_states ends_at ≡ true
unfolding run step dekker_at
all_end = refl

keeps : (p : Process) (s : System) → invariant s ≡ true → invariant (step p s) ≡ true
keeps p0 s v =
    and_left (invariant (step p0 s)) (invariant (step p1 s))
      (or_right (invariant s) _ (all_states_sound kept_at all_kept s) v)
keeps p1 s v =
    and_right (invariant (step p0 s)) (invariant (step p1 s))
      (or_right (invariant s) _ (all_states_sound kept_at all_kept s) v)

run_keeps : (ps : List Process) (s : System) → invariant s ≡ true → invariant (run ps s) ≡ true
unfolding run
run_keeps [] s v = v
run_keeps (p ∷ ps) s v = run_keeps ps (step p s) (keeps p s v)

-- Whatever the interleaving of their accesses to `flag` and `turn`, the two processes are never in
-- their critical sections at the same time.
pub mutual_exclusion :
    (ps : List Process)
    → (in_critical (run ps init).place0 && in_critical (run ps init).place1) ≡ false
mutual_exclusion ps =
    let s = run ps init in
    let free =
      or_right (invariant s) _ (all_states_sound exclusive_at all_exclusive s)
        (run_keeps ps init refl) in
    ground arith

-- Nothing is lost: whatever the interleaving so far, the processes can go on so that both leave
-- `dekker`.
pub can_leave :
    (ps : List Process)
    → (qs : List Process) × (let s = run qs (run ps init) in
        (has_ended s.place0 && has_ended s.place1) ≡ true)
can_leave ps =
    let s = run ps init in
    (plan, or_right (invariant s) _ (all_states_sound ends_at all_end s) (run_keeps ps init refl))
