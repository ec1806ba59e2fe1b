-- ===== src/Polling/Inv.antt =====
-- Lab04/code/riepilogo.c: the invariant of the whole program.
use esercitazioni_sistemi_di.Base.{
  ℕ, ◌+◌, ◌≤◌, ◌<◌, ◌≡◌, ◌≢◌, ◌⊎◌, inl, inr, sym, ap, subst, ◌∙◌, Option, some, List, [], ◌∷◌, ◌++◌,
  length, set, get_elem?, get_elem?-lt, arith, length-set, ℕ_discrete, All, append_assoc,
}
use esercitazioni_sistemi_di.Base.Threads.{total, total-set, get_elem?-set, get_elem?-set_eq}
use esercitazioni_sistemi_di.Accesses.{Report}
use esercitazioni_sistemi_di.Accesses.Parse.{occurrences}
use esercitazioni_sistemi_di.Accesses.Inv.{occurrences-other, All-append}
use esercitazioni_sistemi_di.Polling.{
  Shared, Place, post_ready, wait_start, test_halt, create, join, child_ended, Child, Main,
  poll_ready, post_start, post_halt, parse, main_ended, lab04_parse_output, System, Sizes,
}
use esercitazioni_sistemi_di.Polling.Effects.{posted, started, AtPlace, Knows, IsChild, Effect}

-- How often the main process has posted the two semaphores.
abbrev pub let_start : ℕ → Main → ℕ
let_start a (poll_ready check) = 0
let_start a (post_start i) = i
let_start a pl = a

abbrev pub let_halt : ℕ → Main → ℕ
let_halt a (post_halt i) = i
let_halt a parse = a
let_halt a main_ended = a
let_halt a pl = 0

-- The report is of an initial part of the file.
pub record Seen (n : ℕ) (log : List ℕ) (report : Option Report) : Type 0 where
  pub seen : List ℕ
  pub rest : List ℕ
  pub log_is : log ≡ seen ++ rest
  pub report_is : report ≡ lab04_parse_output n seen

-- What holds at the place of the main process: `ready` is the number of children that have posted.
abbrev pub AtMain : Sizes → ℕ → Main → ℕ → List ℕ → Option Report → Type 0
AtMain k main_check (poll_ready check) ready log report = (check ≡ main_check) ⊎ (check ≤ ready)
AtMain k main_check (post_start i) ready log report =
    (i ≤ k.num_children) × ((main_check ≡ k.num_children) ⊎ (k.num_children ≤ ready))
AtMain k main_check (post_halt i) ready log report =
    (i ≤ k.num_children) × ((main_check ≡ k.num_children) ⊎ (k.num_children ≤ ready))
AtMain k main_check parse ready log report =
    (main_check ≡ k.num_children) ⊎ (k.num_children ≤ ready)
AtMain k main_check main_ended ready log report =
    Seen k.n log report × ((main_check ≡ k.num_children) ⊎ (k.num_children ≤ ready))

pub record Inv (k : Sizes) (main_check : ℕ) (checks begun : ℕ → ℕ) (s : System) : Type 0 where
  pub size : length s.children ≡ k.num_children
  pub ready : total posted s.children ≡ s.shared.ready
  pub start : total started s.children + s.shared.start ≡ let_start k.num_children s.main
  pub halt : s.shared.halt ≡ let_halt k.num_children s.main
  pub at_main : AtMain k main_check s.main s.shared.ready s.shared.log s.report
  pub child :
      (i : ℕ) (c : Child)
      → get_elem? s.children i ≡ some c
      → IsChild k.num_children k.m i (checks i) (begun i) s.shared c
  pub ids : All (λ id. id < k.num_children) s.shared.log

Seen-append :
    (n : ℕ) (log : List ℕ) (id : ℕ) (report : Option Report)
    → Seen n log report
    → Seen n (log ++ id ∷ []) report
Seen-append n log id report v = record {
  seen = v.seen;
  rest = v.rest ++ id ∷ [];
  log_is = ap (λ l. l ++ id ∷ []) v.log_is ∙ append_assoc v.seen v.rest (id ∷ []);
  report_is = v.report_is;
}

-- More posts and more of the file keep what holds of the main process.
AtMain-more :
    (k : Sizes) (main_check : ℕ) (pl : Main) (ready ready' id : ℕ) (log log' : List ℕ)
    (report : Option Report)
    → ready ≤ ready'
    → (log' ≡ log) ⊎ (log' ≡ log ++ id ∷ [])
    → AtMain k main_check pl ready log report
    → AtMain k main_check pl ready' log' report
AtMain-more k mc (poll_ready check) ready ready' id log log' report le more p = ground arith
AtMain-more k mc (post_start i) ready ready' id log log' report le more p = ground arith
AtMain-more k mc (post_halt i) ready ready' id log log' report le more p = ground arith
AtMain-more k mc parse ready ready' id log log' report le more p = ground arith
AtMain-more k mc main_ended ready ready' id log log' report le more p = (
  elim more [
    | inl same ↦ subst (λ l. Seen k.n l report) (sym same) p.0
    | inr one ↦ subst (λ l. Seen k.n l report) (sym one) (Seen-append k.n log id report p.0)
  ],
  elim p.1 [ inl e ↦ inl e | inr b ↦ inr (omega arith) ],
)

Knows-more :
    (first rounds check halt halt' : ℕ)
    → halt ≤ halt'
    → Knows first rounds check halt
    → Knows first rounds check halt'
Knows-more first rounds check halt halt' le p = ground arith

-- A child is as it was when another process posts the halt semaphore or writes its own number.
pub IsChild-kept :
    (a m i first begun : ℕ) (sh sh' : Shared) (c : Child)
    → sh.halt ≤ sh'.halt
    → occurrences i sh'.log ≡ occurrences i sh.log
    → IsChild a m i first begun sh c
    → IsChild a m i first begun sh' c
IsChild-kept a m i first begun sh sh' c le same v = record {
  section = v.section;
  rounds = v.rounds;
  begun_is = v.begun_is;
  written = omega (arith, same, v.written);
  here = kept c.place v.here;
}
  where
    kept :
        (pl : Place)
        → AtPlace a m first pl c.threads c.check sh.halt v.rounds
        → AtPlace a m first pl c.threads c.check sh'.halt v.rounds
    kept post_ready p = p
    kept wait_start p = p
    kept test_halt p = (p.0, Knows-more first v.rounds c.check _ _ le p.1)
    kept (create j) p = (p.0, p.1, omega (arith, p.2))
    kept (join j) p = (p.0, p.1, omega (arith, p.2), p.3)
    kept child_ended p = (p.0, Knows-more first v.rounds a _ _ le p.1)

pub Effect-Inv :
    (k : Sizes) (main_check : ℕ) (checks begun begun' : ℕ → ℕ) (i : ℕ) (s : System) (sh' : Shared)
    (c c' : Child)
    → Inv k main_check checks begun s
    → get_elem? s.children i ≡ some c
    → Effect k.num_children k.m i (checks i) (begun i) (begun' i) s.shared sh' c c'
    → ((j : ℕ) → i ≢ j → begun' j ≡ begun j)
    → Inv k main_check checks begun' (record s { shared = sh'; children = set s.children i c' })
Effect-Inv k mc checks begun begun' i s sh' c c' v h e others = record {
  size = length-set s.children i c' ∙ v.size;
  ready = omega (arith, v.ready, e.ready, total-set posted s.children i c c' h);
  start = omega (arith, v.start, e.start, total-set started s.children i c c' h);
  halt = e.halt ∙ v.halt;
  at_main =
      AtMain-more k mc s.main s.shared.ready sh'.ready i s.shared.log sh'.log s.report
        (omega (arith, e.ready, e.more_ready)) e.log v.at_main;
  child = λ j d g. elim (ℕ_discrete i j) [
    | yes same ↦
        subst (λ l. IsChild k.num_children k.m l (checks l) (begun' l) sh' d) same
          (subst (IsChild k.num_children k.m i (checks i) (begun' i) sh')
            (sym (get_elem?-set_eq s.children i j c' d g same)) e.child)
    | no ne ↦
        subst (λ b. IsChild k.num_children k.m j (checks j) b sh' d) (sym (others j ne))
          (IsChild-kept k.num_children k.m j (checks j) (begun j) s.shared sh' d
            (omega (arith, e.halt))
            (elim e.log [
              | inl same ↦ ap (occurrences j) same
              | inr more ↦ ap (occurrences j) more ∙ occurrences-other j i s.shared.log ne
            ])
            (v.child j d (get_elem?-set s.children i j c' d g ne)))
  ];
  ids = elim e.log [
    | inl same ↦ subst (All (λ id. id < k.num_children)) (sym same) v.ids
    | inr more ↦ subst (All (λ id. id < k.num_children)) (sym more) (
        All-append (λ id. id < k.num_children) s.shared.log i v.ids
          (omega (arith, v.size, get_elem?-lt s.children i c h)))
  ];
}
