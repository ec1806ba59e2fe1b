-- ===== src/ReqWrk/Phases.antt =====
-- The handshake of Lab05/src/01/req_wrk.c: the two processes take turns on the shared array.
use esercitazioni_sistemi_di.Base.{
  ℕ, zero, suc, ◌+◌, ◌*◌, ◌≤◌, ◌<◌, ◌≡◌, refl, ap, subst, ◌∙◌, sym, List, [], ◌∷◌, ◌++◌, set,
  get_or, length, ltb, arith, if_cases, get_or-set_self, get_or-set_ne, length-set, tests, dec_lt,
}
use esercitazioni_sistemi_di.ReqWrk.{
  num, Request, generate, post_req, wait_wrk, print, request_ended, Work, wait_req, update,
  post_wrk, work_ended, System, init, move_request, move_work, Turn, parent, child, step, run,
}

-- The cells from `lo` up to `hi` hold the values of `f`.
abbrev pub Holds : (ℕ → ℕ) → List ℕ → ℕ → ℕ → Type 0
Holds f xs lo hi = (i : ℕ) → lo ≤ i → i < hi → get_or xs i 0 ≡ f i

abbrev pub square : ℕ → ℕ
square i = i * i

-- The squares of the first `n` numbers.
abbrev pub squares : ℕ → List ℕ
squares zero = []
squares (suc n) = squares n ++ square n ∷ []

-- What holds in each pair of places; the other pairs are not reached.
unfoldable pub Phase : Request → Work → System → Type 0
Phase (generate i) wait_req s =
    (i ≤ num) × (s.sem_req ≡ 0) × (s.sem_wrk ≡ 0) × (s.printed ≡ []) × Holds (λ j. j) s.shared 0 i
Phase post_req wait_req s =
    (s.sem_req ≡ 0) × (s.sem_wrk ≡ 0) × (s.printed ≡ []) × Holds (λ j. j) s.shared 0 num
Phase wait_wrk wait_req s =
    (s.sem_req ≡ 1) × (s.sem_wrk ≡ 0) × (s.printed ≡ []) × Holds (λ j. j) s.shared 0 num
Phase wait_wrk (update i) s =
    (i ≤ num)
    × (s.sem_req ≡ 0)
    × (s.sem_wrk ≡ 0)
    × (s.printed ≡ [])
    × Holds square s.shared 0 i
    × Holds (λ j. j) s.shared i num
Phase wait_wrk post_wrk s =
    (s.sem_req ≡ 0) × (s.sem_wrk ≡ 0) × (s.printed ≡ []) × Holds square s.shared 0 num
Phase wait_wrk work_ended s =
    (s.sem_req ≡ 0) × (s.sem_wrk ≡ 1) × (s.printed ≡ []) × Holds square s.shared 0 num
Phase (print i) work_ended s =
    (i ≤ num)
    × (s.sem_req ≡ 0)
    × (s.sem_wrk ≡ 0)
    × (s.printed ≡ squares i)
    × Holds square s.shared 0 num
Phase request_ended work_ended s = (s.sem_req ≡ 0) × (s.sem_wrk ≡ 0) × (s.printed ≡ squares num)
Phase r w s = ⊥

pub record Inv (s : System) : Type 0 where
  pub size : length s.shared ≡ num
  pub phase : Phase s.request s.work s

-- A system with its fields named one by one.
abbrev pub at : Request → Work → List ℕ → ℕ → ℕ → List ℕ → System
at r w shared sem_req sem_wrk printed = record {
  shared = shared;
  sem_req = sem_req;
  sem_wrk = sem_wrk;
  request = r;
  work = w;
  printed = printed;
}

Holds-set :
    (f : ℕ → ℕ) (xs : List ℕ) (i v : ℕ)
    → i < length xs
    → v ≡ f i
    → Holds f xs 0 i
    → Holds f (set xs i v) 0 (i + 1)
Holds-set f xs i v h e holds = λ j _ j_lt. elim (dec_lt j i) [
  | yes lt ↦ get_or-set_ne xs i j v 0 (omega arith) ∙ holds j (omega arith) lt
  | no ge ↦
      let same : i ≡ j = omega arith in
      subst (λ k. get_or (set xs i v) k 0 ≡ f k) same (get_or-set_self xs i v 0 h ∙ e)
]

Holds-set_above :
    (f : ℕ → ℕ) (xs : List ℕ) (i v n : ℕ) → Holds f xs i n → Holds f (set xs i v) (i + 1) n
Holds-set_above f xs i v n holds =
    λ j lo hi. get_or-set_ne xs i j v 0 (omega arith) ∙ holds j (omega arith) hi

squares_next : (i : ℕ) → squares (i + 1) ≡ squares i ++ square i ∷ []
squares_next i = ap squares {x = i + 1} {y = suc i} (omega arith)

Inv-request :
    (r : Request) (w : Work) (shared : List ℕ) (sem_req sem_wrk : ℕ) (printed : List ℕ)
    → Inv (at r w shared sem_req sem_wrk printed)
    → Inv (move_request r (at r w shared sem_req sem_wrk printed))
unfolding Phase move_request
Inv-request (generate i) wait_req shared a b pr v =
    let (bound, e, e', p, holds) = v.phase in
    if_cases Inv (ltb i num) _ _
      (λ lt. record {
        size = length-set shared i i ∙ v.size;
        phase = (
          omega tests,
          e,
          e',
          p,
          Holds-set (λ j. j) shared i i (omega (tests, v.size)) refl holds,
        );
      })
      (λ ge. record { size = v.size; phase = (e, e', p, λ j lo hi. holds j lo (ground arith)) })
Inv-request post_req wait_req shared a b pr v =
    let (e, e', p, holds) = v.phase in
    record { size = v.size; phase = (omega (arith, e), e', p, holds) }
Inv-request wait_wrk wait_req shared a b pr v =
    let (e, e', p, holds) = v.phase in
    if_cases Inv (ltb 0 b) _ _ (λ lt. absurd (omega tests)) (λ _. v)
Inv-request wait_wrk (update i) shared a b pr v =
    let (bound, e, e', p, done, left) = v.phase in
    if_cases Inv (ltb 0 b) _ _ (λ lt. absurd (omega tests)) (λ _. v)
Inv-request wait_wrk post_wrk shared a b pr v =
    let (e, e', p, holds) = v.phase in
    if_cases Inv (ltb 0 b) _ _ (λ lt. absurd (omega tests)) (λ _. v)
Inv-request wait_wrk work_ended shared a b pr v =
    let (e, e', p, holds) = v.phase in
    if_cases Inv (ltb 0 b) _ _
      (λ lt. record { size = v.size; phase = (omega arith, e, omega arith, p, holds) })
      (λ ge. absurd (ground arith))
Inv-request (print i) work_ended shared a b pr v =
    let (bound, e, e', p, holds) = v.phase in
    if_cases Inv (ltb i num) _ _
      (λ lt. record {
        size = v.size;
        phase = (
          omega tests,
          e,
          e',
          (ap (λ xs. xs ++ get_or shared i 0 ∷ []) p
                ∙ ap (λ x. squares i ++ x ∷ []) (holds i (omega arith) (omega tests)))
              ∙ sym (squares_next i),
          holds,
        );
      })
      (λ ge. record {
        size = v.size;
        phase = (e, e', p ∙ ap squares {x = i} {y = num} (ground arith));
      })
Inv-request request_ended work_ended shared a b pr v = v
Inv-request r w shared a b pr v = absurd v.phase

Inv-work :
    (r : Request) (w : Work) (shared : List ℕ) (sem_req sem_wrk : ℕ) (printed : List ℕ)
    → Inv (at r w shared sem_req sem_wrk printed)
    → Inv (move_work w (at r w shared sem_req sem_wrk printed))
unfolding Phase move_work
Inv-work (generate i) wait_req shared a b pr v =
    let (bound, e, e', p, holds) = v.phase in
    if_cases Inv (ltb 0 a) _ _ (λ lt. absurd (omega tests)) (λ _. v)
Inv-work post_req wait_req shared a b pr v =
    let (e, e', p, holds) = v.phase in
    if_cases Inv (ltb 0 a) _ _ (λ lt. absurd (omega tests)) (λ _. v)
Inv-work wait_wrk wait_req shared a b pr v =
    let (e, e', p, holds) = v.phase in
    if_cases Inv (ltb 0 a) _ _
      (λ lt. record {
        size = v.size;
        phase = (omega arith, omega arith, e', p, (λ j lo hi. absurd (omega arith)), holds);
      })
      (λ ge. absurd (ground arith))
Inv-work wait_wrk (update i) shared a b pr v =
    let (bound, e, e', p, done, left) = v.phase in
    if_cases Inv (ltb i num) _ _
      (λ lt.
        let value = left i (omega arith) (omega tests) in
        record {
          size = length-set shared i _ ∙ v.size;
          phase = (
            omega tests,
            e,
            e',
            p,
            Holds-set square shared i _ (omega (tests, v.size)) (ap square value) done,
            Holds-set_above (λ j. j) shared i _ num left,
          );
        })
      (λ ge. record { size = v.size; phase = (e, e', p, λ j lo hi. done j lo (ground arith)) })
Inv-work wait_wrk post_wrk shared a b pr v =
    let (e, e', p, holds) = v.phase in
    record { size = v.size; phase = (e, omega (arith, e'), p, holds) }
Inv-work wait_wrk work_ended shared a b pr v = v
Inv-work (print i) work_ended shared a b pr v = v
Inv-work request_ended work_ended shared a b pr v = v
Inv-work r w shared a b pr v = absurd v.phase

pub Inv-step : (t : Turn) (s : System) → Inv s → Inv (step t s)
unfolding step
Inv-step parent s v = Inv-request s.request s.work s.shared s.sem_req s.sem_wrk s.printed v
Inv-step child s v = Inv-work s.request s.work s.shared s.sem_req s.sem_wrk s.printed v

pub run-Inv : (ts : List Turn) (s : System) → Inv s → Inv (run ts s)
unfolding run
run-Inv [] s v = v
run-Inv (t ∷ ts) s v = run-Inv ts (step t s) (Inv-step t s v)

pub init-Inv : Inv init
unfolding Phase
init-Inv = record {
  size = refl;
  phase = (omega arith, refl, refl, refl, λ j lo hi. absurd (omega arith));
}
