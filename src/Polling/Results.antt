-- ===== src/Polling/Results.antt =====
-- What the program of Lab04/code/riepilogo.c comes to, under every schedule and whatever its
-- uninitialised variables hold.
use esercitazioni_sistemi_di.Base.{
  ℕ, ◌+◌, ◌*◌, ◌≤◌, ◌<◌, ◌≡◌, ◌≢◌, ◌⊎◌, inl, inr, refl, sym, ap, ◌∙◌, Option, some, List, get_elem?,
  arith, ℕ_discrete,
}
use esercitazioni_sistemi_di.Base.Threads.{total, weight-le-total, weights-le-total, full_total}
use esercitazioni_sistemi_di.Accesses.{Thread, Report}
use esercitazioni_sistemi_di.Accesses.Parse.{occurrences}
use esercitazioni_sistemi_di.Accesses.Effects.{in_section, unwritten}
use esercitazioni_sistemi_di.Accesses.Moves.{no_weight}
use esercitazioni_sistemi_di.Polling.{
  Place, child_ended, Child, Main, poll_ready, post_start, post_halt, parse, main_ended, Turn,
  Sizes, run, init,
}
use esercitazioni_sistemi_di.Polling.Effects.{posted, started, made, in_round, AtPlace, Knows}
use esercitazioni_sistemi_di.Polling.Inv.{let_start, let_halt, AtMain}
use esercitazioni_sistemi_di.Polling.Runs.{rounds_begun, reached-Inv}

let_halt-le :
    (k : Sizes) (mc : ℕ) (pl : Main) (ready : ℕ) (log : List ℕ) (report : Option Report)
    → AtMain k mc pl ready log report
    → let_halt k.num_children pl ≤ k.num_children
let_halt-le k mc (poll_ready check) ready log report p = omega arith
let_halt-le k mc (post_start i) ready log report p = omega arith
let_halt-le k mc (post_halt i) ready log report p = omega (arith, p.0)
let_halt-le k mc parse ready log report p = omega arith
let_halt-le k mc main_ended ready log report p = omega arith

ended-Knows :
    (a m first : ℕ) (pl : Place) (ts : List Thread) (check halt rounds k : ℕ)
    → pl ≡ child_ended
    → AtPlace a m first pl ts check halt rounds
    → k + total unwritten ts ≡ rounds * m + made m pl
    → (k ≡ rounds * m) × Knows first rounds a halt
ended-Knows a m first child_ended ts check halt rounds k e p w =
    (omega (arith, w, no_weight unwritten ts refl p.0), p.1)
ended-Knows a m first pl ts check halt rounds k e p w = absurd (ground arith)

-- A child that has ended stands in the file `M` times for each of the rounds that it has begun in the
-- run. It has begun none when its variable `check`, which is read before it is set, held `N` at first;
-- else it has begun at least one, and the main process has posted the halt semaphore `N` times.
pub rounds_written :
    (k : Sizes) (mc : ℕ) (checks : ℕ → ℕ) (ts : List Turn) (i : ℕ) (c : Child)
    → get_elem? (run k (init k mc checks) ts).children i ≡ some c
    → c.place ≡ child_ended
    → (let s = run k (init k mc checks) ts in
        let rounds = rounds_begun k (init k mc checks) ts i in
        (occurrences i s.shared.log ≡ rounds * k.m)
        × (((rounds ≡ 0) × (k.num_children ≡ checks i))
            ⊎ ((0 < rounds) × (s.shared.halt ≡ k.num_children))))
rounds_written k mc checks ts i c h e =
    let s = run k (init k mc checks) ts in
    let begun = rounds_begun k (init k mc checks) ts i in
    let v = reached-Inv k mc checks ts in
    let w = v.child i c h in
    let most = let_halt-le k mc s.main s.shared.ready s.shared.log s.report v.at_main in
    let (count, knows) =
      ended-Knows k.num_children k.m (checks i) c.place c.threads c.check s.shared.halt w.rounds _ e
        w.here w.written in
    let all_whole : begun ≡ w.rounds =
      w.begun_is ∙ ap (λ p. w.rounds + in_round p) e ∙ omega arith in
    (
      count ∙ ap (λ n. n * k.m) (sym all_whole),
      elim knows [
        | inl never ↦ inl (all_whole ∙ never.0, never.1)
        | inr (some_rounds, le) ↦
            inr (omega (arith, all_whole, some_rounds), omega (arith, le, most, v.halt))
      ],
    )

AtMain-started :
    (k : Sizes) (mc : ℕ) (pl : Main) (ready : ℕ) (log : List ℕ) (report : Option Report)
    → mc ≢ k.num_children
    → 0 < let_start k.num_children pl
    → AtMain k mc pl ready log report
    → k.num_children ≤ ready
AtMain-started k mc (poll_ready check) ready log report ne lt p = ground arith
AtMain-started k mc (post_start i) ready log report ne lt p = ground arith
AtMain-started k mc (post_halt i) ready log report ne lt p = ground arith
AtMain-started k mc parse ready log report ne lt p = ground arith
AtMain-started k mc main_ended ready log report ne lt p = elim p.1 [
  | inl e ↦ absurd (ne e)
  | inr b ↦ b
]

-- Unless the variable `check` of the main process, which is read before it is set, held `N` at first,
-- no child is let start before all children have said that they are ready.
pub ready_before_start :
    (k : Sizes) (mc : ℕ) (checks : ℕ → ℕ) (ts : List Turn) (i j : ℕ) (c d : Child)
    → mc ≢ k.num_children
    → get_elem? (run k (init k mc checks) ts).children i ≡ some c
    → get_elem? (run k (init k mc checks) ts).children j ≡ some d
    → started c ≡ 1
    → posted d ≡ 1
ready_before_start k mc checks ts i j c d ne g h one =
    let s = run k (init k mc checks) ts in
    let v = reached-Inv k mc checks ts in
    let all_ready =
      AtMain-started k mc s.main s.shared.ready s.shared.log s.report ne
        (omega (arith, v.start, one, weight-le-total started s.children i c g)) v.at_main in
    full_total posted posted_le_one s.children (omega (arith, v.size, v.ready, all_ready)) j d h
  where
    posted_le_one : (c : Child) → posted c ≤ 1
    posted_le_one c = ground arith

-- Two threads of one child are never in the critical section together.
pub one_thread_inside :
    (k : Sizes) (mc : ℕ) (checks : ℕ → ℕ) (ts : List Turn) (i j j' : ℕ) (c : Child) (t t' : Thread)
    → get_elem? (run k (init k mc checks) ts).children i ≡ some c
    → get_elem? c.threads j ≡ some t
    → get_elem? c.threads j' ≡ some t'
    → in_section t ≡ 1
    → in_section t' ≡ 1
    → j ≡ j'
one_thread_inside k mc checks ts i j j' c t t' g h h' one one' =
    let v = reached-Inv k mc checks ts in
    elim (ℕ_discrete j j') [
      | yes e ↦ e
      | no ne ↦ absurd (
          omega (
            arith,
            (v.child i c g).section,
            weights-le-total in_section c.threads j j' t t' ne h h',
          ))
    ]
