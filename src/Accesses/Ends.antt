-- ===== src/Accesses/Ends.antt =====
-- Lab05/src/00/riepilogo.c: some turn always brings the program nearer to its end, once the test of
-- `*data` holds of the value that the main process writes.
use esercitazioni_sistemi_di.Base.{
  ℕ, zero, suc, ◌+◌, ◌≤◌, ◌<◌, ◌≡◌, ◌≢◌, ◌⊎◌, inl, inr, refl, sym, ap, subst, ◌∙◌, Bool, true,
  false, none, some, List, [], ◌∷◌, length, get_elem?, arith, ◌==◌, dec_lt, Bool-cases,
  Option-cases, ℕ_discrete,
}
use esercitazioni_sistemi_di.Base.Threads.{total, total-ones, full_total, find_thread}
use esercitazioni_sistemi_di.Accesses.{
  Thread, wait_section, append_id, post_section, thread_ended, Place, post_ready, wait_start,
  create, join, check, child_ended, Child, exited, has_ended, Main, wait_ready, post_start,
  set_data, wait_child, parse, main_ended, System, main_at, Turn, main_process, step, run, init,
}
use esercitazioni_sistemi_di.Accesses.Effects.{posted, started, AtPlace}
use esercitazioni_sistemi_di.Accesses.Inv.{
  let_start, waited, AtMain, Inv, run-Inv, init-Inv, step-Inv,
}
use esercitazioni_sistemi_di.Accesses.Progress.{
  left, main_left, child_left, CanRun, Goes, child-Goes, thread-Goes, section-Goes,
}

module _ (n m : ℕ) (stop : ℕ → Bool) (s : System) (v : Inv n m s) where
  -- A thread that has not ended goes on, or the one that keeps it out.
  thread_or_section :
      (i j : ℕ) (c : Child) (t : Thread)
      → get_elem? s.children i ≡ some c
      → get_elem? c.threads j ≡ some t
      → t ≢ thread_ended
      → Goes n m stop s
  thread_or_section i j c wait_section h g ne = elim (ℕ_discrete s.shared.critical_section 0) [
    | yes e ↦ section-Goes n m stop s e v.excl
    | no free ↦ thread-Goes n m stop s i j c wait_section h g free
  ]
  thread_or_section i j c append_id h g ne = thread-Goes n m stop s i j c append_id h g tt
  thread_or_section i j c post_section h g ne = thread-Goes n m stop s i j c post_section h g tt
  thread_or_section i j c thread_ended h g ne = absurd (ne refl)

  -- A child that waits in a join lets its thread go on.
  join-Goes :
      (i j : ℕ) (c : Child)
      → get_elem? s.children i ≡ some c
      → c.place ≡ join j
      → length c.threads ≡ m
      → Goes n m stop s
  join-Goes i j c h e size = elim (dec_lt j m) [
    | no ge ↦
        child-Goes n m stop s i c h
          (subst (λ pl. CanRun m stop s.shared pl c.threads) (sym e) (λ lt. absurd (ge lt)))
    | yes lt ↦ elim (Bool-cases (has_ended (get_elem? c.threads j))) [
      | inl ended ↦
          child-Goes n m stop s i c h
            (subst (λ pl. CanRun m stop s.shared pl c.threads) (sym e) (λ _. ended))
      | inr live ↦ elim (Option-cases (get_elem? c.threads j)) [
        | inl missing ↦ absurd (there c.threads j (omega arith) missing)
        | inr (t, g) ↦ thread_or_section i j c t h g (not_ended t (ap has_ended (sym g) ∙ live))
      ]
    ]
  ]
    where
      there : (ts : List Thread) (j : ℕ) → j < length ts → get_elem? ts j ≢ none
      there [] j lt = absurd (omega arith)
      there (t ∷ ts) zero lt = λ e. absurd (ground arith)
      there (t ∷ ts) (suc j) lt = there ts j (omega arith)

      not_ended : (t : Thread) → has_ended (some t) ≡ false → t ≢ thread_ended
      not_ended wait_section e = λ e. absurd (ground arith)
      not_ended append_id e = λ e. absurd (ground arith)
      not_ended post_section e = λ e. absurd (ground arith)
      not_ended thread_ended e = absurd (ground arith)

  -- A child that has not exited goes on, when all have been let start and told to end.
  live-Goes :
      (i : ℕ) (pl : Place) (c : Child)
      → get_elem? s.children i ≡ some c
      → c.place ≡ pl
      → AtPlace m pl c.threads c.thread_id
      → exited c ≡ 0
      → let_start n s.main ≡ n
      → stop s.shared.flag ≡ true
      → Goes n m stop s
  live-Goes i post_ready c h e a live all told =
      child-Goes n m stop s i c h (subst (λ pl. CanRun m stop s.shared pl c.threads) (sym e) tt)
  live-Goes i wait_start c h e a live all told = child-Goes n m stop s i c h (
      subst (λ pl. CanRun m stop s.shared pl c.threads) (sym e)
        (
          (λ z. absurd (
              ground (
                arith,
                full_total started started_le_one s.children
                    (omega (arith, v.start, v.size, z, all)) i c h,
              ))),
          a.0,
        ))
    where
      started_le_one : (c : Child) → started c ≤ 1
      started_le_one c = ground arith
  live-Goes i (create j) c h e a live all told =
      child-Goes n m stop s i c h (subst (λ pl. CanRun m stop s.shared pl c.threads) (sym e) a.0)
  live-Goes i (join j) c h e a live all told = join-Goes i j c h e a.1
  live-Goes i check c h e a live all told =
      child-Goes n m stop s i c h (subst (λ pl. CanRun m stop s.shared pl c.threads) (sym e) told)
  live-Goes i child_ended c h e a live all told = absurd (ground arith)

  -- While the main process waits for a child to be ready, one is about to say so.
  ready-Goes :
      (i : ℕ)
      → s.main ≡ wait_ready i
      → i < n
      → s.shared.main_waits_for_children ≡ 0
      → Goes n m stop s
  ready-Goes i e lt none_ready = elim (find_thread (λ c. posted c == 0) s.children) [
    | inl (k, c, h, p) ↦
        child-Goes n m stop s k c h
          (subst (λ pl. CanRun m stop s.shared pl c.threads) (sym (at_ready c.place c p refl)) tt)
    | inr all ↦ absurd (
        ground (
          arith,
          total-ones posted s.children (λ k c h. all_posted c (all k c h)),
          v.ready,
          v.size,
          ap (waited n) e,
        ))
  ]
    where
      at_ready :
          (pl : Place) (c : Child) → (posted c == 0) ≡ true → c.place ≡ pl → c.place ≡ post_ready
      at_ready post_ready c p e = e
      at_ready pl c p e = absurd (ground arith)

      all_posted : (c : Child) → (posted c == 0) ≡ false → posted c ≡ 1
      all_posted c p = ground arith

  wait-Goes :
      (i : ℕ)
      → s.main ≡ wait_child i
      → i < n
      → total exited s.children ≤ i
      → stop s.shared.flag ≡ true
      → Goes n m stop s
  wait-Goes i e lt few told = elim (find_thread (λ c. exited c == 0) s.children) [
    | inl (k, c, h, p) ↦
        live-Goes k c.place c h refl (v.child k c h).here (ground arith) (ap (let_start n) e) told
    | inr all ↦
        absurd
          (ground (arith, total-ones exited s.children (λ k c h. all_exited c (all k c h)), v.size))
  ]
    where
      all_exited : (c : Child) → (exited c == 0) ≡ false → exited c ≡ 1
      all_exited c p = ground arith

  -- When the main process is not blocked.
  abbrev CanMain : Main → Type 0
  CanMain (wait_ready i) = i < n → s.shared.main_waits_for_children ≢ 0
  CanMain (wait_child i) = i < n → i < total exited s.children
  CanMain main_ended = ⊥
  CanMain pl = Unit {0}

  main_at-left :
      (pl : Main)
      → AtMain n pl s
      → CanMain pl
      → left n m (main_at n pl s) < main_left n pl + total (child_left m) s.children
  unfolding main_at
  main_at-left (wait_ready i) a h = ground arith
  main_at-left (post_start i) a h = ground arith
  main_at-left set_data a h = omega arith
  main_at-left (wait_child i) a h = ground arith
  main_at-left parse a h = omega arith
  main_at-left main_ended a h = absurd h

  main_turn : (pl : Main) → s.main ≡ pl → AtMain n pl s → CanMain pl → Goes n m stop s
  unfolding step
  main_turn pl e a h = (
    main_process,
    subst (λ p. left n m (main_at n p s) < main_left n p + total (child_left m) s.children) (sym e)
        (main_at-left pl a h),
  )

  goes :
      (pl : Main)
      → s.main ≡ pl
      → AtMain n pl s
      → stop 1 ≡ true
      → (s.main ≡ main_ended) ⊎ Goes n m stop s
  goes (wait_ready i) e a told = elim (dec_lt i n) [
    | no ge ↦ inr (main_turn (wait_ready i) e a (λ lt. absurd (ge lt)))
    | yes lt ↦ elim (ℕ_discrete s.shared.main_waits_for_children 0) [
      | yes none_ready ↦ inr (ready-Goes i e lt none_ready)
      | no some_ready ↦ inr (main_turn (wait_ready i) e a (λ _. some_ready))
    ]
  ]
  goes (post_start i) e a told = inr (main_turn (post_start i) e a tt)
  goes set_data e a told = inr (main_turn set_data e a tt)
  goes (wait_child i) e a told = elim (dec_lt i n) [
    | no ge ↦ inr (main_turn (wait_child i) e a (λ lt. absurd (ge lt)))
    | yes lt ↦ elim (dec_lt i (total exited s.children)) [
      | yes more ↦ inr (main_turn (wait_child i) e a (λ _. more))
      | no few ↦ inr (wait-Goes i e lt (omega arith) (ap stop a.2 ∙ told))
    ]
  ]
  goes parse e a told = inr (main_turn parse e a tt)
  goes main_ended e a told = inl e

finish :
    (n m : ℕ) (stop : ℕ → Bool) (fuel : ℕ) (s : System)
    → Inv n m s
    → stop 1 ≡ true
    → left n m s ≤ fuel
    → (ts : List Turn) × ((run n m stop s ts).main ≡ main_ended)
unfolding run
finish n m stop zero s v told h = elim (goes n m stop s v s.main refl v.at_main told) [
  | inl e ↦ ([], e)
  | inr (t, less) ↦ absurd (omega arith)
]
finish n m stop (suc fuel) s v told h = elim (goes n m stop s v s.main refl v.at_main told) [
  | inl e ↦ ([], e)
  | inr (t, less) ↦
      let (ts, e) =
        finish n m stop fuel (step n m stop s t) (step-Inv n m stop s t v) told (omega arith) in
      (t ∷ ts, e)
]

-- Nothing blocks for good: whatever the schedule so far, the processes and threads can go on so that
-- the main process reports and ends. The test of `*data` holds of 1, which the main process writes.
pub reaches_end :
    (n m : ℕ) (stop : ℕ → Bool) (ts : List Turn)
    → stop 1 ≡ true
    → (ts' : List Turn) × ((run n m stop (run n m stop (init n) ts) ts').main ≡ main_ended)
reaches_end n m stop ts told =
    let s = run n m stop (init n) ts in
    finish n m stop (left n m s) s (run-Inv n m stop (init n) ts (init-Inv n m)) told (omega arith)
