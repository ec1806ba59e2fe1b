-- ===== src/Accesses/Progress.antt =====
-- Lab05/src/00/riepilogo.c: the program can always go on to its end.
use esercitazioni_sistemi_di.Base.{
  ℕ, ◌+◌, ◌-◌, ◌*◌, ◌≤◌, ◌<◌, ◌≡◌, ◌≢◌, inl, inr, refl, sym, ap, subst, Bool, true, not, some, List,
  [], set, get_elem?, arith, ◌==◌, if_cases, ltb, tests,
}
use esercitazioni_sistemi_di.Base.Threads.{
  total-append, total, total-set, total-eq-zero, find_thread,
}
use esercitazioni_sistemi_di.Accesses.{
  Shared, Thread, wait_section, append_id, post_section, thread_ended, Place, post_ready,
  wait_start, create, join, check, child_ended, Child, thread_at, has_ended, child_at, Main,
  wait_ready, post_start, set_data, wait_child, parse, main_ended, System, Turn, child_process,
  thread_function, move_thread, move_child, move_thread_of, step,
}
use esercitazioni_sistemi_di.Accesses.Effects.{in_section, inside}

-- The steps left: of a thread, of a child up to the end of its round, of the main process, of all.
abbrev pub thread_left : Thread → ℕ
thread_left wait_section = 3
thread_left append_id = 2
thread_left post_section = 1
thread_left thread_ended = 0

abbrev pub place_left : ℕ → Place → ℕ
place_left m post_ready = 5 * m + 5
place_left m wait_start = 5 * m + 4
place_left m (create j) = 4 * (m - j) + (m + 3)
place_left m (join j) = (m - j) + 2
place_left m check = 1
place_left m child_ended = 0

abbrev pub child_left : ℕ → Child → ℕ
child_left m c = place_left m c.place + total thread_left c.threads

abbrev pub main_left : ℕ → Main → ℕ
main_left n (wait_ready i) = (n - i) + (2 * n + 5)
main_left n (post_start i) = (n - i) + (n + 4)
main_left n set_data = n + 3
main_left n (wait_child i) = (n - i) + 2
main_left n parse = 1
main_left n main_ended = 0

abbrev pub left : ℕ → ℕ → System → ℕ
left n m s = main_left n s.main + total (child_left m) s.children

-- When a thread, and a child, is not blocked.
abbrev pub CanStep : Shared → Thread → Type 0
CanStep sh wait_section = sh.critical_section ≢ 0
CanStep sh append_id = Unit {0}
CanStep sh post_section = Unit {0}
CanStep sh thread_ended = ⊥

abbrev pub CanRun : ℕ → (ℕ → Bool) → Shared → Place → List Thread → Type 0
CanRun m stop sh post_ready ts = Unit {0}
CanRun m stop sh wait_start ts = (sh.children_wait_for_main ≢ 0) × (ts ≡ [])
CanRun m stop sh (create j) ts = j ≤ m
CanRun m stop sh (join j) ts = j < m → has_ended (get_elem? ts j) ≡ true
CanRun m stop sh check ts = stop sh.flag ≡ true
CanRun m stop sh child_ended ts = ⊥

thread_at-left :
    (i : ℕ) (t : Thread) (sh : Shared)
    → CanStep sh t
    → thread_left (thread_at i t sh).1 < thread_left t
unfolding thread_at
thread_at-left i wait_section sh h = ground arith
thread_at-left i append_id sh h = omega arith
thread_at-left i post_section sh h = omega arith
thread_at-left i thread_ended sh h = absurd h

child_at-left :
    (m : ℕ) (stop : ℕ → Bool) (pl : Place) (sh : Shared) (ts : List Thread) (id : ℕ)
    → CanRun m stop sh pl ts
    → (let c : Child = record { place = pl; threads = ts; thread_id = id } in
        child_left m (child_at m stop pl sh c).1 < child_left m c)
unfolding child_at total
child_at-left m stop post_ready sh ts id h = omega arith
child_at-left m stop wait_start sh ts id h = ground (arith, ap (total thread_left) h.1)
child_at-left m stop (create j) sh ts id h =
    ground (arith, total-append thread_left ts wait_section)
child_at-left m stop (join j) sh ts id h =
    if_cases (λ (r : Shared × Child). child_left m r.1 < (m - j) + 2 + total thread_left ts)
      (ltb j m) _ _
      (λ lt.
        if_cases
          (λ (next : Place).
            place_left m next + total thread_left ts < (m - j) + 2 + total thread_left ts)
          (has_ended (get_elem? ts j)) _ _ (λ _. omega tests)
          (λ e. absurd (ground (arith, h (omega tests)))))
      (λ ge. omega arith)
child_at-left m stop check sh ts id h = ground arith
child_at-left m stop child_ended sh ts id h = absurd h

-- A turn by which fewer steps are left.
abbrev pub Goes : ℕ → ℕ → (ℕ → Bool) → System → Type 0
Goes n m stop s = (t : Turn) × (left n m (step n m stop s t) < left n m s)

module _ (n m : ℕ) (stop : ℕ → Bool) (s : System) where
  pub child-Goes :
      (i : ℕ) (c : Child)
      → get_elem? s.children i ≡ some c
      → CanRun m stop s.shared c.place c.threads
      → Goes n m stop s
  unfolding step move_child
  child-Goes i c h can =
      let c' = (child_at m stop c.place s.shared c).1 in
      let less = child_at-left m stop c.place s.shared c.threads c.thread_id can in
      let fewer : main_left n s.main + total (child_left m) (set s.children i c') < left n m s =
        omega (arith, total-set (child_left m) s.children i c c' h) in
      (child_process i, subst (λ o. left n m (move_child m stop i s o) < left n m s) (sym h) fewer)

  pub thread-Goes :
      (i j : ℕ) (c : Child) (t : Thread)
      → get_elem? s.children i ≡ some c
      → get_elem? c.threads j ≡ some t
      → CanStep s.shared t
      → Goes n m stop s
  unfolding step move_thread_of move_thread
  thread-Goes i j c t h g can =
      let t' = (thread_at i t s.shared).1 in
      let c' : Child = record c { threads = set c.threads j t' } in
      let less = thread_at-left i t s.shared can in
      let fewer : main_left n s.main + total (child_left m) (set s.children i c') < left n m s =
        omega (
          arith,
          total-set (child_left m) s.children i c c' h,
          total-set thread_left c.threads j t t' g,
        ) in
      (
        thread_function i j,
        subst (λ o. left n m (move_thread_of i j s o) < left n m s) (sym h)
            (subst (λ o. left n m (move_thread i j s c o) < left n m s) (sym g) fewer),
      )

  -- A thread in the critical section can go on.
  pub section-Goes :
      s.shared.critical_section ≡ 0
      → s.shared.critical_section + total inside s.children ≡ 1
      → Goes n m stop s
  section-Goes zero_left excl = elim (find_thread (λ c. not (inside c == 0)) s.children) [
    | inl (i, c, h, e) ↦ elim (find_thread (λ t. not (in_section t == 0)) c.threads) [
      | inl (j, t, g, e') ↦ thread-Goes i j c t h g (can t (ground arith))
      | inr none_in ↦ absurd (
          ground
            (arith, total-eq-zero in_section c.threads (λ j t g. ground (arith, none_in j t g))))
    ]
    | inr none_in ↦
        absurd
          (ground (arith, total-eq-zero inside s.children (λ i c g. ground (arith, none_in i c g))))
  ]
    where
      can : (t : Thread) → in_section t ≢ 0 → CanStep s.shared t
      can wait_section h = absurd (h refl)
      can append_id h = tt
      can post_section h = tt
      can thread_ended h = absurd (h refl)
