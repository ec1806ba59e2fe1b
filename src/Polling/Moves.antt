-- ===== src/Polling/Moves.antt =====
-- Lab04/code/riepilogo.c: every step of a child has such an effect.
use esercitazioni_sistemi_di.Base.{
  ℕ, suc, ◌+◌, ◌*◌, ◌≤◌, ◌≡◌, inl, inr, refl, sym, ap, subst, ◌∙◌, List, [], ◌∷◌, get_elem?, arith,
  ◌==◌, if_cases, if◌then◌else◌, ltb, tests, length-append,
}
use esercitazioni_sistemi_di.Base.Threads.{total, total-append}
use native.Mathlib.Nat.{suc-mul}
use esercitazioni_sistemi_di.Accesses.{Thread, wait_section, has_ended}
use esercitazioni_sistemi_di.Accesses.Parse.{occurrences}
use esercitazioni_sistemi_di.Accesses.Effects.{in_section, unwritten, AllEnded}
use esercitazioni_sistemi_di.Accesses.Moves.{has_ended-eq, joined, one_more, no_weight}
use esercitazioni_sistemi_di.Polling.{
  Shared, Place, post_ready, wait_start, test_halt, create, join, child_ended, Child, child_at,
}
use esercitazioni_sistemi_di.Polling.Effects.{
  posted, started, made, in_round, Knows, AtPlace, IsChild, Effect,
}

-- A step that leaves the file and the halt semaphore.
quiet :
    (a m i first begun begun' : ℕ) (sh sh' : Shared) (c c' : Child)
    → sh'.halt ≡ sh.halt
    → sh'.log ≡ sh.log
    → posted c' + sh.ready ≡ posted c + sh'.ready
    → posted c ≤ posted c'
    → started c' + sh'.start ≡ started c + sh.start
    → c'.file_sem + total in_section c'.threads ≡ 1
    → (rounds : ℕ) → begun' ≡ rounds + in_round c'.place
    → occurrences i sh.log + total unwritten c'.threads ≡ rounds * m + made m c'.place
    → AtPlace a m first c'.place c'.threads c'.check sh.halt rounds
    → Effect a m i first begun begun' sh sh' c c'
quiet a m i first begun begun' sh sh' c c' halt log ready more start section rounds is written
      here =
    record {
      ready = ready;
      more_ready = more;
      start = start;
      halt = halt;
      log = inl log;
      child = record {
        section = section;
        rounds = rounds;
        begun_is = is;
        written = ap (λ l. occurrences i l + total unwritten c'.threads) log ∙ written;
        here = subst (λ h. AtPlace a m first c'.place c'.threads c'.check h rounds) (sym halt) here;
      };
    }

-- A value of `check` that is not `N` was read from the halt semaphore, or there are rounds to come.
known :
    (a m first rounds check halt : ℕ)
    → check ≡ a
    → Knows first rounds check halt
    → Knows first rounds a halt
known a m first rounds check halt e k = subst (λ x. Knows first rounds x halt) e k

-- 1 for a step of `childProcess` that begins a round
abbrev pub began : ℕ → Place → ℕ → ℕ
began num_children test_halt check = if check == num_children then 0 else 1
began num_children pl check = 0

pub child_at-Effect :
    (a m i first begun : ℕ) (sh : Shared) (pl : Place) (check : ℕ) (ts : List Thread) (sem : ℕ)
    → (let c : Child = record { place = pl; check = check; threads = ts; file_sem = sem } in
        IsChild a m i first begun sh c
        → (let (sh', c') = child_at a m pl sh c in
            Effect a m i first begun (begun + began a pl check) sh sh' c c'))
unfolding child_at total
child_at-Effect a m i first begun sh post_ready check ts sem v =
    quiet a m i first begun _ sh _ _ _ refl refl (omega arith) (omega arith) refl v.section v.rounds
      (ground (arith, v.begun_is)) v.written v.here
child_at-Effect a m i first begun sh wait_start check ts sem v =
    if_cases
      (λ (r : Shared × Child).
        Effect a m i first begun (begun + began a wait_start check) sh r.0
          (record { place = wait_start; check = check; threads = ts; file_sem = sem }) r.1)
      (sh.start == 0) _ _
      (λ e.
        quiet a m i first begun _ sh _ _ _ refl refl refl (omega arith) refl v.section v.rounds
          (ground (arith, v.begun_is)) v.written v.here)
      (λ ne.
        let (nil, none_yet, same) = v.here in
        quiet a m i first begun _ sh _ _ _ refl refl refl (omega arith) (ground arith) v.section
          v.rounds (ground (arith, v.begun_is)) v.written
          (subst AllEnded (sym nil) (λ l t g. ground arith), inl (none_yet, same)))
child_at-Effect a m i first begun sh test_halt check ts sem v =
    let (all, k) = v.here in
    if_cases
      (λ (r : Shared × Child).
        Effect a m i first begun (begun + began a test_halt check) sh r.0
          (record { place = test_halt; check = check; threads = ts; file_sem = sem }) r.1)
      (check == a) _ _
      (λ e.
        quiet a m i first begun _ sh _ _ _ refl refl refl (omega arith) refl v.section v.rounds
          (ground (arith, v.begun_is)) v.written
          (all, known a m first v.rounds check sh.halt (ground arith) k))
      (λ ne.
        quiet a m i first begun _ sh _ _ _ refl refl refl (omega arith) refl
          (omega (arith, v.section, no_weight in_section ts refl all)) v.rounds
          (ground (arith, v.begun_is)) (omega (arith, v.written, no_weight unwritten ts refl all))
          (omega arith, refl, omega arith))
child_at-Effect a m i first begun sh (create j) check ts sem v =
    let (le, size, k) = v.here in
    if_cases
      (λ (r : Shared × Child).
        Effect a m i first begun (begun + began a (create j) check) sh r.0
          (record { place = create j; check = check; threads = ts; file_sem = sem }) r.1)
      (ltb j m) _ _
      (λ lt.
        quiet a m i first begun _ sh _ _ _ refl refl refl (omega arith) refl
          (omega (arith, v.section, total-append in_section ts wait_section)) v.rounds
          (ground (arith, v.begun_is))
          (omega (arith, v.written, total-append unwritten ts wait_section))
          (omega tests, omega (arith, length-append ts (wait_section ∷ [])), k))
      (λ ge.
        let full : j ≡ m = ground arith in
        quiet a m i first begun _ sh _ _ _ refl refl refl (omega arith) refl v.section v.rounds
          (ground (arith, v.begun_is)) (omega (arith, v.written, full))
          (omega arith, size ∙ full, k, λ l lt. absurd (omega arith)))
child_at-Effect a m i first begun sh (join j) check ts sem v =
    let (le, size, k, ended) = v.here in
    if_cases
      (λ (r : Shared × Child).
        Effect a m i first begun (begun + began a (join j) check) sh r.0
          (record { place = join j; check = check; threads = ts; file_sem = sem }) r.1)
      (ltb j m) _ _
      (λ lt.
        if_cases
          (λ (next : Place).
            Effect a m i first begun (begun + began a (join j) check) sh sh
              (record { place = join j; check = check; threads = ts; file_sem = sem })
              (record { place = next; check = check; threads = ts; file_sem = sem }))
          (has_ended (get_elem? ts j)) _ _
          (λ e.
            quiet a m i first begun _ sh _ _ _ refl refl refl (omega arith) refl v.section v.rounds
              (ground (arith, v.begun_is)) v.written
              (omega tests, size, k, one_more ts j (has_ended-eq (get_elem? ts j) e) ended))
          (λ _.
            quiet a m i first begun _ sh _ _ _ refl refl refl (omega arith) refl v.section v.rounds
              (ground (arith, v.begun_is)) v.written v.here))
      (λ ge.
        let all : AllEnded ts = joined ts (λ l lt. ended l (ground arith)) in
        quiet a m i first begun _ sh _ _ _ refl refl refl (omega arith) refl v.section
          (suc v.rounds) (ground (arith, v.begun_is)) (omega (arith, v.written, suc-mul v.rounds m))
          (all, inr (omega arith, k)))
child_at-Effect a m i first begun sh child_ended check ts sem v =
    quiet a m i first begun _ sh _ _ _ refl refl refl (omega arith) refl v.section v.rounds
      (ground (arith, v.begun_is)) v.written v.here
