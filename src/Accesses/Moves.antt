-- ===== src/Accesses/Moves.antt =====
-- Lab05/src/00/riepilogo.c: every step of a thread, and every step of a child, has such an effect.
use esercitazioni_sistemi_di.Base.{
  ℕ, zero, suc, ◌+◌, ◌*◌, ◌≤◌, ◌<◌, ◌≡◌, inl, inr, refl, sym, ap, subst, ◌∙◌, Bool, true, Option,
  none, some, List, [], ◌∷◌, ◌++◌, length, set, get_elem?, arith, ◌==◌, if_cases, ltb, tests,
  length-append, dec_lt,
}
use esercitazioni_sistemi_di.Base.Threads.{total-append, total, total-set, total-eq-zero}
use native.Mathlib.Nat.{suc-mul, zero-mul}
use esercitazioni_sistemi_di.Accesses.{
  Shared, Thread, wait_section, append_id, post_section, thread_ended, Place, post_ready,
  wait_start, create, join, check, child_ended, Child, exited, thread_at, has_ended, child_at,
}
use esercitazioni_sistemi_di.Accesses.Parse.{occurrences, occurrences-append}
use esercitazioni_sistemi_di.Accesses.Effects.{
  in_section, unwritten, inside, to_write, posted, started, AllEnded, AtPlace, IsChild, Effect,
  thread_at-ThreadMove, AtPlace-set,
}

-- A child with a thread that has not written has not exited.
not_exited :
    (m : ℕ) (pl : Place) (ts : List Thread) (id j : ℕ) (t : Thread)
    → get_elem? ts j ≡ some t
    → unwritten t ≡ 1
    → AtPlace m pl ts id
    → exited (record { place = pl; threads = ts; thread_id = id }) ≡ 0
not_exited m child_ended ts id j t h u p = absurd (ground (arith, p.1 j t h))
not_exited m post_ready ts id j t h u p = refl
not_exited m wait_start ts id j t h u p = refl
not_exited m (create k) ts id j t h u p = refl
not_exited m (join k) ts id j t h u p = refl
not_exited m check ts id j t h u p = refl

pub occurrences-one : (i : ℕ) (log : List ℕ) → occurrences i (log ++ i ∷ []) ≡ occurrences i log + 1
occurrences-one i log = ground (arith, occurrences-append i log (i ∷ []))

pub thread_at-Effect :
    (m i j : ℕ) (sh : Shared) (c : Child) (t : Thread)
    → IsChild m sh i c
    → get_elem? c.threads j ≡ some t
    → (let (sh', t') = thread_at i t sh in
        Effect m i sh sh' c (record c { threads = set c.threads j t' }))
thread_at-Effect m i j sh c t v h =
    let (sh', t') = thread_at i t sh in
    let mv = thread_at-ThreadMove i t sh in
    let fewer = total-set unwritten c.threads j t t' h in
    record {
      excl = omega (arith, mv.excl, total-set in_section c.threads j t t' h);
      ready = omega (arith, mv.ready);
      start = omega (arith, mv.start);
      flag = mv.flag;
      exit = omega arith;
      log = elim mv.log [
        | inl (same, _) ↦ inl same
        | inr (more, one, _) ↦
            inr (more, not_exited m c.place c.threads c.thread_id j t h one v.here)
      ];
      child = record {
        written = elim mv.log [
          | inl (same, u) ↦ omega (arith, ap (occurrences i) same, v.written, fewer)
          | inr (more, one, none_left) ↦
              omega (arith, ap (occurrences i) more, occurrences-one i sh.log, v.written, fewer)
        ];
        here = AtPlace-set m c.place c.threads c.thread_id j t t' h mv.stays v.here;
      };
    }

pub has_ended-eq : (o : Option Thread) → has_ended o ≡ true → o ≡ some thread_ended
has_ended-eq none e = ground arith
has_ended-eq (some wait_section) e = ground arith
has_ended-eq (some append_id) e = ground arith
has_ended-eq (some post_section) e = ground arith
has_ended-eq (some thread_ended) e = refl

-- Joined threads have ended.
pub joined :
    (ts : List Thread)
    → ((l : ℕ) → l < length ts → get_elem? ts l ≡ some thread_ended)
    → AllEnded ts
joined [] h l t g = ground arith
joined (u ∷ ts) h zero t g = ground (arith, h 0 (omega arith))
joined (u ∷ ts) h (suc l) t g = joined ts (λ n lt. h (suc n) (omega arith)) l t g

pub one_more :
    (ts : List Thread) (j : ℕ)
    → get_elem? ts j ≡ some thread_ended
    → ((l : ℕ) → l < j → get_elem? ts l ≡ some thread_ended)
    → (l : ℕ) → l < j + 1
    → get_elem? ts l ≡ some thread_ended
one_more ts j e before l lt = elim (dec_lt l j) [
  | yes p ↦ before l p
  | no p ↦ let same : j ≡ l = omega arith in subst (λ n. get_elem? ts n ≡ some thread_ended) same e
]

pub no_weight :
    (w : Thread → ℕ) (ts : List Thread) → w thread_ended ≡ 0 → AllEnded ts → total w ts ≡ 0
no_weight w ts e a = total-eq-zero w ts (λ l t g. ap w (a l t g) ∙ e)

-- A step that leaves the file, the flag and the critical section.
quiet :
    (m i : ℕ) (sh sh' : Shared) (c c' : Child)
    → sh'.critical_section ≡ sh.critical_section
    → sh'.flag ≡ sh.flag
    → sh'.log ≡ sh.log
    → inside c' ≡ inside c
    → posted c' + sh.main_waits_for_children ≡ posted c + sh'.main_waits_for_children
    → started c' + sh'.children_wait_for_main ≡ started c + sh.children_wait_for_main
    → exited c ≤ exited c'
    → occurrences i sh.log + to_write c' ≡ c'.thread_id
    → AtPlace m c'.place c'.threads c'.thread_id
    → Effect m i sh sh' c c'
quiet m i sh sh' c c' cs flag log ins ready start exit written here = record {
  excl = omega arith;
  ready = ready;
  start = start;
  flag = flag;
  exit = exit;
  log = inl log;
  child = record { written = ap (λ l. occurrences i l + to_write c') log ∙ written; here = here };
}

pub child_at-Effect :
    (m : ℕ) (stop : ℕ → Bool) (i : ℕ) (sh : Shared) (pl : Place) (ts : List Thread) (id : ℕ)
    → (let c : Child = record { place = pl; threads = ts; thread_id = id } in
        IsChild m sh i c → (let (sh', c') = child_at m stop pl sh c in Effect m i sh sh' c c'))
unfolding child_at total
child_at-Effect m stop i sh post_ready ts id v =
    quiet m i sh _ _ _ refl refl refl refl (omega arith) refl (omega arith) v.written v.here
child_at-Effect m stop i sh wait_start ts id v =
    if_cases
      (λ (r : Shared × Child).
        Effect m i sh r.0 (record { place = wait_start; threads = ts; thread_id = id }) r.1)
      (sh.children_wait_for_main == 0) _ _
      (λ e. quiet m i sh _ _ _ refl refl refl refl refl refl (omega arith) v.written v.here)
      (λ ne.
        let (nil, none_yet) = v.here in
        quiet m i sh _ _ _ refl refl refl (sym (ap (total in_section) nil)) refl (ground arith)
          (omega arith)
          (sym (ap (λ l. occurrences i sh.log + total unwritten l) nil) ∙ v.written ∙ none_yet)
          (omega arith, refl, (0, omega (arith, zero-mul m))))
child_at-Effect m stop i sh (create j) ts id v =
    if_cases
      (λ (r : Shared × Child).
        Effect m i sh r.0 (record { place = create j; threads = ts; thread_id = id }) r.1)
      (ltb j m) _ _
      (λ lt.
        let (le, size, (k, e)) = v.here in
        quiet m i sh _ _ _ refl refl refl (omega (arith, total-append in_section ts wait_section))
          refl refl (omega arith) (omega (arith, v.written, total-append unwritten ts wait_section))
          (omega tests, omega (arith, length-append ts (wait_section ∷ [])), (k, omega arith)))
      (λ ge.
        let (le, size, (k, e)) = v.here in
        let all : j ≡ m = ground arith in
        quiet m i sh _ _ _ refl refl refl refl refl refl (omega arith) v.written
          (omega arith, size ∙ all, (k, e ∙ ap (λ n. k * m + n) all), λ l lt. absurd (omega arith)))
child_at-Effect m stop i sh (join j) ts id v =
    if_cases
      (λ (r : Shared × Child).
        Effect m i sh r.0 (record { place = join j; threads = ts; thread_id = id }) r.1)
      (ltb j m) _ _
      (λ lt.
        let (le, size, k, ended) = v.here in
        if_cases
          (λ (next : Place).
            Effect m i sh sh (record { place = join j; threads = ts; thread_id = id })
              (record { place = next; threads = ts; thread_id = id }))
          (has_ended (get_elem? ts j)) _ _
          (λ e.
            quiet m i sh _ _ _ refl refl refl refl refl refl (omega arith) v.written
              (omega tests, size, k, one_more ts j (has_ended-eq (get_elem? ts j) e) ended))
          (λ _. quiet m i sh _ _ _ refl refl refl refl refl refl (omega arith) v.written v.here))
      (λ ge.
        let (le, size, k, ended) = v.here in
        quiet m i sh _ _ _ refl refl refl refl refl refl (omega arith) v.written
          (k, joined ts (λ l lt. ended l (ground arith))))
child_at-Effect m stop i sh check ts id v =
    if_cases
      (λ (r : Shared × Child).
        Effect m i sh r.0 (record { place = check; threads = ts; thread_id = id }) r.1)
      (stop sh.flag) _ _
      (λ _. quiet m i sh _ _ _ refl refl refl refl refl refl (omega arith) v.written v.here)
      (λ _.
        let ((k, e), all) = v.here in
        quiet m i sh _ _ _ refl refl refl (sym (no_weight in_section ts refl all)) refl refl
          (omega arith) (omega (arith, v.written, no_weight unwritten ts refl all))
          (omega arith, refl, (suc k, omega (arith, e, suc-mul k m))))
child_at-Effect m stop i sh child_ended ts id v =
    quiet m i sh _ _ _ refl refl refl refl refl refl (omega arith) v.written v.here
