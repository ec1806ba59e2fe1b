-- ===== src/Polling/Effects.antt =====
-- Lab04/code/riepilogo.c: what holds of a child, and what a step of it or of its threads changes.
use esercitazioni_sistemi_di.Base.{
  ℕ, ◌+◌, ◌*◌, ◌≤◌, ◌<◌, ◌≡◌, ◌⊎◌, inl, inr, refl, ◌∙◌, some, List, [], ◌∷◌, ◌++◌, length, set,
  get_elem?, arith, ◌==◌, if_cases, length-set, ap,
}
use esercitazioni_sistemi_di.Base.Threads.{total, total-set}
use esercitazioni_sistemi_di.Accesses.{Thread, wait_section, append_id, post_section, thread_ended}
use esercitazioni_sistemi_di.Accesses.Parse.{occurrences}
use esercitazioni_sistemi_di.Accesses.Effects.{
  in_section, unwritten, AllEnded, AllEnded-set, ended_kept,
}
use esercitazioni_sistemi_di.Accesses.Moves.{occurrences-one}
use esercitazioni_sistemi_di.Polling.{
  Shared, Place, post_ready, wait_start, test_halt, create, join, child_ended, Child, thread_at,
}

-- 1 for a child that has said that it is ready, and for one that has been let start.
abbrev pub posted : Child → ℕ
posted c = elim c.place [ post_ready ↦ 0 | _ ↦ 1 ]

abbrev pub started : Child → ℕ
started c = elim c.place [ post_ready ↦ 0 | wait_start ↦ 0 | _ ↦ 1 ]

-- the threads that the round in progress has created
abbrev pub made : ℕ → Place → ℕ
made m (create i) = i
made m (join j) = m
made m pl = 0

-- 1 inside a round
abbrev pub in_round : Place → ℕ
in_round (create i) = 1
in_round (join j) = 1
in_round pl = 0

-- `check` holds what was there at first, or a value that `halt_sem` has had.
abbrev pub Knows : ℕ → ℕ → ℕ → ℕ → Type 0
Knows first rounds check halt = ((rounds ≡ 0) × (check ≡ first)) ⊎ ((0 < rounds) × (check ≤ halt))

-- What holds at a place, with the value `first` of `check` and the number of whole rounds.
abbrev pub AtPlace : ℕ → ℕ → ℕ → Place → List Thread → ℕ → ℕ → ℕ → Type 0
AtPlace num_children m first post_ready ts check halt rounds =
    (ts ≡ []) × (rounds ≡ 0) × (check ≡ first)
AtPlace num_children m first wait_start ts check halt rounds =
    (ts ≡ []) × (rounds ≡ 0) × (check ≡ first)
AtPlace num_children m first test_halt ts check halt rounds =
    AllEnded ts × Knows first rounds check halt
AtPlace num_children m first (create i) ts check halt rounds =
    (i ≤ m) × (length ts ≡ i) × (check ≤ halt)
AtPlace num_children m first (join j) ts check halt rounds =
    (j ≤ m)
    × (length ts ≡ m)
    × (check ≤ halt)
    × ((l : ℕ) → l < j → get_elem? ts l ≡ some thread_ended)
AtPlace num_children m first child_ended ts check halt rounds =
    AllEnded ts × Knows first rounds num_children halt

-- What holds of child `i`, which has begun `begun` rounds.
pub record IsChild (num_children m i first begun : ℕ) (sh : Shared) (c : Child) : Type 0 where
  pub section : c.file_sem + total in_section c.threads ≡ 1
  pub rounds : ℕ
  pub begun_is : begun ≡ rounds + in_round c.place
  pub written : occurrences i sh.log + total unwritten c.threads ≡ rounds * m + made m c.place
  pub here : AtPlace num_children m first c.place c.threads c.check sh.halt rounds

-- What a step of child `i`, or of one of its threads, changes.
pub record Effect (num_children m i first begun begun' : ℕ) (sh sh' : Shared) (c c' : Child)
    : Type 0 where
  pub ready : posted c' + sh.ready ≡ posted c + sh'.ready
  pub more_ready : posted c ≤ posted c'
  pub start : started c' + sh'.start ≡ started c + sh.start
  pub halt : sh'.halt ≡ sh.halt
  pub log : (sh'.log ≡ sh.log) ⊎ (sh'.log ≡ sh.log ++ i ∷ [])
  pub child : IsChild num_children m i first begun' sh' c'

-- A step of a thread.
record ThreadMove (i sem sem' : ℕ) (log log' : List ℕ) (t t' : Thread) : Type 0 where
  section : sem' + in_section t' ≡ sem + in_section t
  file :
      ((log' ≡ log) × (unwritten t' ≡ unwritten t))
      ⊎ ((log' ≡ log ++ i ∷ []) × (unwritten t ≡ 1) × (unwritten t' ≡ 0))
  stays : t ≡ thread_ended → t' ≡ thread_ended

thread_at-ThreadMove :
    (i : ℕ) (t : Thread) (sem : ℕ) (log : List ℕ)
    → (let (sem', log', t') = thread_at i t sem log in ThreadMove i sem sem' log log' t t')
unfolding thread_at
thread_at-ThreadMove i wait_section sem log =
    if_cases (λ (r : ℕ × List ℕ × Thread). ThreadMove i sem r.0 log r.1 wait_section r.2) (sem == 0)
      _ _
      (λ e. record { section = refl; file = inl (refl, refl); stays = λ e. absurd (ground arith) })
      (λ ne. record {
        section = ground arith;
        file = inl (refl, refl);
        stays = λ e. absurd (ground arith);
      })
thread_at-ThreadMove i append_id sem log = record {
  section = refl;
  file = inr (refl, refl, refl);
  stays = λ e. absurd (ground arith);
}
thread_at-ThreadMove i post_section sem log = record {
  section = omega arith;
  file = inl (refl, refl);
  stays = λ e. refl;
}
thread_at-ThreadMove i thread_ended sem log = record {
  section = refl;
  file = inl (refl, refl);
  stays = λ e. refl;
}

AtPlace-set :
    (num_children m first : ℕ) (pl : Place) (ts : List Thread) (check halt rounds j : ℕ)
    (t t' : Thread)
    → get_elem? ts j ≡ some t
    → (t ≡ thread_ended → t' ≡ thread_ended)
    → AtPlace num_children m first pl ts check halt rounds
    → AtPlace num_children m first pl (set ts j t') check halt rounds
AtPlace-set a m f post_ready ts check halt r j t t' h stays p = absurd (ground arith)
AtPlace-set a m f wait_start ts check halt r j t t' h stays p = absurd (ground arith)
AtPlace-set a m f test_halt ts check halt r j t t' h stays p =
    (AllEnded-set ts j t t' h stays p.0, p.1)
AtPlace-set a m f (create i) ts check halt r j t t' h stays p = (p.0, length-set ts j t' ∙ p.1, p.2)
AtPlace-set a m f (join k) ts check halt r j t t' h stays p =
    (p.0, length-set ts j t' ∙ p.1, p.2, ended_kept ts j k t t' h stays p.3)
AtPlace-set a m f child_ended ts check halt r j t t' h stays p =
    (AllEnded-set ts j t t' h stays p.0, p.1)

pub thread_at-Effect :
    (num_children m i first begun j : ℕ) (sh : Shared) (c : Child) (t : Thread)
    → IsChild num_children m i first begun sh c
    → get_elem? c.threads j ≡ some t
    → (let (sem', log', t') = thread_at i t c.file_sem sh.log in
        Effect num_children m i first begun begun sh
          (record sh { log = log' })
          c
          (record c { threads = set c.threads j t'; file_sem = sem' }))
thread_at-Effect num_children m i first begun j sh c t v h =
    let (sem', log', t') = thread_at i t c.file_sem sh.log in
    let mv = thread_at-ThreadMove i t c.file_sem sh.log in
    let fewer = total-set unwritten c.threads j t t' h in
    record {
      ready = refl;
      more_ready = omega arith;
      start = refl;
      halt = refl;
      log = elim mv.file [ inl (same, _) ↦ inl same | inr (more, _, _) ↦ inr more ];
      child = record {
        section = omega (arith, mv.section, v.section, total-set in_section c.threads j t t' h);
        rounds = v.rounds;
        begun_is = v.begun_is;
        written = elim mv.file [
          | inl (same, u) ↦ omega (arith, ap (occurrences i) same, v.written, fewer)
          | inr (more, one, none_left) ↦
              omega (arith, ap (occurrences i) more, occurrences-one i sh.log, v.written, fewer)
        ];
        here =
            AtPlace-set num_children m first c.place c.threads c.check sh.halt v.rounds j t t' h
              mv.stays v.here;
      };
    }
