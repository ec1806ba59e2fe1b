-- ===== src/Accesses/Effects.antt =====
-- Lab05/src/00/riepilogo.c: what a step of a thread or of a child does to the shared state, and what
-- it keeps of the child.
use esercitazioni_sistemi_di.Base.{
  ℕ, zero, suc, ◌+◌, ◌*◌, ◌≤◌, ◌<◌, ◌≡◌, ◌⊎◌, inl, inr, refl, ◌∙◌, some, List, [], ◌∷◌, ◌++◌,
  length, set, get_elem?, arith, ◌==◌, if_cases, length-set, ℕ_discrete,
}
use esercitazioni_sistemi_di.Base.Threads.{total, get_elem?-set, get_elem?-set_eq}
use esercitazioni_sistemi_di.Accesses.{
  Shared, Thread, wait_section, append_id, post_section, thread_ended, Place, post_ready,
  wait_start, create, join, check, child_ended, Child, exited, thread_at,
}
use esercitazioni_sistemi_di.Accesses.Parse.{occurrences}

-- 1 for a thread in the critical section, and for one that has not written.
abbrev pub in_section : Thread → ℕ
in_section append_id = 1
in_section post_section = 1
in_section t = 0

abbrev pub unwritten : Thread → ℕ
unwritten wait_section = 1
unwritten append_id = 1
unwritten t = 0

-- The same over the threads of a child.
abbrev pub inside : Child → ℕ
inside c = total in_section c.threads

abbrev pub to_write : Child → ℕ
to_write c = total unwritten c.threads

-- 1 for a child that has said that it is ready, and for one that has been let start.
abbrev pub posted : Child → ℕ
posted c = elim c.place [ post_ready ↦ 0 | _ ↦ 1 ]

abbrev pub started : Child → ℕ
started c = elim c.place [ post_ready ↦ 0 | wait_start ↦ 0 | _ ↦ 1 ]

abbrev pub AllEnded : List Thread → Type 0
AllEnded ts = (l : ℕ) (t : Thread) → get_elem? ts l ≡ some t → t ≡ thread_ended

-- The threads of a child at its place. `thread_id` counts the threads of the rounds before, which
-- are `m` each, and those of this round.
abbrev pub AtPlace : ℕ → Place → List Thread → ℕ → Type 0
AtPlace m post_ready ts thread_id = (ts ≡ []) × (thread_id ≡ 0)
AtPlace m wait_start ts thread_id = (ts ≡ []) × (thread_id ≡ 0)
AtPlace m (create j) ts thread_id = (j ≤ m) × (length ts ≡ j) × ((k : ℕ) × (thread_id ≡ k * m + j))
AtPlace m (join j) ts thread_id =
    (j ≤ m)
    × (length ts ≡ m)
    × ((k : ℕ) × (thread_id ≡ k * m + m))
    × ((l : ℕ) → l < j → get_elem? ts l ≡ some thread_ended)
AtPlace m check ts thread_id = ((k : ℕ) × (thread_id ≡ k * m + m)) × AllEnded ts
AtPlace m child_ended ts thread_id = ((k : ℕ) × (thread_id ≡ k * m + m)) × AllEnded ts

-- What holds of child `i`: the file has its number once for each of its threads that has written.
pub record IsChild (m : ℕ) (sh : Shared) (i : ℕ) (c : Child) : Type 0 where
  pub written : occurrences i sh.log + to_write c ≡ c.thread_id
  pub here : AtPlace m c.place c.threads c.thread_id

-- What a step of child `i`, or of one of its threads, changes.
pub record Effect (m i : ℕ) (sh sh' : Shared) (c c' : Child) : Type 0 where
  pub excl : sh'.critical_section + inside c' ≡ sh.critical_section + inside c
  pub ready : posted c' + sh.main_waits_for_children ≡ posted c + sh'.main_waits_for_children
  pub start : started c' + sh'.children_wait_for_main ≡ started c + sh.children_wait_for_main
  pub flag : sh'.flag ≡ sh.flag
  pub exit : exited c ≤ exited c'
  pub log : (sh'.log ≡ sh.log) ⊎ ((sh'.log ≡ sh.log ++ i ∷ []) × (exited c ≡ 0))
  pub child : IsChild m sh' i c'

-- A step of a thread.
pub record ThreadMove (i : ℕ) (sh sh' : Shared) (t t' : Thread) : Type 0 where
  pub excl : sh'.critical_section + in_section t' ≡ sh.critical_section + in_section t
  pub ready : sh'.main_waits_for_children ≡ sh.main_waits_for_children
  pub start : sh'.children_wait_for_main ≡ sh.children_wait_for_main
  pub flag : sh'.flag ≡ sh.flag
  pub log :
      ((sh'.log ≡ sh.log) × (unwritten t' ≡ unwritten t))
      ⊎ ((sh'.log ≡ sh.log ++ i ∷ []) × (unwritten t ≡ 1) × (unwritten t' ≡ 0))
  pub stays : t ≡ thread_ended → t' ≡ thread_ended

pub thread_at-ThreadMove :
    (i : ℕ) (t : Thread) (sh : Shared)
    → (let (sh', t') = thread_at i t sh in ThreadMove i sh sh' t t')
unfolding thread_at
thread_at-ThreadMove i wait_section sh =
    if_cases (λ (r : Shared × Thread). ThreadMove i sh r.0 wait_section r.1)
      (sh.critical_section == 0) _ _
      (λ e. record {
        excl = refl;
        ready = refl;
        start = refl;
        flag = refl;
        log = inl (refl, refl);
        stays = λ e. absurd (ground arith);
      })
      (λ ne. record {
        excl = ground arith;
        ready = refl;
        start = refl;
        flag = refl;
        log = inl (refl, refl);
        stays = λ e. absurd (ground arith);
      })
thread_at-ThreadMove i append_id sh = record {
  excl = refl;
  ready = refl;
  start = refl;
  flag = refl;
  log = inr (refl, refl, refl);
  stays = λ e. absurd (ground arith);
}
thread_at-ThreadMove i post_section sh = record {
  excl = omega arith;
  ready = refl;
  start = refl;
  flag = refl;
  log = inl (refl, refl);
  stays = λ e. refl;
}
thread_at-ThreadMove i thread_ended sh = record {
  excl = refl;
  ready = refl;
  start = refl;
  flag = refl;
  log = inl (refl, refl);
  stays = λ e. refl;
}

pub AllEnded-set :
    (ts : List Thread) (j : ℕ) (t t' : Thread)
    → get_elem? ts j ≡ some t
    → (t ≡ thread_ended → t' ≡ thread_ended)
    → AllEnded ts
    → AllEnded (set ts j t')
AllEnded-set ts j t t' h stays p l u g = elim (ℕ_discrete j l) [
  | yes e ↦ get_elem?-set_eq ts j l t' u g e ∙ stays (p j t h)
  | no ne ↦ p l u (get_elem?-set ts j l t' u g ne)
]

-- Threads that have ended stay so when a thread makes a step.
pub ended_kept :
    (ts : List Thread) (j k : ℕ) (t t' : Thread)
    → get_elem? ts j ≡ some t
    → (t ≡ thread_ended → t' ≡ thread_ended)
    → ((l : ℕ) → l < k → get_elem? ts l ≡ some thread_ended)
    → (l : ℕ) → l < k
    → get_elem? (set ts j t') l ≡ some thread_ended
ended_kept [] j k t t' h stays p l lt = p l lt
ended_kept (u ∷ ts) zero k t t' h stays p zero lt = ground (arith, p 0 lt)
ended_kept (u ∷ ts) zero k t t' h stays p (suc l) lt = p (suc l) lt
ended_kept (u ∷ ts) (suc j) k t t' h stays p zero lt = p zero lt
ended_kept (u ∷ ts) (suc j) (suc k) t t' h stays p (suc l) lt =
    ended_kept ts j k t t' h stays (λ n n_lt. p (suc n) (omega arith)) l (omega arith)
ended_kept (u ∷ ts) (suc j) zero t t' h stays p (suc l) lt = absurd (omega arith)

pub AtPlace-set :
    (m : ℕ) (pl : Place) (ts : List Thread) (id j : ℕ) (t t' : Thread)
    → get_elem? ts j ≡ some t
    → (t ≡ thread_ended → t' ≡ thread_ended)
    → AtPlace m pl ts id
    → AtPlace m pl (set ts j t') id
AtPlace-set m post_ready ts id j t t' h stays p = absurd (ground arith)
AtPlace-set m wait_start ts id j t t' h stays p = absurd (ground arith)
AtPlace-set m (create k) ts id j t t' h stays p = (p.0, length-set ts j t' ∙ p.1, p.2)
AtPlace-set m (join k) ts id j t t' h stays p =
    (p.0, length-set ts j t' ∙ p.1, p.2, ended_kept ts j k t t' h stays p.3)
AtPlace-set m check ts id j t t' h stays p = (p.0, AllEnded-set ts j t t' h stays p.1)
AtPlace-set m child_ended ts id j t t' h stays p = (p.0, AllEnded-set ts j t t' h stays p.1)
