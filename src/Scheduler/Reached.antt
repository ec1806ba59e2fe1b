-- ===== src/Scheduler/Reached.antt =====
-- The invariant of scheduler.c, by induction on the steps that reach a state.
use esercitazioni_sistemi_di.Base.{
  ℕ, ◌+◌, ◌-◌, ◌≤◌, ◌≡◌, refl, sym, subst, true, some, [], ◌∷◌, ◌++◌, get_elem?, set, arith,
  if_cases, ltb, ◌==◌, ℕ_discrete, inl, inr,
}
use esercitazioni_sistemi_di.Base.Int.{ℤ, pos, ◌+ℤ◌, ◌≤ℤ◌}
use esercitazioni_sistemi_di.Base.Threads.{
  total, total-set, total-append, get_elem?-set, get_elem?-set_eq, get_elem?-snoc,
}
use esercitazioni_sistemi_di.Scheduler.{
  Client, client_at, pair_head, Key, Driver, read_key, spawn, wait_exit, spin, destroy, post_exit,
  destroy_exit, main_ended, is_zero, System, driver_at, moved, thread_burst, enter, eof, other,
  Step, main_step, client_step, client_exits, init, Reach, here, next,
}
use esercitazioni_sistemi_di.Scheduler.Clients.{
  holds, has_left, Knows, client_at-IsMove, Knows-grows,
}

-- Five threads have left when `main` is past its wait for ACTIVE_THREADS.
abbrev pub Awaited : Driver → ℕ → Type 0
Awaited destroy left = 5 ≤ left
Awaited post_exit left = 5 ≤ left
Awaited destroy_exit left = 5 ≤ left
Awaited main_ended left = 5 ≤ left
Awaited _ left = Unit {0}

pub record Inv (n : ℕ) (s : System) : Type 0 where
  pub resources : s.mem.semaphore + total holds s.clients ≡ 3
  pub count : pos 5 ≤ℤ s.mem.active_threads +ℤ pos (total has_left s.clients)
  pub knows :
      (i : ℕ) (c : Client)
      → get_elem? s.clients i ≡ some c
      → Knows n (total has_left s.clients) c.pc c.items
  pub awaited : Awaited s.driver (total has_left s.clients)

init-Inv : (n : ℕ) → Inv n init
unfolding total ◌+ℤ◌
init-Inv n = record {
  resources = refl;
  count = omega arith;
  knows = λ i c h. ground arith;
  awaited = tt;
}

Awaited-grows : (d : Driver) (left left' : ℕ) → left ≤ left' → Awaited d left → Awaited d left'
Awaited-grows d left left' h a = ground arith

client_step-Inv :
    (n : ℕ) (s : System) (i : ℕ) (c : Client)
    → get_elem? s.clients i ≡ some c
    → Inv n s
    → Inv n (moved s i (client_at n c.pc c.items s.mem))
client_step-Inv n s i c h v =
    let left = total has_left s.clients in
    let (m', c') = client_at n c.pc c.items s.mem in
    let mv = client_at-IsMove n left c.pc c.items s.mem v.count (v.knows i c h) in
    let left' = total has_left (set s.clients i c') in
    let same : left' ≡ left + has_left c' - has_left c =
      omega (arith, total-set has_left s.clients i c c' h) in
    let grows : left ≤ left' =
      omega (arith, mv.left_grows, total-set has_left s.clients i c c' h) in
    record {
      resources = omega (arith, mv.held, v.resources, total-set holds s.clients i c c' h);
      count = subst (λ l. pos 5 ≤ℤ m'.active_threads +ℤ pos l) (sym same) mv.count;
      knows = λ j d g. elim (ℕ_discrete i j) [
        | yes e ↦
            subst (λ (d : Client). Knows n left' d.pc d.items)
              (sym (get_elem?-set_eq s.clients i j c' d g e))
              (subst (λ l. Knows n l c'.pc c'.items) (sym same) mv.knows)
        | no ne ↦
            Knows-grows n left left' d.pc d.items grows
              (v.knows j d (get_elem?-set s.clients i j c' d g ne))
      ];
      awaited = Awaited-grows s.driver left left' grows v.awaited;
    }

-- A step of `main` that leaves the threads and the resources.
stays :
    (n : ℕ) (s : System) (sem_exit : ℕ) (d : Driver)
    → Inv n s
    → Awaited d (total has_left s.clients)
    → Inv n (record s { mem = record s.mem { sem_exit = sem_exit }; driver = d })
stays n s sem_exit d v a = record {
  resources = v.resources;
  count = v.count;
  knows = v.knows;
  awaited = a;
}

spawned :
    (n : ℕ) (s : System) (d : Driver)
    → Inv n s
    → Awaited d (total has_left s.clients)
    → Inv n (record s {
      driver = d;
      clients = s.clients ++ record { pc = pair_head 0; items = 0 } ∷ [];
    })
spawned n s d v a =
    let c : Client = record { pc = pair_head 0; items = 0 } in
    let same : total has_left s.clients ≡ total has_left (s.clients ++ c ∷ []) =
      omega (arith, total-append has_left s.clients c) in
    record {
      resources = omega (arith, v.resources, total-append holds s.clients c);
      count = subst (λ l. pos 5 ≤ℤ s.mem.active_threads +ℤ pos l) same v.count;
      knows = λ i u h.
          subst (λ l. Knows n l u.pc u.items) same
            (elim (get_elem?-snoc s.clients c i u h) [
              | inl old ↦ v.knows i u old
              | inr new ↦
                  subst (λ (w : Client). Knows n (total has_left s.clients) w.pc w.items) (sym new)
                    (refl, refl, omega arith)
            ]);
      awaited = subst (Awaited d) same a;
    }

zero_left : (x : ℤ) (left : ℕ) → is_zero x ≡ true → pos 5 ≤ℤ x +ℤ pos left → 5 ≤ left
unfolding ◌+ℤ◌
zero_left x left z h = ground arith

driver_at-Inv :
    (n : ℕ) (key : Key) (d : Driver) (s : System)
    → s.driver ≡ d
    → Inv n s
    → Inv n (driver_at key d s)
unfolding driver_at
driver_at-Inv n enter read_key s e v = stays n s s.mem.sem_exit (spawn 0) v tt
driver_at-Inv n eof read_key s e v = stays n s s.mem.sem_exit wait_exit v tt
driver_at-Inv n other read_key s e v = v
driver_at-Inv n key (spawn i) s e v =
    if_cases (Inv n) (ltb i thread_burst) _ _ (λ more. spawned n s (spawn (i + 1)) v tt)
      (λ all. stays n s s.mem.sem_exit read_key v tt)
driver_at-Inv n key wait_exit s e v =
    if_cases (Inv n) (s.mem.sem_exit == 0) _ _ (λ blocked. v)
      (λ free. stays n s (s.mem.sem_exit - 1) spin v tt)
driver_at-Inv n key spin s e v =
    if_cases (λ (d : Driver). Inv n (record s { driver = d })) (is_zero s.mem.active_threads) _ _
      (λ zero. stays n s s.mem.sem_exit destroy v (zero_left s.mem.active_threads _ zero v.count))
      (λ more. stays n s s.mem.sem_exit spin v tt)
driver_at-Inv n key destroy s e v =
    stays n s s.mem.sem_exit post_exit v
      (subst (λ d. Awaited d (total has_left s.clients)) e v.awaited)
driver_at-Inv n key post_exit s e v =
    stays n s (s.mem.sem_exit + 1) destroy_exit v
      (subst (λ d. Awaited d (total has_left s.clients)) e v.awaited)
driver_at-Inv n key destroy_exit s e v =
    stays n s s.mem.sem_exit main_ended v
      (subst (λ d. Awaited d (total has_left s.clients)) e v.awaited)
driver_at-Inv n key main_ended s e v = v

pub Step-Inv : {n : ℕ} {s t : System} → Step n s t → Inv n s → Inv n t
Step-Inv {n} {s} (main_step key live) v = driver_at-Inv n key s.driver s refl v
Step-Inv {n} {s} (client_step i c live h ok) v = client_step-Inv n s i c h v
Step-Inv (client_exits i c live h ok call) v = record {
  resources = v.resources;
  count = v.count;
  knows = v.knows;
  awaited = v.awaited;
}

pub Reach-Inv : {n : ℕ} {s : System} → Reach n s → Inv n s
Reach-Inv {n} here = init-Inv n
Reach-Inv (next r st) = Step-Inv st (Reach-Inv r)
