-- ===== src/Scheduler/Tests.antt =====
-- Runs of scheduler.c, and the theorems at them.
use esercitazioni_sistemi_di.Base.{
  ℕ, ◌+◌, ◌≤◌, ◌≡◌, refl, true, false, Option, none, some, List, [], ◌∷◌, ◌++◌, replicate,
  get_elem?, length, if_cases, if◌then◌else◌, arith,
}
use esercitazioni_sistemi_di.Base.Int.{◌+ℤ◌}
use esercitazioni_sistemi_di.Base.Threads.{total}
use esercitazioni_sistemi_di.Scheduler.{
  Key, enter, eof, other, Client, done, System, driver_at, client_at, moved, main_step, client_step,
  Reach, init, here, next, destroy, is_destroyed, uses_destroyed, num_tasks, num_resources,
}
use esercitazioni_sistemi_di.Scheduler.Clients.{holds, has_left}
use esercitazioni_sistemi_di.Scheduler.Results.{resources_bounded, done_items, one_burst-has_left}

data Pick : Type 0 where
  main : Key → Pick
  client : ℕ → Pick

client_turn : System → ℕ → Option Client → System
client_turn s i none = s
client_turn s i (some c) =
    if uses_destroyed s.driver c.pc then s else moved s i (client_at num_tasks c.pc c.items s.mem)

turn : System → Pick → System
unfolding client_turn
turn s (main key) = if s.running then driver_at key s.driver s else s
turn s (client i) = if s.running then client_turn s i (get_elem? s.clients i) else s

follow : List Pick → System → System
unfolding turn
follow [] s = s
follow (p ∷ ps) s = follow ps (turn s p)

client_turn-Reach :
    (s : System) (i : ℕ) (o : Option Client)
    → Reach num_tasks s
    → s.running ≡ true
    → get_elem? s.clients i ≡ o
    → Reach num_tasks (client_turn s i o)
unfolding client_turn
client_turn-Reach s i none r live h = r
client_turn-Reach s i (some c) r live h =
    if_cases (Reach num_tasks) (uses_destroyed s.driver c.pc) _ _ (λ gone. r)
      (λ ok. next r (client_step i c live h ok))

turn-Reach : (s : System) (p : Pick) → Reach num_tasks s → Reach num_tasks (turn s p)
unfolding turn
turn-Reach s (main key) r =
    if_cases (Reach num_tasks) s.running _ _ (λ live. next r (main_step key live)) (λ stopped. r)
turn-Reach s (client i) r =
    if_cases (Reach num_tasks) s.running _ _ (λ live. client_turn-Reach s i _ r live refl)
      (λ stopped. r)

follow-Reach : (ps : List Pick) (s : System) → Reach num_tasks s → Reach num_tasks (follow ps s)
unfolding follow
follow-Reach [] s r = r
follow-Reach (p ∷ ps) s r = follow-Reach ps (turn s p) (turn-Reach s p r)

abbrev burst : List Pick
burst = main other ∷ main enter ∷ replicate 6 (main enter)

-- Threads 0, 1 and 2 hold a resource, and thread 3 waits for one.
abbrev crowded : List Pick
crowded =
    burst
    ++ replicate 3 (client 0)
    ++ replicate 2 (client 1)
    ++ replicate 4 (client 2)
    ++ replicate 5 (client 3)

abbrev all_done : List Pick
all_done =
    burst
    ++ replicate 30 (client 0)
    ++ replicate 30 (client 1)
    ++ replicate 30 (client 2)
    ++ replicate 30 (client 3)
    ++ replicate 30 (client 4)
    ++ replicate 3 (main eof)

three_hold : total holds (follow crowded init).clients ≡ 3
unfolding follow turn client_turn driver_at client_at total ◌+ℤ◌
three_hold = refl

not_yet : is_destroyed (follow crowded init).driver ≡ false
unfolding follow turn client_turn driver_at client_at ◌+ℤ◌
not_yet = refl

resources_bounded_example :
    (follow crowded init).mem.semaphore + total holds (follow crowded init).clients ≡ num_resources
resources_bounded_example =
    resources_bounded num_tasks (follow crowded init) (follow-Reach crowded init here) not_yet

destroys : (follow all_done init).driver ≡ destroy
unfolding follow turn client_turn driver_at client_at ◌+ℤ◌
destroys = refl

abbrev last : Client
last = record { pc = done; items = 7 }

ended : get_elem? (follow all_done init).clients 4 ≡ some last
unfolding follow turn client_turn driver_at client_at ◌+ℤ◌
ended = refl

-- Seven work items in place of three.
done_items_example : ◌≡◌ {A = ℕ} 7 7
done_items_example =
    done_items num_tasks (follow all_done init) 4 last (follow-Reach all_done init here) ended refl

five : length (follow all_done init).clients ≡ 5
unfolding follow turn client_turn driver_at client_at ◌+ℤ◌
five = refl

le_of_eq : {k l : ℕ} → k ≡ l → k ≤ l
le_of_eq e = omega arith

one_burst-has_left_example : has_left last ≡ 1
one_burst-has_left_example =
    one_burst-has_left num_tasks (follow all_done init) 4 last (follow-Reach all_done init here)
      destroys (le_of_eq five) ended
