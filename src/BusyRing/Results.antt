-- ===== src/BusyRing/Results.antt =====
-- What the indices of Lab05/src/03 do, under every schedule.
use esercitazioni_sistemi_di.Base.{
  ℕ, ◌+◌, ◌%◌, ◌≤◌, subst, Bool, true, false, ◌<◌, ◌≡◌, refl, sym, ap, ◌∙◌, List, [], ◌∷◌, arith,
  ltb, ◌==◌, if_cases,
}
use esercitazioni_sistemi_di.Base.Int.{ℤ}
use esercitazioni_sistemi_di.BusyRing.{
  SharedMemory, ProducePc, check, store, add, ConsumePc, busy_wait, read, Consuming, produce_at,
  consume_at, System, Run, producer, consumer, step, run, init,
}

-- Both indices are cells of the buffer.
abbrev InRange : SharedMemory → Type 0
InRange m = (m.read_index ≤ 127) × (m.write_index ≤ 127)

produce_at-InRange :
    (rand : ℕ) (pc : ProducePc) (ops : ℕ) (sum : ℤ) (m : SharedMemory)
    → InRange m
    → InRange (produce_at rand pc ops sum m).0
unfolding produce_at
produce_at-InRange rand ProducePc.head ops sum m h = h
produce_at-InRange rand pc ops sum m h = ground arith

consume_at-InRange :
    (pc : ConsumePc) (ops : ℕ) (sum : ℤ) (m : SharedMemory)
    → InRange m
    → InRange (consume_at pc ops sum m).0
unfolding consume_at
consume_at-InRange pc ops sum m h = ground arith

step-InRange : (s : System) (t : Run) → InRange s.mem → InRange (step s t).mem
unfolding step
step-InRange s (producer rand) h =
    produce_at-InRange rand s.producing.pc s.producing.num_ops s.producing.local_sum s.mem h
step-InRange s consumer h =
    consume_at-InRange s.consuming.pc s.consuming.num_ops s.consuming.local_sum s.mem h

run-InRange : (s : System) (ts : List Run) → InRange s.mem → InRange (run s ts).mem
unfolding run
run-InRange s [] h = h
run-InRange s (t ∷ ts) h = run-InRange (step s t) ts (step-InRange s t h)

-- In every run both indices stay below the size of the buffer.
pub indices_in_range :
    (garbage : ℤ) (ts : List Run)
    → ((run (init garbage) ts).mem.read_index < 128)
      × ((run (init garbage) ts).mem.write_index < 128)
indices_in_range garbage ts =
    let h = run-InRange (init garbage) ts (omega arith, omega arith) in
    (omega (arith, h.0), omega (arith, h.1))

-- The producer is not between its test and its write, and the consumer is in its busy wait.
abbrev pub is_quiet : ProducePc → Bool
is_quiet (store v) = false
is_quiet (ProducePc.advance v) = false
is_quiet pc = true

abbrev pub is_waiting : ConsumePc → Bool
is_waiting busy_wait = true
is_waiting pc = false

-- The buffer seems full to the producer and empty to the consumer.
produce_at-quiet :
    (rand : ℕ) (pc : ProducePc) (ops : ℕ) (sum : ℤ) (m : SharedMemory)
    → m.read_index ≡ m.write_index + 1
    → m.read_index ≤ 127
    → is_quiet pc ≡ true
    → ((produce_at rand pc ops sum m).0 ≡ m) × (is_quiet (produce_at rand pc ops sum m).1.pc ≡ true)
unfolding produce_at
produce_at-quiet rand ProducePc.head ops sum m e b q =
    (refl, if_cases (λ pc. is_quiet pc ≡ true) (ltb 0 ops) _ _ (λ _. refl) (λ _. refl))
produce_at-quiet rand (check v) ops sum m e b q = (
  refl,
  if_cases (λ pc. is_quiet pc ≡ true) ((m.write_index + 1) % 128 == m.read_index) _ _ (λ _. refl)
      (λ ne. absurd (ground arith)),
)
produce_at-quiet rand (store v) ops sum m e b q = absurd (ground arith)
produce_at-quiet rand (ProducePc.advance v) ops sum m e b q = absurd (ground arith)
produce_at-quiet rand (add v) ops sum m e b q = (refl, refl)
produce_at-quiet rand ProducePc.ended ops sum m e b q = (refl, refl)

consume_at-waits :
    (pc : ConsumePc) (ops : ℕ) (sum : ℤ) (m : SharedMemory)
    → m.read_index ≡ m.write_index + 1
    → is_waiting pc ≡ true
    → (consume_at pc ops sum m ≡ (m, record { pc = pc; num_ops = ops; local_sum = sum }))
unfolding consume_at
consume_at-waits busy_wait ops sum m e w =
    if_cases
      (λ (pc : ConsumePc).
        ◌≡◌ {A = SharedMemory × Consuming} (m, record { pc = pc; num_ops = ops; local_sum = sum })
          (m, record { pc = busy_wait; num_ops = ops; local_sum = sum }))
      (ltb m.write_index m.read_index) _ _ (λ _. refl) (λ ge. absurd (ground arith))
consume_at-waits ConsumePc.head ops sum m e w = absurd (ground arith)
consume_at-waits read ops sum m e w = absurd (ground arith)
consume_at-waits (ConsumePc.advance v) ops sum m e w = absurd (ground arith)
consume_at-waits ConsumePc.ended ops sum m e w = absurd (ground arith)

record Stuck (m : SharedMemory) (c : Consuming) (s : System) : Type 0 where
  mem : s.mem ≡ m
  consuming : s.consuming ≡ c
  quiet : is_quiet s.producing.pc ≡ true

step-Stuck :
    (m : SharedMemory) (c : Consuming) (s : System) (t : Run)
    → m.read_index ≡ m.write_index + 1
    → m.read_index ≤ 127
    → is_waiting c.pc ≡ true
    → Stuck m c s
    → Stuck m c (step s t)
unfolding step
step-Stuck m c s (producer rand) e b w v =
    let (same, quiet) =
      produce_at-quiet rand s.producing.pc s.producing.num_ops s.producing.local_sum s.mem
        (subst (λ (m : SharedMemory). m.read_index ≡ m.write_index + 1) (sym v.mem) e)
        (subst (λ (m : SharedMemory). m.read_index ≤ 127) (sym v.mem) b) v.quiet in
    record { mem = same ∙ v.mem; consuming = v.consuming; quiet = quiet }
step-Stuck m c s consumer e b w v =
    let same =
      consume_at-waits s.consuming.pc s.consuming.num_ops s.consuming.local_sum s.mem
        (subst (λ (m : SharedMemory). m.read_index ≡ m.write_index + 1) (sym v.mem) e)
        (subst (λ (c : Consuming). is_waiting c.pc ≡ true) (sym v.consuming) w) in
    record {
      mem = ap (λ (r : SharedMemory × Consuming). r.0) same ∙ v.mem;
      consuming = ap (λ (r : SharedMemory × Consuming). r.1) same ∙ v.consuming;
      quiet = v.quiet;
    }

run-Stuck :
    (m : SharedMemory) (c : Consuming) (s : System) (ts : List Run)
    → m.read_index ≡ m.write_index + 1
    → m.read_index ≤ 127
    → is_waiting c.pc ≡ true
    → Stuck m c s
    → Stuck m c (run s ts)
unfolding run
run-Stuck m c s [] e b w v = v
run-Stuck m c s (t ∷ ts) e b w v = run-Stuck m c (step s t) ts e b w (step-Stuck m c s t e b w v)

-- When the read index has come to stand one cell above the write index, with the producer not between
-- its test and its write and the consumer in its busy wait, neither goes on: in every continuation of
-- every run the buffer, both indices and the consumer stay as they are, and what the producer produces
-- is dropped.
pub stuck_for_ever :
    (garbage : ℤ) (ts later : List Run)
    → (run (init garbage) ts).mem.read_index ≡ (run (init garbage) ts).mem.write_index + 1
    → is_quiet (run (init garbage) ts).producing.pc ≡ true
    → is_waiting (run (init garbage) ts).consuming.pc ≡ true
    → ((run (run (init garbage) ts) later).mem ≡ (run (init garbage) ts).mem)
      × ((run (run (init garbage) ts) later).consuming ≡ (run (init garbage) ts).consuming)
stuck_for_ever garbage ts later e q w =
    let s = run (init garbage) ts in
    let v =
      run-Stuck s.mem s.consuming s later e (omega (arith, (indices_in_range garbage ts).0)) w
        (record { mem = refl; consuming = refl; quiet = q }) in
    (v.mem, v.consuming)
