-- ===== src/Scheduler/Clients.antt =====
-- What a thread of scheduler.c holds and knows, and how its steps change that.
use esercitazioni_sistemi_di.Base.{ℕ, ◌+◌, ◌-◌, ◌*◌, ◌/◌, ◌%◌, ◌≤◌, ◌<◌, ◌≡◌, refl, arith}
use esercitazioni_sistemi_di.Base.Int.{pos, ◌+ℤ◌, ◌≤ℤ◌, int_laws}
use esercitazioni_sistemi_di.Scheduler.{
  Memory, ClientPc, pair_head, pair_wait, pair_first, pair_second, pair_post, one_head, one_wait,
  one_work, one_post, exit_save, exit_post, done, Client, client_at,
}

-- 1 for a thread that holds a resource
abbrev pub holds : Client → ℕ
holds c = elim c.pc [
  | pair_first _ ↦ 1
  | pair_second _ ↦ 1
  | pair_post _ ↦ 1
  | one_work _ ↦ 1
  | one_post _ ↦ 1
  | _ ↦ 0
]

-- 1 for a thread that has written ACTIVE_THREADS
abbrev pub has_left : Client → ℕ
has_left c = elim c.pc [ exit_post ↦ 1 | done ↦ 1 | _ ↦ 0 ]

-- the work items of the first loop: those of `n` tasks, rounded up to an even number
abbrev pub even_items : ℕ → ℕ
even_items n = 2 * ((n + 1) / 2)

-- What a thread knows at its point: the work items done, and that a count it has loaded is no
-- lower than the initial one less the threads that have left.
abbrev pub Knows : ℕ → ℕ → ClientPc → ℕ → Type 0
Knows n left (pair_head i) items = (items ≡ i) × (i % 2 ≡ 0) × (i ≤ n + 1)
Knows n left (pair_wait i) items = (items ≡ i) × (i % 2 ≡ 0) × (i < n)
Knows n left (pair_first i) items = (items ≡ i) × (i % 2 ≡ 0) × (i < n)
Knows n left (pair_second i) items = (items ≡ i + 1) × (i % 2 ≡ 0) × (i < n)
Knows n left (pair_post i) items = (items ≡ i + 2) × (i % 2 ≡ 0) × (i < n)
Knows n left (one_head i) items = (items ≡ even_items n + i) × (i ≤ n)
Knows n left (one_wait i) items = (items ≡ even_items n + i) × (i < n)
Knows n left (one_work i) items = (items ≡ even_items n + i) × (i < n)
Knows n left (one_post i) items = (items ≡ even_items n + i + 1) × (i < n)
Knows n left (exit_save x) items = (items ≡ even_items n + n) × (pos 5 ≤ℤ x +ℤ pos left)
Knows n left pc items = items ≡ even_items n + n

-- One step of a thread: what it holds, the count, and what it knows then.
pub record IsMove (n left : ℕ) (m m' : Memory) (c c' : Client) : Type 0 where
  pub held : m'.semaphore + holds c' ≡ m.semaphore + holds c
  pub left_grows : has_left c ≤ has_left c'
  pub count : pos 5 ≤ℤ m'.active_threads +ℤ pos (left + has_left c' - has_left c)
  pub knows : Knows n (left + has_left c' - has_left c) c'.pc c'.items

pub client_at-IsMove :
    (n left : ℕ) (pc : ClientPc) (items : ℕ) (m : Memory)
    → pos 5 ≤ℤ m.active_threads +ℤ pos left
    → Knows n left pc items
    → (let (m', c') = client_at n pc items m in
        IsMove n left m m' (record { pc = pc; items = items }) c')
unfolding client_at
client_at-IsMove n left (pair_head i) items m b k = ground arith
client_at-IsMove n left (exit_save x) items m b k = record {
  held = refl;
  left_grows = omega arith;
  count = omega int_laws;
  knows = k.0;
}
client_at-IsMove n left pc items m b k = ground arith

-- A count of threads that have left only grows.
pub Knows-grows :
    (n left left' : ℕ) (pc : ClientPc) (items : ℕ)
    → left ≤ left'
    → Knows n left pc items
    → Knows n left' pc items
Knows-grows n left left' (exit_save x) items h k = (k.0, omega int_laws)
Knows-grows n left left' pc items h k = k
