-- ===== src/Scheduler/Results.antt =====
-- What holds in every state that scheduler.c reaches.
use esercitazioni_sistemi_di.Base.{ℕ, ◌+◌, ◌≤◌, ◌≡◌, some, arith, get_elem?, length, subst, false}
use esercitazioni_sistemi_di.Base.Threads.{total, full_total}
use esercitazioni_sistemi_di.Scheduler.{
  Client, done, destroy, thread_burst, num_resources, is_destroyed, System, Reach,
}
use esercitazioni_sistemi_di.Scheduler.Clients.{holds, has_left, even_items, Knows}
use esercitazioni_sistemi_di.Scheduler.Reached.{Awaited, Reach-Inv}

-- As long as `main` has not destroyed the semaphore, however many bursts there are: it counts the
-- resources that no thread holds, so that at most three threads hold one at the same time.
pub resources_bounded :
    (n : ℕ) (s : System)
    → Reach n s
    → is_destroyed s.driver ≡ false
    → s.mem.semaphore + total holds s.clients ≡ num_resources
resources_bounded n s r there = (Reach-Inv r).resources

-- A thread that has ended has done the work items of its first loop, `n` rounded up to an even number,
-- and in its second loop `n` more: the second loop does not only do what the first one left.
pub done_items :
    (n : ℕ) (s : System) (i : ℕ) (c : Client)
    → Reach n s
    → get_elem? s.clients i ≡ some c
    → c.pc ≡ done
    → c.items ≡ even_items n + n
done_items n s i c r h e =
    subst (λ pc. Knows n (total has_left s.clients) pc c.items) e ((Reach-Inv r).knows i c h)

-- `main` destroys the semaphore only when as many threads as a burst has have written
-- ACTIVE_THREADS, whatever updates of it are lost. Without a burst it never does.
pub destroy_waits :
    (n : ℕ) (s : System) → Reach n s → s.driver ≡ destroy → thread_burst ≤ total has_left s.clients
destroy_waits n s r e = subst (λ d. Awaited d (total has_left s.clients)) e ((Reach-Inv r).awaited)

-- When there has been one burst at most, no thread needs the semaphore any more then: each has written
-- ACTIVE_THREADS.
pub one_burst-has_left :
    (n : ℕ) (s : System) (i : ℕ) (c : Client)
    → Reach n s
    → s.driver ≡ destroy
    → length s.clients ≤ thread_burst
    → get_elem? s.clients i ≡ some c
    → has_left c ≡ 1
one_burst-has_left n s i c r e few h =
    full_total has_left (λ t. ground arith) s.clients (omega (arith, few, destroy_waits n s r e)) i
      c h
