-- ===== src/NamedPool/Inv.antt =====
-- Lab03/code/es2: what the semaphores count, in every run.
use esercitazioni_sistemi_di.Base.{
  ℕ, ◌+◌, ◌-◌, ◌<◌, ◌≡◌, ◌≢◌, refl, ap, Option, none, some, List, length, get_or, set, ltb, ◌==◌,
  if◌then◌else◌, if_cases, arith, ℕ_discrete, length-set, get_or-set_self, get_or-set_ne,
}
use esercitazioni_sistemi_di.Base.Threads.{total}
use esercitazioni_sistemi_di.NamedPool.{
  Place, open_sem, wait_sem, post_sem, close_sem, thread_ended, Client, Server, logging, System,
  Effect, moves, exits, client_at,
}

-- 1 for a thread that holds a resource of semaphore `h`; the sum over a client.
abbrev pub holds : ℕ → Place → ℕ
holds h (post_sem k) = if k == h then 1 else 0
holds h p = 0

abbrev pub held : ℕ → Client → ℕ
held h c = total (holds h) c.threads

-- 1 for a thread whose semaphore has a number of `n` or more.
abbrev pub stray : ℕ → Place → ℕ
stray n (wait_sem k) = if ltb k n then 0 else 1
stray n (post_sem k) = if ltb k n then 0 else 1
stray n (close_sem k) = if ltb k n then 0 else 1
stray n p = 0

abbrev pub strays : ℕ → Client → ℕ
strays n c = total (stray n) c.threads

abbrev pub NamedBelow : ℕ → Option ℕ → Type 0
NamedBelow n none = Unit {0}
NamedBelow n (some h) = h < n

abbrev pub ServerBelow : ℕ → Server → Type 0
ServerBelow n (logging h) = h < n
ServerBelow n server = Unit {0}

pub record Inv (s : System) : Type 0 where
  pub balance : (h : ℕ) → h < length s.values → get_or s.values h 0 + total (held h) s.clients ≡ 3
  pub no_stray : total (strays (length s.values)) s.clients ≡ 0
  pub named : NamedBelow (length s.values) s.named
  pub server : ServerBelow (length s.values) s.server

-- A step of a thread from `p` to `p'`.
pub record Move (values values' : List ℕ) (p p' : Place) : Type 0 where
  pub size : length values' ≡ length values
  pub balance :
      (h : ℕ) → h < length values → get_or values' h 0 + holds h p' ≡ get_or values h 0 + holds h p
  pub no_stray : stray (length values) p' ≡ 0

abbrev pub Fits : List ℕ → Place → Effect → Type 0
Fits values p (moves values' p') = Move values values' p p'
Fits values p exits = Unit {0}

stays :
    (values : List ℕ) (p p' : Place)
    → ((h : ℕ) → holds h p' ≡ holds h p)
    → stray (length values) p' ≡ 0
    → Move values values p p'
stays values p p' same below = record {
  size = refl;
  balance = λ h lt. omega (arith, same h);
  no_stray = below;
}

-- A change of semaphore `k` by what the thread takes or gives.
changes :
    (values : List ℕ) (k v : ℕ) (p p' : Place)
    → k < length values
    → v + holds k p' ≡ get_or values k 0 + holds k p
    → ((h : ℕ) → k ≡ h → holds h p' ≡ holds k p')
    → ((h : ℕ) → k ≡ h → holds h p ≡ holds k p)
    → ((h : ℕ) → k ≢ h → holds h p' ≡ holds h p)
    → stray (length values) p' ≡ 0
    → Move values (set values k v) p p'
changes values k v p p' lt e same' same others below = record {
  size = length-set values k v;
  balance = λ h h_lt. elim (ℕ_discrete k h) [
    | yes eq ↦
        let here = get_or-set_self values k v 0 lt in
        let at_h = ap (λ x. get_or (set values k v) x 0) eq in
        let before = ap (λ x. get_or values x 0) eq in
        omega (arith, here, at_h, before, e, same' h eq, same h eq)
    | no ne ↦ omega (arith, get_or-set_ne values k h v 0 ne, others h ne)
  ];
  no_stray = below;
}

pub client_at-Fits :
    (p : Place) (values : List ℕ) (named : Option ℕ)
    → stray (length values) p ≡ 0
    → NamedBelow (length values) named
    → Fits values p (client_at p values named)
unfolding client_at
client_at-Fits open_sem values none z b = tt
client_at-Fits open_sem values (some h) z b =
    stays values open_sem (wait_sem h) (λ k. refl) (ground arith)
client_at-Fits (wait_sem k) values named z b =
    if_cases (Fits values (wait_sem k)) (get_or values k 0 == 0) _ _
      (λ e. stays values (wait_sem k) (wait_sem k) (λ h. refl) z)
      (λ ne.
        changes values k (get_or values k 0 - 1) (wait_sem k) (post_sem k) (ground arith)
          (ground arith) (λ h e. ground arith) (λ h e. refl) (λ h ne. ground arith) z)
client_at-Fits (post_sem k) values named z b =
    changes values k (get_or values k 0 + 1) (post_sem k) (close_sem k) (ground arith)
      (ground arith) (λ h e. refl) (λ h e. ground arith) (λ h ne. ground arith) z
client_at-Fits (close_sem k) values named z b =
    stays values (close_sem k) thread_ended (λ h. refl) refl
client_at-Fits thread_ended values named z b =
    stays values thread_ended thread_ended (λ h. refl) refl
