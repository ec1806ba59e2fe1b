-- ===== src/Base/Threads.antt =====
-- Threads as a list of their states: one of them moves, and weights are summed over all of them.
use Prim.Native.Nat.{ℕ, zero, suc, ◌+◌, ◌<◌, ◌≤◌}
use mathlib.Core.Path.{◌≡◌, refl, ap, sym, subst}
use mathlib.Core.Logic.{◌≢◌, ◌⊎◌, inl, inr}
use mathlib.Core.Bool.{Bool, true, false, ◌&&◌}
use mathlib.Core.List.{List, [], ◌∷◌, ◌++◌}
use mathlib.Core.Option.{some, some-injective}
use native.Mathlib.Omega.{arith}
use esercitazioni_sistemi_di.Base.Tests.{Bool-cases}
use esercitazioni_sistemi_di.Base.Lists.{get_elem?, length, set, replicate}

module _ {ℓ} {A : Type ℓ} where
  -- the sum of the weights of the threads
  unfoldable pub total : (A → ℕ) → List A → ℕ
  total w [] = 0
  total w (t ∷ ts) = w t + total w ts

module _ {ℓ} {A : Type ℓ} (w : A → ℕ) where
  -- When a thread moves, the sum changes by the difference of its own weights.
  pub total-set :
      (ts : List A) (i : ℕ) (t t' : A)
      → get_elem? ts i ≡ some t
      → total w (set ts i t') + w t ≡ total w ts + w t'
  unfolding total
  total-set [] i t t' h = ground arith
  total-set (u ∷ ts) zero t t' h = ground arith
  total-set (u ∷ ts) (suc i) t t' h = ground (arith, total-set ts i t t' h)

  -- No thread weighs more than all of them together.
  pub weight-le-total : (ts : List A) (i : ℕ) (t : A) → get_elem? ts i ≡ some t → w t ≤ total w ts
  unfolding total
  weight-le-total [] i t h = ground arith
  weight-le-total (u ∷ ts) zero t h = ground arith
  weight-le-total (u ∷ ts) (suc i) t h = ground (arith, weight-le-total ts i t h)

  -- Two different threads weigh no more than all of them together.
  pub weights-le-total :
      (ts : List A) (i j : ℕ) (t u : A)
      → i ≢ j
      → get_elem? ts i ≡ some t
      → get_elem? ts j ≡ some u
      → w t + w u ≤ total w ts
  unfolding total
  weights-le-total [] i j t u ne h k = ground arith
  weights-le-total (v ∷ ts) zero zero t u ne h k = absurd (ne refl)
  weights-le-total (v ∷ ts) zero (suc j) t u ne h k = ground (arith, weight-le-total ts j u k)
  weights-le-total (v ∷ ts) (suc i) zero t u ne h k = ground (arith, weight-le-total ts i t h)
  weights-le-total (v ∷ ts) (suc i) (suc j) t u ne h k =
      ground (arith, weights-le-total ts i j t u (λ e. ne (ap suc e)) h k)

  -- A weight that splits into two parts on each thread does so over all of them.
  pub total-add-le :
      (v u : A → ℕ)
      → ((t : A) → w t + v t ≤ u t)
      → (ts : List A) → total w ts + total v ts ≤ total u ts
  unfolding total
  total-add-le v u h [] = omega arith
  total-add-le v u h (t ∷ ts) = omega (arith, h t, total-add-le v u h ts)

  pub total-append : (ts : List A) (t : A) → total w (ts ++ t ∷ []) ≡ total w ts + w t
  unfolding total
  total-append [] t = omega arith
  total-append (u ∷ ts) t = omega (arith, total-append ts t)

  -- Weights of at most 1 sum up to the number of threads only if each is 1.
  module _ (le_one : (t : A) → w t ≤ 1) where
    pub total-le-length : (ts : List A) → total w ts ≤ length ts
    unfolding total
    total-le-length [] = omega arith
    total-le-length (t ∷ ts) = omega (arith, le_one t, total-le-length ts)

    pub full_total :
        (ts : List A) → length ts ≤ total w ts → (i : ℕ) (t : A) → get_elem? ts i ≡ some t → w t ≡ 1
    unfolding total
    full_total [] h i t g = ground arith
    full_total (u ∷ ts) h zero t g = ground (arith, le_one u, total-le-length ts)
    full_total (u ∷ ts) h (suc i) t g =
        full_total ts (omega (arith, le_one u, total-le-length ts)) i t g

  pub total-ones :
      (ts : List A) → ((i : ℕ) (t : A) → get_elem? ts i ≡ some t → w t ≡ 1) → total w ts ≡ length ts
  unfolding total
  total-ones [] h = refl
  total-ones (t ∷ ts) h = omega (arith, h 0 t refl, total-ones ts (λ i u g. h (suc i) u g))

  pub total-replicate : (k : ℕ) (t : A) → w t ≡ 0 → total w (replicate k t) ≡ 0
  unfolding total
  total-replicate zero t h = refl
  total-replicate (suc k) t h = ground (arith, total-replicate k t h)

module _ {ℓ} {A : Type ℓ} where
  pub get_elem?-replicate : (k i : ℕ) (t u : A) → get_elem? (replicate k t) i ≡ some u → u ≡ t
  get_elem?-replicate zero i t u h = ground arith
  get_elem?-replicate (suc k) zero t u h = ground arith
  get_elem?-replicate (suc k) (suc i) t u h = get_elem?-replicate k i t u h

  -- What a lookup finds after one thread has moved: that thread, or another one as it was.
  pub get_elem?-set :
      (ts : List A) (i j : ℕ) (t u : A)
      → get_elem? (set ts i t) j ≡ some u
      → i ≢ j
      → get_elem? ts j ≡ some u
  get_elem?-set [] i j t u h ne = h
  get_elem?-set (v ∷ ts) zero zero t u h ne = absurd (ne refl)
  get_elem?-set (v ∷ ts) zero (suc j) t u h ne = h
  get_elem?-set (v ∷ ts) (suc i) zero t u h ne = h
  get_elem?-set (v ∷ ts) (suc i) (suc j) t u h ne = get_elem?-set ts i j t u h (λ e. ne (ap suc e))

  get_elem?-set_same : (ts : List A) (i : ℕ) (t u : A) → get_elem? (set ts i t) i ≡ some u → u ≡ t
  get_elem?-set_same [] i t u h = ground arith
  get_elem?-set_same (v ∷ ts) zero t u h = ground arith
  get_elem?-set_same (v ∷ ts) (suc i) t u h = get_elem?-set_same ts i t u h

  pub get_elem?-set_eq :
      (ts : List A) (i j : ℕ) (t u : A) → get_elem? (set ts i t) j ≡ some u → i ≡ j → u ≡ t
  get_elem?-set_eq ts i j t u h e =
      get_elem?-set_same ts i t u (subst (λ k. get_elem? (set ts i t) k ≡ some u) (sym e) h)

  pub get_elem?-replicate_here : (k i : ℕ) (t : A) → i < k → get_elem? (replicate k t) i ≡ some t
  get_elem?-replicate_here zero i t lt = absurd (omega arith)
  get_elem?-replicate_here (suc k) zero t lt = refl
  get_elem?-replicate_here (suc k) (suc i) t lt = get_elem?-replicate_here k i t (omega arith)

  pub get_elem?-set_here :
      (ts : List A) (i : ℕ) (t u : A) → get_elem? ts i ≡ some t → get_elem? (set ts i u) i ≡ some u
  get_elem?-set_here [] i t u h = ground arith
  get_elem?-set_here (v ∷ ts) zero t u h = refl
  get_elem?-set_here (v ∷ ts) (suc i) t u h = get_elem?-set_here ts i t u h

  -- A lookup after a thread has been added finds an old one or the new one.
  pub get_elem?-snoc :
      (ts : List A) (t : A) (i : ℕ) (u : A)
      → get_elem? (ts ++ t ∷ []) i ≡ some u
      → (get_elem? ts i ≡ some u) ⊎ (u ≡ t)
  get_elem?-snoc [] t zero u h = inr (sym (some-injective _ _ h))
  get_elem?-snoc [] t (suc i) u h = ground arith
  get_elem?-snoc (v ∷ ts) t zero u h = inl h
  get_elem?-snoc (v ∷ ts) t (suc i) u h = get_elem?-snoc ts t i u h

  -- A thread that passes the test, or the knowledge that none does.
  pub find_thread :
      (p : A → Bool) (ts : List A)
      → ((i : ℕ) × (t : A) × (get_elem? ts i ≡ some t) × (p t ≡ true))
        ⊎ ((i : ℕ) (t : A) → get_elem? ts i ≡ some t → p t ≡ false)
  find_thread p [] = inr (λ i t h. ground arith)
  find_thread p (t ∷ ts) = elim (Bool-cases (p t)) [
    | inl found ↦ inl (0, t, refl, found)
    | inr fails ↦ elim (find_thread p ts) [
      | inl later ↦ inl (suc later.0, later.1, later.2, later.3)
      | inr none_later ↦ inr (beyond t ts fails none_later)
    ]
  ]
    where
      beyond :
          (t : A) (ts : List A)
          → p t ≡ false
          → ((i : ℕ) (u : A) → get_elem? ts i ≡ some u → p u ≡ false)
          → (i : ℕ) (u : A) → get_elem? (t ∷ ts) i ≡ some u
          → p u ≡ false
      beyond t ts fails rest zero u h = subst (λ x. p x ≡ false) (some-injective _ _ h) fails
      beyond t ts fails rest (suc i) u h = rest i u h

  pub total-eq-zero :
      (w : A → ℕ) (ts : List A)
      → ((i : ℕ) (t : A) → get_elem? ts i ≡ some t → w t ≡ 0)
      → total w ts ≡ 0
  unfolding total
  total-eq-zero w [] h = refl
  total-eq-zero w (t ∷ ts) h =
      omega (arith, h 0 t refl, total-eq-zero w ts (λ i u g. h (suc i) u g))

-- a test that all threads pass
unfoldable pub all_threads {ℓ} : {A : Type ℓ} → (A → Bool) → List A → Bool
all_threads p [] = true
all_threads p (t ∷ ts) = p t && all_threads p ts

pub all_threads_intro {ℓ} :
    {A : Type ℓ} (p : A → Bool) (ts : List A)
    → ((i : ℕ) (t : A) → get_elem? ts i ≡ some t → p t ≡ true)
    → all_threads p ts ≡ true
unfolding all_threads
all_threads_intro p [] h = refl
all_threads_intro p (t ∷ ts) h =
    ground (arith, h 0 t refl, all_threads_intro p ts (λ i u g. h (suc i) u g))

pub all_threads_elim {ℓ} :
    {A : Type ℓ} (p : A → Bool) (ts : List A)
    → all_threads p ts ≡ true
    → (i : ℕ) (t : A) → get_elem? ts i ≡ some t
    → p t ≡ true
unfolding all_threads
all_threads_elim p [] h i t g = ground arith
all_threads_elim p (u ∷ ts) h zero t g = ground arith
all_threads_elim p (u ∷ ts) h (suc i) t g = all_threads_elim p ts (ground arith) i t g
