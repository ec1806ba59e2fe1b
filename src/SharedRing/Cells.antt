-- ===== src/SharedRing/Cells.antt =====
-- The cells of the buffer of Lab05/src/02, and the values that a consumer finds there.
use esercitazioni_sistemi_di.Base.{
  ℕ, zero, suc, ◌+◌, ◌%◌, ◌≤◌, ◌<◌, ◌≡◌, ◌≢◌, refl, sym, ap, subst₂, ◌∙◌, ◌⊎◌, inl, inr, List, [],
  ◌∷◌, ◌++◌, length, set, get_or, arith, replicate, length-set, length-append, length-replicate,
  append-nil, ℕ_discrete, get_or-set_self, get_or-set_ne, get_or-append_left, get_or-append_end,
}
use esercitazioni_sistemi_di.Base.Int.{ℤ, pos}
use esercitazioni_sistemi_di.SharedRing.{SharedMemory, ProducePc, Producing, produce_at}
use esercitazioni_sistemi_di.SharedRing.Counts.{p_inside, p_claims, stored_by}

-- `put` are the values stored so far: the last 128 of them stand in the buffer, and the cells behind
-- the first ones hold 0.
pub record Cells (buf put : List ℤ) : Type 0 where
  pub size : length buf ≡ 128
  pub written :
      (p : ℕ)
      → p < length put
      → length put ≤ p + 128
      → get_or buf (p % 128) (pos 0) ≡ get_or put p (pos 0)
  pub fresh : (j : ℕ) → length put ≤ j → get_or buf j (pos 0) ≡ pos 0

zeros : (k j : ℕ) → get_or (replicate k (pos 0)) j (pos 0) ≡ pos 0
zeros zero j = refl
zeros (suc k) zero = refl
zeros (suc k) (suc j) = zeros k j

pub Cells-zeros : Cells (replicate 128 (pos 0)) []
Cells-zeros = record {
  size = length-replicate 128 (pos 0);
  written = λ p b c. absurd (omega arith);
  fresh = λ j b. zeros 128 j;
}

store-Cells :
    (buf put : List ℤ) (w : ℕ) (v : ℤ)
    → Cells buf put
    → w ≡ length put % 128
    → Cells (set buf w v) (put ++ v ∷ [])
store-Cells buf put w v k e =
    let more : length (put ++ v ∷ []) ≡ length put + 1 =
      omega (arith, length-append put (v ∷ [])) in
    record {
      size = length-set buf w v ∙ k.size;
      written = λ p b c. elim (ℕ_discrete p (length put)) [
        | yes last ↦
            let here : p % 128 ≡ w = omega (arith, ap (λ n. n % 128) last) in
            ap (λ i. get_or (set buf w v) i (pos 0)) here
            ∙ get_or-set_self buf w v (pos 0) (omega (arith, k.size))
            ∙ sym (get_or-append_end put v p (pos 0) last)
        | no before ↦
            get_or-set_ne buf w (p % 128) v (pos 0) (omega arith)
            ∙ k.written p (omega arith) (omega arith)
            ∙ sym (get_or-append_left put (v ∷ []) p (pos 0) (omega arith))
      ];
      fresh = λ j b. get_or-set_ne buf w j v (pos 0) (omega arith) ∙ k.fresh j (omega arith);
    }

same_buf : (buf buf' put : List ℤ) → buf' ≡ buf → Cells buf put → Cells buf' (put ++ [])
same_buf buf buf' put e k = subst₂ Cells (sym e) (sym (append-nil put)) k

pub produce_at-Cells :
    (rand : ℕ) (pc : ProducePc) (ops : ℕ) (sum : ℤ) (m : SharedMemory) (put : List ℤ)
    → Cells m.buf put
    → (let p : Producing = record { pc = pc; num_ops = ops; local_sum = sum } in
        p_inside p + p_claims p ≡ 2 → m.write_index ≡ length put % 128)
    → Cells (produce_at rand pc ops sum m).0.buf (put ++ stored_by pc)
unfolding produce_at
produce_at-Cells rand (ProducePc.store v) ops sum m put k e =
    store-Cells m.buf put m.write_index v k (e refl)
produce_at-Cells rand ProducePc.head ops sum m put k e = same_buf m.buf m.buf put refl k
produce_at-Cells rand pc ops sum m put k e =
    same_buf m.buf (produce_at rand pc ops sum m).0.buf put (ground arith) k

-- What read number `c` finds when `put` has been stored: the value stored just before number `c`,
-- which is 0 for the first, and in a full buffer the newest.
abbrev pub IsLate : List ℤ → ℕ → ℤ → Type 0
IsLate put c v =
    (c < length put)
    × (((length put < c + 128) × (v ≡ get_or (pos 0 ∷ put) c (pos 0)))
        ⊎ ((length put ≡ c + 128) × (v ≡ get_or put (c + 127) (pos 0))))

pub read-IsLate :
    (buf put : List ℤ) (c r : ℕ)
    → Cells buf put
    → c < length put
    → length put ≤ c + 128
    → r ≡ (c + 127) % 128
    → IsLate put c (get_or buf r (pos 0))
read-IsLate buf put c r k b d e = elim (ℕ_discrete (length put) (c + 128)) [
  | yes full ↦ (
    b,
    inr (full, ap (λ i. get_or buf i (pos 0)) e ∙ k.written (c + 127) (omega arith) (omega arith)),
  )
  | no room ↦ (b, inl (omega arith, behind c r b d room e))
]
  where
    behind :
        (c r : ℕ)
        → c < length put
        → length put ≤ c + 128
        → length put ≢ c + 128
        → r ≡ (c + 127) % 128
        → get_or buf r (pos 0) ≡ get_or (pos 0 ∷ put) c (pos 0)
    behind zero r b d ne e = ap (λ i. get_or buf i (pos 0)) e ∙ k.fresh 127 (omega arith)
    behind (suc c) r b d ne e =
        let cell : r ≡ c % 128 = omega (arith, e) in
        ap (λ i. get_or buf i (pos 0)) cell ∙ k.written c (omega arith) (omega arith)
