-- ===== src/RingFile/Cells.antt =====
-- What the calls on a file of Lab03/code/es3/common.c do at a cell that the file has.
use esercitazioni_sistemi_di.Base.{
  ℕ, zero, suc, ◌<◌, ◌≡◌, refl, some, List, [], ◌∷◌, length, get_elem?, get_or, set, arith, ltb,
  if_cases,
}
use esercitazioni_sistemi_di.Base.Int.{ℤ, pos}
use esercitazioni_sistemi_di.RingFile.{read_at, write_at}

get_elem?-get_or :
    {A : Type 0} (xs : List A) (i : ℕ) (d : A)
    → i < length xs
    → get_elem? xs i ≡ some (get_or xs i d)
get_elem?-get_or [] i d h = absurd (omega arith)
get_elem?-get_or (x ∷ xs) zero d h = refl
get_elem?-get_or (x ∷ xs) (suc i) d h = get_elem?-get_or xs i d (omega arith)

pub read_at-get_or :
    (xs : List ℤ) (i : ℕ) → i < length xs → read_at xs (pos i) ≡ some (get_or xs i (pos 0))
read_at-get_or xs i h = get_elem?-get_or xs i (pos 0) h

pub write_at-set :
    (xs : List ℤ) (i : ℕ) (v : ℤ) → i < length xs → write_at xs (pos i) v ≡ some (set xs i v)
write_at-set xs i v h =
    if_cases (λ (ys : List ℤ). some ys ≡ some (set xs i v)) (ltb i (length xs)) _ _ (λ _. refl)
      (λ ge. absurd (ground arith))
