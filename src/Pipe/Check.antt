-- ===== src/Pipe/Check.antt =====
-- `create_msg` and `is_msg_ok` of Lab06/src/02 Pipe/main.c.
use esercitazioni_sistemi_di.Base.{
  ℕ, zero, suc, ◌+◌, ◌≤◌, ◌<◌, ◌≡◌, ◌↔◌, refl, sym, ◌∙◌, subst, true, List, set, get_or, length,
  arith, ℕ_discrete, get_or-set_self, get_or-set_ne, length-set,
}
use esercitazioni_sistemi_di.Pipe.{create_from, create_msg, is_ok_from, is_msg_ok}

is_ok_from_sound :
    (left i : ℕ) (xs : List ℕ)
    → is_ok_from left i xs ≡ true
    → (j : ℕ) → i ≤ j
    → j < i + left
    → get_or xs j 0 ≡ get_or xs 0 0
unfolding is_ok_from
is_ok_from_sound zero i xs e j lo hi = absurd (omega arith)
is_ok_from_sound (suc left) i xs e j lo hi = elim (ℕ_discrete i j) [
  | yes same ↦ subst (λ k. get_or xs k 0 ≡ get_or xs 0 0) same (ground arith)
  | no ne ↦ is_ok_from_sound left (i + 1) xs (ground arith) j (omega arith) (omega arith)
]

is_ok_from_complete :
    (left i : ℕ) (xs : List ℕ)
    → ((j : ℕ) → i ≤ j → j < i + left → get_or xs j 0 ≡ get_or xs 0 0)
    → is_ok_from left i xs ≡ true
unfolding is_ok_from
is_ok_from_complete zero i xs h = refl
is_ok_from_complete (suc left) i xs h =
    let here = h i (omega arith) (omega arith) in
    let rest = is_ok_from_complete left (i + 1) xs (λ j lo hi. h j (omega arith) (omega arith)) in
    ground arith

pub create_from-length :
    (left i : ℕ) (xs : List ℕ) (v : ℕ) → length (create_from left i xs v) ≡ length xs
unfolding create_from
create_from-length zero i xs v = refl
create_from-length (suc left) i xs v =
    create_from-length left (i + 1) (set xs i v) v ∙ length-set xs i v

create_from-below :
    (left i : ℕ) (xs : List ℕ) (v j : ℕ)
    → j < i
    → get_or (create_from left i xs v) j 0 ≡ get_or xs j 0
unfolding create_from
create_from-below zero i xs v j h = refl
create_from-below (suc left) i xs v j h =
    create_from-below left (i + 1) (set xs i v) v j (omega arith)
    ∙ get_or-set_ne xs i j v 0 (omega arith)

pub create_from-value :
    (left i : ℕ) (xs : List ℕ) (v j : ℕ)
    → i + left ≤ length xs
    → i ≤ j
    → j < i + left
    → get_or (create_from left i xs v) j 0 ≡ v
unfolding create_from
create_from-value zero i xs v j b lo hi = absurd (omega arith)
create_from-value (suc left) i xs v j b lo hi = elim (ℕ_discrete i j) [
  | yes same ↦
      subst (λ k. get_or (create_from left (i + 1) (set xs i v) v) k 0 ≡ v) same
        (create_from-below left (i + 1) (set xs i v) v i (omega arith)
          ∙ get_or-set_self xs i v 0 (omega arith))
  | no ne ↦
      create_from-value left (i + 1) (set xs i v) v j (omega (arith, length-set xs i v))
        (omega arith) (omega arith)
]

-- `is_msg_ok` returns 1 exactly when the first `elem_count` elements all equal the first one.
pub is_msg_ok_iff :
    (xs : List ℕ) (elem_count : ℕ)
    → (is_msg_ok xs elem_count ≡ true) ↔ ((j : ℕ) → j < elem_count → get_or xs j 0 ≡ get_or xs 0 0)
unfolding is_msg_ok
is_msg_ok_iff xs elem_count = (
  (λ e j h. is_ok_from_sound elem_count 0 xs e j (omega arith) (omega arith)),
  (λ h. is_ok_from_complete elem_count 0 xs (λ j lo hi. h j (omega arith))),
)

-- A message that `create_msg` has made passes `is_msg_ok`, and each of its elements is `value`. The
-- array has room for `elem_count` elements.
pub is_msg_ok-create_msg :
    (xs : List ℕ) (elem_count value : ℕ)
    → elem_count ≤ length xs
    → (is_msg_ok (create_msg xs elem_count value) elem_count ≡ true)
      × ((j : ℕ) → j < elem_count → get_or (create_msg xs elem_count value) j 0 ≡ value)
unfolding create_msg
is_msg_ok-create_msg xs elem_count value h =
    let at : (j : ℕ) → j < elem_count → get_or (create_from elem_count 0 xs value) j 0 ≡ value =
      λ j lt. create_from-value elem_count 0 xs value j (omega arith) (omega arith) (omega arith) in
    (
      (is_msg_ok_iff (create_from elem_count 0 xs value) elem_count).1
          (λ j lt. at j lt ∙ sym (at 0 (omega arith))),
      at,
    )
