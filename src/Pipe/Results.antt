-- ===== src/Pipe/Results.antt =====
-- The messages of Lab06/src/02 Pipe/main.c, under every schedule.
use esercitazioni_sistemi_di.Base.{
  ℕ, zero, suc, ◌+◌, ◌*◌, ◌≤◌, ◌<◌, ◌≡◌, refl, sym, ap, ap₂, ◌∙◌, false, List, [], ◌∷◌, ◌++◌,
  length, take, drop, arith, drop-add, take-append_of_le, take_of_length_le, length-append,
  append_assoc, All,
}
use esercitazioni_sistemi_di.Base.Threads.{total}
use native.Mathlib.Nat.{suc-mul, zero-mul}
use esercitazioni_sistemi_di.Pipe.Processes.{Turn, run, forked}
use esercitazioni_sistemi_di.Pipe.Moves.{message, messages, length-message, w_inside}
use esercitazioni_sistemi_di.Pipe.Takes.{r_inside, r_done, overran}
use esercitazioni_sistemi_di.Pipe.Runs.{interrupts, all_put, all_got, reached-Inv}

take-drop_left :
    (n k : ℕ) (xs ys : List ℕ) → n + k ≤ length xs → take k (drop n (xs ++ ys)) ≡ take k (drop n xs)
take-drop_left zero k xs ys h = take-append_of_le k xs ys (omega arith)
take-drop_left (suc n) zero [] ys h = refl
take-drop_left (suc n) (suc k) [] ys h = absurd (omega arith)
take-drop_left (suc n) k (x ∷ xs) ys h = take-drop_left n k xs ys (omega arith)

drop-exact : (n : ℕ) (xs ys : List ℕ) → length xs ≡ n → drop n (xs ++ ys) ≡ ys
drop-exact zero [] ys h = refl
drop-exact zero (x ∷ xs) ys h = absurd (omega arith)
drop-exact (suc n) [] ys h = absurd (omega arith)
drop-exact (suc n) (x ∷ xs) ys h = drop-exact n xs ys (omega arith)

-- Message number `m` of a stream of messages, the last of which may not be complete.
message_at :
    (elems m : ℕ) (vs part : List ℕ)
    → All (λ v. v < 6) vs
    → length part < 4 * elems
    → suc m * (4 * elems) ≤ length (messages elems vs ++ part)
    → (v : ℕ) × (v < 6)
      × (take (4 * elems) (drop (m * (4 * elems)) (messages elems vs ++ part)) ≡ message elems v)
message_at elems m [] part small short le = absurd (omega (arith, suc-mul m (4 * elems)))
message_at elems zero (v ∷ vs) part small short le = (
  v,
  small.0,
  ap₂ (λ (k : ℕ) (l : List ℕ). take (4 * elems) (drop k l)) (zero-mul (4 * elems))
        (append_assoc (message elems v) (messages elems vs) part)
      ∙ take-append_of_le (4 * elems) (message elems v) _ (omega (arith, length-message elems v))
      ∙ take_of_length_le (4 * elems) (message elems v) (omega (arith, length-message elems v)),
)
message_at elems (suc m) (v ∷ vs) part small short le =
    let len = 4 * elems in
    let tail = messages elems vs ++ part in
    let sizes = length-append (message elems v) tail in
    let assoc = append_assoc (message elems v) (messages elems vs) part in
    let (u, lt, e) = message_at elems m vs part small.1 short (
      omega (
        arith,
        suc-mul (suc m) len,
        suc-mul m len,
        sizes,
        length-message elems v,
        ap (λ (l : List ℕ). length l) assoc,
      )) in
    (
      u,
      lt,
      ap₂ (λ (k : ℕ) (l : List ℕ). take len (drop k l)) {x = suc m * len} {y = len + m * len}
            (omega (arith, suc-mul m len)) assoc
          ∙ ap (take len) (
              drop-add len (m * len) (message elems v ++ tail)
              ∙ ap (drop (m * len))
                  (drop-exact len (message elems v) tail (length-message elems v)))
          ∙ e,
    )

-- In every run in which no call of `write` is interrupted and no reader has stored bytes behind its
-- array, with arrays of at least one element: the bytes that the readers take, cut into pieces of the size of a message, are complete messages of
-- equal integers, each as a writer has made it.
pub reads_messages :
    (elems nw nr : ℕ) (ts : List Turn) (m : ℕ)
    → All (λ t. interrupts t ≡ false) ts
    → 0 < elems
    → total overran (run elems (forked elems nw nr) ts).readers ≡ 0
    → suc m * (4 * elems) ≤ length (all_got elems (forked elems nw nr) ts)
    → (v : ℕ) × (v < 6)
      × (take (4 * elems) (drop (m * (4 * elems)) (all_got elems (forked elems nw nr) ts))
          ≡ message elems v)
reads_messages elems nw nr ts m calm some_elems in_array le =
    let len = 4 * elems in
    let got = all_got elems (forked elems nw nr) ts in
    let v = reached-Inv elems nw nr ts calm some_elems in
    let pipe = (run elems (forked elems nw nr) ts).shared.pipe in
    let whole = v.pipe ∙ v.stream in
    let (u, lt, e) =
      message_at elems m v.values v.part v.small v.short
        (omega (arith, le, length-append got pipe, ap (λ (l : List ℕ). length l) whole)) in
    (
      u,
      lt,
      sym (take-drop_left (m * len) len got pipe (omega (arith, le, suc-mul m len)))
          ∙ ap (λ l. take len (drop (m * len) l)) whole
          ∙ e,
    )

-- In the same runs: the two mutexes and the processes between their wait and their post add up to 1;
-- the bytes taken are whole messages, but for the part that the reader inside its section has taken;
-- and what was put is what was taken and what is in the pipe, in this order.
pub sections_and_bytes :
    (elems nw nr : ℕ) (ts : List Turn)
    → All (λ t. interrupts t ≡ false) ts
    → 0 < elems
    → total overran (run elems (forked elems nw nr) ts).readers ≡ 0
    → (let s = run elems (forked elems nw nr) ts in
        let put = all_put elems (forked elems nw nr) ts in
        let got = all_got elems (forked elems nw nr) ts in
        (s.shared.write_mutex + total w_inside s.writers ≡ 1)
        × (s.shared.read_mutex + total r_inside s.readers ≡ 1)
        × ((rounds : ℕ) × (length got ≡ rounds * (4 * elems) + total r_done s.readers))
        × (got ++ s.shared.pipe ≡ put))
sections_and_bytes elems nw nr ts calm some_elems in_array =
    let v = reached-Inv elems nw nr ts calm some_elems in
    (v.w_section, v.r_section, (v.rounds, v.count), v.pipe)
