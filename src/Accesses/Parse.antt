-- ===== src/Accesses/Parse.antt =====
-- `parseOutput` of Lab05/src/00/riepilogo.c: the counts, and the first child with the most accesses.
use esercitazioni_sistemi_di.Base.{
  ℕ, zero, suc, Option, some, All, ltb, ◌+◌, ◌≤◌, ◌<◌, ◌≡◌, ◌⊎◌, inl, inr, refl, sym, ap, subst,
  ◌∙◌, List, [], ◌∷◌, ◌++◌, length, set, get_or, replicate, arith, ◌==◌, if◌then◌else◌, if_cases,
  tests, length-set, length-replicate, get_or-set_self, get_or-set_ne, ℕ_discrete,
}
use esercitazioni_sistemi_di.Base.Int.{ℤ, pos, negsuc, ltb_ℤ}
use esercitazioni_sistemi_di.Accesses.{count_accesses, find_max, Report, report_on, parse_output}

-- how often a number stands in a list
abbrev pub occurrences : ℕ → List ℕ → ℕ
occurrences i [] = 0
occurrences i (x ∷ xs) = (if x == i then 1 else 0) + occurrences i xs

pub occurrences-append :
    (i : ℕ) (xs ys : List ℕ) → occurrences i (xs ++ ys) ≡ occurrences i xs + occurrences i ys
occurrences-append i [] ys = omega arith
occurrences-append i (x ∷ xs) ys = omega (arith, occurrences-append i xs ys)

-- the counts of a file whose numbers are all cells of the array
abbrev tally : List ℕ → List ℕ → List ℕ
tally [] stats = stats
tally (x ∷ log) stats = tally log (set stats x (get_or stats x 0 + 1))

count_accesses-tally :
    (log stats : List ℕ)
    → All (λ id. id < length stats) log
    → count_accesses log stats ≡ some (tally log stats)
count_accesses-tally [] stats a = refl
count_accesses-tally (x ∷ log) stats (lt, a) =
    let next = set stats x (get_or stats x 0 + 1) in
    let same : length next ≡ length stats = length-set stats x (get_or stats x 0 + 1) in
    let rest = count_accesses-tally log next (subst (λ n. All (λ id. id < n) log) (sym same) a) in
    if_cases (λ (o : Option (List ℕ)). o ≡ some (tally log next)) (ltb x (length stats)) _ _
      (λ _. rest) (λ ge. absurd (ground arith))

length-tally : (log stats : List ℕ) → length (tally log stats) ≡ length stats
length-tally [] stats = refl
length-tally (x ∷ log) stats =
    length-tally log (set stats x (get_or stats x 0 + 1))
    ∙ length-set stats x (get_or stats x 0 + 1)

get_or-tally :
    (log stats : List ℕ) (i : ℕ)
    → i < length stats
    → get_or (tally log stats) i 0 ≡ get_or stats i 0 + occurrences i log
get_or-tally [] stats i h = omega arith
get_or-tally (x ∷ log) stats i h =
    let next = set stats x (get_or stats x 0 + 1) in
    let rest = get_or-tally log next i (omega (arith, length-set stats x (get_or stats x 0 + 1))) in
    elim (ℕ_discrete x i) [
      | yes e ↦
          let here : get_or next i 0 ≡ get_or stats i 0 + 1 =
            subst (λ k. get_or next k 0 ≡ get_or stats k 0 + 1) e
              (get_or-set_self stats x (get_or stats x 0 + 1) 0 (omega arith)) in
          ground arith
      | no ne ↦ let there = get_or-set_ne stats x i (get_or stats x 0 + 1) 0 ne in ground arith
    ]

abbrev zeros : ℕ → List ℕ
zeros n = replicate n 0

get_or-replicate : (n i : ℕ) → get_or (zeros n) i 0 ≡ 0
get_or-replicate zero i = refl
get_or-replicate (suc n) zero = refl
get_or-replicate (suc n) (suc i) = get_or-replicate n i

-- What the second loop finds in `xs`, whose first index is `i`, after the maximum `a` at `k`.
record Found (xs : List ℕ) (i k a : ℕ) (r : ℤ × ℤ) : Type 0 where
  k' : ℕ
  a' : ℕ
  result : r ≡ (pos k', pos a')
  at_least : a ≤ a'
  bound : (j : ℕ) → j < length xs → get_or xs j 0 ≤ a'
  place :
      ((k' ≡ k) × (a' ≡ a))
      ⊎ ((j : ℕ) × (j < length xs)
          × (k' ≡ i + j)
          × (get_or xs j 0 ≡ a')
          × (a < a')
          × ((l : ℕ) → l < j → get_or xs l 0 < a'))

below :
    (x : ℕ) (xs : List ℕ) (b : ℕ)
    → x ≤ b
    → ((j : ℕ) → j < length xs → get_or xs j 0 ≤ b)
    → (j : ℕ) → j < suc (length xs)
    → get_or (x ∷ xs) j 0 ≤ b
below x xs b p h zero lt = p
below x xs b p h (suc j) lt = h j (omega arith)

earlier :
    (x : ℕ) (xs : List ℕ) (b j : ℕ)
    → x < b
    → ((l : ℕ) → l < j → get_or xs l 0 < b)
    → (l : ℕ) → l < suc j
    → get_or (x ∷ xs) l 0 < b
earlier x xs b j p h zero lt = p
earlier x xs b j p h (suc l) lt = h l (omega arith)

find_max-Found : (xs : List ℕ) (i k a : ℕ) → Found xs i k a (find_max xs i (pos k, pos a))
find_max-Found [] i k a = record {
  k' = k;
  a' = a;
  result = refl;
  at_least = omega arith;
  bound = λ j h. absurd (omega arith);
  place = inl (refl, refl);
}
find_max-Found (x ∷ xs) i k a =
    if_cases (λ (acc : ℤ × ℤ). Found (x ∷ xs) i k a (find_max xs (i + 1) acc))
      (ltb_ℤ (pos a) (pos x)) _ _
      (λ more.
        let f = find_max-Found xs (i + 1) i x in
        let a_lt : a < x = omega tests in
        record {
          k' = f.k';
          a' = f.a';
          result = f.result;
          at_least = omega (arith, f.at_least);
          bound = λ j h. below x xs f.a' f.at_least f.bound j h;
          place = elim f.place [
            | inl (p, q) ↦ inr (
              0,
              omega arith,
              omega arith,
              sym q,
              omega (arith, f.at_least),
              λ l h. absurd (omega arith),
            )
            | inr (j, h, p, q, lt, before) ↦
                inr (suc j, omega arith, omega arith, q, omega arith, earlier x xs f.a' j lt before)
          ];
        })
      (λ less.
        let f = find_max-Found xs (i + 1) k a in
        let x_le : x ≤ a = ground arith in
        record {
          k' = f.k';
          a' = f.a';
          result = f.result;
          at_least = f.at_least;
          bound = λ j h. below x xs f.a' (omega (arith, f.at_least)) f.bound j h;
          place = elim f.place [
            | inl e ↦ inl e
            | inr (j, h, p, q, lt, before) ↦
                inr
                  (suc j, omega arith, omega arith, q, lt, earlier x xs f.a' j (omega arith) before)
          ];
        })

-- The place and the value of the first maximum of a list.
record IsFirst (xs : List ℕ) (r : ℤ × ℤ) : Type 0 where
  best : ℕ
  best_in : best < length xs
  a : ℕ
  result : r ≡ (pos best, pos a)
  value : a ≡ get_or xs best 0
  most : (i : ℕ) → i < length xs → get_or xs i 0 ≤ a
  first : (i : ℕ) → i < best → get_or xs i 0 < a

Found-IsFirst : (x : ℕ) (xs : List ℕ) (r : ℤ × ℤ) → Found xs 1 0 x r → IsFirst (x ∷ xs) r
Found-IsFirst x xs r f = elim f.place [
  | inl (p, q) ↦ record {
    best = 0;
    best_in = omega arith;
    a = f.a';
    result = f.result ∙ ap (λ k. (pos k, pos f.a')) p;
    value = q;
    most = λ i lt. below x xs f.a' f.at_least f.bound i lt;
    first = λ i lt. absurd (omega arith);
  }
  | inr (j, h, p, q, lt, before) ↦ record {
    best = suc j;
    best_in = omega arith;
    a = f.a';
    result = f.result ∙ ap (λ k. (pos k, pos f.a')) {x = f.k'} {y = suc j} (omega arith);
    value = sym q;
    most = λ i lt. below x xs f.a' f.at_least f.bound i lt;
    first = λ i i_lt. earlier x xs f.a' j lt before i i_lt;
  }
]

-- What `parseOutput` should report of `n` children: how often each stands in the file, the child
-- that stands there most often, and the first of those.
pub record IsReport (n : ℕ) (log : List ℕ) (r : Report) : Type 0 where
  pub size : length r.access_stats ≡ n
  pub stats : (i : ℕ) → i < n → get_or r.access_stats i 0 ≡ occurrences i log
  pub best : ℕ
  pub best_in : best < n
  pub best_id : r.max_child_id ≡ pos best
  pub best_accesses : r.max_accesses ≡ pos (occurrences best log)
  pub most : (i : ℕ) → i < n → occurrences i log ≤ occurrences best log
  pub first : (i : ℕ) → i < best → occurrences i log < occurrences best log

abbrev of_stats : List ℕ → Report
of_stats stats =
    let (id, max) = find_max stats 0 (negsuc 0, negsuc 0) in
    record { access_stats = stats; max_child_id = id; max_accesses = max }

of_stats-IsReport : (n : ℕ) (log : List ℕ) → 0 < n → IsReport n log (of_stats (tally log (zeros n)))
of_stats-IsReport n log h =
    go (tally log (zeros n)) refl (length-tally log (zeros n) ∙ length-zeros)
  where
    length-zeros : length (zeros n) ≡ n
    length-zeros = length-replicate {A = ℕ} n 0

    stats_of :
        (xs : List ℕ)
        → tally log (zeros n) ≡ xs
        → (i : ℕ) → i < n
        → get_or xs i 0 ≡ occurrences i log
    stats_of xs e i lt =
        ap (λ l. get_or l i 0) (sym e)
        ∙ get_or-tally log (zeros n) i (omega (arith, length-zeros))
        ∙ ap (λ k. k + occurrences i log) (get_or-replicate n i)
        ∙ omega arith

    go :
        (xs : List ℕ)
        → tally log (zeros n) ≡ xs
        → length xs ≡ n
        → IsReport n log (
            let (id, max) = find_max xs 0 (negsuc 0, negsuc 0) in
            record { access_stats = xs; max_child_id = id; max_accesses = max })
    go [] e size = absurd (omega arith)
    go (x ∷ xs) e size =
        if_cases
          (λ (r : ℤ × ℤ). IsReport n log (
            let (id, max) = find_max xs 1 r in
            record { access_stats = x ∷ xs; max_child_id = id; max_accesses = max }))
          (ltb_ℤ (negsuc 0) (pos x)) _ _
          (λ _.
            let m = Found-IsFirst x xs _ (find_max-Found xs 1 0 x) in
            let same : occurrences m.best log ≡ get_or (x ∷ xs) m.best 0 =
              sym (stats_of (x ∷ xs) e m.best (omega (arith, m.best_in))) in
            record {
              size = size;
              stats = stats_of (x ∷ xs) e;
              best = m.best;
              best_in = omega (arith, m.best_in);
              best_id = ap (λ (r : ℤ × ℤ). r.0) m.result;
              best_accesses = ap (λ (r : ℤ × ℤ). r.1) m.result ∙ ap pos (m.value ∙ sym same);
              most = λ i lt.
                  ground (arith, stats_of (x ∷ xs) e i lt, same, m.value, m.most i (omega arith));
              first = λ i lt. ground (
                arith,
                stats_of (x ∷ xs) e i (omega (arith, m.best_in)),
                same,
                m.value,
                m.first i lt,
              );
            })
          (λ never. absurd (ground arith))

-- When all its numbers are cells of the array, `parseOutput` reports on the file.
pub parse_output-IsReport :
    (n : ℕ) (log : List ℕ)
    → 0 < n
    → All (λ id. id < n) log
    → (r : Report) × (parse_output n log ≡ some r) × IsReport n log r
unfolding parse_output
parse_output-IsReport n log h a = (
  of_stats (tally log (zeros n)),
  ap report_on (
      count_accesses-tally log (zeros n)
        (subst (λ k. All (λ id. id < k) log) (sym (length-replicate {A = ℕ} n 0)) a)),
  of_stats-IsReport n log h,
)
