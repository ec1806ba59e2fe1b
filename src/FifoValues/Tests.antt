-- ===== src/FifoValues/Tests.antt =====
-- Runs of Lab07/src/01 prod_cons.
use esercitazioni_sistemi_di.Base.{ℕ, ◌≡◌, refl, List, [], ◌∷◌, arith, replicate, ◌*◌, ◌-◌}
use esercitazioni_sistemi_di.Posix.{Event, chunk, eintr, returned, write_loop}
use esercitazioni_sistemi_di.FifoValues.{perform_random_transaction, produce, consume, write_value}
use esercitazioni_sistemi_di.FifoValues.Messages.{consume-produce}

-- 1 on the first call and -500 on the second.
abbrev rand : ℕ → ℕ
rand n = 1499 * (n - 1)

abbrev kernel : List Event
kernel = chunk 0 ∷ eintr ∷ chunk 1 ∷ replicate 8 (chunk 0)

abbrev kernel' : List Event
kernel' = chunk 2 ∷ chunk 0 ∷ eintr ∷ replicate 7 (chunk 5)

consume-produce_example :
    (let p = produce rand 2 kernel 0 [] in
      let c = consume 2 kernel' 0 p.out (9 ∷ 9 ∷ 9 ∷ 9 ∷ []) in
      (p.status ≡ returned) × (c.status ≡ returned) × (c.local_sum ≡ p.local_sum) × (c.input ≡ []))
consume-produce_example =
    consume-produce rand 2 kernel kernel' (9 ∷ 9 ∷ 9 ∷ 9 ∷ []) refl tt tt (omega arith)
      (omega arith)

-- The sum is -499, as a word.
sent_sum : (produce rand 2 kernel 0 []).local_sum ≡ 4294966797
unfolding produce write_value write_loop perform_random_transaction
sent_sum = refl
