-- ===== src/FifoValues/Words.antt =====
-- Lab07/src/01 prod_cons: an integer and its four bytes.
use esercitazioni_sistemi_di.Base.{ℕ, ◌*◌, ◌%◌, ◌<◌, ◌≡◌, arith, if_cases, leb, tests}
use esercitazioni_sistemi_di.FifoValues.{
  bytes_of, int_of, word_size, max_transaction, perform_random_transaction,
}

-- The four bytes of a word of 32 bits give it back.
pub int_of-bytes_of : (v : ℕ) → v < word_size → int_of (bytes_of v) ≡ v
int_of-bytes_of v h = omega arith

-- A transaction is a word.
pub transaction_in : (rand : ℕ) → perform_random_transaction rand < word_size
unfolding perform_random_transaction
transaction_in rand =
    if_cases (λ (v : ℕ). v < word_size) (leb max_transaction (rand % (2 * max_transaction))) _ _
      (λ h. omega tests) (λ h. omega arith)
