-- ===== src/EchoFifo/Lines.antt =====
-- `readOneByOne` of Lab06/src/03 EchoFIFO/rw.c reads a line.
use esercitazioni_sistemi_di.Base.{
  ℕ, suc, ◌+◌, ◌≤◌, ◌<◌, ◌≡◌, ◌≢◌, refl, ap, ◌∙◌, List, [], ◌∷◌, ◌++◌, length, take, set, get_or,
  All, arith, append_assoc, take-set_self, get_or-set_self, length-set, elim_cases, add-one, ◌==◌,
  ltb, false,
}
use esercitazioni_sistemi_di.Posix.{
  Event, chunk, eintr, failed, returned, Filled, chunks, NoFailure,
}
use esercitazioni_sistemi_di.EchoFifo.{read_one_by_one}

-- The line stands in the buffer, the separator included, and the rest has not been read.
pub record IsLine (line rest buf : List ℕ) (n separator : ℕ) (kernel : List Event) (f : Filled)
    : Type 0 where
  pub done : f.status ≡ returned
  pub input : f.input ≡ rest
  pub count : f.read_bytes ≡ n + length line + 1
  pub text : take f.read_bytes f.buf ≡ take n buf ++ (line ++ separator ∷ [])
  pub size : length f.buf ≡ length buf
  pub calls : NoFailure f.kernel × (chunks kernel ≤ chunks f.kernel + length line + 1)

no_room : (n k : ℕ) → ltb n k ≡ false → n < k → ⊥
no_room n k behind lt = ground arith

-- A line that the kernel delivers, whatever the calls interrupt, is read into the buffer from index
-- `n` on, up to its separator: the read returns, and the rest stays unread. The line has no separator
-- of its own and fits, no call fails, and the kernel moves bytes often enough.
pub read_one_by_one-IsLine :
    (kernel : List Event) (line rest buf : List ℕ) (n separator : ℕ)
    → All (λ x. x ≢ separator) line
    → n + length line < length buf
    → NoFailure kernel
    → length line < chunks kernel
    → IsLine line rest buf n separator kernel
        (read_one_by_one kernel (line ++ separator ∷ rest) buf n separator)
unfolding read_one_by_one
read_one_by_one-IsLine [] line rest buf n separator a b ok c = absurd (omega arith)
read_one_by_one-IsLine (eintr ∷ kernel) line rest buf n separator a b ok c =
    let l = read_one_by_one-IsLine kernel line rest buf n separator a b ok c in
    record {
      done = l.done;
      input = l.input;
      count = l.count;
      text = l.text;
      size = l.size;
      calls = l.calls;
    }
read_one_by_one-IsLine (failed ∷ kernel) line rest buf n separator a b ok c = absurd ok
read_one_by_one-IsLine (chunk k ∷ kernel) [] rest buf n separator a b ok c =
    elim_cases (IsLine [] rest buf n separator (chunk k ∷ kernel)) (ltb n (length buf)) _ _
      (λ _.
        elim_cases (IsLine [] rest buf n separator (chunk k ∷ kernel))
          (get_or (set buf n separator) n 0 == separator) _ _
          (λ _. record {
            done = refl;
            input = refl;
            count = omega arith;
            text = rw add-one (take-set_self buf n separator (omega arith));
            size = length-set buf n separator;
            calls = (ok, omega arith);
          })
          (λ no_match. absurd (ground (arith, get_or-set_self buf n separator 0 (omega arith)))))
      (λ behind. absurd (no_room n (length buf) behind (omega arith)))
read_one_by_one-IsLine (chunk k ∷ kernel) (x ∷ line) rest buf n separator a b ok c =
    elim_cases (IsLine (x ∷ line) rest buf n separator (chunk k ∷ kernel)) (ltb n (length buf)) _ _
      (λ _.
        elim_cases (IsLine (x ∷ line) rest buf n separator (chunk k ∷ kernel))
          (get_or (set buf n x) n 0 == separator) _ _
          (λ matched. absurd (ground (arith, get_or-set_self buf n x 0 (omega arith), a.0)))
          (λ _.
            let l =
              read_one_by_one-IsLine kernel line rest (set buf n x) (n + 1) separator a.1
                (omega (arith, length-set buf n x)) ok (omega arith) in
            record {
              done = l.done;
              input = l.input;
              count = omega (arith, l.count);
              text =
                  l.text
                  ∙ ap (λ t. t ++ (line ++ separator ∷ []))
                      (rw add-one (take-set_self buf n x (omega arith)))
                  ∙ append_assoc (take n buf) (x ∷ []) (line ++ separator ∷ []);
              size = l.size ∙ length-set buf n x;
              calls = (l.calls.0, omega (arith, l.calls.1));
            }))
      (λ behind. absurd (no_room n (length buf) behind (omega arith)))

-- When a read returns, the last byte that it has stored is the separator.
abbrev Ends : ℕ → Filled → Type 0
Ends separator f =
    f.status ≡ returned → (k : ℕ) × (f.read_bytes ≡ suc k) × (get_or f.buf k 0 ≡ separator)

-- A read that returns ends with the separator.
pub read_one_by_one-ends :
    (kernel : List Event) (input buf : List ℕ) (n separator : ℕ)
    → (let f = read_one_by_one kernel input buf n separator in
        f.status ≡ returned → (k : ℕ) × (f.read_bytes ≡ suc k) × (get_or f.buf k 0 ≡ separator))
unfolding read_one_by_one
read_one_by_one-ends [] input buf n separator = λ h. absurd (ground arith)
read_one_by_one-ends (eintr ∷ kernel) input buf n separator =
    read_one_by_one-ends kernel input buf n separator
read_one_by_one-ends (failed ∷ kernel) input buf n separator = λ h. absurd (ground arith)
read_one_by_one-ends (chunk k ∷ kernel) [] buf n separator = λ h. absurd (ground arith)
read_one_by_one-ends (chunk k ∷ kernel) (x ∷ input) buf n separator =
    elim_cases (Ends separator) (ltb n (length buf)) _ _
      (λ _.
        elim_cases (Ends separator) (get_or (set buf n x) n 0 == separator) _ _
          (λ matched _. (n, omega arith, ground arith))
          (λ _. read_one_by_one-ends kernel input (set buf n x) (n + 1) separator))
      (λ behind h. absurd (ground arith))
