-- ===== src/EchoTcp/Client.antt =====
-- The main loop of Lab08/src/01 client.c.
use esercitazioni_sistemi_di.Base.{
  ℕ, suc, ◌+◌, ◌≤◌, ◌<◌, ◌≡◌, ◌≢◌, refl, sym, ap, subst, ◌∙◌, Bool, true, false, List, [], ◌∷◌,
  ◌++◌, take, drop, set, get_or, length, arith, All, elim_cases, if_cases, append_assoc,
  length-append, take-append_of_le, take_of_length_le,
}
use esercitazioni_sistemi_di.Posix.{
  Event, chunk, eintr, failed, Status, returned, Written, Filled, chunks, NoFailure,
}
use esercitazioni_sistemi_di.Pipe.Transfer.{NextMoves}
use esercitazioni_sistemi_di.EchoFifo.{strlen, memcmp_zero}
use esercitazioni_sistemi_di.EchoFifo.Rounds.{strlen-terminated, All-end}
use esercitazioni_sistemi_di.EchoTcp.{
  Peer, server_command, send_loop, ends_line, quits, client_recv, text_of, client_received,
  client_sent, client_loop,
}
use esercitazioni_sistemi_di.EchoTcp.Sends.{send_loop-whole}

-- A cell that is written again with what it holds.
set-same : (pre : List ℕ) (x : ℕ) (ys : List ℕ) → set (pre ++ x ∷ ys) (length pre) x ≡ pre ++ x ∷ ys
set-same [] x ys = refl
set-same (p ∷ pre) x ys = ap (λ l. p ∷ l) (set-same pre x ys)

get_or-middle : (pre : List ℕ) (x : ℕ) (ys : List ℕ) → get_or (pre ++ x ∷ ys) (length pre) 0 ≡ x
get_or-middle [] x ys = refl
get_or-middle (p ∷ pre) x ys = get_or-middle pre x ys

-- The client receives the line that its buffer holds already.
pub record IsEcho (more buf : List ℕ) (f : Filled) : Type 0 where
  pub done : f.status ≡ returned
  pub input : f.input ≡ more
  pub same : f.buf ≡ buf

client_recv-IsEcho :
    (kernel : List Event) (pre line more tail : List ℕ)
    → All (λ x. x ≢ 10) line
    → All (λ x. x ≢ 0) line
    → NoFailure kernel
    → length line < chunks kernel
    → IsEcho more
        (pre ++ (line ++ 10 ∷ tail))
        (client_recv kernel (line ++ 10 ∷ more) (pre ++ (line ++ 10 ∷ tail)) (length pre))
unfolding client_recv
client_recv-IsEcho [] pre line more tail a b ok c = absurd (omega arith)
client_recv-IsEcho (failed ∷ kernel) pre line more tail a b ok c = absurd ok
client_recv-IsEcho (eintr ∷ kernel) pre line more tail a b ok c =
    client_recv-IsEcho kernel pre line more tail a b ok c
client_recv-IsEcho (chunk k ∷ kernel) pre [] more tail a b ok c =
    let same = set-same pre 10 tail in
    elim_cases (IsEcho more (pre ++ 10 ∷ tail))
      (ends_line (get_or (set (pre ++ 10 ∷ tail) (length pre) 10) (length pre) 0)) _ _
      (λ _. record { done = refl; input = refl; same = same })
      (λ no. absurd (ground (arith, same, get_or-middle pre 10 tail)))
client_recv-IsEcho (chunk k ∷ kernel) pre (x ∷ line) more tail a b ok c =
    let buf = pre ++ (x ∷ (line ++ 10 ∷ tail)) in
    let same = set-same pre x (line ++ 10 ∷ tail) in
    let shift = append_assoc pre (x ∷ []) (line ++ 10 ∷ tail) in
    let count : length (pre ++ x ∷ []) ≡ length pre + 1 =
      omega (arith, length-append pre (x ∷ [])) in
    elim_cases (IsEcho more buf) (ends_line (get_or (set buf (length pre) x) (length pre) 0)) _ _
      (λ yes. absurd (ground (arith, same, a.0, b.0, get_or-middle pre x (line ++ 10 ∷ tail))))
      (λ _.
        let l = client_recv-IsEcho kernel (pre ++ x ∷ []) line more tail a.1 b.1 ok (omega arith) in
        subst (λ b. IsEcho more buf (client_recv kernel (line ++ 10 ∷ more) b (length pre + 1)))
          (sym same)
          (subst (λ n. IsEcho more buf (client_recv kernel (line ++ 10 ∷ more) buf n)) count
            (subst
              (λ b.
                IsEcho more b (client_recv kernel (line ++ 10 ∷ more) b (length (pre ++ x ∷ []))))
              shift l)))

-- Lists of one length that compare as equal are equal.
memcmp_zero-eq :
    (xs ys zs : List ℕ)
    → length xs ≡ length ys
    → memcmp_zero (xs ++ zs) ys (length ys) ≡ true
    → xs ≡ ys
memcmp_zero-eq [] [] zs n h = refl
memcmp_zero-eq [] (y ∷ ys) zs n h = absurd (omega arith)
memcmp_zero-eq (x ∷ xs) [] zs n h = absurd (omega arith)
memcmp_zero-eq (x ∷ xs) (y ∷ ys) zs n h =
    let first : x ≡ y = ground arith in
    let others : memcmp_zero (xs ++ zs) ys (length ys) ≡ true = ground arith in
    let tails = memcmp_zero-eq xs ys zs (omega arith) others in rw (first, tails)

not-quits : (line zs : List ℕ) → line ≢ server_command → quits (length line) (line ++ zs) ≡ false
not-quits line zs other = not_true (quits (length line) (line ++ zs)) (λ q.
    let five : length line ≡ 5 = ground arith in
    let same : memcmp_zero (line ++ zs) server_command 5 ≡ true = ground arith in
    other (memcmp_zero-eq line server_command zs five same))
  where
    not_true : (b : Bool) → ¬ (b ≡ true) → b ≡ false
    not_true true h = absurd (h refl)
    not_true false h = refl

-- The loop goes on after a message that has been sent and does not quit, and a reply that has been
-- received.
client_received-next :
    (status : Status) (out : List ℕ) (shown : List (List ℕ))
    (next : List ℕ → List ℕ → List Event → List (List ℕ) → Peer) (f : Filled)
    → status ≡ returned
    → client_received status out shown next f
      ≡ next f.input f.buf f.kernel (shown ++ text_of f.buf ∷ [])
unfolding client_received
client_received-next returned out shown next f e = refl
client_received-next status out shown next f e = absurd (ground arith)

client_sent-next :
    (status : Status) (input buf : List ℕ) (shown : List (List ℕ))
    (next : List ℕ → List ℕ → List Event → List ℕ → List (List ℕ) → Peer) (w : Written)
    → status ≡ returned
    → quits w.written_bytes buf ≡ false
    → (let f = client_recv w.kernel input buf 0 in
        f.status ≡ returned
        → client_sent status input buf shown next w
          ≡ next f.input f.buf f.kernel w.out (shown ++ text_of f.buf ∷ []))
unfolding client_sent
client_sent-next returned input buf shown next w e no_quit got =
    let f = client_recv w.kernel input buf 0 in
    if_cases (λ (p : Peer). p ≡ next f.input f.buf f.kernel w.out (shown ++ text_of f.buf ∷ []))
      (quits w.written_bytes buf) _ _ (λ q. absurd (cc (q, no_quit)))
      (λ _. client_received-next f.status w.out shown (λ i b k t. next i b k w.out t) f got)
client_sent-next status input buf shown next w e no_quit got = absurd (ground arith)

client_sent-echo :
    (line more tail o : List ℕ) (rest : List Event) (shown : List (List ℕ))
    (next : List ℕ → List ℕ → List Event → List ℕ → List (List ℕ) → Peer)
    → All (λ x. x ≢ 10) line
    → All (λ x. x ≢ 0) line
    → line ++ 10 ∷ [] ≢ server_command
    → NoFailure rest
    → length line < chunks rest
    → (let buf = (line ++ 10 ∷ []) ++ 0 ∷ tail in
        let w : Written = record {
          status = returned;
          out = o;
          written_bytes = length (line ++ 10 ∷ []);
          kernel = rest;
        } in
        let f = client_recv rest (line ++ 10 ∷ more) buf 0 in
        client_sent returned (line ++ 10 ∷ more) buf shown next w
        ≡ next more buf f.kernel o (shown ++ (line ++ 10 ∷ []) ∷ []))
client_sent-echo line more tail o rest shown next no_newline no_zero other ok c =
    let text = line ++ 10 ∷ [] in
    let buf = text ++ 0 ∷ tail in
    let f = client_recv rest (line ++ 10 ∷ more) buf 0 in
    let l : IsEcho more buf f =
      subst (λ b. IsEcho more b (client_recv rest (line ++ 10 ∷ more) b 0))
        (sym (append_assoc line (10 ∷ []) (0 ∷ tail)))
        (client_recv-IsEcho rest [] line more (0 ∷ tail) no_newline no_zero ok c) in
    let len = strlen-terminated text tail (All-end line no_zero) in
    let all_text : text_of buf ≡ text =
      ap (λ k. take k buf) len
      ∙ take-append_of_le (length text) text (0 ∷ tail) (omega arith)
      ∙ take_of_length_le (length text) text (omega arith) in
    client_sent-next returned (line ++ 10 ∷ more) buf shown next _ refl
      (not-quits text (0 ∷ tail) other) l.done
    ∙ ap (λ i. next i f.buf f.kernel o (shown ++ text_of f.buf ∷ [])) l.input
    ∙ ap (λ b. next more b f.kernel o (shown ++ text_of b ∷ [])) l.same
    ∙ ap (λ t. next more buf f.kernel o (shown ++ t ∷ [])) all_text

-- One call sends a message that stands in the buffer.
send_text :
    (n : ℕ) (text tail : List ℕ) (kernel rest : List Event) (out : List ℕ)
    → All (λ x. x ≢ 0) text
    → NextMoves n kernel rest
    → length text ≤ n
    → 0 < length text
    → (let buf = text ++ 0 ∷ tail in
        send_loop (strlen buf) kernel buf (strlen buf) 0 out ≡ record {
          status = returned;
          out = out ++ text;
          written_bytes = length text;
          kernel = rest;
        })
send_text n [] tail kernel rest out no_zero h enough b = absurd (omega arith)
send_text n (x ∷ xs) tail kernel rest out no_zero h enough b =
    let text = x ∷ xs in
    let buf = text ++ 0 ∷ tail in
    let prefix : take (length text) buf ≡ text =
      take-append_of_le (length text) text (0 ∷ tail) (omega arith)
      ∙ take_of_length_le (length text) text (omega arith) in
    ap (λ k. send_loop k kernel buf k 0 out) (strlen-terminated text tail no_zero)
    ∙ send_loop-whole n kernel rest buf (length xs) 0 out h (omega arith)
    ∙ ap
        (λ (l : List ℕ). record {
          status = returned;
          out = out ++ l;
          written_bytes = 0 + length text;
          kernel = rest;
        })
        prefix
    ∙ ap
        (λ (k : ℕ). record {
          status = returned;
          out = out ++ text;
          written_bytes = k;
          kernel = rest;
        })
        (from_zero (length text))
  where
    from_zero : (k : ℕ) → 0 + k ≡ k
    from_zero k = omega arith

-- A round: the line that `fgets` gives, newline included, is sent by one call; when the server
-- sends the same line back, it is what the client shows, and the next round starts behind it. The
-- line has no other newline and no 0, fits the buffer with its terminator, and is not the command;
-- no call fails, and the kernel moves bytes often enough.
pub client_loop-echo :
    (n : ℕ) (line more buf : List ℕ) (lines : List (List ℕ)) (kernel rest : List Event)
    (out : List ℕ) (shown : List (List ℕ))
    → All (λ x. x ≢ 10) line
    → All (λ x. x ≢ 0) line
    → line ++ 10 ∷ [] ≢ server_command
    → length line + 1 < length buf
    → NextMoves n kernel rest
    → length line < n
    → NoFailure rest
    → length line < chunks rest
    → (buf' : List ℕ) × (kernel' : List Event) × (client_loop
          ((line ++ 10 ∷ []) ∷ lines)
          (line ++ 10 ∷ more)
          buf
          kernel
          out
          shown
        ≡ client_loop lines more buf' kernel'
            (out ++ (line ++ 10 ∷ []))
            (shown ++ (line ++ 10 ∷ []) ∷ []))
unfolding client_loop
client_loop-echo n line more buf lines kernel rest out shown no_newline no_zero other fits h enough
      ok c =
    let text = line ++ 10 ∷ [] in
    let tail = drop (0 + length (text ++ 0 ∷ [])) buf in
    let B = text ++ 0 ∷ tail in
    let next : List ℕ → List ℕ → List Event → List ℕ → List (List ℕ) → Peer =
      λ i b k o t. client_loop lines i b k o t in
    let after : List ℕ → Written → Peer =
      λ b w. client_sent w.status (line ++ 10 ∷ more) b shown next w in
    let size : length text ≡ suc (length line) = omega (arith, length-append line (10 ∷ [])) in
    (
      B,
      (client_recv rest (line ++ 10 ∷ more) B 0).kernel,
      ap (λ b. after b (send_loop (strlen b) kernel b (strlen b) 0 out))
            (append_assoc text (0 ∷ []) tail)
          ∙ ap (after B) (
              send_text n text tail kernel rest out (All-end line no_zero) h (omega (arith, size))
                (omega (arith, size)))
          ∙ client_sent-echo line more tail (out ++ text) rest shown next no_newline no_zero other
              ok c,
    )

-- The command, sent by one call, ends the loop: the socket is closed, nothing more is received, and
-- the lines that follow are not read.
pub client_loop-stops :
    (n : ℕ) (input buf : List ℕ) (lines : List (List ℕ)) (kernel rest : List Event) (out : List ℕ)
    (shown : List (List ℕ))
    → length server_command < length buf
    → NextMoves n kernel rest
    → length server_command ≤ n
    → client_loop (server_command ∷ lines) input buf kernel out shown ≡ record {
      status = returned;
      input = input;
      buf = server_command ++ 0 ∷ drop (suc (length server_command)) buf;
      out = out ++ server_command;
      kernel = rest;
      shown = shown;
    }
unfolding client_loop client_sent
client_loop-stops n input buf lines kernel rest out shown fits h enough =
    ap
      (λ (w : Written).
        client_sent w.status input (server_command ++ 0 ∷ drop 6 buf) shown
          (λ i b k o t. client_loop lines i b k o t) w)
      (send_text n server_command (drop 6 buf) kernel rest out (omega arith, omega arith) h enough
        (omega arith))
