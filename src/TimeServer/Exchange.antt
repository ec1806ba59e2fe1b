-- ===== src/TimeServer/Exchange.antt =====
-- The client of Lab07/src/03 time_server, client.c, with its server.
use esercitazioni_sistemi_di.Base.{
  ℕ, suc, ◌+◌, ◌%◌, ◌^◌, ◌≤◌, ◌<◌, ◌≡◌, refl, ap, subst, ◌∙◌, false, Bool, List, [], ◌∷◌, ◌++◌,
  length, take, drop, set, arith, min, take_of_length_le, drop_of_length_le, drop-add, length-drop,
  sym,
}
use esercitazioni_sistemi_di.Posix.{Event, chunk, returned, blit}
use esercitazioni_sistemi_di.TimeServer.{
  Ended, allowed_command, left_of, recv_answer, answered, ask, connection_handler,
}
use esercitazioni_sistemi_di.TimeServer.Replies.{send_all-text, connection_handler-tells}

-- A call that moves more than one byte, and one that finds the connection closed.
recv_answer-moves :
    (m ret : ℕ) (kernel : List Event) (x : ℕ) (xs buf : List ℕ) (count : ℕ) (interrupted : Bool)
    → min (suc m) (min (left_of 256 count) (suc (length xs))) ≡ ret
    → 1 < ret
    → recv_answer (chunk m ∷ kernel) (x ∷ xs) buf count interrupted
      ≡ recv_answer kernel
          (drop ret (x ∷ xs))
          (blit buf 0 (take ret (x ∷ xs)))
          ((count + ret) % 2 ^ 64)
          interrupted
unfolding recv_answer
recv_answer-moves m ret kernel x xs buf count interrupted h more = ground (arith, h)

recv_answer-closed :
    (k : ℕ) (rest : List Event) (buf : List ℕ) (count : ℕ) (interrupted : Bool)
    → 0 < left_of 256 count
    → recv_answer (chunk k ∷ rest) [] buf count interrupted ≡ record {
      status = returned;
      input = [];
      buf = buf;
      out = [];
      count = count;
      interrupted = interrupted;
      kernel = rest;
    }
unfolding recv_answer
recv_answer-closed k rest buf count interrupted h = ground arith

set-behind :
    (xs ys : List ℕ) (v : ℕ) → 0 < length ys → set (xs ++ ys) (length xs) v ≡ xs ++ v ∷ drop 1 ys
set-behind [] [] v h = absurd (omega arith)
set-behind [] (y ∷ ys) v h = refl
set-behind (x ∷ xs) ys v h = ap (λ l. x ∷ l) (set-behind xs ys v h)

-- The terminator stands behind the answer.
answer_in_buf :
    (answer recv_buf : List ℕ)
    → length answer < length recv_buf
    → set (blit recv_buf 0 answer) (length answer) 0
      ≡ answer ++ 0 ∷ drop (suc (length answer)) recv_buf
answer_in_buf answer recv_buf h =
    let n = length answer in
    let start : 0 + n ≡ n = omega arith in
    let one_more : n + 1 ≡ suc n = omega arith in
    set-behind answer (drop (0 + n) recv_buf) 0 (omega (arith, length-drop (0 + n) recv_buf))
    ∙ ap (λ k. answer ++ 0 ∷ drop 1 (drop k recv_buf)) start
    ∙ ap (λ l. answer ++ 0 ∷ l) (sym (drop-add n 1 recv_buf))
    ∙ ap (λ k. answer ++ 0 ∷ drop k recv_buf) one_more

recv_answer-whole :
    (answer : List ℕ) (m k : ℕ) (rest : List Event) (buf : List ℕ)
    → 1 < length answer
    → length answer ≤ suc m
    → length answer < 256
    → recv_answer (chunk m ∷ chunk k ∷ rest) answer buf 0 false ≡ record {
      status = returned;
      input = [];
      buf = blit buf 0 answer;
      out = [];
      count = length answer;
      interrupted = false;
      kernel = rest;
    }
recv_answer-whole [] m k rest buf a b c = absurd (omega arith)
recv_answer-whole (x ∷ xs) m k rest buf a b c =
    let answer = x ∷ xs in
    let ret = length answer in
    let count : (0 + ret) % 2 ^ 64 ≡ ret = omega arith in
    recv_answer-moves m ret (chunk k ∷ rest) x xs buf 0 false (omega arith) a
    ∙ ap
        (λ t.
          recv_answer (chunk k ∷ rest) (drop ret answer) (blit buf 0 t) ((0 + ret) % 2 ^ 64) false)
        (take_of_length_le ret answer (omega arith))
    ∙ ap (λ i. recv_answer (chunk k ∷ rest) i (blit buf 0 answer) ((0 + ret) % 2 ^ 64) false)
        (drop_of_length_le ret answer (omega arith))
    ∙ ap (λ n. recv_answer (chunk k ∷ rest) [] (blit buf 0 answer) n false) count
    ∙ recv_answer-closed k rest (blit buf 0 answer) ret false (omega arith)

-- The client's whole exchange.
ask-shows :
    (answer recv_buf : List ℕ) (n m k : ℕ) (rest : List Event)
    → length allowed_command ≤ suc n
    → 1 < length answer
    → length answer ≤ suc m
    → length answer < 256
    → length recv_buf ≡ 256
    → (let r = ask (chunk n ∷ chunk m ∷ chunk k ∷ rest) answer recv_buf in
        (r.status ≡ returned)
        × (r.out ≡ allowed_command)
        × (r.buf ≡ answer ++ 0 ∷ drop (suc (length answer)) recv_buf))
unfolding ask answered
ask-shows answer recv_buf n m k rest a b c d e =
    let kernel = chunk m ∷ chunk k ∷ rest in
    let sent = send_all-text n kernel allowed_command false (omega arith) a (omega arith) in
    let got = recv_answer-whole answer m k rest recv_buf b c d in
    (
      ap (λ (w : Ended). (answered w.status answer recv_buf w).status) sent
          ∙ ap (λ (r : Ended). r.status) got,
      ap (λ (w : Ended). (answered w.status answer recv_buf w).out) sent,
      ap (λ (w : Ended). (answered w.status answer recv_buf w).buf) sent
          ∙ ap (λ (r : Ended). set r.buf r.count 0) got
          ∙ answer_in_buf answer recv_buf (omega arith),
    )

-- The server and the client together: when each message moves in one call and no call fails, the
-- server gets the command that the client sends, and the client shows what `ctime` gave the
-- server, terminated in its buffer. That text has more than one byte and fits the buffer with its
-- terminator; the client's last call finds the connection closed.
pub ask-connection_handler :
    (now server_buf client_buf : List ℕ) (i j n m k : ℕ) (server_rest client_rest : List Event)
    → length allowed_command ≤ suc i
    → length allowed_command ≤ suc n
    → 1 < length now
    → length now ≤ suc j
    → length now ≤ suc m
    → length now < 256
    → length client_buf ≡ 256
    → (let s =
          connection_handler now (chunk i ∷ chunk j ∷ server_rest) allowed_command server_buf in
        let c = ask (chunk n ∷ chunk m ∷ chunk k ∷ client_rest) s.out client_buf in
        (s.status ≡ returned)
        × (c.status ≡ returned)
        × (c.out ≡ allowed_command)
        × (c.buf ≡ now ++ 0 ∷ drop (suc (length now)) client_buf))
ask-connection_handler now server_buf client_buf i j n m k server_rest client_rest a b c d e f g =
    let kernel = chunk n ∷ chunk m ∷ chunk k ∷ client_rest in
    let s_out =
      (connection_handler now (chunk i ∷ chunk j ∷ server_rest) allowed_command server_buf).out in
    let (done, told) = connection_handler-tells now server_buf i j server_rest a c d f in
    let shown = ask-shows now client_buf n m k client_rest b c e f g in
    let same : now ≡ s_out = sym told in
    (
      done,
      subst (λ answer. (ask kernel answer client_buf).status ≡ returned) same shown.0,
      subst (λ answer. (ask kernel answer client_buf).out ≡ allowed_command) same shown.1,
      subst
          (λ answer.
            (ask kernel answer client_buf).buf ≡ now ++ 0 ∷ drop (suc (length now)) client_buf)
          same shown.2,
    )
