-- ===== src/TimeServer/Replies.antt =====
-- What `connection_handler` of Lab07/src/03 time_server/server.c replies.
use esercitazioni_sistemi_di.Base.{
  ℕ, suc, ◌+◌, ◌-◌, ◌≤◌, ◌<◌, ◌≡◌, refl, ap, ◌∙◌, true, false, Bool, List, [], ◌∷◌, ◌++◌, length,
  take, drop, arith, min, ◌%◌, ◌^◌, take-append_of_le, take_of_length_le,
}
use esercitazioni_sistemi_di.Posix.{Event, chunk, eintr, failed, returned}
use esercitazioni_sistemi_di.TimeServer.{
  Ended, allowed_command, invalid_request, left_of, recv_command, send_all, reply,
  connection_handler,
}

-- A call that fails, by an interruption or not.
abbrev pub IsFailing : Event → Type 0
IsFailing (chunk n) = ⊥
IsFailing eintr = Unit {0}
IsFailing failed = Unit {0}

send_all-ended :
    (kernel : List Event) (buf : List ℕ) (len sent : ℕ) (interrupted : Bool) (out : List ℕ)
    → left_of len sent ≡ 0
    → send_all kernel buf len sent interrupted out ≡ record {
      status = returned;
      input = [];
      buf = buf;
      out = out;
      count = sent;
      interrupted = interrupted;
      kernel = kernel;
    }
unfolding send_all
send_all-ended [] buf len sent interrupted out h = ground (arith, h)
send_all-ended (e ∷ kernel) buf len sent interrupted out h = ground (arith, h)

-- A call that moves more than one byte.
send_all-moves :
    (m ret : ℕ) (rest : List Event) (buf : List ℕ) (len sent : ℕ) (interrupted : Bool)
    (out : List ℕ)
    → min (suc m) (left_of len sent) ≡ ret
    → 1 < ret
    → send_all (chunk m ∷ rest) buf len sent interrupted out
      ≡ send_all rest buf len ((sent + ret) % 2 ^ 64) interrupted (out ++ take ret buf)
unfolding send_all
send_all-moves m ret rest buf len sent interrupted out h more = ground (arith, h)

-- One call sends a text of more than one byte.
pub send_all-text :
    (m : ℕ) (rest : List Event) (text : List ℕ) (interrupted : Bool)
    → 1 < length text
    → length text ≤ suc m
    → length text < 256
    → send_all (chunk m ∷ rest) (text ++ 0 ∷ []) (length text) 0 interrupted [] ≡ record {
      status = returned;
      input = [];
      buf = text ++ 0 ∷ [];
      out = text;
      count = (0 + length text) % 2 ^ 64;
      interrupted = interrupted;
      kernel = rest;
    }
send_all-text m rest text interrupted a b c =
    let buf = text ++ 0 ∷ [] in
    let count = (0 + length text) % 2 ^ 64 in
    let all_text : take (length text) buf ≡ text =
      take-append_of_le (length text) text (0 ∷ []) (omega arith)
      ∙ take_of_length_le (length text) text (omega arith) in
    send_all-moves m (length text) rest buf (length text) 0 interrupted [] (omega arith) a
    ∙ send_all-ended rest buf (length text) count interrupted (take (length text) buf) (omega arith)
    ∙ ap
        (λ (o : List ℕ). record {
          status = returned;
          input = [];
          buf = buf;
          out = o;
          count = count;
          interrupted = interrupted;
          kernel = rest;
        })
        all_text

-- What the loop over `recv` has got, when a call moves the whole command: the count is right only when no
-- call has failed before.
recv_command-whole :
    (n count : ℕ) (rest : List Event) (recv_buf : List ℕ) (interrupted : Bool)
    → length allowed_command ≤ suc n
    → 4 ≤ left_of 256 count
    → recv_command (chunk n ∷ rest) allowed_command recv_buf count interrupted ≡ record {
      status = returned;
      input = [];
      buf = allowed_command ++ drop 4 recv_buf;
      out = [];
      count = (count + 4) % 2 ^ 64;
      interrupted = interrupted;
      kernel = rest;
    }
unfolding recv_command
recv_command-whole n count rest recv_buf interrupted a b =
    let moved : min (suc n) (min (left_of 256 count) 4) ≡ 4 = omega arith in ground (arith, moved)

-- The command in one call, with no failed call before it: the reply is the text of `ctime`, sent whole by
-- one call.
pub connection_handler-tells :
    (now recv_buf : List ℕ) (n m : ℕ) (rest : List Event)
    → length allowed_command ≤ suc n
    → 1 < length now
    → length now ≤ suc m
    → length now < 256
    → (let r = connection_handler now (chunk n ∷ chunk m ∷ rest) allowed_command recv_buf in
        (r.status ≡ returned) × (r.out ≡ now))
unfolding connection_handler reply
connection_handler-tells now recv_buf n m rest a b c d =
    let got = recv_command-whole n 0 (chunk m ∷ rest) recv_buf false a (omega arith) in
    let sent = send_all-text m rest now false b c d in
    (
      ap (λ (r : Ended). (reply r.status now r).status) got ∙ ap (λ (w : Ended). w.status) sent,
      ap (λ (r : Ended). (reply r.status now r).out) got ∙ ap (λ (w : Ended). w.out) sent,
    )

recv_command-failing :
    (e : Event) (n : ℕ) (rest : List Event) (recv_buf : List ℕ)
    → IsFailing e
    → length allowed_command ≤ suc n
    → (r : Ended) × (recv_command (e ∷ chunk n ∷ rest) allowed_command recv_buf 0 false ≡ r)
      × (r.status ≡ returned)
      × (r.count ≡ 3)
      × (r.kernel ≡ rest)
unfolding recv_command
recv_command-failing (chunk k) n rest recv_buf h a = absurd h
recv_command-failing eintr n rest recv_buf h a =
    (_, recv_command-whole n (2 ^ 64 - 1) rest recv_buf true a (omega arith), refl, refl, refl)
recv_command-failing failed n rest recv_buf h a =
    (_, recv_command-whole n (2 ^ 64 - 1) rest recv_buf false a (omega arith), refl, refl, refl)

invalid-sent :
    (r : Ended) (now : List ℕ) (m : ℕ) (rest : List Event)
    → r.status ≡ returned
    → r.count ≡ 3
    → r.kernel ≡ chunk m ∷ rest
    → length invalid_request ≤ suc m
    → ((reply r.status now r).status ≡ returned) × ((reply r.status now r).out ≡ invalid_request)
unfolding reply
invalid-sent r now m rest done three after b =
    let sent = send_all-text m rest invalid_request r.interrupted (omega arith) b (omega arith) in
    rw (done, three, after) (ap (λ (w : Ended). w.status) sent, ap (λ (w : Ended). w.out) sent)

-- A call that fails before the command arrives, by an interruption too, makes the server reply
-- that the request is invalid: it has counted -1 bytes for it. The command and the reply then move
-- in one call each.
pub connection_handler-invalid :
    (now recv_buf : List ℕ) (e : Event) (n m : ℕ) (rest : List Event)
    → IsFailing e
    → length allowed_command ≤ suc n
    → length invalid_request ≤ suc m
    → (let r = connection_handler now (e ∷ chunk n ∷ chunk m ∷ rest) allowed_command recv_buf in
        (r.status ≡ returned) × (r.out ≡ invalid_request))
unfolding connection_handler
connection_handler-invalid now recv_buf e n m rest h a b =
    let (r, got, done, three, after) = recv_command-failing e n (chunk m ∷ rest) recv_buf h a in
    let sent = invalid-sent r now m rest done three after b in
    (
      ap (λ (r : Ended). (reply r.status now r).status) got ∙ sent.0,
      ap (λ (r : Ended). (reply r.status now r).out) got ∙ sent.1,
    )
