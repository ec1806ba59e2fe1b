-- ===== src/EchoTcp/Server.antt =====
-- `connection_handler` of Lab08/src/01 server.c.
use esercitazioni_sistemi_di.Base.{
  ℕ, zero, suc, ◌-◌, ◌≡◌, ap, ◌∙◌, List, [], ◌∷◌, ◌++◌, take, arith, min, replicate, length,
}
use esercitazioni_sistemi_di.Posix.{Event, exited, blit, Written}
use esercitazioni_sistemi_di.Pipe.Transfer.{NextMoves}
use esercitazioni_sistemi_di.EchoFifo.{strlen}
use esercitazioni_sistemi_di.EchoTcp.{
  buf_len, welcome, connection_handler, server_loop, server_sent, send_loop,
}
use esercitazioni_sistemi_di.EchoTcp.Sends.{send_loop-partial}

abbrev first_buffer : List ℕ
first_buffer = blit (replicate buf_len 0) 0 welcome

take-min : (n : ℕ) (xs ys : List ℕ) → take (min n (length xs)) (xs ++ ys) ≡ take n xs
take-min zero xs ys =
    let none_left : min 0 (length xs) ≡ 0 = omega arith in ap (λ k. take k (xs ++ ys)) none_left
take-min (suc n) [] ys =
    let none_left : min (suc n) 0 ≡ 0 = omega arith in ap (λ k. take k ys) none_left
take-min (suc n) (x ∷ xs) ys =
    let one_less : min (suc n) (suc (length xs)) ≡ suc (min n (length xs)) = omega arith in
    ap (λ k. take k (x ∷ xs ++ ys)) one_less ∙ ap (λ l. x ∷ l) (take-min n xs ys)

-- The welcome message is shorter than the buffer, and every call that sends a part of it, or all of
-- it, ends the program: the first `send` that is not interrupted sends its bytes, and the handler
-- exits, without a byte read from the client.
pub connection_handler-exits :
    (fuel n : ℕ) (input : List ℕ) (kernel rest : List Event)
    → NextMoves n kernel rest
    → connection_handler fuel input kernel ≡ record {
      status = exited;
      input = input;
      buf = welcome ++ replicate (buf_len - length welcome) 0;
      out = take n welcome;
      kernel = rest;
      shown = [];
    }
unfolding connection_handler server_sent
connection_handler-exits fuel n input kernel rest h =
    let w = send_loop buf_len kernel first_buffer (strlen first_buffer) 0 [] in
    ap
      (λ (w : Written).
        server_sent w.status input first_buffer (λ k o. server_loop fuel input first_buffer k o) w)
      (send_loop-partial buf_len n kernel rest first_buffer (length welcome - 1) 0 [] h
        (omega arith))
    ∙ ap
        (λ (out : List ℕ). record {
          status = exited;
          input = input;
          buf = first_buffer;
          out = out;
          kernel = rest;
          shown = [];
        })
        (take-min n welcome (replicate (buf_len - length welcome) 0))
