-- ===== src/EchoTcp/Tests.antt =====
-- Runs of the server and the client of Lab08/src/01.
use esercitazioni_sistemi_di.Base.{
  ℕ, ◌≡◌, refl, List, [], ◌∷◌, ◌++◌, arith, replicate, take, length, ◌-◌,
}
use esercitazioni_sistemi_di.Posix.{Event, chunk, eintr, exited}
use esercitazioni_sistemi_di.EchoTcp.{
  buf_len, server_command, welcome, connection_handler, client_loop, client_recv, send_loop,
}
use esercitazioni_sistemi_di.EchoTcp.Server.{connection_handler-exits}

abbrev hi : List ℕ
hi = b'h' ∷ b'i' ∷ []

abbrev after_send : List Event
after_send = chunk 0 ∷ eintr ∷ chunk 0 ∷ chunk 0 ∷ chunk 7 ∷ []

connection_handler-exits_example :
    connection_handler 3 (hi ++ 10 ∷ []) (eintr ∷ chunk 199 ∷ chunk 7 ∷ []) ≡ record {
      status = exited;
      input = hi ++ 10 ∷ [];
      buf = welcome ++ replicate (buf_len - length welcome) 0;
      out = take 200 welcome;
      kernel = chunk 7 ∷ [];
      shown = [];
    }
connection_handler-exits_example =
    connection_handler-exits 3 200 (hi ++ 10 ∷ []) (eintr ∷ chunk 199 ∷ chunk 7 ∷ []) (chunk 7 ∷ [])
      (omega arith, refl)

refuted : ¬ (◌≡◌ {A = ℕ} b'h' b'Q')
refuted e = omega arith

-- Two rounds of the client.
two_lines :
    (client_loop
      ((hi ++ 10 ∷ []) ∷ server_command ∷ [])
      (hi ++ 10 ∷ [])
      (replicate 8 0)
      (chunk 7 ∷ after_send)
      []
      []).out
    ≡ hi ++ (10 ∷ server_command)
unfolding client_loop client_recv send_loop
two_lines = refl
