-- ===== src/TimeServer/Tests.antt =====
-- Runs of Lab07/src/03 time_server.
use esercitazioni_sistemi_di.Base.{
  ℕ, suc, ◌≡◌, refl, List, [], ◌∷◌, ◌++◌, length, drop, replicate, arith,
}
use esercitazioni_sistemi_di.Posix.{chunk, eintr, returned, waiting}
use esercitazioni_sistemi_di.TimeServer.{
  allowed_command, invalid_request, recv_command, send_all, reply, connection_handler, ask,
}
use esercitazioni_sistemi_di.TimeServer.Replies.{connection_handler-invalid}
use esercitazioni_sistemi_di.TimeServer.Exchange.{ask-connection_handler}

abbrev noon : List ℕ
noon = 49 ∷ 50 ∷ 58 ∷ 48 ∷ 48 ∷ 10 ∷ []

abbrev empty_buf : List ℕ
empty_buf = replicate 256 0

connection_handler-invalid_example :
    ((connection_handler noon (eintr ∷ chunk 99 ∷ chunk 99 ∷ []) allowed_command empty_buf).status
      ≡ returned)
    × ((connection_handler noon (eintr ∷ chunk 99 ∷ chunk 99 ∷ []) allowed_command empty_buf).out
        ≡ invalid_request)
connection_handler-invalid_example =
    connection_handler-invalid noon empty_buf eintr 99 99 [] tt (omega arith) (omega arith)

abbrev served : List ℕ
served = (connection_handler noon (chunk 255 ∷ chunk 99 ∷ []) allowed_command empty_buf).out

ask-connection_handler_example :
    ((connection_handler noon (chunk 255 ∷ chunk 99 ∷ []) allowed_command empty_buf).status
      ≡ returned)
    × ((ask (chunk 3 ∷ chunk 9 ∷ chunk 0 ∷ []) served empty_buf).status ≡ returned)
    × ((ask (chunk 3 ∷ chunk 9 ∷ chunk 0 ∷ []) served empty_buf).out ≡ allowed_command)
    × ((ask (chunk 3 ∷ chunk 9 ∷ chunk 0 ∷ []) served empty_buf).buf
        ≡ noon ++ 0 ∷ drop (suc (length noon)) empty_buf)
ask-connection_handler_example =
    ask-connection_handler noon empty_buf empty_buf 255 99 3 9 0 [] [] (omega arith) (omega arith)
      (omega arith) (omega arith) (omega arith) (omega arith) refl

-- A command that arrives in two parts is not recognised: the server waits for more.
split_command :
    (connection_handler noon (chunk 1 ∷ chunk 1 ∷ []) allowed_command empty_buf).status ≡ waiting
unfolding connection_handler recv_command reply send_all
split_command = refl
