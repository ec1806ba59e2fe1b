-- ===== src/TimeServer.antt =====
-- Lab07/src/03 time_server: a server that answers the command "TIME", server.c, and its client, client.c.
pub mod Replies
pub mod Exchange
mod Tests
use esercitazioni_sistemi_di.Base.{
  ℕ, suc, ◌+◌, ◌-◌, ◌%◌, ◌^◌, Bool, true, false, ◌&&◌, List, [], ◌∷◌, ◌++◌, min, take, drop, length,
  positive, ◌==◌, if◌then◌else◌, replicate, set,
}
use esercitazioni_sistemi_di.Posix.{
  Event, chunk, eintr, failed, Status, returned, exited, waiting, blit,
}
use esercitazioni_sistemi_di.EchoFifo.{memcmp_zero}

-- `SERVER_COMMAND`, and the other reply.
abbrev pub allowed_command : List ℕ
allowed_command = b'T' ∷ b'I' ∷ b'M' ∷ b'E' ∷ []

abbrev pub invalid_request : List ℕ
invalid_request = 73 ∷ 78 ∷ 86 ∷ 65 ∷ 76 ∷ 73 ∷ 68 ∷ 32 ∷ 82 ∷ 69 ∷ 81 ∷ 85 ∷ 69 ∷ 83 ∷ 84 ∷ []

-- The `int` counts, as the `size_t` that they are converted to: the test `len - count > 0` is one of
-- 64 bits without a sign, and a call that fails adds -1.
abbrev pub left_of : ℕ → ℕ → ℕ
left_of len count = (len + 2 ^ 64 - count) % 2 ^ 64

abbrev pub minus_one : ℕ → ℕ
minus_one count = (count + (2 ^ 64 - 1)) % 2 ^ 64

-- The end of a loop over `recv` or `send`; `interrupted` says whether `errno` is EINTR.
pub record Ended : Type 0 where
  pub status : Status
  pub input : List ℕ
  pub buf : List ℕ
  pub out : List ℕ
  pub count : ℕ
  pub interrupted : Bool
  pub kernel : List Event

-- The server's loop over `recv`, which always writes at the start of the buffer. A call that moves
-- one byte is taken for a failure, one that fails is not.
unfoldable pub recv_command : List Event → List ℕ → List ℕ → ℕ → Bool → Ended
recv_command [] input buf recv_bytes interrupted = record {
  status = elim (positive (left_of 256 recv_bytes)) [ true ↦ waiting | false ↦ returned ];
  input = input;
  buf = buf;
  out = [];
  count = recv_bytes;
  interrupted = interrupted;
  kernel = [];
}
recv_command (e ∷ kernel) input buf recv_bytes interrupted =
    let left = left_of 256 recv_bytes in
    let stop : Status → List ℕ → List ℕ → ℕ → List Event → Ended = λ status i b count k. record {
      status = status;
      input = i;
      buf = b;
      out = [];
      count = count;
      interrupted = interrupted;
      kernel = k;
    } in
    elim (positive left) [
      | false ↦ stop returned input buf recv_bytes (e ∷ kernel)
      | true ↦ elim e [
        | eintr ↦ recv_command kernel input buf (minus_one recv_bytes) true
        | failed ↦ recv_command kernel input buf (minus_one recv_bytes) false
        | chunk n ↦ elim input [
          | [] ↦ stop exited [] buf recv_bytes kernel
          | x ∷ xs ↦
              let ret = min (suc n) (min left (length (x ∷ xs))) in
              let buf' = blit buf 0 (take ret (x ∷ xs)) in
              let input' = drop ret (x ∷ xs) in
              let count = (recv_bytes + ret) % 2 ^ 64 in
              elim (ret == 1) [
                | true ↦ elim interrupted [
                  | true ↦ recv_command kernel input' buf' recv_bytes true
                  | false ↦ stop exited input' buf' recv_bytes kernel
                ]
                | false ↦ elim (ret == length allowed_command) [
                  | true ↦ stop returned input' buf' count kernel
                  | false ↦ recv_command kernel input' buf' count interrupted
                ]
              ]
        ]
      ]
    ]

-- The loop over `send` of the server and the client, which always sends from the start of the buffer.
unfoldable pub send_all : List Event → List ℕ → ℕ → ℕ → Bool → List ℕ → Ended
send_all [] buf len sent_bytes interrupted out = record {
  status = elim (positive (left_of len sent_bytes)) [ true ↦ waiting | false ↦ returned ];
  input = [];
  buf = buf;
  out = out;
  count = sent_bytes;
  interrupted = interrupted;
  kernel = [];
}
send_all (e ∷ kernel) buf len sent_bytes interrupted out =
    let left = left_of len sent_bytes in
    let stop : Status → List ℕ → List Event → Ended = λ status o k. record {
      status = status;
      input = [];
      buf = buf;
      out = o;
      count = sent_bytes;
      interrupted = interrupted;
      kernel = k;
    } in
    elim (positive left) [
      | false ↦ stop returned out (e ∷ kernel)
      | true ↦ elim e [
        | eintr ↦ send_all kernel buf len (minus_one sent_bytes) true out
        | failed ↦ send_all kernel buf len (minus_one sent_bytes) false out
        | chunk n ↦
            let ret = min (suc n) left in
            let out' = out ++ take ret buf in
            elim (ret == 1) [
              | true ↦ elim interrupted [
                | true ↦ send_all kernel buf len sent_bytes true out'
                | false ↦ stop exited out' kernel
              ]
              | false ↦ send_all kernel buf len ((sent_bytes + ret) % 2 ^ 64) interrupted out'
            ]
      ]
    ]

-- The reply in `send_buf`; `now` is the text that `ctime` gives.
abbrev pub reply_to : ℕ → List ℕ → List ℕ → List ℕ
reply_to recv_bytes recv_buf now =
    if recv_bytes == length allowed_command && memcmp_zero recv_buf allowed_command 4
    then now
    else invalid_request

-- The server sends the reply when the loop over `recv` has ended.
unfoldable pub reply : Status → List ℕ → Ended → Ended
unfolding send_all
reply returned now r =
    let text = reply_to r.count r.buf now in
    let w = send_all r.kernel (text ++ 0 ∷ []) (length text) 0 r.interrupted [] in
    record w { input = r.input }
reply other now r = r

-- `connection_handler`, up to the closing of the socket. What `recv_buf` holds at first is not known.
unfoldable pub connection_handler : List ℕ → List Event → List ℕ → List ℕ → Ended
unfolding reply recv_command
connection_handler now kernel input recv_buf =
    let r = recv_command kernel input recv_buf 0 false in reply r.status now r

-- The client's loop over `recv`, up to the end of the connection.
unfoldable pub recv_answer : List Event → List ℕ → List ℕ → ℕ → Bool → Ended
recv_answer [] input buf recv_bytes interrupted = record {
  status = elim (positive (left_of 256 recv_bytes)) [ true ↦ waiting | false ↦ returned ];
  input = input;
  buf = buf;
  out = [];
  count = recv_bytes;
  interrupted = interrupted;
  kernel = [];
}
recv_answer (e ∷ kernel) input buf recv_bytes interrupted =
    let left = left_of 256 recv_bytes in
    let stop : Status → List ℕ → List ℕ → List Event → Ended = λ status i b k. record {
      status = status;
      input = i;
      buf = b;
      out = [];
      count = recv_bytes;
      interrupted = interrupted;
      kernel = k;
    } in
    elim (positive left) [
      | false ↦ stop returned input buf (e ∷ kernel)
      | true ↦ elim e [
        | eintr ↦ recv_answer kernel input buf (minus_one recv_bytes) true
        | failed ↦ recv_answer kernel input buf (minus_one recv_bytes) false
        | chunk n ↦ elim input [
          | [] ↦ stop returned [] buf kernel
          | x ∷ xs ↦
              let ret = min (suc n) (min left (length (x ∷ xs))) in
              let buf' = blit buf 0 (take ret (x ∷ xs)) in
              let input' = drop ret (x ∷ xs) in
              elim (ret == 1) [
                | true ↦ elim interrupted [
                  | true ↦ recv_answer kernel input' buf' recv_bytes true
                  | false ↦ stop exited input' buf' kernel
                ]
                | false ↦ recv_answer kernel input' buf' ((recv_bytes + ret) % 2 ^ 64) interrupted
              ]
        ]
      ]
    ]

-- The exchange of the client: it sends the command, and shows what it receives, terminated.
unfoldable pub answered : Status → List ℕ → List ℕ → Ended → Ended
unfolding recv_answer
answered returned input buf w =
    let r = recv_answer w.kernel input buf 0 w.interrupted in
    record r { buf = set r.buf r.count 0; out = w.out }
answered other input buf w = w

unfoldable pub ask : List Event → List ℕ → List ℕ → Ended
unfolding answered send_all
ask kernel input recv_buf =
    let w = send_all kernel (allowed_command ++ 0 ∷ []) (length allowed_command) 0 false [] in
    answered w.status input recv_buf w
