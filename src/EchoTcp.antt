-- ===== src/EchoTcp.antt =====
-- Lab08/src/01: an echo server and its client on a socket, server.c and client.c.
pub mod Sends
pub mod Server
pub mod Client
mod Tests
use esercitazioni_sistemi_di.Base.{
  ℕ, zero, suc, ◌+◌, ◌-◌, Bool, true, false, ◌&&◌, ◌||◌, List, [], ◌∷◌, ◌++◌, min, take, drop, set,
  get_or, replicate, length, positive, ◌==◌, if◌then◌else◌,
}
use esercitazioni_sistemi_di.Posix.{
  Event, chunk, eintr, failed, Status, returned, exited, waiting, blit, Written, Filled,
}
use esercitazioni_sistemi_di.EchoFifo.{strlen, memcmp_zero}

-- `sizeof(buf)`, and `SERVER_COMMAND`, which is "QUIT" and a newline.
abbrev pub buf_len : ℕ
buf_len = 1024

abbrev pub server_command : List ℕ
server_command = b'Q' ∷ b'U' ∷ b'I' ∷ b'T' ∷ 10 ∷ []

-- `while ((left) > 0) { ret = send(...); ...; if (ret != expected) handle_error(...); ... }`: a call
-- that moves another number of bytes than `expected` ends the program.
unfoldable pub send_loop : ℕ → List Event → List ℕ → ℕ → ℕ → List ℕ → Written
send_loop expected [] buf left sent out = record {
  status = elim (positive left) [ true ↦ waiting | false ↦ returned ];
  out = out;
  written_bytes = sent;
  kernel = [];
}
send_loop expected (e ∷ kernel) buf left sent out = elim (positive left) [
  | false ↦ record { status = returned; out = out; written_bytes = sent; kernel = e ∷ kernel }
  | true ↦ elim e [
    | chunk n ↦
        let ret = min (suc n) left in
        let out' = out ++ take ret (drop sent buf) in
        let rest = send_loop expected kernel buf (left - ret) (sent + ret) out' in
        elim (ret == expected) [
          | true ↦ rest
          | false ↦ record { status = exited; out = out'; written_bytes = sent; kernel = kernel }
        ]
    | eintr ↦ send_loop expected kernel buf left sent out
    | failed ↦ record { status = exited; out = out; written_bytes = sent; kernel = kernel }
  ]
]

-- The text of the welcome message: "Hi! I'm an echo server. I will send you back whatever you send me.
-- I will stop if you send me " and the command.
abbrev pub welcome : List ℕ
welcome =
    72 ∷ 105 ∷ 33 ∷ 32 ∷ 73 ∷ 39 ∷ 109 ∷ 32 ∷ 97 ∷ 110 ∷ 32 ∷ 101 ∷ 99 ∷ 104 ∷ 111 ∷ 32 ∷ 115 ∷ 101
    ∷ 114 ∷ 118 ∷ 101 ∷ 114 ∷ 46 ∷ 32 ∷ 73 ∷ 32 ∷ 119 ∷ 105 ∷ 108 ∷ 108 ∷ 32 ∷ 115 ∷ 101 ∷ 110 ∷ 100
    ∷ 32 ∷ 121 ∷ 111 ∷ 117 ∷ 32 ∷ 98 ∷ 97 ∷ 99 ∷ 107 ∷ 32 ∷ 119 ∷ 104 ∷ 97 ∷ 116 ∷ 101 ∷ 118 ∷ 101
    ∷ 114 ∷ 32 ∷ 121 ∷ 111 ∷ 117 ∷ 32 ∷ 115 ∷ 101 ∷ 110 ∷ 100 ∷ 32 ∷ 109 ∷ 101 ∷ 46 ∷ 32 ∷ 73 ∷ 32
    ∷ 119 ∷ 105 ∷ 108 ∷ 108 ∷ 32 ∷ 115 ∷ 116 ∷ 111 ∷ 112 ∷ 32 ∷ 105 ∷ 102 ∷ 32 ∷ 121 ∷ 111 ∷ 117
    ∷ 32 ∷ 115 ∷ 101 ∷ 110 ∷ 100 ∷ 32 ∷ 109 ∷ 101 ∷ 32 ∷ 81 ∷ 85 ∷ 73 ∷ 84 ∷ 10 ∷ []

-- The end of a line, and of a text.
abbrev pub ends_line : ℕ → Bool
ends_line c = c == 10 || c == 0

-- The server's loop over `recv`: it looks at the cell that the next byte will overwrite.
unfoldable pub server_recv : List Event → List ℕ → List ℕ → ℕ → Filled
server_recv [] input buf recv_bytes = record {
  status = if ends_line (get_or buf recv_bytes 0) then returned else waiting;
  input = input;
  buf = buf;
  read_bytes = recv_bytes;
  kernel = [];
}
server_recv (e ∷ kernel) input buf recv_bytes = elim (ends_line (get_or buf recv_bytes 0)) [
  | true ↦ record {
    status = returned;
    input = input;
    buf = buf;
    read_bytes = recv_bytes;
    kernel = e ∷ kernel;
  }
  | false ↦ elim e [
    | chunk n ↦ elim input [
      | [] ↦ record {
        status = exited;
        input = [];
        buf = buf;
        read_bytes = recv_bytes;
        kernel = kernel;
      }
      | x ∷ xs ↦ server_recv kernel xs (set buf recv_bytes x) (recv_bytes + 1)
    ]
    | eintr ↦ server_recv kernel input buf recv_bytes
    | failed ↦ record {
      status = exited;
      input = input;
      buf = buf;
      read_bytes = recv_bytes;
      kernel = kernel;
    }
  ]
]

-- The state of a program between two calls; `shown` are the texts that the client prints.
pub record Peer : Type 0 where
  pub status : Status
  pub input : List ℕ
  pub buf : List ℕ
  pub out : List ℕ
  pub kernel : List Event
  pub shown : List (List ℕ)

abbrev pub quits : ℕ → List ℕ → Bool
quits len buf = len == 5 && memcmp_zero buf server_command 5

-- What follows a `send` loop, and a `recv` loop of the server; `next` is the next round.
unfoldable pub server_sent :
    Status → List ℕ → List ℕ → (List Event → List ℕ → Peer) → Written → Peer
server_sent returned input buf next w = next w.kernel w.out
server_sent other input buf next w = record {
  status = other;
  input = input;
  buf = buf;
  out = w.out;
  kernel = w.kernel;
  shown = [];
}

unfoldable pub server_received :
    Status → List ℕ → (List ℕ → List ℕ → List Event → List ℕ → Peer) → Filled → Peer
unfolding server_sent send_loop
server_received returned out next f =
    let w = send_loop f.read_bytes f.kernel f.buf f.read_bytes 0 out in
    if quits f.read_bytes f.buf
    then record {
      status = returned;
      input = f.input;
      buf = f.buf;
      out = out;
      kernel = f.kernel;
      shown = [];
    }
    else server_sent w.status f.input f.buf (λ k o. next f.input f.buf k o) w
server_received other out next f = record {
  status = other;
  input = f.input;
  buf = f.buf;
  out = out;
  kernel = f.kernel;
  shown = [];
}

-- The echo loop of the server; at fuel 0 the result counts as waiting.
unfoldable pub server_loop : ℕ → List ℕ → List ℕ → List Event → List ℕ → Peer
unfolding server_received server_recv
server_loop zero input buf kernel out = record {
  status = waiting;
  input = input;
  buf = buf;
  out = out;
  kernel = kernel;
  shown = [];
}
server_loop (suc fuel) input buf kernel out =
    let f = server_recv kernel input buf 0 in
    server_received f.status out (λ i b k o. server_loop fuel i b k o) f

-- `connection_handler`: the welcome message, sent from a buffer of zeros that holds it, and the loop.
unfoldable pub connection_handler : ℕ → List ℕ → List Event → Peer
unfolding server_sent server_loop send_loop
connection_handler fuel input kernel =
    let buf = blit (replicate buf_len 0) 0 welcome in
    let w = send_loop buf_len kernel buf (strlen buf) 0 [] in
    server_sent w.status input buf (λ k o. server_loop fuel input buf k o) w

-- The client's loop over `recv`, a byte at a time up to the end of the line or of the text, which
-- `recv_bytes` does not count.
unfoldable pub client_recv : List Event → List ℕ → List ℕ → ℕ → Filled
client_recv [] input buf recv_bytes = record {
  status = waiting;
  input = input;
  buf = buf;
  read_bytes = recv_bytes;
  kernel = [];
}
client_recv (eintr ∷ kernel) input buf recv_bytes = client_recv kernel input buf recv_bytes
client_recv (failed ∷ kernel) input buf recv_bytes = record {
  status = exited;
  input = input;
  buf = buf;
  read_bytes = recv_bytes;
  kernel = kernel;
}
client_recv (chunk n ∷ kernel) [] buf recv_bytes = record {
  status = exited;
  input = [];
  buf = buf;
  read_bytes = recv_bytes;
  kernel = kernel;
}
client_recv (chunk n ∷ kernel) (x ∷ xs) buf recv_bytes =
    let buf' = set buf recv_bytes x in
    elim (ends_line (get_or buf' recv_bytes 0)) [
      | true ↦ record {
        status = returned;
        input = xs;
        buf = buf';
        read_bytes = recv_bytes;
        kernel = kernel;
      }
      | false ↦ client_recv kernel xs buf' (recv_bytes + 1)
    ]

-- The C string in a buffer.
abbrev pub text_of : List ℕ → List ℕ
text_of buf = take (strlen buf) buf

unfoldable pub client_received :
    Status
    → List ℕ
    → List (List ℕ)
    → (List ℕ → List ℕ → List Event → List (List ℕ) → Peer)
    → Filled
    → Peer
client_received returned out shown next f =
    next f.input f.buf f.kernel (shown ++ text_of f.buf ∷ [])
client_received other out shown next f = record {
  status = other;
  input = f.input;
  buf = f.buf;
  out = out;
  kernel = f.kernel;
  shown = shown;
}

unfoldable pub client_sent :
    Status
    → List ℕ
    → List ℕ
    → List (List ℕ)
    → (List ℕ → List ℕ → List Event → List ℕ → List (List ℕ) → Peer)
    → Written
    → Peer
unfolding client_received client_recv
client_sent returned input buf shown next w =
    let f = client_recv w.kernel input buf 0 in
    if quits w.written_bytes buf
    then record {
      status = returned;
      input = input;
      buf = buf;
      out = w.out;
      kernel = w.kernel;
      shown = shown;
    }
    else client_received f.status w.out shown (λ i b k t. next i b k w.out t) f
client_sent other input buf shown next w = record {
  status = other;
  input = input;
  buf = buf;
  out = w.out;
  kernel = w.kernel;
  shown = shown;
}

-- The main loop of the client. `lines` are the lines that `fgets` reads from the user; when there are
-- none the program ends with an error.
unfoldable pub client_loop :
    List (List ℕ) → List ℕ → List ℕ → List Event → List ℕ → List (List ℕ) → Peer
unfolding client_sent send_loop
client_loop [] input buf kernel out shown = record {
  status = exited;
  input = input;
  buf = buf;
  out = out;
  kernel = kernel;
  shown = shown;
}
client_loop (line ∷ lines) input buf kernel out shown =
    let buf' = blit buf 0 (line ++ 0 ∷ []) in
    let msg_len = strlen buf' in
    let w = send_loop msg_len kernel buf' msg_len 0 out in
    client_sent w.status input buf' shown (λ i b k o t. client_loop lines i b k o t) w
