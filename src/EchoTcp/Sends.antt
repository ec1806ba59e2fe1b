-- ===== src/EchoTcp/Sends.antt =====
-- The loops over `send` of Lab08/src/01 server.c and client.c.
use esercitazioni_sistemi_di.Base.{
  ℕ, suc, ◌+◌, ◌-◌, ◌<◌, ◌≡◌, refl, ap, ◌∙◌, List, [], ◌∷◌, ◌++◌, take, drop, arith, min, ◌==◌,
  elim_cases,
}
use esercitazioni_sistemi_di.Posix.{Event, chunk, eintr, failed, returned, exited, Written}
use esercitazioni_sistemi_di.Pipe.Transfer.{NextMoves}
use esercitazioni_sistemi_di.EchoTcp.{send_loop}

send_loop-ended :
    (expected : ℕ) (kernel : List Event) (buf : List ℕ) (sent : ℕ) (out : List ℕ)
    → send_loop expected kernel buf 0 sent out
      ≡ record { status = returned; out = out; written_bytes = sent; kernel = kernel }
unfolding send_loop
send_loop-ended expected [] buf sent out = refl
send_loop-ended expected (e ∷ kernel) buf sent out = refl

-- A call that moves fewer bytes than expected ends the program.
pub send_loop-partial :
    (expected n : ℕ) (kernel rest : List Event) (buf : List ℕ) (left sent : ℕ) (out : List ℕ)
    → NextMoves n kernel rest
    → min n (suc left) < expected
    → send_loop expected kernel buf (suc left) sent out ≡ record {
      status = exited;
      out = out ++ take (min n (suc left)) (drop sent buf);
      written_bytes = sent;
      kernel = rest;
    }
unfolding send_loop
send_loop-partial expected n [] rest buf left sent out h b = absurd h
send_loop-partial expected n (failed ∷ kernel) rest buf left sent out h b = absurd h
send_loop-partial expected n (eintr ∷ kernel) rest buf left sent out h b =
    send_loop-partial expected n kernel rest buf left sent out h b
send_loop-partial expected n (chunk m ∷ kernel) rest buf left sent out h b =
    elim_cases
      (λ (w : Written). w ≡ record {
        status = exited;
        out = out ++ take (min n (suc left)) (drop sent buf);
        written_bytes = sent;
        kernel = rest;
      })
      (min (suc m) (suc left) == expected) _ _ (λ same. absurd (ground (arith, h.0)))
      (λ _. rw (h.0, h.1) refl)

-- One that moves all of them ends the loop.
pub send_loop-whole :
    (n : ℕ) (kernel rest : List Event) (buf : List ℕ) (left sent : ℕ) (out : List ℕ)
    → NextMoves n kernel rest
    → left < n
    → send_loop (suc left) kernel buf (suc left) sent out ≡ record {
      status = returned;
      out = out ++ take (suc left) (drop sent buf);
      written_bytes = sent + suc left;
      kernel = rest;
    }
unfolding send_loop
send_loop-whole n [] rest buf left sent out h b = absurd h
send_loop-whole n (failed ∷ kernel) rest buf left sent out h b = absurd h
send_loop-whole n (eintr ∷ kernel) rest buf left sent out h b =
    send_loop-whole n kernel rest buf left sent out h b
send_loop-whole n (chunk m ∷ kernel) rest buf left sent out h b =
    let all : min (suc m) (suc left) ≡ suc left = omega (arith, h.0) in
    elim_cases
      (λ (w : Written). w ≡ record {
        status = returned;
        out = out ++ take (suc left) (drop sent buf);
        written_bytes = sent + suc left;
        kernel = rest;
      })
      (min (suc m) (suc left) == suc left) _ _
      (λ _.
        ap
          (λ ret.
            send_loop (suc left) kernel buf (suc left - ret) (sent + ret)
              (out ++ take ret (drop sent buf)))
          all
        ∙ ap
            (λ k.
              send_loop (suc left) kernel buf k (sent + suc left)
                (out ++ take (suc left) (drop sent buf)))
            (none_left left)
        ∙ send_loop-ended (suc left) kernel buf (sent + suc left)
            (out ++ take (suc left) (drop sent buf))
        ∙ rw (h.1) refl)
      (λ other. absurd (ground (arith, all)))
  where
    none_left : (k : ℕ) → suc k - suc k ≡ 0
    none_left k = omega arith
