-- ===== src/Net/Receiving.antt =====
-- A stream of bytes through the loop of the receiving thread.
use sanbao_prot.Base.{ℕ, ◌≡◌, refl, sym, ap, ◌∙◌, List, [], ◌∷◌, ◌++◌, Bytes, All}
use sanbao_prot.Frame.Receive.{idle}
use sanbao_prot.Frame.Stream.{IsSealed, wires, deliver, prot_parse-wires}
use sanbao_prot.Frame.{Rx, prot_parse}
use sanbao_prot.Net.{
  Read, got, end_of_stream, read_again, read_failed, ret, Select, readable, timed_out, interrupted,
  select_failed, Conn, parse_conn, tcp_rcv, recv_loop,
}

-- Waiting and reading went well.
abbrev pub GoesOn : Select × Read → Type 0
GoesOn (select_failed, _) = ⊥
GoesOn (readable, end_of_stream) = ⊥
GoesOn (readable, read_failed) = ⊥
GoesOn _ = Unit

-- The bytes that the calls gave, in order.
abbrev pub stream : List (Select × Read) → Bytes
stream [] = []
stream ((readable, got b) ∷ events) = b ++ stream events
stream (_ ∷ events) = stream events

module _ {ℓ} {S : Type ℓ} (on_cmd : S → Bytes → ℕ → S × Bytes) where
  pub prot_parse-append :
      (a b : Bytes) (r : Rx) (s : S)
      → prot_parse on_cmd (a ++ b) r s
        ≡ (let (r', s') = prot_parse on_cmd a r s in prot_parse on_cmd b r' s')
  unfolding prot_parse
  prot_parse-append [] b r s = refl
  prot_parse-append (x ∷ a) b r s = prot_parse-append a b _ _

  parse_conn-append :
      (a b : Bytes) (k : Conn S)
      → parse_conn on_cmd b (parse_conn on_cmd a k) ≡ parse_conn on_cmd (a ++ b) k
  unfolding parse_conn
  parse_conn-append a b k =
      ap (λ (p : Rx × S). record k { rx = p.0; rest = p.1 })
        (sym (prot_parse-append a b k.rx k.rest))

  -- However the network cuts the stream and however often a call is in vain, the loop over `tcp_rcv`
  -- does what parsing the whole stream at once does.
  pub recv_loop-stream :
      (events : List (Select × Read)) (k : Conn S)
      → All GoesOn events
      → recv_loop on_cmd (tcp_rcv on_cmd) events k ≡ (parse_conn on_cmd (stream events) k, ret 0)
  unfolding recv_loop tcp_rcv parse_conn prot_parse
  recv_loop-stream [] k ok = refl
  recv_loop-stream ((select_failed, r) ∷ events) k (bad, ok) = absurd bad
  recv_loop-stream ((timed_out, r) ∷ events) k (_, ok) = recv_loop-stream events k ok
  recv_loop-stream ((interrupted, r) ∷ events) k (_, ok) = recv_loop-stream events k ok
  recv_loop-stream ((readable, got b) ∷ events) k (_, ok) =
      recv_loop-stream events (parse_conn on_cmd b k) ok
      ∙ ap (λ m. (m, ret 0)) (parse_conn-append b (stream events) k)
  recv_loop-stream ((readable, end_of_stream) ∷ events) k (bad, ok) = absurd bad
  recv_loop-stream ((readable, read_again) ∷ events) k (_, ok) = recv_loop-stream events k ok
  recv_loop-stream ((readable, read_failed) ∷ events) k (bad, ok) = absurd bad

  -- When the calls of a connection give the bytes of sealed and escaped frames of at most 65536 bytes,
  -- cut anywhere, the handler gets exactly those frames, in order, and the receiver is idle again.
  pub recv_loop-deliver :
      (events : List (Select × Read)) (bodies : List Bytes) (old : Bytes) (s : S) (closes : ℕ)
      → All GoesOn events
      → All IsSealed bodies
      → stream events ≡ wires bodies
      → let (r', s') = deliver on_cmd bodies old s in
        recv_loop on_cmd
          (tcp_rcv on_cmd)
          events
          (record { rx = idle old; rest = s; closes = closes })
        ≡ (record { rx = r'; rest = s'; closes = closes }, ret 0)
  unfolding parse_conn
  recv_loop-deliver events bodies old s closes ok sealed e =
      recv_loop-stream events (record { rx = idle old; rest = s; closes = closes }) ok
      ∙ ap (λ (p : Rx × S). (record { rx = p.0; rest = p.1; closes = closes }, ret 0))
          (ap (λ w. prot_parse on_cmd w (idle old) s) e
            ∙ prot_parse-wires on_cmd bodies old s sealed)
