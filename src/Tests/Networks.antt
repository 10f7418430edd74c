-- ===== src/Tests/Networks.antt =====
-- Calls of the system.
use sanbao_prot.Base.{◌≡◌, refl, true, some, inl, inr, List, [], ◌∷◌, ◌++◌, Bytes, arith}
use sanbao_prot.Frame.Receive.{overlay, idle, holding}
use sanbao_prot.Frame.Resync.{prot_parse_resync}
use sanbao_prot.Frame.Stream.{message, wire, deliver}
use sanbao_prot.Frame.{prot_parse}
use sanbao_prot.Net.Line.Asked.{no_parity, letter, line_of, set_opt-line_of}
use sanbao_prot.Net.Line.{Termios, set_opt}
use sanbao_prot.Net.Receiving.{recv_loop-deliver}
use sanbao_prot.Net.Sending.{tcp_snd-whole}
use sanbao_prot.Net.{
  wrote, write_again, Read, got, read_again, ret, Select, readable, timed_out, tcp_rcv, recv_loop,
  tcp_snd,
}
use sanbao_prot.Prot.{prot_magic}
use sanbao_prot.Tests.Frames.{count, body, body-IsSealed, damaged, damaged-IsDamaged}

abbrev three : Bytes
three = 5 ∷ 6 ∷ 7 ∷ []

tcp_snd-whole_example :
    tcp_snd true (wrote 1 ∷ write_again ∷ wrote 9 ∷ []) three
    ≡ record { wire = three; code = ret 0 }
tcp_snd-whole_example =
    tcp_snd-whole (wrote 1 ∷ write_again ∷ wrote 9 ∷ []) three
      (omega arith, (tt, (omega arith, tt))) (omega arith)

-- A frame in one piece, behind a wait that timed out and a call to be tried again.
abbrev arrivals : List (Select × Read)
arrivals = (timed_out, read_again) ∷ (readable, read_again) ∷ (readable, got (wire body)) ∷ []

recv_loop-deliver_example :
    let (r', s') = deliver count (body ∷ []) [] 0 in
    recv_loop count (tcp_rcv count) arrivals (record { rx = idle []; rest = 0; closes = 0 })
    ≡ (record { rx = r'; rest = s'; closes = 0 }, ret 0)
recv_loop-deliver_example =
    recv_loop-deliver count arrivals (body ∷ []) [] 0 0 (tt, (tt, (tt, tt))) (body-IsSealed, tt)
      refl

prot_parse_resync_example :
    prot_parse count (wire body ++ (wire body ++ [])) (holding (prot_magic ∷ damaged) []) 0
    ≡ prot_parse count (wire body ++ []) (idle (overlay (message damaged) [])) 0
prot_parse_resync_example = prot_parse_resync count damaged body body [] [] 0 damaged-IsDamaged

set_opt-line_of_example :
    (t : Termios) × (set_opt true 115200 8 (letter true no_parity) 1 ≡ some t)
    × (line_of t ≡ record { speed = 115200; bits = 8; parity = no_parity; stops = 1 })
    × (t.cread ≡ true)
    × (t.inpck ≡ t.parenb)
set_opt-line_of_example = set_opt-line_of 115200 8 1 true no_parity refl (inr refl) (inl refl)
