-- ===== src/Tests/Frames.antt =====
-- Frames through the receiver.
use sanbao_prot.Base.{
  ℕ, zero, suc, ◌+◌, ◌<◌, ◌≡◌, [], ◌∷◌, ◌++◌, Bytes, length, replicate, All, length-replicate,
  arith,
}
use sanbao_prot.Frame.Bounds.{IsPlain, prot_parse_overflow}
use sanbao_prot.Frame.Escape.{escape_bytes, escaple_msg_lem}
use sanbao_prot.Frame.Noise.{IsDamaged}
use sanbao_prot.Frame.Receive.{idle}
use sanbao_prot.Frame.Stream.{IsSealed, wires, deliver, prot_parse-wires}
use sanbao_prot.Frame.{calc_sum, sum_loop, escaple_msg, prot_parse}
use sanbao_prot.Prot.Cmd
use sanbao_prot.Prot.{adas, prot_magic, data_buf_size}
use sanbao_prot.Send.{message_queue_send, serial_for}
use sanbao_prot.Send.Laws.{packet, packet-IsSealed, message_queue_send-received}
use sanbao_prot.Tests.Sample.{memory, sender}

-- A handler that counts.
abbrev pub count : ℕ → Bytes → ℕ → ℕ × Bytes
count s msg len = (s + 1, msg)

abbrev pub body : Bytes
body = packet adas Cmd.query 0x7E7D []

pub body-IsSealed : IsSealed body
body-IsSealed = packet-IsSealed adas Cmd.query 0x7E7D [] (omega arith)

prot_parse-wires_example :
    prot_parse count (wires (body ∷ body ∷ [])) (idle []) 0 ≡ deliver count (body ∷ body ∷ []) [] 0
prot_parse-wires_example =
    prot_parse-wires count (body ∷ body ∷ []) [] 0 (body-IsSealed, (body-IsSealed, tt))

abbrev pub damaged : Bytes
damaged = 1 ∷ 0 ∷ 0 ∷ 0 ∷ 0 ∷ 0 ∷ []

pub damaged-IsDamaged : IsDamaged damaged
unfolding calc_sum sum_loop
damaged-IsDamaged = record { long = omega arith; short = omega arith; sum = λ e. omega (arith, e) }

escaple_msg_lem_example : escaple_msg (0x7E ∷ (0x7D ∷ 5 ∷ 0x7E ∷ 0x7E ∷ [])) 5 ≡ (
  0x7E ∷ (escape_bytes (0x7D ∷ 5 ∷ 0x7E ∷ []) ++ 0x7E ∷ []),
  length (escape_bytes (0x7D ∷ 5 ∷ 0x7E ∷ [])) + 2,
)
escaple_msg_lem_example = escaple_msg_lem 0x7E (0x7D ∷ 5 ∷ 0x7E ∷ []) 0x7E

filler : ℕ → Bytes
filler n = replicate n 0

length-filler : (n : ℕ) → length (filler n) ≡ n
unfolding filler
length-filler n = length-replicate n 0

zeros-IsPlain : (n : ℕ) → All IsPlain (replicate n 0)
zeros-IsPlain zero = tt
zeros-IsPlain (suc n) = (((λ e. omega (arith, e)), (λ e. omega (arith, e))), zeros-IsPlain n)

filler-IsPlain : (n : ℕ) → All IsPlain (filler n)
unfolding filler
filler-IsPlain n = zeros-IsPlain n

prot_parse_overflow_example :
    data_buf_size < length (prot_parse count (prot_magic ∷ filler 65536) (idle []) 0).0.msg
prot_parse_overflow_example =
    prot_parse_overflow count (filler 65536) [] 0 (filler-IsPlain 65536)
      (omega (arith, length-filler 65536)) (omega (arith, length-filler 65536))

message_queue_send-received_example :
    prot_parse count (message_queue_send adas Cmd.query (0x7E ∷ []) memory sender).1 (idle []) 0
    ≡ deliver count
        (packet adas Cmd.query (serial_for Cmd.query sender.serial).1 (0x7E ∷ []) ∷ [])
        []
        0
message_queue_send-received_example =
    message_queue_send-received count adas Cmd.query (0x7E ∷ []) memory sender [] 0 (omega arith)
