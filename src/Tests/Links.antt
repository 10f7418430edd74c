-- ===== src/Tests/Links.antt =====
-- The connection and its threads.
use sanbao_prot.Base.{
  ℕ, zero, suc, ◌≤◌, ◌<◌, ◌≡◌, refl, true, false, List, [], ◌∷◌, ◌++◌, some, Bytes, replicate,
  arith,
}
use sanbao_prot.Link.Heart.{Round, rounds, closed, Checked, check_heart_beat-closes}
use sanbao_prot.Link.Package.Deliver.{
  Ready, send_round-acked, send_round-bounded, send_round-late_ack, send_round-Silent_frees,
}
use sanbao_prot.Link.Package.Laws.{Silent, here, later}
use sanbao_prot.Link.Package.{Attempt, send_round}
use sanbao_prot.Link.{Link, HeartCheck}
use sanbao_prot.Prot.{read_be16, read_be32}
use sanbao_prot.Queue.{ptr_queue_pop}
use sanbao_prot.Tests.Sample.{config, waiting_node, link}
use sanbao_prot.Transfer.Run.{Uploading}
use sanbao_prot.Transfer.{send_mm_req_ack}

abbrev msg : Bytes
msg = 1 ∷ 2 ∷ []

ready : Ready msg waiting_node [] link
ready = record {
  connected = refl;
  posted = omega arith;
  front = refl;
  carries = record { content = refl; len_is = refl; fits = omega arith };
  unsent = refl;
  waits = refl;
}

-- Woken up once for nothing, and then the deadline.
abbrev quiet : Attempt
quiet = record { others = λ a. a; wakes = record { rc = 0; others = λ a. a } ∷ [] }

quiet-Silent : Silent quiet
quiet-Silent = record { before = λ a h. h; during = (λ a h. h, tt) }

-- The acknowledgement comes during the wait.
abbrev answered : Attempt
answered = record {
  others = λ a. a;
  wakes = record { rc = 0; others = λ a. record a { recv_ack = true } } ∷ [];
}

abbrev second : ℕ → Attempt
second zero = quiet
second (suc i) = answered

second-Silent : (i : ℕ) → i < 1 → Silent (second i)
second-Silent zero h = quiet-Silent
second-Silent (suc i) h = absurd (omega arith)

send_round-acked_example :
    let m = send_round [] second link in (m.sent ≡ replicate 2 msg ++ []) × (m.app.recv_ack ≡ false)
send_round-acked_example =
    send_round-acked 1 [] msg waiting_node [] second link ready (omega arith) refl second-Silent
      (λ a h. later refl (here refl))

send_round-bounded_example :
    (k : ℕ) × (k ≤ 3) × ((send_round [] second link).sent ≡ replicate k msg ++ [])
send_round-bounded_example = send_round-bounded [] msg waiting_node [] second link ready

-- An acknowledgement was noticed before.
abbrev late : Link
late = record link { app = record link.app { recv_ack = true } }

late-Ready : Ready msg waiting_node [] late
late-Ready = record {
  connected = refl;
  posted = omega arith;
  front = refl;
  carries = record { content = refl; len_is = refl; fits = omega arith };
  unsent = refl;
  waits = refl;
}

send_round-late_ack_example :
    let m = send_round [] (λ i. quiet) late in (m.sent ≡ msg ∷ []) × (m.app.recv_ack ≡ false)
send_round-late_ack_example =
    send_round-late_ack [] msg waiting_node [] (λ i. quiet) late late-Ready refl (λ a h. h)

-- A request for the file with the id 5.
abbrev req : Bytes
req = 0x7E ∷ 0 ∷ 0 ∷ 1 ∷ 0 ∷ 0 ∷ 0x64 ∷ 0x50 ∷ 0 ∷ 0 ∷ 0 ∷ 0 ∷ 5 ∷ 0x7E ∷ []

abbrev behind : Link
behind = send_round [] (λ i. quiet) link

memory_left : behind.app.image_memory ≡ true
unfolding send_round ptr_queue_pop
memory_left = refl

file_there : behind.app.disk (read_be32 req 9) ≡ some (1 ∷ 2 ∷ [])
unfolding send_round read_be32 ptr_queue_pop read_be16
file_there = refl

send_round-Silent_frees_example :
    let b = (send_mm_req_ack req 14 behind.app).0 in
    (behind.sent ≡ replicate 3 msg ++ [])
    × Uploading (1 ∷ 2 ∷ []) b
    × (b.pkg.packet_index ≡ 1)
    × (b.pkg.mm_data_trans_waiting ≡ true)
send_round-Silent_frees_example =
    send_round-Silent_frees [] msg (1 ∷ 2 ∷ []) req waiting_node [] (λ i. quiet) link ready refl
      (λ i. quiet-Silent) refl memory_left file_there (omega arith) (omega arith)

checked : Checked config link
checked = record { use_heart = refl; connected = refl; no_beat = refl }

abbrev no_data : ℕ → Round
no_data now = record { now = now; beat = false }

abbrev fresh : HeartCheck
fresh = record { s_record_last = 0; count = 0 }

abbrev first_two : List Round
first_two = no_data 1 ∷ no_data 5 ∷ []

check_heart_beat-closes_example :
    (rounds config first_two fresh link ≡ (record { s_record_last = 5; count = 2 }, link))
    × (rounds config (first_two ++ no_data 6 ∷ []) fresh link
        ≡ (record { s_record_last = 6; count = 0 }, closed link))
check_heart_beat-closes_example =
    check_heart_beat-closes config first_two (no_data 6) fresh link checked
      (omega arith, (omega arith, (omega arith, tt))) (refl, (refl, (refl, tt))) refl (omega arith)
