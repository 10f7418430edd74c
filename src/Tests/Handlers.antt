-- ===== src/Tests/Handlers.antt =====
-- The handlers of frames.
use sanbao_prot.App.{App, send}
use sanbao_prot.Base.{
  ℕ, ◌+◌, ◌-◌, ◌/◌, ◌%◌, ◌≡◌, ◌≢◌, refl, true, [], ◌∷◌, ◌++◌, Bytes, replicate, inr, arith,
}
use sanbao_prot.Dispatch.Address.{IsForeign, prot_parse-foreign, query, sample_on_cmd-Answer}
use sanbao_prot.Dispatch.Reset.{IsSpecial, reset, sample_on_cmd-reset, sample_on_cmd-reset_lost}
use sanbao_prot.Dispatch.{record_serial, sample_on_cmd}
use sanbao_prot.Frame.Receive.{idle}
use sanbao_prot.Frame.Stream.{IsSealed, wire, wires}
use sanbao_prot.Frame.{prot_parse}
use sanbao_prot.Prot.Cmd
use sanbao_prot.Prot.{adas, dms, be16, read_be16}
use sanbao_prot.Queue.Laws.{Holds, nil}
use sanbao_prot.Send.Laws.{packet, packet-IsSealed}
use sanbao_prot.Tests.Sample.{app_of, frame, upgrade}
use sanbao_prot.Transfer.Run.{
  Uploading, sent_all, finished, receive, recv_ack_and_send_image_complete,
}
use sanbao_prot.Transfer.{packets}
use sanbao_prot.Upgrade.Install.{upload-installs}
use sanbao_prot.Upgrade.Sums.{upload, verdict, upload_again}
use sanbao_prot.Upgrade.{get_sum}

abbrev app : App
app = app_of adas

-- A query for the DMS device, on the wire.
abbrev other : Bytes
other = packet dms Cmd.query 9 []

other-IsSealed : IsSealed other
other-IsSealed = packet-IsSealed dms Cmd.query 9 [] (omega arith)

other-IsForeign : IsForeign adas other
unfolding packet be16
other-IsForeign = ((λ e. omega (arith, e)), (λ e. omega (arith, e)))

prot_parse-foreign_example :
    (prot_parse (sample_on_cmd frame) (wires (other ∷ [])) (idle []) app).1 ≡ app
prot_parse-foreign_example =
    prot_parse-foreign frame app (other ∷ []) [] (other-IsSealed, tt) (other-IsForeign, tt)

-- A message for the ADAS device with this serial number and command.
abbrev request : ℕ → ℕ → Bytes
request n c = 0x7E ∷ 0 ∷ 0 ∷ n ∷ 0x12 ∷ 0x34 ∷ 0x64 ∷ c ∷ 0x7E ∷ []

sample_on_cmd-Answer_example :
    Holds
      (sample_on_cmd frame app (request 9 Cmd.query) 9).0.sender.send_q
      ([] ++ wire (packet adas Cmd.query (read_be16 (request 9 Cmd.query) 2) []) ∷ [])
sample_on_cmd-Answer_example =
    sample_on_cmd-Answer frame app (request 9 Cmd.query) 9 refl nil (omega arith) refl refl query

plain_hi : ¬ IsSpecial (read_be16 (request 9 Cmd.factory_reset) 2 / 256 % 256)
unfolding read_be16
plain_hi = λ special. omega (arith, special)

plain_lo : ¬ IsSpecial (read_be16 (request 9 Cmd.factory_reset) 2 % 256)
unfolding read_be16
plain_lo = λ special. omega (arith, special)

sample_on_cmd-reset_example :
    (sample_on_cmd frame app (request 9 Cmd.factory_reset) 9).0.paras ≡ reset adas app.paras
sample_on_cmd-reset_example =
    sample_on_cmd-reset frame app (request 9 Cmd.factory_reset) 9 refl refl plain_hi plain_lo

lo-IsSpecial : IsSpecial (read_be16 (request 0x7D Cmd.factory_reset) 2 % 256)
unfolding read_be16
lo-IsSpecial = inr refl

sample_on_cmd-reset_lost_example :
    (sample_on_cmd frame app (request 0x7D Cmd.factory_reset) 9).0
    ≡ send Cmd.factory_reset [] (record_serial (request 0x7D Cmd.factory_reset) app)
sample_on_cmd-reset_lost_example =
    sample_on_cmd-reset_lost frame app (request 0x7D Cmd.factory_reset) 9 refl refl
      (inr lo-IsSpecial)

abbrev photo : Bytes
photo = 1 ∷ 2 ∷ []

-- The only packet of the file has been sent.
abbrev uploading : App
uploading = record app {
  pkg = record {
    mm_type = 0;
    mm_id = 5;
    packet_total_num = 1;
    packet_index = 1;
    mm_data_trans_waiting = true;
  };
}

one_packet : packets photo ≡ 1
unfolding packets
one_packet = refl

uploading-Uploading : Uploading photo uploading
uploading-Uploading = record { file = refl; memory = refl; total = omega (arith, one_packet) }

-- The acknowledgement of packet 0.
abbrev ack : Bytes
ack = replicate 18 0

ack_index : packets photo ≡ read_be16 ack 15 + 1
unfolding packets read_be16
ack_index = refl

recv_ack_and_send_image_complete_example :
    receive ([] ++ ack ∷ []) uploading ≡ finished (sent_all 0 photo uploading)
recv_ack_and_send_image_complete_example =
    recv_ack_and_send_image_complete photo [] ack uploading uploading-Uploading tt (refl, ack_index)
      (omega (arith, one_packet))

upload-installs_example :
    let done = verdict (get_sum (1 ∷ 2 ∷ 3 ∷ [])) 6 in
    let (r, result) = upload 6 ((1 ∷ 2 ∷ []) ∷ []) (3 ∷ []) upgrade in
    (r.content ≡ 1 ∷ 2 ∷ 3 ∷ []) × (r.runs ≡ 0 + done) × (result ≡ 1 - done)
upload-installs_example =
    upload-installs 6 ((1 ∷ 2 ∷ []) ∷ []) (3 ∷ []) upgrade refl refl refl (omega arith)

some_sum : get_sum (1 ∷ 2 ∷ 3 ∷ []) ≢ 0
unfolding get_sum
some_sum = λ e. omega (arith, e)

upload_again_example :
    let r = (upload 6 ((1 ∷ 2 ∷ []) ∷ []) (3 ∷ []) upgrade).0 in
    let (r', result) = upload (get_sum (5 ∷ 6 ∷ [])) ((5 ∷ []) ∷ []) (6 ∷ []) r in
    (r'.runs ≡ r.runs) × (result ≡ 1)
upload_again_example =
    upload_again 6 ((1 ∷ 2 ∷ []) ∷ []) ((5 ∷ []) ∷ []) (3 ∷ []) (6 ∷ []) upgrade refl some_sum
