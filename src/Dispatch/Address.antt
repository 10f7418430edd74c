-- ===== src/Dispatch/Address.antt =====
-- Frames for other devices, and the requests that are answered at once.
use sanbao_prot.App.{App, send, send_in_place}
use sanbao_prot.Base.{
  ℕ, ◌≤◌, ◌<◌, ◌≡◌, ◌≢◌, refl, sym, ap, ◌∙◌, subst, true, List, [], ◌∷◌, ◌++◌, Bytes, length,
  get_or, drop, All, length-append, get_or-append_le, eqb_ne, eqb_refl, false, arith,
}
use sanbao_prot.Dispatch.{dev_info, run_cmd, record_serial, sample_on_cmd}
use sanbao_prot.Frame.Receive.{overlay, idle}
use sanbao_prot.Frame.Stream.{message, IsSealed, wire, wires, deliver, prot_parse-wires}
use sanbao_prot.Frame.{prot_parse}
use sanbao_prot.Prot.Cmd
use sanbao_prot.Prot.{Device, id_of, id_brdcst, read_be16}
use sanbao_prot.Queue.Laws.{Holds}
use sanbao_prot.Send.Laws.{packet, payload_max, message_queue_send-Holds}
use sanbao_prot.Send.{serial_for, master_is_me}
use sanbao_prot.Serial.{Serial, record_recv_num, do_serial_num}
use sanbao_prot.Setting.{module_status, reply_work_status}
use sanbao_prot.Warn.Message.{WarnFrame}

-- A frame that names neither this device nor all of them.
abbrev pub IsForeign : Device → Bytes → Type 0
IsForeign dev body =
    (get_or (message body) 6 0 ≢ id_of dev) × (get_or (message body) 6 0 ≢ id_brdcst)

sample_on_cmd-foreign :
    (f : WarnFrame) (a : App) (body old : Bytes) (len : ℕ)
    → IsSealed body
    → IsForeign a.dev body
    → sample_on_cmd f a (overlay (message body) old) len ≡ (a, overlay (message body) old)
unfolding sample_on_cmd
sample_on_cmd-foreign f a body old len sealed (other, one) =
    let size = length-append body (0x7E ∷ []) in
    let id =
      get_or-append_le (message body) (drop (length (message body)) old) 6 0
        (omega (arith, sealed.long, size)) in
    rw (id, eqb_ne _ _ other, eqb_ne _ _ one) refl

deliver-foreign :
    (f : WarnFrame) (a : App) (bodies : List Bytes) (old : Bytes)
    → All IsSealed bodies
    → All (IsForeign a.dev) bodies
    → (deliver (sample_on_cmd f) bodies old a).1 ≡ a
unfolding deliver
deliver-foreign f a [] old sealed foreign = refl
deliver-foreign f a (body ∷ bodies) old (s, sealed) (o, foreign) =
    subst (λ (p : App × Bytes). (deliver (sample_on_cmd f) bodies p.1 p.0).1 ≡ a)
      (sym (sample_on_cmd-foreign f a body old (length (message body)) s o))
      (deliver-foreign f a bodies (overlay (message body) old) sealed foreign)

-- The bytes of any number of good frames for other devices, of at most 65536 bytes each, change
-- nothing in the state that the handlers share.
pub prot_parse-foreign :
    (f : WarnFrame) (a : App) (bodies : List Bytes) (old : Bytes)
    → All IsSealed bodies
    → All (IsForeign a.dev) bodies
    → (prot_parse (sample_on_cmd f) (wires bodies) (idle old) a).1 ≡ a
prot_parse-foreign f a bodies old sealed foreign =
    ap (λ p. p.1) (prot_parse-wires (sample_on_cmd f) bodies old a sealed)
    ∙ deliver-foreign f a bodies old sealed foreign

-- The requests that are answered at once, with the payload of the answer.
pub data Answer (len : ℕ) : ℕ → Bytes → Type 0 where
  query : Answer len Cmd.query []
  device_info : Answer len Cmd.device_info dev_info
  req_status : len ≡ 9 → Answer len Cmd.req_status module_status

record_serial-recv :
    (n : ℕ) (s : Serial) → (do_serial_num record_recv_num n s).0.recv_serial_num ≡ n
unfolding do_serial_num
record_serial-recv n s = ground arith

abbrev Queues : App → App → List Bytes → Bytes → Type 0
Queues a b w frame = Holds b.sender.send_q (w ++ frame ∷ [])

send-Holds :
    (a : App) (msg : Bytes) (c : ℕ) (payload : Bytes) {w : List Bytes}
    → a.mem ≡ record { header = true; buffer = true }
    → Holds a.sender.send_q w
    → length w < 16
    → length payload ≤ payload_max
    → (serial_for c (record_serial msg a).sender.serial).1 ≡ read_be16 msg 2
    → Holds
        (send c payload (record_serial msg a)).sender.send_q
        (w ++ wire (packet a.dev c (read_be16 msg 2) payload) ∷ [])
unfolding send record_serial
send-Holds a msg c payload {w} mem h room fits num =
    let s = (record_serial msg a).sender in
    let (queued, _, _) = message_queue_send-Holds a.dev c payload s h room fits in
    rw mem (rw num at queued)

pub sample_on_cmd-mine :
    (f : WarnFrame) (a : App) (msg : Bytes) (len : ℕ)
    → get_or msg 6 0 ≡ id_of a.dev
    → sample_on_cmd f a msg len ≡ run_cmd f (get_or msg 7 0) msg len (record_serial msg a)
unfolding sample_on_cmd
sample_on_cmd-mine f a msg len id = rw (id, eqb_refl (id_of a.dev)) refl

pub serial_for-recv :
    (msg : Bytes) (a : App) (c : ℕ)
    → master_is_me c ≡ false
    → (serial_for c (record_serial msg a).sender.serial).1 ≡ read_be16 msg 2
unfolding serial_for record_serial do_serial_num
serial_for-recv msg a c reply = rw reply (record_serial-recv (read_be16 msg 2) a.sender.serial)

run_cmd-Answer :
    (f : WarnFrame) (a : App) (msg : Bytes) (len : ℕ) {c : ℕ} {payload : Bytes}
    → Answer len c payload
    → ((run_cmd f c msg len a).0.sender ≡ (send c payload a).sender)
      × (length payload ≤ payload_max)
      × (master_is_me c ≡ false)
unfolding run_cmd send_in_place send reply_work_status master_is_me
run_cmd-Answer f a msg len query = (refl, omega arith, refl)
run_cmd-Answer f a msg len device_info = (refl, omega arith, refl)
run_cmd-Answer f a msg len (req_status e) = (rw e refl, omega arith, refl)

-- When there is memory and room in the queue, a query, a request for the device's data, or a
-- status request of 9 bytes, sent to this device, queues one frame behind those that wait: its
-- answer, under the serial number of the request.
pub sample_on_cmd-Answer :
    (f : WarnFrame) (a : App) (msg : Bytes) (len : ℕ) {c : ℕ} {payload : Bytes} {w : List Bytes}
    → a.mem ≡ record { header = true; buffer = true }
    → Holds a.sender.send_q w
    → length w < 16
    → get_or msg 6 0 ≡ id_of a.dev
    → get_or msg 7 0 ≡ c
    → Answer len c payload
    → Holds
        (sample_on_cmd f a msg len).0.sender.send_q
        (w ++ wire (packet a.dev c (read_be16 msg 2) payload) ∷ [])
sample_on_cmd-Answer f a msg len {c} {payload} {w} mem h room id cmd answer =
    let (same, fits, reply) = run_cmd-Answer f (record_serial msg a) msg len answer in
    let queued = send-Holds a msg c payload mem h room fits (serial_for-recv msg a c reply) in
    rw (sample_on_cmd-mine f a msg len id, cmd, same) queued
