-- ===== src/Send/Laws.antt =====
-- What is queued is a sealed frame, and any receiver of frames reads it back.
use sanbao_prot.Base.{
  ℕ, ◌+◌, ◌*◌, ◌≤◌, ◌<◌, ◌≡◌, refl, sym, ap, ◌∙◌, true, List, [], ◌∷◌, ◌++◌, append-nil, Bytes,
  length, set, length-append, arith,
}
use sanbao_prot.Frame.Escape.{escaple_msg_lem, escape_bytes, length-escape_bytes}
use sanbao_prot.Frame.Receive.{idle}
use sanbao_prot.Frame.Stream.{IsSealed, message, wire, wire-eq, deliver, prot_parse-wires}
use sanbao_prot.Frame.{calc_sum, escaple_msg, prot_parse}
use sanbao_prot.Prot.{data_buf_size, Device, id_of, prot_magic, vendor_id, be16, ptr_queue_buf_size}
use sanbao_prot.Queue.Laws.{Holds, ptr_queue_push_room}
use sanbao_prot.Send.{Sender, Memory, message_queue_send, unsealed, serial_for, seal}

-- The largest payload whose frame fits a queue buffer also when every byte is escaped.
abbrev pub payload_max : ℕ
payload_max = 65592

-- The bytes between head and tail: checksum, serial number, vendor, device, command, payload.
unfoldable pub packet : Device → ℕ → ℕ → Bytes → Bytes
packet dev c serial_num payload =
    calc_sum (unsealed dev c serial_num payload) (length payload + 9)
    ∷ (be16 serial_num ++ (be16 vendor_id ++ (id_of dev ∷ c ∷ payload)))

unsealed-packet :
    (dev : Device) (c n : ℕ) (payload : Bytes)
    → set (unsealed dev c n payload) 1 (calc_sum (unsealed dev c n payload) (length payload + 9))
      ≡ message (packet dev c n payload)
unfolding packet unsealed
unsealed-packet dev c n payload = refl

pub packet-IsSealed :
    (dev : Device) (c n : ℕ) (payload : Bytes)
    → length payload + 9 ≤ data_buf_size
    → IsSealed (packet dev c n payload)
unfolding packet unsealed calc_sum be16
packet-IsSealed dev c n payload h = record {
  long = omega arith;
  short = omega arith;
  sum =
      let size : length (message (packet dev c n payload)) ≡ length payload + 9 =
        omega (arith, length-append payload (prot_magic ∷ [])) in
      rw size;
}

length-packet :
    (dev : Device) (c n : ℕ) (payload : Bytes)
    → length (packet dev c n payload) ≡ length payload + 7
unfolding packet be16
length-packet dev c n payload = omega arith

wire_pair :
    (body : Bytes) → escaple_msg (message body) (length body + 2) ≡ (wire body, length (wire body))
wire_pair body =
    let w = prot_magic ∷ (escape_bytes body ++ prot_magic ∷ []) in
    let size : length (escape_bytes body) + 2 ≡ length w =
      omega (arith, length-append (escape_bytes body) (prot_magic ∷ [])) in
    escaple_msg_lem prot_magic body prot_magic
    ∙ ap (λ n. (w, n)) size
    ∙ ap (λ (v : Bytes). (v, length v)) (sym (wire-eq body))

length-wire : (body : Bytes) → length (wire body) ≤ 2 * length body + 2
length-wire body = omega (
  arith,
  ap length (wire-eq body),
  length-append (escape_bytes body) (prot_magic ∷ []),
  length-escape_bytes body,
)

-- The frame that a send makes.
abbrev pub frame_of : Device → ℕ → Bytes → Sender → Bytes
frame_of dev c payload s = wire (packet dev c (serial_for c s.serial).1 payload)

seal-packet :
    (dev : Device) (c n : ℕ) (payload : Bytes)
    → seal (unsealed dev c n payload) (9 + length payload)
      ≡ (wire (packet dev c n payload), length (wire (packet dev c n payload)))
unfolding seal
seal-packet dev c n payload =
    let body = packet dev c n payload in
    let size : 9 + length payload ≡ length body + 2 =
      omega (arith, length-packet dev c n payload) in
    let size' : 9 + length payload ≡ length payload + 9 = omega arith in
    let sealed : seal (unsealed dev c n payload) (9 + length payload)
        ≡ escaple_msg (message body) (9 + length payload) =
      rw size' (ap (λ m. escaple_msg m (length payload + 9)) (unsealed-packet dev c n payload)) in
    sealed ∙ ap (escaple_msg (message body)) size ∙ wire_pair body

-- What a send leaves in its buffer.
pub message_queue_send-frame :
    (dev : Device) (c : ℕ) (payload : Bytes) (mem : Memory) (s : Sender)
    → (message_queue_send dev c payload mem s).1 ≡ frame_of dev c payload s
unfolding message_queue_send
message_queue_send-frame dev c payload mem s =
    ap (λ (p : Bytes × ℕ). p.0) (seal-packet dev c (serial_for c s.serial).1 payload)

-- With memory, fewer than 16 messages waiting and a payload of at most 65592 bytes, a send queues
-- one frame behind those that wait, leaves the same frame in its buffer and posts the semaphore.
pub message_queue_send-Holds :
    (dev : Device) (c : ℕ) (payload : Bytes) (s : Sender) {w : List Bytes}
    → Holds s.send_q w
    → length w < 16
    → length payload ≤ payload_max
    → let (s', frame) =
        message_queue_send dev c payload (record { header = true; buffer = true }) s in
      Holds s'.send_q (w ++ frame_of dev c payload s ∷ [])
      × (frame ≡ frame_of dev c payload s)
      × (s'.send_data ≡ s.send_data + 1)
unfolding message_queue_send
message_queue_send-Holds dev c payload s {w} h room fits =
    let n = (serial_for c s.serial).1 in
    let body = packet dev c n payload in
    let small : length (wire body) ≤ ptr_queue_buf_size =
      omega (arith, length-wire body, length-packet dev c n payload) in
    rw (seal-packet dev c n payload) (
      ptr_queue_push_room _ (wire body) h room
          (record { content = refl; len_is = refl; fits = small }),
      refl,
      refl,
    )

-- What a send of a frame of at most 65536 bytes leaves in its buffer is read back by an idle receiver as one
-- message with that payload, and reaches its handler.
pub message_queue_send-received {ℓ} :
    {S : Type ℓ} (on_cmd : S → Bytes → ℕ → S × Bytes) (dev : Device) (c : ℕ) (payload : Bytes)
    (mem : Memory) (s : Sender) (old : Bytes) (t : S)
    → length payload + 9 ≤ data_buf_size
    → prot_parse on_cmd (message_queue_send dev c payload mem s).1 (idle old) t
      ≡ deliver on_cmd (packet dev c (serial_for c s.serial).1 payload ∷ []) old t
unfolding message_queue_send
message_queue_send-received on_cmd dev c payload mem s old t fits =
    let body = packet dev c (serial_for c s.serial).1 payload in
    ap (λ (p : Bytes × ℕ). prot_parse on_cmd p.0 (idle old) t)
      (seal-packet dev c (serial_for c s.serial).1 payload)
    ∙ ap (λ w. prot_parse on_cmd w (idle old) t) (sym (append-nil (wire body)))
    ∙ prot_parse-wires on_cmd (body ∷ []) old t (packet-IsSealed dev c _ payload fits, tt)
