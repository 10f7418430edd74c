-- ===== src/Send.antt =====
-- `message_queue_send` of process.cpp: a message is numbered, sealed, escaped and queued.
pub mod Laws
use sanbao_prot.Base.{
  ℕ, ◌+◌, ◌%◌, Bool, true, false, List, [], ◌∷◌, ◌++◌, some, Bytes, length, set, ◌==◌, ◌||◌,
  if◌then◌else◌,
}
use sanbao_prot.Frame.{calc_sum, escaple_msg}
use sanbao_prot.Prot.{Device, id_of, prot_magic, vendor_id, header_size, be16}
use sanbao_prot.Prot.Cmd
use sanbao_prot.Queue.{
  Node, InfoForStore, AckStatus, ack_ready, ack_waiting, SendStatus, ptr_queue_push,
}
use sanbao_prot.Serial.{Serial, get_next_send_num, get_recv_num, do_serial_num}

-- What a send works on: the serial numbers, the static `s_index`, the queue `g_send_q_p`, and the
-- posts of the semaphore `send_data`.
pub record Sender : Type 0 where
  pub serial : Serial
  pub s_index : ℕ
  pub send_q : List Node
  pub send_data : ℕ

-- Whether the two `malloc`s of a push succeed.
pub record Memory : Type 0 where
  pub header : Bool
  pub buffer : Bool

-- `MasterIsMe`: the commands that the device sends as master.
unfoldable pub master_is_me : ℕ → Bool
master_is_me c = c == Cmd.warning_report || c == Cmd.upload_mm_data || c == Cmd.upload_status

-- The `switch` gives every other command, listed or not, `MSG_ACK_READY`.
pub ack_status_of : ℕ → AckStatus
unfolding master_is_me
ack_status_of c = if master_is_me c then ack_waiting else ack_ready

-- The message with 0 in the place of its checksum.
unfoldable pub unsealed : Device → ℕ → ℕ → Bytes → Bytes
unfolding be16
unsealed dev c serial_num payload =
    prot_magic
    ∷ 0
    ∷ (be16 serial_num ++ (be16 vendor_id ++ (id_of dev ∷ c ∷ (payload ++ prot_magic ∷ []))))

-- The fields of the local `msg` that the function does not set; nothing reads them.
abbrev pub blank_mm : InfoForStore
blank_mm = record {
  get_another_camera_video = 0;
  warn_type = 0;
  photo_enable = 0;
  sound_enable = 0;
  video_enable = 0;
  video_time = 0;
  photo_time_period = 0;
  photo_num = 0;
  photo_id = [];
  video_id = [];
}

unfoldable pub serial_for : ℕ → Serial → Serial × ℕ
unfolding master_is_me
serial_for c s =
    if master_is_me c then do_serial_num get_next_send_num 0 s else do_serial_num get_recv_num 0 s

-- `escaple_msg` of the message with its checksum at offset 1.
unfoldable pub seal : Bytes → ℕ → Bytes × ℕ
seal msg msg_len = escaple_msg (set msg 1 (calc_sum msg msg_len)) msg_len

-- The new state, and what the memory at `pHeader` holds: the escaped message.
unfoldable pub message_queue_send : Device → ℕ → Bytes → Memory → Sender → Sender × Bytes
unfolding serial_for seal ack_status_of
message_queue_send dev c payload mem s =
    let msg_len = header_size + 1 + length payload in
    let (serial', serial_num) = serial_for c s.serial in
    let (frame, len) = seal (unsealed dev c serial_num payload) msg_len in
    let node : Node = record {
      pkg = record {
        cmd = c;
        index = s.s_index % 0xFF;
        ack_status = ack_status_of c;
        send_repeat = 0;
      };
      mm = blank_mm;
      len = len;
      buf = some frame;
    } in
    (
      record {
        serial = serial';
        s_index = (s.s_index + 1) % 256;
        send_q = (ptr_queue_push s.send_q node mem.header mem.buffer).0;
        send_data = s.send_data + 1;
      },
      frame,
    )
