-- ===== src/Transfer/Run.antt =====
-- A transfer from its request to its last acknowledgement.
use sanbao_prot.App.{App, send, send_in_place, notice_ack_msg}
use sanbao_prot.Base.{
  ℕ, zero, suc, ◌+◌, ◌^◌, ◌≤◌, ◌<◌, ◌≡◌, refl, ap, ◌∙◌, true, false, List, [], ◌∷◌, ◌++◌, some,
  Bytes, length, get_or, arith, lt→ltb,
}
use sanbao_prot.Prot.Cmd
use sanbao_prot.Prot.{image_size_per_packet, read_be16, read_be32}
use sanbao_prot.Resource.{delete_mm_resource}
use sanbao_prot.Transfer.Chunks.{chunk_data, file_size_small}
use sanbao_prot.Transfer.{
  chunk, file_size, packets, mm_packet_index, send_chunk, open_and_send, sample_send_image,
  start_transfer, try_transfer, send_mm_req_ack, next_packet, recv_ack_and_send_image,
}

-- A transfer of this file is under way, and packet_index packets of it have been sent.
pub record Uploading (content : Bytes) (a : App) : Type 0 where
  pub file : a.disk a.pkg.mm_id ≡ some content
  pub memory : a.image_memory ≡ true
  pub total : a.pkg.packet_total_num ≡ packets content

-- The next packet has been sent.
abbrev pub sent_next : Bytes → App → App
sent_next content a =
    record (send Cmd.upload_mm_data (mm_packet_index a.pkg ++ chunk content a.pkg.packet_index) a) {
      pkg = record a.pkg { packet_index = a.pkg.packet_index + 1 };
    }

-- The packets that are left have been sent, one for each of n acknowledgements.
abbrev pub sent_all : ℕ → Bytes → App → App
sent_all zero content a = a
sent_all (suc n) content a = sent_all n content (sent_next content (notice_ack_msg a))

-- The transfer has ended: the next request is taken, and the resource is off the list.
abbrev pub finished : App → App
finished a = record (notice_ack_msg a) {
  pkg = record a.pkg { mm_data_trans_waiting = false };
  mm_list = (delete_mm_resource a.pkg.mm_id a.mm_list).0;
}

-- An acknowledgement of the packet before the k-th.
abbrev pub IsAck : Bytes → ℕ → Type 0
IsAck msg k = (get_or msg 17 0 ≡ 0) × (k ≡ read_be16 msg 15 + 1)

-- Acknowledgements of packets k - 1, k and so on.
abbrev pub InOrder : ℕ → List Bytes → Type 0
InOrder k [] = Unit
InOrder k (msg ∷ msgs) = IsAck msg k × InOrder (k + 1) msgs

abbrev pub receive : List Bytes → App → App
receive [] a = a
receive (msg ∷ msgs) a = receive msgs (recv_ack_and_send_image msg (length msg) a)

sample_send_image-next :
    (content : Bytes) (a : App)
    → Uploading content a
    → a.pkg.packet_index < packets content
    → sample_send_image a ≡ sent_next content a
unfolding sample_send_image open_and_send send_chunk send packets
sample_send_image-next content a u h =
    let size : a.pkg.packet_index + 1 < 65536 = omega arith in
    rw (u.memory, u.file) (ground (arith, chunk_data content a.pkg.packet_index h))

recv_ack-next :
    (content msg : Bytes) (a : App)
    → Uploading content a
    → IsAck msg a.pkg.packet_index
    → a.pkg.packet_index < packets content
    → recv_ack_and_send_image msg (length msg) a ≡ sent_next content (notice_ack_msg a)
unfolding recv_ack_and_send_image next_packet notice_ack_msg
recv_ack-next content msg a u (good, index) h =
    let b = notice_ack_msg a in
    let u' : Uploading content b = record { file = u.file; memory = u.memory; total = u.total } in
    ground (arith, u.total, sample_send_image-next content b u' h)

recv_ack-last :
    (content msg : Bytes) (a : App)
    → Uploading content a
    → IsAck msg a.pkg.packet_index
    → a.pkg.packet_index ≡ packets content
    → recv_ack_and_send_image msg (length msg) a ≡ finished a
unfolding recv_ack_and_send_image next_packet notice_ack_msg
recv_ack-last content msg a u (good, index) h = ground (arith, u.total)

sent_next-Uploading :
    (content : Bytes) (a : App)
    → Uploading content a
    → Uploading content (sent_next content (notice_ack_msg a))
unfolding send notice_ack_msg
sent_next-Uploading content a u = record { file = u.file; memory = u.memory; total = u.total }

-- While a transfer of a file is under way, and the file stays readable and memory is found, the
-- acknowledgements of its packets in their order make the program send each packet that is left,
-- once and in order, and the last one ends the transfer.
pub recv_ack_and_send_image_complete :
    (content : Bytes) (msgs : List Bytes) (last : Bytes) (a : App)
    → Uploading content a
    → InOrder a.pkg.packet_index msgs
    → IsAck last (packets content)
    → a.pkg.packet_index + length msgs ≡ packets content
    → receive (msgs ++ last ∷ []) a ≡ finished (sent_all (length msgs) content a)
unfolding notice_ack_msg send
recv_ack_and_send_image_complete content [] last a u order end total =
    recv_ack-last content last a u (end.0, omega (arith, end.1)) (omega arith)
recv_ack_and_send_image_complete content (msg ∷ msgs) last a u (ack, order) end total =
    ap (receive (msgs ++ last ∷ [])) (recv_ack-next content msg a u ack (omega arith))
    ∙ recv_ack_and_send_image_complete content msgs last (sent_next content (notice_ack_msg a))
        (sent_next-Uploading content a u) order end (omega arith)

-- The state in which a transfer starts.
abbrev pub started : ℕ → ℕ → Bytes → App → App
started mm_type mm_id content a = record a {
  pkg = record {
    mm_data_trans_waiting = true;
    mm_type = mm_type;
    mm_id = mm_id;
    packet_index = 0;
    packet_total_num = packets content;
  };
}

-- A request for a file that can be read, has bytes and is 64 KiB or more below 2 GiB, when no
-- transfer is under way and there is memory, is answered, and behind the answer packet 0 is sent: a
-- transfer of that file is then under way, with one packet sent.
pub send_mm_req_ack-starts :
    (content msg : Bytes) (a : App)
    → get_or msg 7 0 ≡ Cmd.req_mm_data
    → a.pkg.mm_data_trans_waiting ≡ false
    → a.image_memory ≡ true
    → a.disk (read_be32 msg 9) ≡ some content
    → 0 < length content
    → length content + image_size_per_packet ≤ 2 ^ 31
    → let b = (send_mm_req_ack msg 14 a).0 in
      (b
        ≡ sent_next content
            (started (get_or msg 8 0) (read_be32 msg 9) content (send Cmd.req_mm_data [] a)))
      × Uploading content b
      × (b.pkg.packet_index ≡ 1)
      × (b.pkg.mm_data_trans_waiting ≡ true)
unfolding send_mm_req_ack try_transfer start_transfer send send_in_place packets
send_mm_req_ack-starts content msg a c free memory file some_bytes short =
    let b = started (get_or msg 8 0) (read_be32 msg 9) content (send Cmd.req_mm_data [] a) in
    let u : Uploading content b = record { file = file; memory = memory; total = refl } in
    let size = file_size_small content (omega arith) in
    let answered : (send_mm_req_ack msg 14 a).0 ≡ sample_send_image b =
      rw (c, free, file) (ground (arith, lt→ltb 0 (file_size content) (omega (arith, size)))) in
    let next = answered ∙ sample_send_image-next content b u (omega (arith, size)) in
    let u' : Uploading content (sent_next content b) = record {
      file = file;
      memory = memory;
      total = refl;
    } in
    (
      next,
      rw next u',
      ap (λ (d : App). d.pkg.packet_index) next,
      ap (λ (d : App). d.pkg.mm_data_trans_waiting) next,
    )

-- While a transfer is under way, a request for media changes nothing and is not answered.
pub send_mm_req_ack-busy :
    (msg : Bytes) (len : ℕ) (a : App)
    → a.pkg.mm_data_trans_waiting ≡ true
    → send_mm_req_ack msg len a ≡ (a, msg)
unfolding send_mm_req_ack
send_mm_req_ack-busy msg len a h = ground (arith, h)
