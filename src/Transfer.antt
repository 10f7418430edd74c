-- ===== src/Transfer.antt =====
-- The upload of a media file in packets, process.cpp: `find_local_image_name`, `send_mm_req_ack`,
-- `recv_ack_and_send_image` and `sample_send_image`.
pub mod Chunks
pub mod Run
use sanbao_prot.App.{App, PkgStatus, send, send_in_place, notice_ack_msg}
use sanbao_prot.Base.{
  ℕ, ◌+◌, ◌-◌, ◌*◌, ◌/◌, ◌%◌, ◌^◌, Bool, true, false, not, List, [], ◌∷◌, ◌++◌, Option, none, some,
  Bytes, length, get_or, take, drop, ltb, ◌==◌, ◌&&◌, if◌then◌else◌,
}
use sanbao_prot.Prot.Cmd
use sanbao_prot.Prot.{be16, be32, read_be16, read_be32, image_size_per_packet}
use sanbao_prot.Resource.{delete_mm_resource}

-- MmPacketIndex in front of each packet's data.
unfoldable pub mm_packet_index : PkgStatus → Bytes
mm_packet_index g = g.mm_type ∷ (be32 g.mm_id ++ (be16 g.packet_total_num ++ be16 g.packet_index))

-- `fseek` to the packet's offset and `fread` of one packet.
unfoldable pub chunk : Bytes → ℕ → Bytes
chunk content index = take image_size_per_packet (drop (index * image_size_per_packet) content)

-- A packet is sent, and the index goes up, if the file has any data there.
unfoldable pub send_chunk : Bytes → App → App
send_chunk content a =
    let data_read = chunk content a.pkg.packet_index in
    let b = send Cmd.upload_mm_data (mm_packet_index a.pkg ++ data_read) a in
    if ltb 0 (length data_read)
    then record b { pkg = record b.pkg { packet_index = (a.pkg.packet_index + 1) % 2 ^ 16 } }
    else a

unfoldable pub open_and_send : Option Bytes → App → App
open_and_send none a = a
open_and_send (some content) a = send_chunk content a

unfoldable pub sample_send_image : App → App
unfolding open_and_send
sample_send_image a = if not a.image_memory then a else open_and_send (a.disk a.pkg.mm_id) a

-- `GetFileSize` of a file that can be opened, an `int`: 0 stands for the negative numbers too, since
-- the caller asks for a size above 0.
unfoldable pub file_size : Bytes → ℕ
file_size content = let size = length content % 2 ^ 32 in if ltb size (2 ^ 31) then size else 0

-- `packet_total_num`, of 16 bits.
unfoldable pub packets : Bytes → ℕ
unfolding file_size
packets content = (file_size content + image_size_per_packet - 1) / image_size_per_packet % 2 ^ 16

-- `filesize > 0`: the request is answered in place, and the first packet is sent.
unfoldable pub start_transfer : ℕ → ℕ → Bytes → Bytes → App → App × Bytes
start_transfer mm_type mm_id content msg a =
    let (b, msg') = send_in_place Cmd.req_mm_data [] msg a in
    (
      sample_send_image (record b {
        pkg = record {
          mm_data_trans_waiting = true;
          mm_type = mm_type;
          mm_id = mm_id;
          packet_index = 0;
          packet_total_num = packets content;
        };
      }),
      msg',
    )

unfoldable pub try_transfer : ℕ → ℕ → Option Bytes → Bytes → App → App × Bytes
unfolding start_transfer
try_transfer mm_type mm_id none msg a = (a, msg)
try_transfer mm_type mm_id (some content) msg a =
    if ltb 0 (file_size content) then start_transfer mm_type mm_id content msg a else (a, msg)

unfoldable pub send_mm_req_ack : Bytes → ℕ → App → App × Bytes
unfolding try_transfer
send_mm_req_ack msg len a =
    if get_or msg 7 0 == Cmd.req_mm_data && not a.pkg.mm_data_trans_waiting
    then (if not (len == 14)
        then (a, msg)
        else (let mm_type = get_or msg 8 0 in
            let mm_id = read_be32 msg 9 in try_transfer mm_type mm_id (a.disk mm_id) msg a))
    else (a, msg)

-- The packet that was sent last has been acknowledged.
unfoldable pub next_packet : App → App
next_packet a =
    if a.pkg.packet_total_num == a.pkg.packet_index
    then record a {
      pkg = record a.pkg { mm_data_trans_waiting = false };
      mm_list = (delete_mm_resource a.pkg.mm_id a.mm_list).0;
    }
    else sample_send_image a

-- MmAckInfo stands behind the header: its `packet_index` at 15, its `ack` at 17.
unfoldable pub recv_ack_and_send_image : Bytes → ℕ → App → App
unfolding next_packet
recv_ack_and_send_image msg len a =
    if not (get_or msg 17 0 == 0)
    then a
    else if a.pkg.packet_index == read_be16 msg 15 + 1
    then next_packet (notice_ack_msg a)
    else a
