-- ===== src/Upgrade.antt =====
-- `recv_upgrade_file` and `get_sum` of process.cpp: a file in numbered packets, of which the first
-- carries the sum of all bytes.
pub mod Sums
pub mod Install
use sanbao_prot.App.{App, Upgrade, send}
use sanbao_prot.Base.{
  ℕ, zero, suc, ◌+◌, ◌-◌, ◌%◌, ◌^◌, Bool, true, false, not, List, [], ◌∷◌, ◌++◌, Bytes, length,
  get_or, take, drop, replicate, ◌==◌, ◌||◌, if◌then◌else◌,
}
use sanbao_prot.Prot.Cmd
use sanbao_prot.Prot.{read_be16, read_be32}

abbrev pub upgrade_start : ℕ
upgrade_start = 0x1

abbrev pub upgrade_clean : ℕ
upgrade_clean = 0x2

abbrev pub upgrade_trans : ℕ
upgrade_trans = 0x3

abbrev pub upgrade_run : ℕ
upgrade_run = 0x4

-- `sum += buf[i]` over a uint32_t.
unfoldable pub get_sum : Bytes → ℕ
get_sum [] = 0
get_sum (x ∷ xs) = (x + get_sum xs) % 2 ^ 32

-- `write` of these bytes at an offset of a file; a hole in front of them reads as zeros, and without
-- bytes nothing is written.
unfoldable pub write_at : ℕ → Bytes → Bytes → Bytes
write_at offset [] content = content
write_at offset (b ∷ bytes) content =
    take offset content
    ++ (replicate (offset - length content) 0
        ++ (b ∷ (bytes ++ drop (offset + suc (length bytes)) content)))

-- `rm` of the upgrade file.
unfoldable pub clean : Upgrade → Upgrade
clean u = record u { content = [] }

-- Packet 0: the old file goes, and the announced sum is kept.
unfoldable pub first_packet : ℕ → Upgrade → Upgrade
first_packet sum u = record u { content = []; sum = sum }

-- `write` either takes all bytes or fails; the sum counts them in both cases.
unfoldable pub data_packet : Bytes → Upgrade → Upgrade
data_packet bytes u =
    let sum_new = (u.sum_new + get_sum bytes) % 2 ^ 32 in
    if u.writable
    then record u {
      content = write_at u.offset bytes u.content;
      offset = (u.offset + length bytes) % 2 ^ 32;
      sum_new = sum_new;
    }
    else record u { sum_new = sum_new }

-- The last packet: the script runs if the sums agree. The second part is the result byte.
unfoldable pub last_packet : Upgrade → Upgrade × ℕ
last_packet u = if u.sum_new == u.sum then (record u { runs = u.runs + 1 }, 0) else (u, 1)

-- UPGRADE_CMD_TRANS with the packet's numbers and what follows them.
unfoldable pub trans_packet : ℕ → ℕ → ℕ → Bytes → Upgrade → Upgrade × ℕ
unfolding first_packet data_packet last_packet
trans_packet num index sum bytes u0 =
    let u = record u0 { packet_num = num; packet_index = index } in
    if index == 0
    then (first_packet sum u, 0)
    else if index + 1 == num
    then last_packet (data_packet bytes u)
    else (data_packet bytes u, 0)

unfoldable pub answer : ℕ → App → App
answer message_id a = send Cmd.upgrade (message_id ∷ 0 ∷ []) a

-- message_id at 8, packet_num at 9, packet_index at 11, and behind them the sum or the data. A
-- length below 14 gives a negative `datalen`: nothing is written then.
unfoldable pub recv_upgrade_file : Bytes → ℕ → App → App
unfolding answer
recv_upgrade_file msg len a =
    let message_id = get_or msg 8 0 in
    if message_id == upgrade_clean
    then answer message_id (record a { upgrade = clean a.upgrade })
    else if message_id == upgrade_run
    then record (answer message_id a) { exited = true }
    else if message_id == upgrade_start
    then answer message_id a
    else if message_id == upgrade_trans
    then (let (u, result) =
          trans_packet (read_be16 msg 9) (read_be16 msg 11) (read_be32 msg 13)
            (take (len - 14) (drop 13 msg)) a.upgrade in
        send Cmd.upgrade (take 5 (drop 8 msg) ++ result ∷ []) (record a { upgrade = u }))
    else a
