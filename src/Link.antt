-- ===== src/Link.antt =====
-- The connection, process.cpp: `process_socket_status`, `tcp_socket_close`, `do_stat_reset`,
-- `send_stat_pkg_init`, `check_heart_beat` and one round of `pthread_snap_shot`.
pub mod Package
pub mod Heart
pub mod Snap
use sanbao_prot.Alert.{LocalConfig, limit_record_time, touch_time}
use sanbao_prot.App.{App, PkgStatus, write_heart}
use sanbao_prot.Base.{
  ℕ, zero, suc, ◌+◌, ◌-◌, ◌*◌, ◌%◌, ◌^◌, Bool, true, false, not, List, [], ◌∷◌, Option, none, some,
  Bytes, take, drop, ltb, leb, ◌==◌, ◌&&◌, if◌then◌else◌, get_or,
}
use sanbao_prot.Field.{get_field}
use sanbao_prot.Para.Adas as AdasPara
use sanbao_prot.Para.Dms as DmsPara
use sanbao_prot.Para.{read_dev_para}
use sanbao_prot.Prot.{Device, adas, dms, id_adas, id_dms}
use sanbao_prot.Queue.{Node, clear_queue}
use sanbao_prot.Warn.Message.{WarnFrame}
use sanbao_prot.Warn.{do_snap_shot}

-- The shared state with that of the connection: `connect_status`, the messages given to
-- `handle->snd`, the latest first, and how often `handle->close` was called.
pub record Link : Type 0 where
  pub app : App
  pub connect_status : Bool
  pub sent : List Bytes
  pub closes : ℕ

unfoldable pub set_connect_status : Bool → Link → Link
set_connect_status status l = record l { connect_status = status }

unfoldable pub tcp_socket_close : Link → Link
unfolding set_connect_status
tcp_socket_close l =
    if l.connect_status then set_connect_status false (record l { closes = l.closes + 1 }) else l

-- memset of `g_pkg_status_p`
unfoldable pub send_stat_pkg_init : App → App
send_stat_pkg_init a = record a {
  pkg = record {
    mm_type = 0;
    mm_id = 0;
    packet_total_num = 0;
    packet_index = 0;
    mm_data_trans_waiting = false;
  };
}

-- `none` is the write to freed memory that `clear_queue` can do.
unfoldable pub with_queue : App → Option (List Node) → Option App
with_queue a none = none
with_queue a (some q) = some (record a { sender = record a.sender { send_q = q } })

unfoldable pub do_stat_reset : App → Option App
unfolding send_stat_pkg_init with_queue
do_stat_reset a = let b = send_stat_pkg_init a in with_queue b (clear_queue b.sender.send_q)

-- The statics of `check_heart_beat`.
pub record HeartCheck : Type 0 where
  pub s_record_last : ℕ
  pub count : ℕ

-- The check of the period's heart beat, when the period is over.
unfoldable pub count_heart_beat : LocalConfig → HeartCheck → Link → HeartCheck × Link
unfolding tcp_socket_close write_heart
count_heart_beat c h l =
    let count = (h.count + 1) % 2 ^ 32 in
    if not l.app.heart_alive
    then (if leb c.check_heart_period count
        then (record h { count = 0 }, tcp_socket_close l)
        else (record h { count = count }, l))
    else (record h { count = 0 }, record l { app = write_heart false l.app })

unfoldable pub check_heart_beat : LocalConfig → ℕ → HeartCheck → Link → HeartCheck × Link
unfolding count_heart_beat
check_heart_beat c now h l =
    let (last', over) = limit_record_time now 1 h.s_record_last in
    if not c.use_heart
    then (h, l)
    else if not l.connect_status
    then (record h { s_record_last = touch_time now }, l)
    else if over
    then count_heart_beat c (record h { s_record_last = last' }) l
    else (record h { s_record_last = last' }, l)
