-- ===== src/Dispatch.antt =====
-- `sample_on_cmd` of process.cpp, the handler of every frame that `prot_parse` accepts.
pub mod Reset
pub mod Address
use sanbao_prot.App.{App, send, send_in_place, write_heart}
use sanbao_prot.Base.{
  ℕ, ◌+◌, ◌-◌, Bool, true, false, not, List, [], ◌∷◌, ◌++◌, Bytes, length, get_or, take, replicate,
  ◌==◌, ◌&&◌, if◌then◌else◌,
}
use sanbao_prot.Prot.Cmd
use sanbao_prot.Prot.{id_of, id_brdcst, read_be16}
use sanbao_prot.Serial.{record_recv_num, do_serial_num}
use sanbao_prot.Setting.{
  recv_para_setting, send_para_setting, do_factory_reset, recv_real_time_data, recv_warning_ack,
  reply_work_status, recv_upload_status_cmd_ack, send_snap_shot_ack,
}
use sanbao_prot.Transfer.{send_mm_req_ack, recv_ack_and_send_image}
use sanbao_prot.Upgrade.{recv_upgrade_file}
use sanbao_prot.Warn.Message.{WarnFrame}
use sanbao_prot.Warn.{do_snap_shot}

-- A length byte of 15 and a text in 15 bytes.
abbrev text : Bytes → Bytes
text s = 15 ∷ (s ++ replicate (15 - length s) 0)

-- The constant M4DevInfo: "MINIEYE", "M4", "1.0.0", "1.2.0", "0xF0321564", "SAMPLE".
abbrev pub dev_info : Bytes
dev_info =
    text (b'M' ∷ b'I' ∷ b'N' ∷ b'I' ∷ b'E' ∷ b'Y' ∷ b'E' ∷ [])
    ++ (text (b'M' ∷ b'4' ∷ [])
        ++ (text (b'1' ∷ b'.' ∷ b'0' ∷ b'.' ∷ b'0' ∷ [])
            ++ (text (b'1' ∷ b'.' ∷ b'2' ∷ b'.' ∷ b'0' ∷ [])
                ++ (text (b'0' ∷ b'x' ∷ b'F' ∷ b'0' ∷ b'3' ∷ b'2' ∷ b'1' ∷ b'5' ∷ b'6' ∷ b'4' ∷ [])
                    ++ text (b'S' ∷ b'A' ∷ b'M' ∷ b'P' ∷ b'L' ∷ b'E' ∷ [])))))

-- The reply is built in the receive buffer, and only then is the device id read from it again.
unfoldable pub factory_reset : Bytes → App → App × Bytes
factory_reset msg a =
    let (b, msg') = send_in_place Cmd.factory_reset [] msg a in
    (do_factory_reset (get_or msg' 6 0) b, msg')

abbrev on_buffer : App → Bytes → App × Bytes
on_buffer a msg = (a, msg)

-- The `switch` on the command. `f` is what the stack holds where a snapshot builds its message.
unfoldable pub run_cmd : WarnFrame → ℕ → Bytes → ℕ → App → App × Bytes
unfolding factory_reset
run_cmd f c msg len a =
    if c == Cmd.query
    then send_in_place Cmd.query [] msg a
    else if c == Cmd.factory_reset
    then factory_reset msg a
    else if c == Cmd.speed_info
    then (write_heart true (recv_real_time_data msg len a), msg)
    else if c == Cmd.device_info
    then (send Cmd.device_info dev_info a, msg)
    else if c == Cmd.upgrade
    then (recv_upgrade_file msg len a, msg)
    else if c == Cmd.get_param
    then (send_para_setting msg len a, msg)
    else if c == Cmd.set_param
    then (recv_para_setting msg len a, msg)
    else if c == Cmd.warning_report
    then (recv_warning_ack len a, msg)
    else if c == Cmd.req_status
    then (reply_work_status len a, msg)
    else if c == Cmd.upload_status
    then (recv_upload_status_cmd_ack len a, msg)
    else if c == Cmd.req_mm_data
    then send_mm_req_ack msg len a
    else if c == Cmd.upload_mm_data
    then (recv_ack_and_send_image msg len a, msg)
    else if c == Cmd.snap_shot
    then (do_snap_shot f (send_snap_shot_ack len a), msg)
    else (a, msg)

-- The request's serial number is recorded before the command runs.
unfoldable pub record_serial : Bytes → App → App
record_serial msg a = record a {
  sender = record a.sender {
    serial = (do_serial_num record_recv_num (read_be16 msg 2) a.sender.serial).0;
  };
}

-- A frame for another device is left alone.
unfoldable pub sample_on_cmd : WarnFrame → App → Bytes → ℕ → App × Bytes
unfolding run_cmd record_serial
sample_on_cmd f a msg len =
    if not (get_or msg 6 0 == id_of a.dev) && not (get_or msg 6 0 == id_brdcst)
    then (a, msg)
    else run_cmd f (get_or msg 7 0) msg len (record_serial msg a)
