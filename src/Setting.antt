-- ===== src/Setting.antt =====
-- Requests about parameters and status, process.cpp: `recv_para_setting`, `send_para_setting`,
-- `do_factory_reset`, `write_RealTimeData`, `recv_warning_ack`, `reply_work_status`,
-- `auto_send_work_status`, `recv_upload_status_cmd_ack` and `send_snap_shot_ack`.
pub mod Swap
pub mod Write
use sanbao_prot.App.{App, send, notice_ack_msg, write_real_time, real_time_size}
use sanbao_prot.Base.{
  ℕ, ◌+◌, Bool, false, not, [], ◌∷◌, Bytes, get_or, set, take, drop, ◌==◌, if◌then◌else◌,
}
use sanbao_prot.Para.Adas
use sanbao_prot.Para.Dms
use sanbao_prot.Para.{
  read_dev_para, write_dev_para, set_adas_para_setting_default, set_dms_para_setting_default,
  write_local_adas_para_file, write_local_dms_para_file,
}
use sanbao_prot.Prot.Cmd
use sanbao_prot.Prot.{id_adas, id_dms}

-- `f = MY_NTOHS(f)` and `f = MY_HTONS(f)` of the 16-bit field at an offset.
unfoldable pub swap_word : ℕ → Bytes → Bytes
swap_word i p = set (set p i (get_or p (i + 1) 0)) (i + 1) (get_or p i 0)

unfoldable pub swap_adas : Bytes → Bytes
unfolding swap_word
swap_adas p = swap_word 5 (swap_word 3 p)

unfoldable pub swap_dms : Bytes → Bytes
unfolding swap_word
swap_dms p = swap_word 23 (swap_word 21 (swap_word 5 (swap_word 3 p)))

unfoldable pub store_adas : Bytes → App → App × ℕ
store_adas para a =
    let paras = write_dev_para id_adas para a.paras in
    let (file, ret) = write_local_adas_para_file paras a.adas_file in
    (record a { paras = paras; adas_file = file }, ret)

unfoldable pub store_dms : Bytes → App → App × ℕ
store_dms para a =
    let paras = write_dev_para id_dms para a.paras in
    let (file, ret) = write_local_dms_para_file paras a.dms_file in
    (record a { paras = paras; dms_file = file }, ret)

-- The state behind the parameters' write, and whether `ret` is 0.
unfoldable pub store_para : Bytes → ℕ → App → App × Bool
unfolding store_adas store_dms swap_adas swap_dms
store_para msg len a =
    if get_or msg 6 0 == id_adas
    then (if len == 8 + 1 + Adas.size
        then (let (b, ret) = store_adas (swap_adas (take Adas.size (drop 8 msg))) a in
            (b, ret == 0))
        else (a, false))
    else if get_or msg 6 0 == id_dms
    then (if len == 8 + 1 + Dms.size
        then (let (b, ret) = store_dms (swap_dms (take Dms.size (drop 8 msg))) a in (b, ret == 0))
        else (a, false))
    else (a, false)

unfoldable pub recv_para_setting : Bytes → ℕ → App → App
unfolding store_para
recv_para_setting msg len a =
    let (b, done) = store_para msg len a in send Cmd.set_param ((if done then 0 else 1) ∷ []) b

unfoldable pub send_para_setting : Bytes → ℕ → App → App
unfolding swap_adas swap_dms
send_para_setting msg len a =
    if not (len == 8 + 1)
    then a
    else if get_or msg 6 0 == id_adas
    then send Cmd.get_param (swap_adas (read_dev_para id_adas a.paras [])) a
    else if get_or msg 6 0 == id_dms
    then send Cmd.get_param (swap_dms (read_dev_para id_dms a.paras [])) a
    else a

unfoldable pub do_factory_reset : ℕ → App → App
do_factory_reset dev_id a =
    if dev_id == id_adas
    then (let paras = set_adas_para_setting_default a.paras in
        record a { paras = paras; adas_file = (write_local_adas_para_file paras a.adas_file).0 })
    else if dev_id == id_dms
    then (let paras = set_dms_para_setting_default a.paras in
        record a { paras = paras; dms_file = (write_local_dms_para_file paras a.dms_file).0 })
    else a

unfoldable pub recv_real_time_data : Bytes → ℕ → App → App
recv_real_time_data msg len a =
    if len == 8 + 1 + real_time_size then write_real_time (drop 8 msg) a else a

unfoldable pub recv_warning_ack : ℕ → App → App
recv_warning_ack len a = if len == 8 + 1 then notice_ack_msg a else a

-- ModuleStatus with `work_status = MODULE_WORKING` and no error bit.
abbrev pub module_status : Bytes
module_status = 0x02 ∷ 0 ∷ 0 ∷ 0 ∷ 0 ∷ []

unfoldable pub reply_work_status : ℕ → App → App
reply_work_status len a = if len == 8 + 1 then send Cmd.req_status module_status a else a

unfoldable pub auto_send_work_status : App → App
auto_send_work_status a = send Cmd.upload_status module_status a

unfoldable pub recv_upload_status_cmd_ack : ℕ → App → App
recv_upload_status_cmd_ack len a = if len == 8 + 1 then notice_ack_msg a else a

unfoldable pub send_snap_shot_ack : ℕ → App → App
send_snap_shot_ack len a = if len == 8 + 1 then send Cmd.snap_shot (0 ∷ []) a else a
