-- ===== src/System/Handlers.antt =====
-- Every command keeps the shared state sound.
use sanbao_prot.App.{App, send, write_heart, write_real_time, notice_ack_msg, real_time_size}
use sanbao_prot.Base.{
  ℕ, ◌+◌, Bool, true, not, refl, [], ◌∷◌, ◌++◌, Option, none, some, Bytes, IsByte, All, get_or,
  take, drop, length, ltb, ◌==◌, ◌&&◌, if_both, arith, if◌then◌else◌,
}
use sanbao_prot.Dispatch.{factory_reset}
use sanbao_prot.Para.Adas
use sanbao_prot.Para.Dms
use sanbao_prot.Para.{
  adas_default, set_adas_para_setting_default, set_dms_para_setting_default, dms_default,
}
use sanbao_prot.Prot.Cmd
use sanbao_prot.Prot.{id_adas, id_dms, read_be16, read_be32}
use sanbao_prot.Setting.Swap.{All-take, All-drop, swap_word-IsByte}
use sanbao_prot.Setting.{
  swap_word, swap_adas, swap_dms, store_adas, store_dms, store_para, recv_para_setting,
  send_para_setting, do_factory_reset, recv_real_time_data, recv_warning_ack, reply_work_status,
  recv_upload_status_cmd_ack, send_snap_shot_ack, module_status,
}
use sanbao_prot.System.Sending.{
  same-IsSound, send-IsSound, send_in_place-IsSound, adas-IsSound, dms-IsSound,
}
use sanbao_prot.System.{IsSound, Keeps}
use sanbao_prot.Transfer.{
  send_chunk, open_and_send, sample_send_image, start_transfer, try_transfer, send_mm_req_ack,
  next_packet, recv_ack_and_send_image, mm_packet_index, chunk, file_size,
}
use sanbao_prot.Upgrade.{
  upgrade_start, upgrade_clean, upgrade_trans, upgrade_run, answer, recv_upgrade_file,
}

abbrev SoundIn : Bool → App × Bytes → Type 0
SoundIn up p = IsSound up p.0

abbrev SoundTold : Bool → App × Bool → Type 0
SoundTold up p = IsSound up p.0

-- The requests about parameters.
pub store_adas-IsSound : (para : Bytes) → All IsByte para → Keeps (λ a. (store_adas para a).0)
unfolding store_adas
store_adas-IsSound para bytes up a h = adas-IsSound para up a _ h bytes refl refl refl

pub store_dms-IsSound : (para : Bytes) → Keeps (λ a. (store_dms para a).0)
unfolding store_dms
store_dms-IsSound para up a h = dms-IsSound para up a _ h refl refl refl

swap_adas-IsByte : (para : Bytes) → All IsByte para → All IsByte (swap_adas para)
unfolding swap_adas
swap_adas-IsByte para h = swap_word-IsByte 5 (swap_word 3 para) (swap_word-IsByte 3 para h)

pub store_para-IsSound :
    (msg : Bytes) (len : ℕ) → All IsByte msg → Keeps (λ a. (store_para msg len a).0)
unfolding store_para
store_para-IsSound msg len bytes up a h =
    let para = take Adas.size (drop 8 msg) in
    let swapped = swap_adas-IsByte para (All-take Adas.size (drop 8 msg) (All-drop 8 msg bytes)) in
    if_both (SoundTold up) (get_or msg 6 0 == id_adas)
      (if_both (SoundTold up) (len == 8 + 1 + Adas.size)
        (store_adas-IsSound (swap_adas para) swapped up a h) h)
      (if_both (SoundTold up) (get_or msg 6 0 == id_dms)
        (if_both (SoundTold up) (len == 8 + 1 + Dms.size)
          (store_dms-IsSound (swap_dms (take Dms.size (drop 8 msg))) up a h) h)
        h)

pub recv_para_setting-IsSound :
    (msg : Bytes) (len : ℕ) → All IsByte msg → Keeps (recv_para_setting msg len)
unfolding recv_para_setting
recv_para_setting-IsSound msg len bytes up a h =
    send-IsSound Cmd.set_param _ up _ (store_para-IsSound msg len bytes up a h)

pub send_para_setting-IsSound : (msg : Bytes) (len : ℕ) → Keeps (send_para_setting msg len)
unfolding send_para_setting
send_para_setting-IsSound msg len up a h = if_both (IsSound up) (not (len == 8 + 1)) h (
    if_both (IsSound up) (get_or msg 6 0 == id_adas) (send-IsSound Cmd.get_param _ up a h)
      (if_both (IsSound up) (get_or msg 6 0 == id_dms) (send-IsSound Cmd.get_param _ up a h) h))

adas_default_bytes : All IsByte adas_default
unfolding adas_default
adas_default_bytes = omega arith

pub do_factory_reset-IsSound : (dev_id : ℕ) → Keeps (do_factory_reset dev_id)
unfolding do_factory_reset set_adas_para_setting_default set_dms_para_setting_default
do_factory_reset-IsSound dev_id up a h =
    if_both (IsSound up) (dev_id == id_adas)
      (adas-IsSound adas_default up a _ h adas_default_bytes refl refl refl)
      (if_both (IsSound up) (dev_id == id_dms) (dms-IsSound dms_default up a _ h refl refl refl) h)

pub factory_reset-IsSound : (msg : Bytes) → Keeps (λ a. (factory_reset msg a).0)
unfolding factory_reset
factory_reset-IsSound msg up a h =
    do_factory_reset-IsSound _ up _ (send_in_place-IsSound Cmd.factory_reset [] msg up a h)

-- The upload of media.
pub send_chunk-IsSound : (content : Bytes) → Keeps (send_chunk content)
unfolding send_chunk
send_chunk-IsSound content up a h =
    let b =
      send-IsSound Cmd.upload_mm_data (mm_packet_index a.pkg ++ chunk content a.pkg.packet_index) up
        a h in
    if_both (IsSound up) (ltb 0 (length (chunk content a.pkg.packet_index)))
      (same-IsSound up _ _ b refl refl refl refl) h

pub open_and_send-IsSound : (o : Option Bytes) → Keeps (open_and_send o)
unfolding open_and_send
open_and_send-IsSound none up a h = h
open_and_send-IsSound (some content) up a h = send_chunk-IsSound content up a h

pub sample_send_image-IsSound : Keeps sample_send_image
unfolding sample_send_image
sample_send_image-IsSound up a h =
    if_both (IsSound up) (not a.image_memory) h (open_and_send-IsSound (a.disk a.pkg.mm_id) up a h)

pub start_transfer-IsSound :
    (mm_type mm_id : ℕ) (content msg : Bytes)
    → Keeps (λ a. (start_transfer mm_type mm_id content msg a).0)
unfolding start_transfer
start_transfer-IsSound mm_type mm_id content msg up a h =
    sample_send_image-IsSound up _ (
      same-IsSound up _ _ (send_in_place-IsSound Cmd.req_mm_data [] msg up a h) refl refl refl refl)

pub try_transfer-IsSound :
    (mm_type mm_id : ℕ) (o : Option Bytes) (msg : Bytes)
    → Keeps (λ a. (try_transfer mm_type mm_id o msg a).0)
unfolding try_transfer
try_transfer-IsSound mm_type mm_id none msg up a h = h
try_transfer-IsSound mm_type mm_id (some content) msg up a h =
    if_both (SoundIn up) (ltb 0 (file_size content))
      (start_transfer-IsSound mm_type mm_id content msg up a h) h

pub send_mm_req_ack-IsSound : (msg : Bytes) (len : ℕ) → Keeps (λ a. (send_mm_req_ack msg len a).0)
unfolding send_mm_req_ack
send_mm_req_ack-IsSound msg len up a h =
    let started =
      try_transfer-IsSound (get_or msg 8 0) (read_be32 msg 9) (a.disk (read_be32 msg 9)) msg up a
        h in
    if_both (SoundIn up) (get_or msg 7 0 == Cmd.req_mm_data && not a.pkg.mm_data_trans_waiting)
      (if_both (SoundIn up) (not (len == 14)) h started) h

pub notice_ack_msg-IsSound : Keeps notice_ack_msg
unfolding notice_ack_msg
notice_ack_msg-IsSound up a h = same-IsSound up a _ h refl refl refl refl

pub next_packet-IsSound : Keeps next_packet
unfolding next_packet
next_packet-IsSound up a h =
    if_both (IsSound up) (a.pkg.packet_total_num == a.pkg.packet_index)
      (same-IsSound up a _ h refl refl refl refl) (sample_send_image-IsSound up a h)

pub recv_ack_and_send_image-IsSound :
    (msg : Bytes) (len : ℕ) → Keeps (recv_ack_and_send_image msg len)
unfolding recv_ack_and_send_image
recv_ack_and_send_image-IsSound msg len up a h =
    if_both (IsSound up) (not (get_or msg 17 0 == 0)) h (
      if_both (IsSound up) (a.pkg.packet_index == read_be16 msg 15 + 1)
        (next_packet-IsSound up _ (notice_ack_msg-IsSound up a h)) h)

-- The upgrade.
pub recv_upgrade_file-IsSound : (msg : Bytes) (len : ℕ) → Keeps (recv_upgrade_file msg len)
unfolding recv_upgrade_file answer
recv_upgrade_file-IsSound msg len up a h =
    let id = get_or msg 8 0 in
    let answered = send-IsSound Cmd.upgrade (id ∷ 0 ∷ []) in
    if_both (IsSound up) (id == upgrade_clean)
      (answered up _ (same-IsSound up a _ h refl refl refl refl))
      (if_both (IsSound up) (id == upgrade_run)
        (same-IsSound up _ _ (answered up a h) refl refl refl refl)
        (if_both (IsSound up) (id == upgrade_start) (answered up a h) (
          if_both (IsSound up) (id == upgrade_trans)
            (send-IsSound Cmd.upgrade _ up _ (same-IsSound up a _ h refl refl refl refl)) h)))

-- The commands that only take note or answer.
pub recv_real_time_data-IsSound :
    (msg : Bytes) (len : ℕ) → Keeps (λ a. write_heart true (recv_real_time_data msg len a))
unfolding recv_real_time_data write_real_time write_heart
recv_real_time_data-IsSound msg len up a h =
    same-IsSound up _ _
      (if_both (IsSound up) (len == 8 + 1 + real_time_size)
        (same-IsSound up a _ h refl refl refl refl) h)
      refl refl refl refl

pub when-IsSound : (f : App → App) (b : Bool) → Keeps f → Keeps (λ a. if b then f a else a)
when-IsSound f b k up a h = if_both (IsSound up) b (k up a h) h

pub recv_warning_ack-IsSound : (len : ℕ) → Keeps (recv_warning_ack len)
unfolding recv_warning_ack
recv_warning_ack-IsSound len = when-IsSound notice_ack_msg (len == 8 + 1) notice_ack_msg-IsSound

pub recv_upload_status_cmd_ack-IsSound : (len : ℕ) → Keeps (recv_upload_status_cmd_ack len)
unfolding recv_upload_status_cmd_ack
recv_upload_status_cmd_ack-IsSound len =
    when-IsSound notice_ack_msg (len == 8 + 1) notice_ack_msg-IsSound

pub reply_work_status-IsSound : (len : ℕ) → Keeps (reply_work_status len)
unfolding reply_work_status
reply_work_status-IsSound len =
    when-IsSound (send Cmd.req_status module_status) (len == 8 + 1)
      (send-IsSound Cmd.req_status module_status)

pub send_snap_shot_ack-IsSound : (len : ℕ) → Keeps (send_snap_shot_ack len)
unfolding send_snap_shot_ack
send_snap_shot_ack-IsSound len =
    when-IsSound (send Cmd.snap_shot (0 ∷ [])) (len == 8 + 1) (send-IsSound Cmd.snap_shot (0 ∷ []))
