-- ===== src/System/Reports.antt =====
-- The handlers of alerts keep the shared state sound.
use sanbao_prot.Alert.Adas.{
  AdasRun, upload, upload_ldw, upload_fcw, upload_hw_begin, upload_hw_end, filtered, put_ldw,
  put_fcw, put_hw, FilterTimes, filter_times, ldw_event, fcw_event, trigger_events, headway,
  headway_event, deal_wsi_adas_can700, all_warning_data, trigger_data, left_ldw, right_ldw, fcw_on,
  headway_warning_level, hw_level_red_car, cleared,
}
use sanbao_prot.Alert.Dms.{
  Watch, fatigue, distract, calling, smoking, abnormal, absence_release, DmsRun, report, emit,
  passed, check, driver_change, checks, deal_wsi_dms_info, mask_alert, triggers, rises, face_id,
  filter_time,
}
use sanbao_prot.Alert.{LocalConfig, filter_alert_by_time, filter_alert_by_speed}
use sanbao_prot.Base.{ℕ, Bool, false, not, [], Bytes, get_or, same_bytes, ◌==◌, ◌&&◌, ◌||◌, if_both}
use sanbao_prot.Para.{read_dev_para}
use sanbao_prot.Prot.Adas
use sanbao_prot.Prot.Cmd
use sanbao_prot.Prot.Dms
use sanbao_prot.Prot.{id_adas, id_dms}
use sanbao_prot.System.Alerts.{
  build_adas_warn_frame-IsSound, build_dms_warn_frame-IsSound, do_snap_shot-IsSound,
}
use sanbao_prot.System.Sending.{send-IsSound}
use sanbao_prot.System.{IsSound}
use sanbao_prot.Warn.Message.{WarnFrame}
use sanbao_prot.Warn.{status_none, status_begin, status_end}

abbrev SoundDms : Bool → DmsRun → Type 0
SoundDms up r = IsSound up r.app

abbrev KeepsDms : (DmsRun → DmsRun) → Type 0
KeepsDms f = (up : Bool) (r : DmsRun) → SoundDms up r → SoundDms up (f r)

report-IsSound : (type : ℕ) → KeepsDms (report type)
unfolding report
report-IsSound type up r h =
    send-IsSound Cmd.warning_report _ up _
      (build_dms_warn_frame-IsSound type status_none r.uploadmsg up r.app h)

emit-IsSound : (junk : WarnFrame) (k : Watch) → KeepsDms (emit junk k)
unfolding emit
emit-IsSound junk fatigue up r h = report-IsSound Dms.fatigue up r h
emit-IsSound junk distract up r h = report-IsSound Dms.distract up r h
emit-IsSound junk calling up r h = report-IsSound Dms.calling up r h
emit-IsSound junk smoking up r h = report-IsSound Dms.smoking up r h
emit-IsSound junk abnormal up r h = report-IsSound Dms.abnormal up r h
emit-IsSound junk absence_release up r h = do_snap_shot-IsSound junk up r.app h

check-IsSound :
    (c : LocalConfig) (junk : WarnFrame) (now : ℕ) (secs : Watch → ℕ) (k : Watch) (trigger : Bool)
    → KeepsDms (check c junk now secs k trigger)
unfolding check passed
check-IsSound c junk now secs k trigger up r h = if_both (SoundDms up) (r.out || not trigger) h (
    if_both (SoundDms up) (not (filter_alert_by_speed c r.app)) h (
      if_both (SoundDms up) (filter_alert_by_time now (secs k) (r.times k)).1
        (emit-IsSound junk k up r h) h))

driver_change-IsSound : (trigger : Bool) → KeepsDms (driver_change trigger)
unfolding driver_change
driver_change-IsSound trigger up r h =
    if_both (SoundDms up) (r.out || not trigger) h (report-IsSound Dms.driver_change up r h)

pub deal_wsi_dms_info-IsSound :
    (c : LocalConfig) (junk : WarnFrame) (now : ℕ) (warning : Bytes)
    → KeepsDms (deal_wsi_dms_info c junk now warning)
unfolding deal_wsi_dms_info checks
deal_wsi_dms_info-IsSound c junk now warning up r h =
    let last = r.alert_last in
    let cur = mask_alert warning in
    let secs = filter_time c (read_dev_para id_dms r.app.paras []) in
    let step = λ (k : Watch) (s : DmsRun) (g : SoundDms up s).
      check-IsSound c junk now secs k (triggers k last cur) up s g in
    let h1 = step fatigue (record r { out = false }) h in
    let h2 = step distract _ h1 in
    let h3 = step calling _ h2 in
    let h4 = step smoking _ h3 in
    let h5 = step abnormal _ h4 in
    let h6 = driver_change-IsSound (rises face_id last cur) up _ h5 in
    if_both (SoundDms up) (same_bytes cur r.alert_last) h (step absence_release _ h6)

abbrev SoundAdas : Bool → AdasRun → Type 0
SoundAdas up r = IsSound up r.app

abbrev KeepsAdas : (AdasRun → AdasRun) → Type 0
KeepsAdas f = (up : Bool) (r : AdasRun) → SoundAdas up r → SoundAdas up (f r)

upload_ldw-IsSound : (can : Bytes) → KeepsAdas (upload_ldw can)
unfolding upload_ldw upload
upload_ldw-IsSound can up r h =
    send-IsSound Cmd.warning_report _ up _
      (build_adas_warn_frame-IsSound Adas.ldw status_none cleared up r.app h)

upload_fcw-IsSound : KeepsAdas upload_fcw
unfolding upload_fcw upload
upload_fcw-IsSound up r h =
    send-IsSound Cmd.warning_report _ up _
      (build_adas_warn_frame-IsSound Adas.fcw status_none r.uploadmsg up r.app h)

upload_hw_begin-IsSound : KeepsAdas upload_hw_begin
unfolding upload_hw_begin upload
upload_hw_begin-IsSound up r h =
    send-IsSound Cmd.warning_report _ up _
      (build_adas_warn_frame-IsSound Adas.hw status_begin r.uploadmsg up r.app h)

upload_hw_end-IsSound : (now : ℕ) → KeepsAdas (upload_hw_end now)
unfolding upload_hw_end upload
upload_hw_end-IsSound now up r h =
    send-IsSound Cmd.warning_report _ up _
      (build_adas_warn_frame-IsSound Adas.hw status_end r.uploadmsg up r.app h)

filtered-IsSound :
    (c : LocalConfig) (now secs last : ℕ) (put : ℕ → AdasRun → AdasRun)
    (message : AdasRun → AdasRun)
    → ((t : ℕ) → KeepsAdas (put t))
    → KeepsAdas message
    → KeepsAdas (filtered c now secs last put message)
unfolding filtered
filtered-IsSound c now secs last put message puts sends up r h =
    let s = put (filter_alert_by_time now secs last).0 r in
    let g = puts (filter_alert_by_time now secs last).0 up r h in
    if_both (SoundAdas up) (not (filter_alert_by_time now secs last).1) g
      (if_both (SoundAdas up) (not (filter_alert_by_speed c s.app)) g (sends up s g))

ldw_event-IsSound :
    (c : LocalConfig) (now : ℕ) (times : FilterTimes) (can : Bytes)
    → KeepsAdas (ldw_event c now times can)
unfolding ldw_event
ldw_event-IsSound c now times can up r h =
    if_both (SoundAdas up) (left_ldw can || right_ldw can)
      (filtered-IsSound c now times.ldw_filter_time r.ldw_alert put_ldw (upload_ldw can)
        (λ t u s k. k) (upload_ldw-IsSound can) up r h)
      h

fcw_event-IsSound :
    (c : LocalConfig) (now : ℕ) (times : FilterTimes) (can : Bytes)
    → KeepsAdas (fcw_event c now times can)
unfolding fcw_event
fcw_event-IsSound c now times can up r h =
    if_both (SoundAdas up) (not r.out && fcw_on can)
      (filtered-IsSound c now times.fcw_filter_time r.fcw_alert put_fcw upload_fcw (λ t u s k. k)
        upload_fcw-IsSound up r h)
      h

headway_event-IsSound :
    (c : LocalConfig) (now : ℕ) (times : FilterTimes) (can : Bytes)
    → KeepsAdas (headway_event c now times can)
unfolding headway_event headway
headway_event-IsSound c now times can up r h =
    let level = headway_warning_level can in
    let last = headway_warning_level r.g_last_warning_data in
    if_both (SoundAdas up) r.out h (
      if_both (SoundAdas up) (last == level) h (
        if_both (SoundAdas up) (level == hw_level_red_car)
          (filtered-IsSound c now times.hw_filter_time r.hw_alert put_hw upload_hw_begin
            (λ t u s k. k) upload_hw_begin-IsSound up r h)
          (if_both (SoundAdas up) (last == hw_level_red_car && r.s_start_flag)
            (upload_hw_end-IsSound now up r h) h)))

pub deal_wsi_adas_can700-IsSound :
    (c : LocalConfig) (now : ℕ) (can : Bytes) → KeepsAdas (deal_wsi_adas_can700 c now can)
unfolding deal_wsi_adas_can700 trigger_events
deal_wsi_adas_can700-IsSound c now can up r h =
    let times = filter_times c (read_dev_para id_adas r.app.paras []) in
    let start = record r { out = false } in
    let both =
      fcw_event-IsSound c now times can up _ (ldw_event-IsSound c now times can up start h) in
    let trig =
      if_both (SoundAdas up)
        (same_bytes (trigger_data can) start.g_last_trigger_warning
          || get_or (trigger_data can) 4 0 == 0)
        {x = start} {y = fcw_event c now times can (ldw_event c now times can start)} h both in
    if_both (SoundAdas up) (same_bytes (all_warning_data can) r.g_last_warning_data) h
      (headway_event-IsSound c now times can up (trigger_events c now times can start) trig)
