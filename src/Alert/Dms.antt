-- ===== src/Alert/Dms.antt =====
-- `deal_wsi_dms_info` of process.cpp, the handler of the driver alerts.
pub mod Spacing
pub mod Stream
use sanbao_prot.Alert.{LocalConfig, filter_alert_by_time, filter_alert_by_speed}
use sanbao_prot.App.{App, send}
use sanbao_prot.Base.{
  ℕ, ◌+◌, ◌/◌, ◌%◌, Bool, true, false, not, List, [], ◌∷◌, Bytes, get_or, ◌==◌, ◌&&◌, ◌||◌,
  if◌then◌else◌, same_bytes,
}
use sanbao_prot.Field.{get_field}
use sanbao_prot.Para.Dms as DmsPara
use sanbao_prot.Para.{read_dev_para}
use sanbao_prot.Prot.Cmd
use sanbao_prot.Prot.Dms
use sanbao_prot.Prot.{id_dms}
use sanbao_prot.Warn.Message.{WarnFrame, frame_bytes}
use sanbao_prot.Warn.{status_none, build_dms_warn_frame, do_snap_shot}

-- The statics that `filter_alert_by_time` is given: `dms_fatigue_warn` and so on.
pub data Watch : Type 0 where
  fatigue distract calling smoking abnormal absence_release : Watch

-- `alert_type`
abbrev pub alert_type : Watch → ℕ
alert_type fatigue = Dms.fatigue
alert_type distract = Dms.distract
alert_type calling = Dms.calling
alert_type smoking = Dms.smoking
alert_type abnormal = Dms.abnormal
alert_type absence_release = Dms.snapshot

abbrev pub same_watch : Watch → Watch → Bool
same_watch j k = alert_type j == alert_type k

-- FILTER_DMS_ALERT_SET_TIME
abbrev pub filter_dms_alert_set_time : ℕ
filter_dms_alert_set_time = 10

-- `fatigue_filter_time` and so on, from the parameters read at the start of the call.
unfoldable pub filter_time : LocalConfig → Bytes → Watch → ℕ
filter_time c para fatigue = get_field para DmsPara.fatigue_video_time + c.alert_time_filter
filter_time c para distract = get_field para DmsPara.distraction_video_time + c.alert_time_filter
filter_time c para calling = get_field para DmsPara.calling_video_time + c.alert_time_filter
filter_time c para smoking = get_field para DmsPara.smoking_video_time + c.alert_time_filter
filter_time c para abnormal = get_field para DmsPara.abnormal_video_time + c.alert_time_filter
filter_time c para absence_release = filter_dms_alert_set_time

-- `dms_alert`: the first two bytes and the low half of the third.
unfoldable pub mask_alert : Bytes → Bytes
mask_alert w = get_or w 0 0 % 256 ∷ get_or w 1 0 % 256 ∷ get_or w 2 0 % 16 ∷ 0 ∷ 0 ∷ 0 ∷ 0 ∷ 0 ∷ []

-- The two-bit members of DmsAlertInfo, the first one lowest.
abbrev eye_close1 : Bytes → ℕ
eye_close1 b = get_or b 0 0 % 4

abbrev eye_close2 : Bytes → ℕ
eye_close2 b = get_or b 0 0 / 4 % 4

abbrev look_around : Bytes → ℕ
look_around b = get_or b 0 0 / 16 % 4

abbrev yawn : Bytes → ℕ
yawn b = get_or b 0 0 / 64 % 4

abbrev phone : Bytes → ℕ
phone b = get_or b 1 0 % 4

abbrev smoke : Bytes → ℕ
smoke b = get_or b 1 0 / 4 % 4

abbrev absence : Bytes → ℕ
absence b = get_or b 1 0 / 16 % 4

abbrev bow : Bytes → ℕ
bow b = get_or b 1 0 / 64 % 4

abbrev pub face_id : Bytes → ℕ
face_id b = get_or b 2 0 / 4 % 4

-- `cur->f && !last->f`
unfoldable pub rises : (Bytes → ℕ) → Bytes → Bytes → Bool
rises f last cur = not (f cur == 0) && f last == 0

-- Which of the conditions holds.
unfoldable pub triggers : Watch → Bytes → Bytes → Bool
unfolding rises
triggers fatigue last cur =
    rises eye_close1 last cur || rises eye_close2 last cur || rises yawn last cur
triggers distract last cur = rises look_around last cur || rises bow last cur
triggers calling last cur = rises phone last cur
triggers smoking last cur = rises smoke last cur
triggers abnormal last cur = rises absence last cur
triggers absence_release last cur = absence cur == 0 && not (absence last == 0)

-- The program's state, the statics, and the handler's `uploadmsg`. `reports` is for statements: the
-- watches whose alert was reported, with the time, the latest first.
pub record DmsRun : Type 0 where
  pub app : App
  pub uploadmsg : WarnFrame
  pub times : Watch → ℕ
  pub alert_last : Bytes
  pub reports : List (Watch × ℕ)
  -- `goto out`
  pub out : Bool

-- A message is built in `uploadmsg` and sent.
unfoldable pub report : ℕ → DmsRun → DmsRun
report type r =
    let (b, f) = build_dms_warn_frame type status_none r.uploadmsg r.app in
    record r { app = send Cmd.warning_report (frame_bytes f) b; uploadmsg = f }

-- The snapshot builds its message on its own stack, which holds `junk`.
unfoldable pub emit : WarnFrame → Watch → DmsRun → DmsRun
unfolding report
emit junk absence_release r = record r { app = do_snap_shot junk r.app }
emit junk k r = report (alert_type k) r

unfoldable pub passed : WarnFrame → ℕ → Watch → DmsRun → DmsRun
unfolding emit
passed junk now k r =
    let e = emit junk k r in
    record e {
      times = λ j. if same_watch j k then now else r.times j;
      reports = (k, now) ∷ r.reports;
    }

-- One `if` of the handler: the trigger, the filter by speed with its `goto out`, the filter by time.
unfoldable pub check : LocalConfig → WarnFrame → ℕ → (Watch → ℕ) → Watch → Bool → DmsRun → DmsRun
unfolding passed
check c junk now secs k trigger r =
    if r.out || not trigger
    then r
    else if not (filter_alert_by_speed c r.app)
    then record r { out = true }
    else if (filter_alert_by_time now (secs k) (r.times k)).1
    then passed junk now k r
    else r

-- A driver change is reported whatever the speed and the time, and leaves the handler.
unfoldable pub driver_change : Bool → DmsRun → DmsRun
unfolding report
driver_change trigger r =
    if r.out || not trigger then r else record (report Dms.driver_change r) { out = true }

unfoldable pub checks : LocalConfig → WarnFrame → ℕ → Bytes → DmsRun → DmsRun
unfolding check driver_change triggers
checks c junk now cur r =
    let last = r.alert_last in
    let secs = filter_time c (read_dev_para id_dms r.app.paras []) in
    let r1 = check c junk now secs fatigue (triggers fatigue last cur) r in
    let r2 = check c junk now secs distract (triggers distract last cur) r1 in
    let r3 = check c junk now secs calling (triggers calling last cur) r2 in
    let r4 = check c junk now secs smoking (triggers smoking last cur) r3 in
    let r5 = check c junk now secs abnormal (triggers abnormal last cur) r4 in
    let r6 = driver_change (rises face_id last cur) r5 in
    check c junk now secs absence_release (triggers absence_release last cur) r6

unfoldable pub deal_wsi_dms_info : LocalConfig → WarnFrame → ℕ → Bytes → DmsRun → DmsRun
unfolding checks mask_alert
deal_wsi_dms_info c junk now warning r =
    let cur = mask_alert warning in
    let s = checks c junk now cur (record r { out = false }) in
    if same_bytes cur r.alert_last
    then record r { alert_last = cur }
    else record s { alert_last = cur; out = false }
