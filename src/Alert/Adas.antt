-- ===== src/Alert/Adas.antt =====
-- `deal_wsi_adas_can700` of process.cpp, the handler of the lane, collision and headway alerts.
pub mod Turns
pub mod Stream
pub mod Calm
pub mod Lost
use sanbao_prot.Alert.{LocalConfig, filter_alert_by_time, filter_alert_by_speed, touch_time}
use sanbao_prot.App.{App, send}
use sanbao_prot.Base.{
  ℕ, ◌+◌, ◌*◌, ◌/◌, ◌%◌, Bool, true, false, not, List, [], ◌∷◌, Bytes, get_or, set, replicate, ◌==◌,
  ◌&&◌, ◌||◌, if◌then◌else◌, same_bytes,
}
use sanbao_prot.Field.{get_field}
use sanbao_prot.Para.Adas as AdasPara
use sanbao_prot.Para.{read_dev_para}
use sanbao_prot.Prot.Adas
use sanbao_prot.Prot.Cmd
use sanbao_prot.Prot.{id_adas}
use sanbao_prot.Warn.Message.{WarnFrame, frame_bytes}
use sanbao_prot.Warn.{status_none, status_begin, status_end, build_adas_warn_frame}

-- HW_LEVEL_RED_CAR
abbrev pub hw_level_red_car : ℕ
hw_level_red_car = 2

-- The messages that the handler builds, for statements about their order.
pub data Event : Type 0 where
  ldw fcw hw_begin hw_end : Event

-- The program's state, the globals and statics of the handler, and its `uploadmsg`. `reports` is for
-- statements: what was reported, the latest first.
pub record AdasRun : Type 0 where
  pub app : App
  pub uploadmsg : WarnFrame
  pub ldw_alert : ℕ
  pub fcw_alert : ℕ
  pub hw_alert : ℕ
  pub s_start_flag : Bool
  pub g_last_warning_data : Bytes
  pub g_last_trigger_warning : Bytes
  pub reports : List Event
  -- `goto out`
  pub out : Bool

-- The bits of MECANWarningMessage that are read.
unfoldable pub left_ldw : Bytes → Bool
left_ldw can = get_or can 4 0 / 2 % 2 == 1

unfoldable pub right_ldw : Bytes → Bool
right_ldw can = get_or can 4 0 / 4 % 2 == 1

unfoldable pub fcw_on : Bytes → Bool
fcw_on can = get_or can 4 0 / 8 % 2 == 1

abbrev pub headway_warning_level : Bytes → ℕ
headway_warning_level can = get_or can 7 0 % 4

-- `& 0x0E`
unfoldable pub trigger_bits : Bytes → ℕ
trigger_bits can = get_or can 4 0 / 2 % 8 * 2

-- `all_warning_masks` and `trigger_warning_masks`
unfoldable pub all_warning_data : Bytes → Bytes
unfolding trigger_bits
all_warning_data can =
    0 ∷ 0 ∷ get_or can 2 0 % 2 ∷ 0 ∷ trigger_bits can ∷ 0 ∷ 0 ∷ headway_warning_level can ∷ []

unfoldable pub trigger_data : Bytes → Bytes
unfolding trigger_bits
trigger_data can = 0 ∷ 0 ∷ 0 ∷ 0 ∷ trigger_bits can ∷ 0 ∷ 0 ∷ 0 ∷ []

-- The message that is built is sent.
unfoldable pub upload : Event → App × WarnFrame → AdasRun → AdasRun
upload e (a, f) r = record r {
  app = send Cmd.warning_report (frame_bytes f) a;
  uploadmsg = f;
  reports = e ∷ r.reports;
}

-- `memset(uploadmsg, 0, sizeof(*uploadmsg))`
abbrev pub cleared : WarnFrame
cleared = record {
  warning_id = 0;
  status_flag = 0;
  sound_type = 0;
  info = replicate 5 0;
  car_speed = 0;
  position = replicate 10 0;
  time = replicate 6 0;
  car_status = replicate 2 0;
  mm = [];
}

-- SOUND_TYPE_LLDW is 1, SOUND_TYPE_RLDW is 2; `ldw_type` is the third byte of `info`.
unfoldable pub set_ldw_type : Bytes → WarnFrame → WarnFrame
unfolding left_ldw right_ldw
set_ldw_type can f =
    let g = if left_ldw can then record f { info = set f.info 2 1 } else f in
    if right_ldw can then record g { info = set g.info 2 2 } else g

unfoldable pub upload_ldw : Bytes → AdasRun → AdasRun
unfolding upload set_ldw_type
upload_ldw can r =
    let (a, f) = build_adas_warn_frame Adas.ldw status_none cleared r.app in
    upload ldw (a, set_ldw_type can f) r

unfoldable pub upload_fcw : AdasRun → AdasRun
unfolding upload
upload_fcw r =
    let (a, f) = build_adas_warn_frame Adas.fcw status_none r.uploadmsg r.app in
    upload fcw (a, record f { sound_type = Adas.fcw }) r

unfoldable pub upload_hw_begin : AdasRun → AdasRun
unfolding upload
upload_hw_begin r =
    let s = upload hw_begin (build_adas_warn_frame Adas.hw status_begin r.uploadmsg r.app) r in
    record s { s_start_flag = true }

unfoldable pub upload_hw_end : ℕ → AdasRun → AdasRun
unfolding upload touch_time
upload_hw_end now r =
    let s = upload hw_end (build_adas_warn_frame Adas.hw status_end r.uploadmsg r.app) r in
    record s { s_start_flag = false; hw_alert = touch_time now }

-- The filters in front of a message: by time, which moves the static `last` by `put`, and then by
-- speed, with its `goto out`.
unfoldable pub filtered :
    LocalConfig → ℕ → ℕ → ℕ → (ℕ → AdasRun → AdasRun) → (AdasRun → AdasRun) → AdasRun → AdasRun
filtered c now secs last put message r =
    let (last', pass) = filter_alert_by_time now secs last in
    let s = put last' r in
    if not pass
    then s
    else if not (filter_alert_by_speed c s.app)
    then record s { out = true }
    else message s

abbrev pub put_ldw : ℕ → AdasRun → AdasRun
put_ldw t r = record r { ldw_alert = t }

abbrev pub put_fcw : ℕ → AdasRun → AdasRun
put_fcw t r = record r { fcw_alert = t }

abbrev pub put_hw : ℕ → AdasRun → AdasRun
put_hw t r = record r { hw_alert = t }

-- The times of the parameters, each with the configured time on top.
pub record FilterTimes : Type 0 where
  pub ldw_filter_time : ℕ
  pub fcw_filter_time : ℕ
  pub hw_filter_time : ℕ

unfoldable pub filter_times : LocalConfig → Bytes → FilterTimes
filter_times c para = record {
  ldw_filter_time = get_field para AdasPara.ldw_video_time + c.alert_time_filter;
  fcw_filter_time = get_field para AdasPara.fcw_video_time + c.alert_time_filter;
  hw_filter_time = get_field para AdasPara.hw_video_time + c.alert_time_filter;
}

unfoldable pub ldw_event : LocalConfig → ℕ → FilterTimes → Bytes → AdasRun → AdasRun
unfolding filtered upload_ldw left_ldw right_ldw
ldw_event c now times can r =
    if left_ldw can || right_ldw can
    then filtered c now times.ldw_filter_time r.ldw_alert put_ldw (upload_ldw can) r
    else r

unfoldable pub fcw_event : LocalConfig → ℕ → FilterTimes → Bytes → AdasRun → AdasRun
unfolding filtered upload_fcw fcw_on
fcw_event c now times can r =
    if not r.out && fcw_on can
    then filtered c now times.fcw_filter_time r.fcw_alert put_fcw upload_fcw r
    else r

-- The `if` around both.
unfoldable pub trigger_events : LocalConfig → ℕ → FilterTimes → Bytes → AdasRun → AdasRun
unfolding ldw_event fcw_event trigger_data
trigger_events c now times can r =
    if same_bytes (trigger_data can) r.g_last_trigger_warning || get_or (trigger_data can) 4 0 == 0
    then r
    else fcw_event c now times can (ldw_event c now times can r)

unfoldable pub headway : LocalConfig → ℕ → FilterTimes → Bytes → AdasRun → AdasRun
unfolding filtered upload_hw_begin upload_hw_end
headway c now times can r =
    let level = headway_warning_level can in
    let last = headway_warning_level r.g_last_warning_data in
    if last == level
    then r
    else if level == hw_level_red_car
    then filtered c now times.hw_filter_time r.hw_alert put_hw upload_hw_begin r
    else if last == hw_level_red_car && r.s_start_flag
    then upload_hw_end now r
    else r

-- The part that a `goto out` passes over.
unfoldable pub headway_event : LocalConfig → ℕ → FilterTimes → Bytes → AdasRun → AdasRun
unfolding headway
headway_event c now times can r = if r.out then r else headway c now times can r

unfoldable pub deal_wsi_adas_can700 : LocalConfig → ℕ → Bytes → AdasRun → AdasRun
unfolding headway_event trigger_events all_warning_data trigger_data
deal_wsi_adas_can700 c now can r =
    let times = filter_times c (read_dev_para id_adas r.app.paras []) in
    let s =
      headway_event c now times can (trigger_events c now times can (record r { out = false })) in
    if same_bytes (all_warning_data can) r.g_last_warning_data then r else record s {
      g_last_warning_data = all_warning_data can;
      g_last_trigger_warning = trigger_data can;
      out = false;
    }
