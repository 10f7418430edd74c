-- ===== src/Warn/Info.antt =====
-- `get_adas_Info_for_store` and `get_dms_Info_for_store` of process.cpp.
use sanbao_prot.Base.{ℕ, not, Bytes, ltb, ◌==◌, ◌&&◌, ◌||◌, if◌then◌else◌}
use sanbao_prot.Field.{Field, get_field}
use sanbao_prot.Para.Adas as AdasPara
use sanbao_prot.Para.Dms as DmsPara
use sanbao_prot.Prot.Adas
use sanbao_prot.Prot.Dms
use sanbao_prot.Queue.{InfoForStore}

-- WARN_SNAP_NUM_MAX, the size of `photo_id`.
abbrev pub warn_snap_num_max : ℕ
warn_snap_num_max = 10

-- The photo and video settings of one kind of warning, and the two flags derived from them.
unfoldable pub fill_info : Bytes → Field → Field → Field → InfoForStore → InfoForStore
fill_info para num period video mm = record mm {
  photo_num = get_field para num;
  photo_time_period = get_field para period;
  video_time = get_field para video;
  video_enable = if get_field para video == 0 then 0 else 1;
  photo_enable =
      if not (get_field para num == 0) && ltb (get_field para num) warn_snap_num_max then 1 else 0;
}

unfoldable pub fill_snap : Bytes → Field → Field → InfoForStore → InfoForStore
fill_snap para num period mm = record mm {
  photo_num = get_field para num;
  photo_time_period = get_field para period;
  photo_enable = 1;
}

unfoldable pub get_adas_info_for_store : ℕ → Bytes → InfoForStore → InfoForStore
unfolding fill_info fill_snap
get_adas_info_for_store type para mm0 =
    let mm = record mm0 { warn_type = type } in
    if type == Adas.fcw
    then fill_info para AdasPara.fcw_photo_num AdasPara.fcw_photo_time_period
        AdasPara.fcw_video_time mm
    else if type == Adas.ldw
    then fill_info para AdasPara.ldw_photo_num AdasPara.ldw_photo_time_period
        AdasPara.ldw_video_time mm
    else if type == Adas.hw
    then fill_info para AdasPara.hw_photo_num AdasPara.hw_photo_time_period AdasPara.hw_video_time
        mm
    else if type == Adas.pcw
    then fill_info para AdasPara.pcw_photo_num AdasPara.pcw_photo_time_period
        AdasPara.pcw_video_time mm
    else if type == Adas.flc
    then fill_info para AdasPara.flc_photo_num AdasPara.flc_photo_time_period
        AdasPara.flc_video_time mm
    else if type == Adas.snap
    then fill_snap para AdasPara.photo_num AdasPara.photo_time_period mm
    else mm

unfoldable pub get_dms_info_for_store : ℕ → Bytes → InfoForStore → InfoForStore
unfolding fill_info fill_snap
get_dms_info_for_store type para mm0 =
    let mm = record mm0 { warn_type = type } in
    if type == Dms.fatigue
    then fill_info para DmsPara.fatigue_photo_num DmsPara.fatigue_photo_interval
        DmsPara.fatigue_video_time mm
    else if type == Dms.calling
    then fill_info para DmsPara.calling_photo_num DmsPara.calling_photo_interval
        DmsPara.calling_video_time mm
    else if type == Dms.smoking
    then fill_info para DmsPara.smoking_photo_num DmsPara.smoking_photo_interval
        DmsPara.smoking_video_time mm
    else if type == Dms.distract
    then fill_info para DmsPara.distraction_photo_num DmsPara.distraction_photo_interval
        DmsPara.distraction_video_time mm
    else if type == Dms.abnormal
    then fill_info para DmsPara.abnormal_photo_num DmsPara.abnormal_photo_interval
        DmsPara.abnormal_video_time mm
    else if type == Dms.driver_change || type == Dms.snapshot
    then fill_snap para DmsPara.photo_num DmsPara.photo_time_period mm
    else mm
