-- ===== src/Warn.antt =====
-- Warning messages, process.cpp: `get_adas_Info_for_store`, `get_dms_Info_for_store`,
-- `clear_old_media_file`, `get_real_time_msg`, `build_adas_warn_frame`, `build_dms_warn_frame` and
-- `do_snap_shot`. The local time that they format goes to the log only: the time of the message is
-- overwritten with that of the real-time data.
pub mod Info
pub mod Message
pub mod Media
pub mod Limits
use sanbao_prot.App.{App, send, car_speed, remove_file}
use sanbao_prot.Base.{
  ℕ, zero, suc, ◌+◌, ◌-◌, Bool, true, false, not, List, [], ◌∷◌, ◌++◌, Bytes, get_or, take, drop,
  length, ltb, ◌==◌, ◌&&◌, ◌||◌, if◌then◌else◌,
}
use sanbao_prot.Field.{Field, get_field}
use sanbao_prot.Para.{read_dev_para}
use sanbao_prot.Para.Adas as AdasPara
use sanbao_prot.Para.Dms as DmsPara
use sanbao_prot.Prot.Adas
use sanbao_prot.Prot.Dms
use sanbao_prot.Prot.Cmd
use sanbao_prot.Prot.{Device, adas, dms, id_adas, id_dms, be32, mm_photo, mm_video}
use sanbao_prot.Queue.{InfoForStore, push_mm_queue}
use sanbao_prot.Send.{blank_mm}
use sanbao_prot.Serial.{next_warning_id, next_mm_ids}
use Info.{get_adas_info_for_store, get_dms_info_for_store}
use Message.{WarnFrame, get_real_time_msg, frame_bytes}
use Media.{warn_media, snap_media}

-- SB_WARN_STATUS_NONE, BEGIN and END
abbrev pub status_none : ℕ
status_none = 0

abbrev pub status_begin : ℕ
status_begin = 1

abbrev pub status_end : ℕ
status_end = 2

unfoldable pub is_adas_warning : ℕ → Bool
is_adas_warning type =
    type == Adas.fcw || type == Adas.ldw || type == Adas.hw || type == Adas.pcw || type == Adas.flc

unfoldable pub is_dms_warning : ℕ → Bool
is_dms_warning type =
    type == Dms.fatigue
    || type == Dms.calling
    || type == Dms.smoking
    || type == Dms.distract
    || type == Dms.abnormal

unfoldable pub adas_media : ℕ → App → InfoForStore → WarnFrame → App × WarnFrame
unfolding warn_media snap_media is_adas_warning
adas_media type a mm f =
    if is_adas_warning type
    then warn_media a mm f
    else if type == Adas.snap
    then snap_media a mm f
    else (a, f)

unfoldable pub dms_media : ℕ → App → InfoForStore → WarnFrame → App × WarnFrame
unfolding warn_media snap_media is_dms_warning
dms_media type a mm f =
    if is_dms_warning type
    then warn_media a mm f
    else if type == Dms.driver_change || type == Dms.snapshot
    then snap_media a mm f
    else (a, f)

-- The part of both functions above the media.
unfoldable pub start_frame : ℕ → ℕ → WarnFrame → App → App × WarnFrame
unfolding get_real_time_msg
start_frame type status f a =
    let (ids, id) = next_warning_id a.ids in
    (
      record a { ids = ids },
      get_real_time_msg a
          (record f { status_flag = status; warning_id = id; sound_type = type; mm = [] }),
    )

-- A message that ends a warning repeats the media items of the one that began it.
unfoldable pub build_adas_warn_frame : ℕ → ℕ → WarnFrame → App → App × WarnFrame
unfolding start_frame adas_media
build_adas_warn_frame type status f a =
    let mm = get_adas_info_for_store type (read_dev_para id_adas a.paras []) blank_mm in
    let (b, f1) = start_frame type status f a in
    if status == status_end
    then (b, record f1 { mm = b.media_begin })
    else (let (c, f2) = adas_media type b mm f1 in
        if status == status_begin then (record c { media_begin = f2.mm }, f2) else (c, f2))

unfoldable pub build_dms_warn_frame : ℕ → ℕ → WarnFrame → App → App × WarnFrame
unfolding start_frame dms_media
build_dms_warn_frame type status f a =
    let mm = get_dms_info_for_store type (read_dev_para id_dms a.paras []) blank_mm in
    let (b, f1) = start_frame type status f a in
    if status == status_begin then (b, f1) else dms_media type b mm f1

-- What the stack buffer `msgbuf` holds before the frame is built is the argument `f`.
unfoldable pub snap_frame : Device → WarnFrame → App → App × WarnFrame
snap_frame adas f a = build_adas_warn_frame Adas.snap status_none f a
snap_frame dms f a = build_dms_warn_frame Dms.snapshot status_none f a

unfoldable pub do_snap_shot : WarnFrame → App → App
unfolding snap_frame frame_bytes
do_snap_shot f a = let (b, f') = snap_frame a.dev f a in send Cmd.warning_report (frame_bytes f') b
