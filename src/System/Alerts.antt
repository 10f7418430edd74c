-- ===== src/System/Alerts.antt =====
-- Warnings and snapshots keep the shared state sound.
use sanbao_prot.App.{App, remove_file}
use sanbao_prot.Base.{ℕ, ◌-◌, Bool, refl, List, [], ◌∷◌, take, ltb, ◌==◌, ◌||◌, if_both}
use sanbao_prot.Para.{read_dev_para}
use sanbao_prot.Prot.Adas
use sanbao_prot.Prot.Cmd
use sanbao_prot.Prot.Dms
use sanbao_prot.Prot.{Device, adas, dms, id_adas, id_dms}
use sanbao_prot.Queue.{InfoForStore}
use sanbao_prot.System.Sending.{same-IsSound, send-IsSound, push_mm_queue-IsSound}
use sanbao_prot.System.{IsSound, Keeps}
use sanbao_prot.Warn.Media.{
  save_media_num_max, clear_old, clear_cur, clear_old_media_file, add_photos, add_video,
  store_media, add_another_video, warn_media, snap_media,
}
use sanbao_prot.Warn.Message.{WarnFrame}
use sanbao_prot.Send.{blank_mm}
use sanbao_prot.Warn.Info.{get_adas_info_for_store, get_dms_info_for_store}
use sanbao_prot.Warn.{
  status_none, status_begin, status_end, is_adas_warning, is_dms_warning, adas_media, dms_media,
  start_frame, build_adas_warn_frame, build_dms_warn_frame, snap_frame, do_snap_shot,
}

-- The state in a result.
abbrev Sound0 : Bool → App × WarnFrame → Type 0
Sound0 up p = IsSound up p.0

abbrev SoundMedia : Bool → App × InfoForStore × WarnFrame → Type 0
SoundMedia up p = IsSound up p.0

remove_file-IsSound : (id : ℕ) → Keeps (remove_file id)
unfolding remove_file
remove_file-IsSound id up a h = same-IsSound up a _ h refl refl refl refl

clear_old-IsSound : (ids : List ℕ) → Keeps (clear_old ids)
unfolding clear_old
clear_old-IsSound [] up a h = h
clear_old-IsSound (id ∷ ids) up a h = clear_old-IsSound ids up _ (
    if_both (IsSound up) (ltb save_media_num_max id)
      (remove_file-IsSound (id - save_media_num_max) up a h) h)

clear_cur-IsSound : (ids : List ℕ) → Keeps (clear_cur ids)
unfolding clear_cur
clear_cur-IsSound [] up a h = h
clear_cur-IsSound (id ∷ ids) up a h = clear_cur-IsSound ids up _ (remove_file-IsSound id up a h)

clear_both : (ids : List ℕ) → Keeps (λ a. clear_cur ids (clear_old ids a))
clear_both ids up a h = clear_cur-IsSound ids up _ (clear_old-IsSound ids up a h)

clear_old_media_file-IsSound : (mm : InfoForStore) → Keeps (clear_old_media_file mm)
unfolding clear_old_media_file
clear_old_media_file-IsSound mm up a h =
    let b =
      if_both (IsSound up) (mm.photo_enable == 0) h
        (clear_both (take mm.photo_num mm.photo_id) up a h) in
    if_both (IsSound up) (mm.video_enable == 0) b (clear_both (take 1 mm.video_id) up _ b)

store_media-IsSound : (another : ℕ) (mm : InfoForStore) → Keeps (store_media another mm)
unfolding store_media
store_media-IsSound another mm up a h =
    let mm' = record mm { get_another_camera_video = another } in
    push_mm_queue-IsSound mm' _ up _ (clear_old_media_file-IsSound mm' up a h)

add_photos-IsSound : (mm : InfoForStore) (f : WarnFrame) → Keeps (λ a. (add_photos a mm f).0)
unfolding add_photos
add_photos-IsSound mm f up a h =
    if_both (SoundMedia up) (mm.photo_enable == 0) h (same-IsSound up a _ h refl refl refl refl)

add_video-IsSound : (mm : InfoForStore) (f : WarnFrame) → Keeps (λ a. (add_video a mm f).0)
unfolding add_video
add_video-IsSound mm f up a h =
    if_both (SoundMedia up) (mm.video_enable == 0) h (same-IsSound up a _ h refl refl refl refl)

add_another_video-IsSound :
    (mm : InfoForStore) (f : WarnFrame) → Keeps (λ a. (add_another_video a mm f).0)
unfolding add_another_video
add_another_video-IsSound mm f up a h =
    let mm' = record mm { video_enable = 1; photo_enable = 0 } in
    if_both (Sound0 up) (mm.video_enable == 0) h
      (store_media-IsSound 1 (add_video a mm' f).1 up _ (add_video-IsSound mm' f up a h))

warn_media-IsSound : (mm : InfoForStore) (f : WarnFrame) → Keeps (λ a. (warn_media a mm f).0)
unfolding warn_media
warn_media-IsSound mm f up a h =
    let p = add_photos a mm f in
    let q = add_video p.0 p.1 p.2 in
    add_another_video-IsSound q.1 q.2 up _ (
      store_media-IsSound 0 q.1 up _
        (add_video-IsSound p.1 p.2 up _ (add_photos-IsSound mm f up a h)))

snap_media-IsSound : (mm : InfoForStore) (f : WarnFrame) → Keeps (λ a. (snap_media a mm f).0)
unfolding snap_media
snap_media-IsSound mm f up a h =
    if_both (Sound0 up) (mm.photo_enable == 0) h
      (store_media-IsSound 0 (add_photos a mm f).1 up _ (add_photos-IsSound mm f up a h))

adas_media-IsSound :
    (type : ℕ) (mm : InfoForStore) (f : WarnFrame) → Keeps (λ a. (adas_media type a mm f).0)
unfolding adas_media
adas_media-IsSound type mm f up a h =
    if_both (Sound0 up) (is_adas_warning type) (warn_media-IsSound mm f up a h)
      (if_both (Sound0 up) (type == Adas.snap) (snap_media-IsSound mm f up a h) h)

dms_media-IsSound :
    (type : ℕ) (mm : InfoForStore) (f : WarnFrame) → Keeps (λ a. (dms_media type a mm f).0)
unfolding dms_media
dms_media-IsSound type mm f up a h =
    if_both (Sound0 up) (is_dms_warning type) (warn_media-IsSound mm f up a h) (
      if_both (Sound0 up) (type == Dms.driver_change || type == Dms.snapshot)
        (snap_media-IsSound mm f up a h) h)

start_frame-IsSound :
    (type status : ℕ) (f : WarnFrame) → Keeps (λ a. (start_frame type status f a).0)
unfolding start_frame
start_frame-IsSound type status f up a h = same-IsSound up a _ h refl refl refl refl

pub build_adas_warn_frame-IsSound :
    (type status : ℕ) (f : WarnFrame) → Keeps (λ a. (build_adas_warn_frame type status f a).0)
unfolding build_adas_warn_frame
build_adas_warn_frame-IsSound type status f up a h =
    let b = start_frame-IsSound type status f up a h in
    let mm = get_adas_info_for_store type (read_dev_para id_adas a.paras []) blank_mm in
    let s = start_frame type status f a in
    let d = adas_media type s.0 mm s.1 in
    let c = adas_media-IsSound type mm s.1 up s.0 b in
    if_both (Sound0 up) (status == status_end) {x = (s.0, record s.1 { mm = s.0.media_begin })} b (
      if_both (Sound0 up) (status == status_begin) {x = (record d.0 { media_begin = d.1.mm }, d.1)}
        {y = d} (same-IsSound up d.0 _ c refl refl refl refl) c)

pub build_dms_warn_frame-IsSound :
    (type status : ℕ) (f : WarnFrame) → Keeps (λ a. (build_dms_warn_frame type status f a).0)
unfolding build_dms_warn_frame
build_dms_warn_frame-IsSound type status f up a h =
    let b = start_frame-IsSound type status f up a h in
    let mm = get_dms_info_for_store type (read_dev_para id_dms a.paras []) blank_mm in
    let s = start_frame type status f a in
    if_both (Sound0 up) (status == status_begin) {x = s} {y = dms_media type s.0 mm s.1} b
      (dms_media-IsSound type mm s.1 up s.0 b)

snap_frame-IsSound : (dev : Device) (f : WarnFrame) → Keeps (λ a. (snap_frame dev f a).0)
unfolding snap_frame
snap_frame-IsSound adas f = build_adas_warn_frame-IsSound Adas.snap status_none f
snap_frame-IsSound dms f = build_dms_warn_frame-IsSound Dms.snapshot status_none f

pub do_snap_shot-IsSound : (f : WarnFrame) → Keeps (do_snap_shot f)
unfolding do_snap_shot
do_snap_shot-IsSound f up a h =
    send-IsSound Cmd.warning_report _ up _ (snap_frame-IsSound a.dev f up a h)
