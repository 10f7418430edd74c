-- ===== src/Camera.antt =====
-- The media thread, rb_rw.cpp: `adas_alert_type_to_index`, `dms_alert_type_to_index`, the
-- configuration of the encoders, `store_jpegs` and `store_jpeg`, `record_video_media`, and what
-- `pthread_save_media` does with an order. The encoder and the recorder are libraries: a call of
-- theirs is a value in a list.
pub mod Config
pub mod Photos
pub mod Orders
pub mod Encode
use sanbao_prot.Base.{
  ℕ, zero, suc, ◌+◌, ◌-◌, ◌*◌, ◌%◌, ◌^◌, Bool, true, false, not, List, [], ◌∷◌, ◌++◌, Option, none,
  some, Bytes, get_or, length, ltb, leb, ◌==◌, ◌&&◌, if◌then◌else◌,
}
use sanbao_prot.Field.{get_field}
use sanbao_prot.Para.Adas as AdasPara
use sanbao_prot.Prot.Adas
use sanbao_prot.Prot.Dms
use sanbao_prot.Prot.{Device, adas, dms}
use sanbao_prot.Queue.{InfoForStore}

unfoldable pub adas_alert_type_to_index : ℕ → ℕ
adas_alert_type_to_index type =
    if type == Adas.fcw
    then 0
    else if type == Adas.ldw
    then 1
    else if type == Adas.hw
    then 2
    else if type == Adas.snap
    then 3
    else 0

unfoldable pub dms_alert_type_to_index : ℕ → ℕ
dms_alert_type_to_index type =
    if type == Dms.fatigue
    then 0
    else if type == Dms.calling
    then 1
    else if type == Dms.smoking
    then 2
    else if type == Dms.distract
    then 3
    else if type == Dms.abnormal
    then 4
    else if type == Dms.driver_change
    then 5
    else if type == Dms.snapshot
    then 5
    else 0

-- Widths and heights; the entry for the value `v` of a parameter is the one at `v - 1`.
abbrev pub adas_reslution : List (ℕ × ℕ)
adas_reslution =
    (352, 288) ∷ (704, 288) ∷ (704, 576) ∷ (960, 576) ∷ (640, 480) ∷ (1280, 720) ∷ (1920, 1080) ∷ []

abbrev pub dms_reslution : List (ℕ × ℕ)
dms_reslution = (352, 288) ∷ (704, 288) ∷ (704, 576) ∷ (960, 576) ∷ (1280, 720) ∷ (1920, 1080) ∷ []

abbrev pub image_reslution : List (ℕ × ℕ)
image_reslution =
    (352, 288) ∷ (704, 288) ∷ (704, 576) ∷ (640, 480) ∷ (1280, 720) ∷ (1920, 1080) ∷ []

-- The calls of the ma_api functions for one camera: widths, heights, and a rate or frames a second.
pub data Call : Type 0 where
  record_stop record_start jpeg_enc_stop jpeg_enc_start : Call
  record_configure : ℕ → ℕ → ℕ → Call
  jpeg_enc_configure : ℕ → ℕ → ℕ → Call

-- The static `s_type`.
pub record Types : Type 0 where
  pub video : ℕ
  pub image : ℕ

-- `index > 0 && index <= sizeof(table)/sizeof(table[0])`
unfoldable pub in_table : ℕ → List (ℕ × ℕ) → Bool
in_table index table = ltb 0 index && leb index (length table)

unfoldable pub config_video : List (ℕ × ℕ) → List ℕ → ℕ → Types → List Call
config_video table rates index1 s =
    let (w, h) = get_or table (index1 - 1) (0, 0) in
    if not (s.video == index1) && in_table index1 table
    then record_stop
      ∷ record_configure w h (get_or rates (index1 - 1) 0 * 1024 % 2 ^ 32)
      ∷ record_start
      ∷ []
    else []

unfoldable pub config_image : ℕ → ℕ → Types → List Call
config_image fps index2 s =
    let (w, h) = get_or image_reslution (index2 - 1) (0, 0) in
    if not (s.image == index2) && in_table index2 image_reslution
    then jpeg_enc_stop ∷ jpeg_enc_configure w h fps ∷ jpeg_enc_start ∷ []
    else []

-- Both functions, which differ in the camera, the table and the rates. The two members of the
-- parameters stand at the same offsets in both structures.
unfoldable pub config_video_resolution :
    List (ℕ × ℕ) → List ℕ → ℕ → Bytes → Types → List Call × Types
unfolding config_video config_image
config_video_resolution table rates fps para s =
    let index1 = get_field para AdasPara.video_resolution in
    let index2 = get_field para AdasPara.image_resolution in
    (
      config_video table rates index1 s ++ config_image fps index2 s,
      record {
        video = if in_table index1 table then index1 else s.video;
        image = if in_table index2 image_reslution then index2 else s.image;
      },
    )

unfoldable pub config_adas_video_resolution : List ℕ → ℕ → Bytes → Types → List Call × Types
unfolding config_video_resolution
config_adas_video_resolution rates fps para s =
    config_video_resolution adas_reslution rates fps para s

unfoldable pub config_dms_video_resolution : List ℕ → ℕ → Bytes → Types → List Call × Types
unfolding config_video_resolution
config_dms_video_resolution rates fps para s =
    config_video_resolution dms_reslution rates fps para s

-- The photos of an order. Each round asks the ring buffer once: it gives no frame, or one with its
-- time in microseconds. A photo is `photo_id[index]` with the time of its frame; the list of frames
-- that is used up stands for a camera that gives none any more.
pub record Shooting : Type 0 where
  pub jpeg_index : ℕ
  pub old_pts : ℕ
  -- The latest first. A photo whose file cannot be written counts too, since `write_one_jpeg` only
  -- logs the failure.
  pub photos : List (ℕ × ℕ)

unfoldable pub photo_interval : InfoForStore → ℕ
photo_interval mm = mm.photo_time_period * 100 * 1000

unfoldable pub take_photo : InfoForStore → Option ℕ → Shooting → Shooting
unfolding photo_interval
take_photo mm none s = s
take_photo mm (some pts) s =
    if ltb (s.old_pts + photo_interval mm) pts
    then record {
      jpeg_index = s.jpeg_index + 1;
      old_pts = pts;
      photos = (get_or mm.photo_id s.jpeg_index 0, pts) ∷ s.photos;
    }
    else s

-- The rounds of the `do`; whether its condition ended it.
unfoldable pub photo_rounds : InfoForStore → List (Option ℕ) → Shooting → Shooting × Bool
unfolding take_photo
photo_rounds mm [] s = (s, false)
photo_rounds mm (frame ∷ frames) s =
    let t = take_photo mm frame s in
    let rest = photo_rounds mm frames t in if ltb t.jpeg_index mm.photo_num then rest else (t, true)

unfoldable pub store_jpegs : InfoForStore → List (Option ℕ) → Shooting × Bool
unfolding photo_rounds
store_jpegs mm frames =
    let s : Shooting = record { jpeg_index = 0; old_pts = 0; photos = [] } in
    if mm.photo_enable == 0 then (s, true) else photo_rounds mm frames s

-- ma_api_record_write_mp4 of a camera for a file's id: so many seconds back from now, and so long.
pub record Mp4 : Type 0 where
  pub camera_dev : Device
  pub video_id : ℕ
  pub seek_back : ℕ
  pub videotime : ℕ

unfoldable pub record_video_media : Device → InfoForStore → Option Mp4
record_video_media camera_dev info =
    if info.video_enable == 0
    then none
    else some (record {
      camera_dev = camera_dev;
      video_id = get_or info.video_id 0 0;
      seek_back = info.video_time;
      videotime = 2 * info.video_time;
    })

-- What an order becomes: photos only, photos and a video under the user of an index of the array of
-- video users, or a video of the other camera under the related user of an index.
pub data Task : Type 0 where
  photos_only : ℕ → Task
  photos_and_video : ℕ → Task
  other_video : ℕ → Task

-- ADAS_VIDEO_USER_NUM and DMS_VIDEO_USER_NUM, the lengths of the arrays of video users.
abbrev pub video_user_num : Device → ℕ
video_user_num adas = 3
video_user_num dms = 5

-- The numbers with which `user_index` is compared.
abbrev pub snap_type : Device → ℕ
snap_type adas = Adas.snap
snap_type dms = Dms.snapshot

unfoldable pub user_index : Device → ℕ → ℕ
unfolding adas_alert_type_to_index dms_alert_type_to_index
user_index adas type = adas_alert_type_to_index type
user_index dms type = dms_alert_type_to_index type

unfoldable pub save_media : Device → InfoForStore → Task
unfolding user_index
save_media dev mm =
    let index = user_index dev mm.warn_type in
    if not (mm.get_another_camera_video == 0)
    then other_video index
    else if index == snap_type dev
    then photos_only index
    else photos_and_video index
