-- ===== src/Camera/Orders.antt =====
-- Which task an order becomes.
use sanbao_prot.Base.{ℕ, ◌<◌, ◌≡◌, refl, ap, ◌∙◌, false, ◌==◌, arith}
use sanbao_prot.Camera.{
  photos_and_video, video_user_num, snap_type, user_index, save_media, adas_alert_type_to_index,
  dms_alert_type_to_index,
}
use sanbao_prot.Prot.{Device, adas, dms}
use sanbao_prot.Queue.{InfoForStore}

user_index_bound : (dev : Device) (type : ℕ) → user_index dev type < snap_type dev
unfolding user_index adas_alert_type_to_index dms_alert_type_to_index
user_index_bound adas type = ground arith
user_index_bound dms type = ground arith

snap_index : (dev : Device) → user_index dev (snap_type dev) ≡ video_user_num dev
unfolding user_index adas_alert_type_to_index dms_alert_type_to_index
snap_index adas = refl
snap_index dms = refl

save_own :
    (dev : Device) (mm : InfoForStore)
    → mm.get_another_camera_video ≡ 0
    → save_media dev mm ≡ photos_and_video (user_index dev mm.warn_type)
unfolding save_media
save_own dev mm own =
    let bound = user_index_bound dev mm.warn_type in
    let never : (user_index dev mm.warn_type == snap_type dev) ≡ false = ground arith in
    rw (own, never) refl

-- An order for this camera always becomes a task that also reads the array of video users: the branch
-- for photos alone is never taken, since the index is compared with the number of the warning. For a
-- snapshot, that index is the length of the array, one behind its last element.
pub save_media-snapshot :
    (dev : Device) (mm : InfoForStore)
    → mm.get_another_camera_video ≡ 0
    → (save_media dev mm ≡ photos_and_video (user_index dev mm.warn_type))
      × (save_media dev (record mm { warn_type = snap_type dev })
          ≡ photos_and_video (video_user_num dev))
unfolding save_media
save_media-snapshot dev mm own = (
  save_own dev mm own,
  save_own dev (record mm { warn_type = snap_type dev }) own ∙ ap photos_and_video (snap_index dev),
)
