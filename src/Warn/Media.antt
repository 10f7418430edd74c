-- ===== src/Warn/Media.antt =====
-- The photos and videos of a warning: `clear_old_media_file`, and the media parts of
-- `build_adas_warn_frame` and `build_dms_warn_frame`.
use sanbao_prot.App.{App, remove_file}
use sanbao_prot.Base.{ℕ, ◌-◌, List, [], ◌∷◌, ◌++◌, take, ltb, ◌==◌, if◌then◌else◌}
use sanbao_prot.Prot.{mm_photo, mm_video}
use sanbao_prot.Queue.{InfoForStore, push_mm_queue}
use sanbao_prot.Serial.{next_mm_ids}
use sanbao_prot.Warn.Message.{WarnFrame}

-- SAVE_MEDIA_NUM_MAX
abbrev pub save_media_num_max : ℕ
save_media_num_max = 1000

-- One id of the loops of `clear_old_media_file`: first the file 1000 ids back, if there is one.
unfoldable pub clear_old : List ℕ → App → App
clear_old [] a = a
clear_old (id ∷ ids) a =
    clear_old ids (if ltb save_media_num_max id then remove_file (id - save_media_num_max) a else a)

unfoldable pub clear_cur : List ℕ → App → App
clear_cur [] a = a
clear_cur (id ∷ ids) a = clear_cur ids (remove_file id a)

unfoldable pub clear_old_media_file : InfoForStore → App → App
unfolding clear_old clear_cur
clear_old_media_file mm a =
    let photos = take mm.photo_num mm.photo_id in
    let video = take 1 mm.video_id in
    let b = if mm.photo_enable == 0 then a else clear_cur photos (clear_old photos a) in
    if mm.video_enable == 0 then b else clear_cur video (clear_old video b)

abbrev pub items : ℕ → List ℕ → List (ℕ × ℕ)
items type [] = []
items type (id ∷ ids) = (type, id) ∷ items type ids

-- `if(mm.photo_enable)`: ids for the photos, and their items in the frame.
unfoldable pub add_photos : App → InfoForStore → WarnFrame → App × InfoForStore × WarnFrame
add_photos a mm f =
    if mm.photo_enable == 0
    then (a, mm, f)
    else (let (ids, photo_id) = next_mm_ids mm.photo_num a.ids in
        (
          record a { ids = ids },
          record mm { photo_id = photo_id },
          record f { mm = f.mm ++ items mm_photo photo_id },
        ))

-- `if(mm.video_enable)`: an id for the video, and its item in the frame.
unfoldable pub add_video : App → InfoForStore → WarnFrame → App × InfoForStore × WarnFrame
add_video a mm f =
    if mm.video_enable == 0
    then (a, mm, f)
    else (let (ids, video_id) = next_mm_ids 1 a.ids in
        (
          record a { ids = ids },
          record mm { video_id = video_id },
          record f { mm = f.mm ++ items mm_video video_id },
        ))

-- The old files are removed and the media are ordered from the saving thread.
unfoldable pub store_media : ℕ → InfoForStore → App → App
store_media another mm a =
    let mm' = record mm { get_another_camera_video = another } in
    let b = clear_old_media_file mm' a in
    record b { image_queue = push_mm_queue b.image_queue mm' b.mem.header }

-- SAVE_ANOTHER_CAMERA_VIDEO: a second video, from the other camera.
unfoldable pub add_another_video : App → InfoForStore → WarnFrame → App × WarnFrame
unfolding add_video store_media
add_another_video a mm f =
    if mm.video_enable == 0
    then (a, f)
    else (let (b, mm', f') = add_video a (record mm { video_enable = 1; photo_enable = 0 }) f in
        (store_media 1 mm' b, f'))

-- The media of a driving or driver warning.
unfoldable pub warn_media : App → InfoForStore → WarnFrame → App × WarnFrame
unfolding add_photos add_video store_media add_another_video
warn_media a mm f =
    let (b, mm1, f1) = add_photos a mm f in
    let (c, mm2, f2) = add_video b mm1 f1 in add_another_video (store_media 0 mm2 c) mm2 f2

-- The photos of a snapshot.
unfoldable pub snap_media : App → InfoForStore → WarnFrame → App × WarnFrame
unfolding add_photos store_media
snap_media a mm f =
    if mm.photo_enable == 0
    then (a, f)
    else (let (b, mm1, f1) = add_photos a mm f in (store_media 0 mm1 b, f1))
