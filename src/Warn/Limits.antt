-- ===== src/Warn/Limits.antt =====
-- Sizes: how many photos a warning asks for, and how long its message is.
use sanbao_prot.App.{App, real_time_size, car_speed}
use sanbao_prot.Base.{
  ℕ, ◌+◌, ◌*◌, ◌≤◌, ◌<◌, ◌≡◌, ◌≢◌, refl, List, [], ◌∷◌, ◌++◌, Bytes, IsByte, All, length, take,
  drop, length-append, length-take, length-drop, arith,
}
use sanbao_prot.Field.Laws.{In, here, there}
use sanbao_prot.Field.{get_field, Rule}
use sanbao_prot.Para.Adas as AdasPara
use sanbao_prot.Para.Dms as DmsPara
use sanbao_prot.Para.WriteAdas.{write_dev_para-adas_bounds}
use sanbao_prot.Para.WriteDms.{write_dev_para-dms_unchecked}
use sanbao_prot.Para.{Paras, read_dev_para, write_dev_para}
use sanbao_prot.Prot.Dms
use sanbao_prot.Prot.{id_adas, id_dms, be32}
use sanbao_prot.Queue.{InfoForStore}
use sanbao_prot.Warn.Info.{
  warn_snap_num_max, fill_info, fill_snap, get_adas_info_for_store, get_dms_info_for_store,
}
use sanbao_prot.Warn.Message.{WarnFrame, media_bytes, frame_bytes, get_real_time_msg}

abbrev photo_num_rule : Rule
photo_num_rule = record { field = AdasPara.photo_num; lo = 1; hi = 10; fallback = 3 }

photo_num-In : In photo_num_rule AdasPara.rules
photo_num-In = there (there (there (there (there here))))

-- What a warning asks for, with the parameters that a write leaves.
abbrev pub adas_info : ℕ → Bytes → Paras → InfoForStore → InfoForStore
adas_info type inn s =
    get_adas_info_for_store type (read_dev_para id_adas (write_dev_para id_adas inn s) [])

abbrev pub dms_info : ℕ → Bytes → Paras → InfoForStore → InfoForStore
dms_info type inn s =
    get_dms_info_for_store type (read_dev_para id_dms (write_dev_para id_dms inn s) [])

-- Whatever ADAS parameters were written last, a warning or snapshot that asks for photos asks for
-- no more of them than there is room for ids.
pub get_adas_info_for_store-photo_num :
    (type : ℕ) (inn : Bytes) (s : Paras) (mm : InfoForStore)
    → length s.adas_para ≡ 50
    → All IsByte inn
    → mm.photo_enable ≡ 0
    → (adas_info type inn s mm).photo_enable ≢ 0
    → (adas_info type inn s mm).photo_num ≤ warn_snap_num_max
unfolding read_dev_para get_adas_info_for_store fill_info fill_snap
get_adas_info_for_store-photo_num type inn s mm size bytes off on =
    let (_, most) = write_dev_para-adas_bounds photo_num-In inn s size bytes in
    ground (arith, most, off, on)

abbrev dms_photo_num_rule : Rule
dms_photo_num_rule = record { field = DmsPara.photo_num; lo = 1; hi = 10; fallback = 3 }

dms_photo_num-In : In dms_photo_num_rule DmsPara.rules
dms_photo_num-In = there (there (there (there (there here))))

-- DMS parameters that ask for more than 10 photos, but not 255, are stored, and the next snapshot
-- then asks for more photos than there is room for ids.
pub get_dms_info_for_store-overflow :
    (inn : Bytes) (s : Paras) (mm : InfoForStore)
    → length s.dms_para ≡ 43
    → All IsByte inn
    → 10 < get_field inn DmsPara.photo_num
    → get_field inn DmsPara.photo_num ≢ 255
    → ((dms_info Dms.snapshot inn s mm).photo_enable ≡ 1)
      × (warn_snap_num_max < (dms_info Dms.snapshot inn s mm).photo_num)
unfolding read_dev_para get_dms_info_for_store fill_snap
get_dms_info_for_store-overflow inn s mm size bytes over ne =
    (refl, write_dev_para-dms_unchecked dms_photo_num-In inn s size bytes over ne)

length-media_bytes : (mm : List (ℕ × ℕ)) → length (media_bytes mm) ≡ 5 * length mm
unfolding media_bytes be32
length-media_bytes [] = refl
length-media_bytes (m ∷ mm) = omega (arith, length-media_bytes mm)

-- With whole real-time data and the five bytes of its own kind, a message is 31 bytes and 5 for
-- each media item long.
pub length-frame_bytes :
    (a : App) (f : WarnFrame)
    → length a.real_time ≡ real_time_size
    → length f.info ≡ 5
    → length (frame_bytes (get_real_time_msg a f)) ≡ 31 + 5 * length f.mm
unfolding frame_bytes be32 get_real_time_msg
length-frame_bytes a f whole info =
    let position = take 10 (drop 8 a.real_time) in
    let time = take 6 (drop 18 a.real_time) in
    let car_status = take 2 (drop 24 a.real_time) in
    let media = length f.mm ∷ media_bytes f.mm in
    omega (
      arith,
      whole,
      info,
      length-append f.info (car_speed a ∷ (position ++ (time ++ (car_status ++ media)))),
      length-append position (time ++ (car_status ++ media)),
      length-append time (car_status ++ media),
      length-append car_status media,
      length-take 10 (drop 8 a.real_time),
      length-drop 8 a.real_time,
      length-take 6 (drop 18 a.real_time),
      length-drop 18 a.real_time,
      length-take 2 (drop 24 a.real_time),
      length-drop 24 a.real_time,
      length-media_bytes f.mm,
    )
