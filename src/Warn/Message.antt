-- ===== src/Warn/Message.antt =====
-- The warning message: AdasWarnFrame and DsmWarnFrame of prot.h, and `get_real_time_msg`.
use sanbao_prot.App.{App, car_speed}
use sanbao_prot.Base.{ℕ, List, [], ◌∷◌, ◌++◌, Bytes, take, drop, length}
use sanbao_prot.Prot.{be32}

-- The packed AdasWarnFrame and DsmWarnFrame: 31 bytes and 5 for each media item. `info` stands for
-- the five bytes forward_car_speed, forward_car_distance, ldw_type, load_type, load_data of the one
-- and FatigueVal, resv[4] of the other, which a caller may leave unset.
pub record WarnFrame : Type 0 where
  pub warning_id : ℕ
  pub status_flag : ℕ
  pub sound_type : ℕ
  pub info : Bytes
  pub car_speed : ℕ
  -- altitude, latitude, longitude: in the byte order in which they came
  pub position : Bytes
  pub time : Bytes
  pub car_status : Bytes
  pub mm : List (ℕ × ℕ)

unfoldable pub media_bytes : List (ℕ × ℕ) → Bytes
unfolding be32
media_bytes [] = []
media_bytes ((type, id) ∷ mm) = type ∷ (be32 id ++ media_bytes mm)

-- The bytes that are sent: `sizeof(*uploadmsg) + mm_num * sizeof(SBMmHeader)` of them.
unfoldable pub frame_bytes : WarnFrame → Bytes
unfolding media_bytes be32
frame_bytes f =
    be32 f.warning_id
    ++ (f.status_flag ∷ f.sound_type ∷ f.info
        ++ (f.car_speed ∷ f.position
            ++ (f.time ++ (f.car_status ++ (length f.mm ∷ media_bytes f.mm)))))

unfoldable pub get_real_time_msg : App → WarnFrame → WarnFrame
get_real_time_msg a f = record f {
  position = take 10 (drop 8 a.real_time);
  car_speed = car_speed a;
  time = take 6 (drop 18 a.real_time);
  car_status = take 2 (drop 24 a.real_time);
}
