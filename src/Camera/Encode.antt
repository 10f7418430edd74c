-- ===== src/Camera/Encode.antt =====
-- The thread that makes photos of the camera's frames, rb_rw.cpp: `encode_process`,
-- `EncodeRingBufWrite`, the loop of `pthread_encode_jpeg`, and `GetConfigResolution`. What the ring
-- buffers answer is a list.
pub mod Picks
use sanbao_prot.Base.{
  ℕ, ◌+◌, ◌%◌, ◌^◌, Bool, true, false, List, [], ◌∷◌, ◌++◌, Bytes, get_or, ◌==◌, if◌then◌else◌,
}
use sanbao_prot.Field.{get_field}
use sanbao_prot.Para.Adas as AdasPara
use sanbao_prot.Para.Dms as DmsPara
use sanbao_prot.Para.{Paras, read_dev_para}
use sanbao_prot.Prot.{Device, adas, dms, id_adas, id_dms}

-- `RequestReadFrame` at the latest frame: no valid address, a frame without data or size, or a frame
-- with its number.
pub data Raw : Type 0 where
  invalid exhausted : Raw
  numbered : ℕ → Raw

-- A frame in the ring buffer of photos: the frame of the camera that it was made of, and its numbers.
pub record Photo : Type 0 where
  pub source : ℕ
  pub frame_idx : ℕ
  pub frame_no : ℕ

-- The statics of the two functions, and the ring buffer, the latest first.
pub record Encoder : Type 0 where
  pub framecnt_old : ℕ
  pub m_frame_idx : ℕ
  pub photos : List Photo

-- `room` is whether `RequestWriteFrame` gives an address.
unfoldable pub encode_ring_buf_write : Bool → ℕ → Encoder → Encoder
encode_ring_buf_write room source e =
    if room
    then (let next = (e.m_frame_idx + 1) % 2 ^ 64 in
        record e {
          m_frame_idx = next;
          photos =
              record { source = source; frame_idx = e.m_frame_idx; frame_no = next } ∷ e.photos;
        })
    else e

-- What the program sees of a frame, and whether there is room for the two photos of it.
pub record Round : Type 0 where
  pub raw : Raw
  pub room : Bool × Bool

-- `encode_process` behind its loop: two photos of the frame.
unfoldable pub encode_frame : Bool × Bool → ℕ → Encoder → Encoder
unfolding encode_ring_buf_write
encode_frame (room, room') n e =
    encode_ring_buf_write room' n (encode_ring_buf_write room n (record e { framecnt_old = n }))

-- A round of the loop of `encode_process`: frames that were seen already are passed over, and every
-- third one is.
unfoldable pub encode_round : Round → Encoder → Encoder
unfolding encode_frame
encode_round r e = elim r.raw [
  | invalid ↦ e
  | exhausted ↦ e
  | numbered n ↦
      if n == e.framecnt_old
      then e
      else if n % 3 == 0
      then record e { framecnt_old = n }
      else encode_frame r.room n e
]

-- The thread calls `encode_process` again and again.
unfoldable pub encode_jpeg : List Round → Encoder → Encoder
unfolding encode_round
encode_jpeg [] e = e
encode_jpeg (r ∷ rs) e = encode_jpeg rs (encode_round r e)

abbrev pub config_resolution : List (ℕ × ℕ)
config_resolution =
    (352, 288) ∷ (352, 288) ∷ (704, 288) ∷ (704, 576) ∷ (640, 480) ∷ (1280, 720) ∷ (1920, 1080) ∷ []

unfoldable pub get_config_resolution : Device → Paras → ℕ × ℕ
get_config_resolution adas s =
    let index = get_field (read_dev_para id_adas s []) AdasPara.image_resolution % 6 in
    get_or config_resolution index (0, 0)
get_config_resolution dms s =
    let index = get_field (read_dev_para id_dms s []) DmsPara.image_resolution % 6 in
    get_or config_resolution index (0, 0)
