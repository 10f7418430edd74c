-- ===== src/App.antt =====
-- The state that the threads of process.cpp share, and the small accessors on it:
-- `RealTimeDdata_process`, `heart_beat_process`, `notice_ack_msg` and the sends. The mutexes make
-- each accessor one step.
use sanbao_prot.Base.{
  ℕ, Bool, true, List, ◌++◌, Option, none, Bytes, get_or, take, drop, length, ◌==◌, if◌then◌else◌,
}
use sanbao_prot.Para.{Paras, ParaFile}
use sanbao_prot.Prot.{Device}
use sanbao_prot.Queue.{Node}
use sanbao_prot.Resource.{MmInfo}
use sanbao_prot.Send.{Sender, Memory, message_queue_send}
use sanbao_prot.Serial.{Ids}

-- The media files of SNAP_SHOT_JPEG_PATH by id: `mmid_to_filename` makes the name from the id alone.
abbrev pub Disk : Type 0
Disk = ℕ → Option Bytes

-- `g_pkg_status`: the file transfer that is under way.
pub record PkgStatus : Type 0 where
  pub mm_type : ℕ
  pub mm_id : ℕ
  pub packet_total_num : ℕ
  pub packet_index : ℕ
  pub mm_data_trans_waiting : Bool

-- The statics of `recv_upgrade_file`, the upgrade file, whether it can be written, and how often the
-- upgrade script was run.
pub record Upgrade : Type 0 where
  pub sum : ℕ
  pub sum_new : ℕ
  pub packet_num : ℕ
  pub packet_index : ℕ
  pub offset : ℕ
  pub content : Bytes
  pub writable : Bool
  pub runs : ℕ

pub record App : Type 0 where
  pub dev : Device
  pub mem : Memory
  pub sender : Sender
  pub paras : Paras
  pub adas_file : ParaFile
  pub dms_file : ParaFile
  pub real_time : Bytes
  pub heart_alive : Bool
  pub recv_ack : Bool
  pub pkg : PkgStatus
  pub upgrade : Upgrade
  pub ids : Ids
  pub image_queue : List Node
  pub media_begin : List (ℕ × ℕ)
  pub disk : Disk
  pub mm_list : List MmInfo
  -- Whether the two `malloc`s of `sample_send_image` succeed.
  pub image_memory : Bool
  -- exit(0) has been called.
  pub exited : Bool

-- A send from a buffer of the sender's own.
unfoldable pub send : ℕ → Bytes → App → App
send c payload a = record a { sender = (message_queue_send a.dev c payload a.mem a.sender).0 }

-- A send that builds its message at `pHeader`, in the receive buffer `msg`.
unfoldable pub send_in_place : ℕ → Bytes → Bytes → App → App × Bytes
send_in_place c payload msg a =
    let (s', frame) = message_queue_send a.dev c payload a.mem a.sender in
    (record a { sender = s' }, frame ++ drop (length frame) msg)

unfoldable pub notice_ack_msg : App → App
notice_ack_msg a = record a { recv_ack = true }

unfoldable pub write_heart : Bool → App → App
write_heart status a = record a { heart_alive = status }

-- RealTimeData: car_speed at 0, mileage at 2, altitude at 8, latitude at 10, longitude at 14, time
-- at 18, car_status at 24; 26 bytes.
abbrev pub real_time_size : ℕ
real_time_size = 26

unfoldable pub write_real_time : Bytes → App → App
write_real_time bytes a = record a { real_time = take real_time_size bytes }

unfoldable pub car_speed : App → ℕ
car_speed a = get_or a.real_time 0 0

-- `remove(filepath)` for the file of an id.
unfoldable pub remove_file : ℕ → App → App
remove_file id a = record a { disk = λ j. if j == id then none else a.disk j }
