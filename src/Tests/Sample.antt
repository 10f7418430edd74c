-- ===== src/Tests/Sample.antt =====
-- The inputs of the runs.
use sanbao_prot.Alert.{LocalConfig}
use sanbao_prot.Link.{Link}
use sanbao_prot.App.{App, Upgrade}
use sanbao_prot.Base.{
  ℕ, true, false, [], ◌∷◌, none, some, replicate, length, All, IsByte, ◌≡◌, refl, arith, ◌==◌,
  if◌then◌else◌,
}
use sanbao_prot.Para.WriteAdas.{write_dev_para-adas_bounds, length-write_dev_para}
use sanbao_prot.System.{InRange}
use sanbao_prot.Para.{Paras, ParaFile, adas_default, set_adas_para_setting_default}
use sanbao_prot.Prot.{Device, adas}
use sanbao_prot.Queue.{Node, blank_pkg, ack_waiting}
use sanbao_prot.Send.{Sender, Memory, blank_mm}
use sanbao_prot.Warn.Message.{WarnFrame}

abbrev pub memory : Memory
memory = record { header = true; buffer = true }

abbrev pub sender : Sender
sender = record {
  serial = record { send_serial_num = 4; recv_serial_num = 3 };
  s_index = 0;
  send_q = [];
  send_data = 0;
}

abbrev pub paras : Paras
paras = record { adas_para = replicate 50 7; dms_para = replicate 43 7 }

abbrev pub file : ParaFile
file = record { content = none; writable = true; space = 100 }

abbrev pub upgrade : Upgrade
upgrade = record {
  sum = 0;
  sum_new = 0;
  packet_num = 0;
  packet_index = 0;
  offset = 0;
  content = [];
  writable = true;
  runs = 0;
}

-- The only media file has id 5 and the bytes 1 and 2.
abbrev pub app_of : Device → App
app_of dev = record {
  dev = dev;
  mem = memory;
  sender = sender;
  paras = paras;
  adas_file = file;
  dms_file = file;
  real_time = replicate 26 9;
  heart_alive = false;
  recv_ack = false;
  pkg = record {
    mm_type = 0;
    mm_id = 0;
    packet_total_num = 0;
    packet_index = 0;
    mm_data_trans_waiting = false;
  };
  upgrade = upgrade;
  ids = record { warning_id = 0; mm_id = 0 };
  image_queue = [];
  media_begin = [];
  disk = λ id. if id == 5 then some (1 ∷ 2 ∷ []) else none;
  mm_list = [];
  image_memory = true;
  exited = false;
}

abbrev pub frame : WarnFrame
frame = record {
  warning_id = 0;
  status_flag = 0;
  sound_type = 0;
  info = 0 ∷ 0 ∷ 0 ∷ 0 ∷ 0 ∷ [];
  car_speed = 0;
  position = [];
  time = [];
  car_status = [];
  mm = [];
}

-- A node that carries these two bytes.
abbrev pub node : ℕ → ℕ → Node
node x y = record { pkg = blank_pkg; mm = blank_mm; len = 2; buf = some (x ∷ y ∷ []) }

abbrev pub config : LocalConfig
config = record {
  speed_filter_enable = false;
  alert_time_filter = 5;
  use_heart = true;
  check_heart_period = 3;
}

-- A message of a command that waits for its acknowledgement.
abbrev pub waiting_node : Node
waiting_node = record (node 1 2) { pkg = record blank_pkg { ack_status = ack_waiting } }

-- A connection with one such message.
abbrev pub link : Link
link = record {
  app = record (app_of adas) {
    sender = record sender { send_q = waiting_node ∷ []; send_data = 1 };
  };
  connect_status = true;
  sent = [];
  closes = 0;
}

-- The ADAS parameters of the factory.
abbrev pub good_paras : Paras
good_paras = set_adas_para_setting_default paras

default-IsByte : All IsByte adas_default
unfolding adas_default
default-IsByte = omega arith

pub good_paras-size : length good_paras.adas_para ≡ 50
unfolding set_adas_para_setting_default
good_paras-size = length-write_dev_para adas_default paras refl

pub good_paras-InRange : InRange good_paras.adas_para
unfolding set_adas_para_setting_default
good_paras-InRange = λ r m. write_dev_para-adas_bounds m adas_default paras refl default-IsByte
