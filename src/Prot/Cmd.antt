-- ===== src/Prot/Cmd.antt =====
-- The SAMPLE_CMD codes of prot.h.
use sanbao_prot.Base.{ℕ}

abbrev pub query : ℕ
query = 0x2F

abbrev pub factory_reset : ℕ
factory_reset = 0x30

abbrev pub speed_info : ℕ
speed_info = 0x31

abbrev pub device_info : ℕ
device_info = 0x32

abbrev pub upgrade : ℕ
upgrade = 0x33

abbrev pub get_param : ℕ
get_param = 0x34

abbrev pub set_param : ℕ
set_param = 0x35

abbrev pub warning_report : ℕ
warning_report = 0x36

abbrev pub req_status : ℕ
req_status = 0x37

abbrev pub upload_status : ℕ
upload_status = 0x38

abbrev pub req_mm_data : ℕ
req_mm_data = 0x50

abbrev pub upload_mm_data : ℕ
upload_mm_data = 0x51

abbrev pub snap_shot : ℕ
snap_shot = 0x52
