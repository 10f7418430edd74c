-- ===== src/Config.antt =====
-- The configuration, wsi.cpp: `set_local_config_default`, `parse_prot_json` with the parts it reads,
-- `local_config_init`, and the options of `main`. What the JSON parser makes of a text is a
-- parameter; an `assert` that fails, or a member that is not there, ends the program.
pub mod Json
pub mod Init
pub mod Layout
pub mod Rates
pub mod Read
pub mod Overflow
use sanbao_prot.Alert.{LocalConfig}
use sanbao_prot.Base.{
  ℤ, pos, negsuc, ◌-◌, codes, ℕ, zero, suc, ◌+◌, ◌%◌, ◌^◌, Bool, true, false, not, List, [], ◌∷◌,
  ◌++◌, ◌>>=◌, Bytes, Option, none, some, get_or, set, take, length, replicate, ltb, ◌==◌,
  if◌then◌else◌,
}
use sanbao_prot.Config.Json.{
  Value, Items, nil, cons, member, get_bool, get_uint, get_string, get_array, get_int,
}

-- `LocalConfig` of prot.h. A string is what its array of 32 bytes holds in front of the NUL; the
-- arrays `adasBitRate` and `dmsBitRate`, of 7 and 6 words, are one block at the structure's end.
pub record Settings : Type 0 where
  pub using_para_file : Bool
  pub serverip : Bytes
  pub serverport : ℕ
  pub clientip : Bytes
  pub clientport : ℕ
  pub netdev_name : Bytes
  pub tty_name : Bytes
  pub baudrate : ℤ
  pub parity : Bytes
  pub bits : ℤ
  pub stopbit : ℤ
  pub jpeg_coder_fps : ℕ
  pub speed_filter_enable : Bool
  pub alert_time_filter : ℕ
  pub record_speed : Bool
  pub record_period : ℕ
  pub use_heart : Bool
  pub check_heart_period : ℕ
  pub bit_rates : List ℕ

-- The part of it that the handlers read.
abbrev pub local_config : Settings → LocalConfig
local_config c = record {
  speed_filter_enable = c.speed_filter_enable;
  alert_time_filter = c.alert_time_filter;
  use_heart = c.use_heart;
  check_heart_period = c.check_heart_period;
}

-- `memset` of `g_configini` in `global_var_init`.
abbrev pub zero_settings : Settings
zero_settings = record {
  using_para_file = false;
  serverip = [];
  serverport = 0;
  clientip = [];
  clientport = 0;
  netdev_name = [];
  tty_name = [];
  baudrate = pos 0;
  parity = [];
  bits = pos 0;
  stopbit = pos 0;
  jpeg_coder_fps = 0;
  speed_filter_enable = false;
  alert_time_filter = 0;
  record_speed = false;
  record_period = 0;
  use_heart = false;
  check_heart_period = 0;
  bit_rates = replicate 13 0;
}

unfoldable pub set_local_config_default : Settings → Settings
set_local_config_default c = record c {
  serverport = 8888;
  serverip = codes "192.168.100.100";
  clientip = codes "192.168.100.211";
  netdev_name = codes "eth0";
  jpeg_coder_fps = 5;
  speed_filter_enable = true;
  record_speed = true;
  record_period = 30;
  alert_time_filter = 10;
  use_heart = true;
  check_heart_period = 90;
  bit_rates =
      250 ∷ 500 ∷ 800 ∷ 1024 ∷ 800 ∷ 1024 ∷ 2048 ∷ 250 ∷ 500 ∷ 800 ∷ 1024 ∷ 1024 ∷ 2048 ∷ [];
  tty_name = codes "/dev/ttySC0";
  baudrate = pos 115200;
  parity = codes "NONE";
  stopbit = pos 1;
  bits = pos 8;
}

unfoldable pub get_server_config : Value → Settings → Option Settings
get_server_config val c = do
  ip ← get_string (codes "ip") val
  port ← get_uint (codes "port") val
  some (record c { serverip = ip; serverport = port % 2 ^ 16 })

unfoldable pub get_client_config : Value → Settings → Option Settings
get_client_config val c = do
  ip ← get_string (codes "ip") val
  port ← get_uint (codes "port") val
  device ← get_string (codes "device") val
  some (record c { clientip = ip; clientport = port % 2 ^ 16; netdev_name = device })

-- A `uint32_t` in an `int`.
unfoldable pub to_int : ℕ → ℤ
to_int n = if ltb n (2 ^ 31) then pos n else negsuc (2 ^ 32 - 1 - n)

unfoldable pub get_tty_config : Value → Settings → Option Settings
unfolding to_int
get_tty_config val c = do
  tty_name ← get_string (codes "tty_name") val
  baudrate ← get_uint (codes "baudrate") val
  bits ← get_uint (codes "bits") val
  stopbit ← get_uint (codes "stopbit") val
  parity ← get_string (codes "parity") val
  some (record c {
    tty_name = tty_name;
    baudrate = to_int baudrate;
    bits = to_int bits;
    stopbit = to_int stopbit;
    parity = parity;
  })

-- The loop over an array, whose length is not compared with that of the member: `i` counts from the
-- member's place in the block, and none is a write behind the structure.
unfoldable pub rate_loop : Items → ℕ → List ℕ → Option (List ℕ)
rate_loop nil i rates = some rates
rate_loop (cons v vs) i rates =
    let rest = λ (n : ℕ). rate_loop vs (suc i) (set rates i n) in
    get_int v >>= λ n. if ltb i 13 then rest n else none

unfoldable pub get_alert_para : Value → Settings → Option Settings
unfolding rate_loop
get_alert_para val c = do
  speed_filter_enable ← get_bool (codes "speed_filter_enable") val
  jpeg_fps ← get_uint (codes "jpeg_fps") val
  record_speed ← get_bool (codes "record_speed") val
  record_period ← get_uint (codes "record_period") val
  alert_time_filter ← get_uint (codes "alert_time_filter") val
  use_heart ← get_bool (codes "use_heart") val
  check_heart_period ← get_uint (codes "check_heart_period") val
  adas ← get_array (codes "adasBitRate") val
  adas_rates ← rate_loop adas 0 c.bit_rates
  dms ← get_array (codes "dmsBitRate") val
  dms_rates ← rate_loop dms 7 adas_rates
  some (record c {
    speed_filter_enable = speed_filter_enable;
    jpeg_coder_fps = jpeg_fps % 2 ^ 8;
    record_speed = record_speed;
    record_period = record_period;
    alert_time_filter = alert_time_filter % 2 ^ 8;
    use_heart = use_heart;
    check_heart_period = check_heart_period;
    bit_rates = dms_rates;
  })

unfoldable pub parse_document : Value → Settings → Option Settings
unfolding get_server_config get_client_config get_alert_para get_tty_config
parse_document document c = do
  server ← member (codes "server") document
  client ← member (codes "client") document
  alert_para ← member (codes "alert_para") document
  tty ← member (codes "tty") document
  c1 ← get_server_config server c
  c2 ← get_client_config client c1
  c3 ← get_alert_para alert_para c2
  get_tty_config tty c3
