-- ===== src/Config/Layout.antt =====
-- A configuration as the JSON of prot.json.
use sanbao_prot.Base.{
  ℤ, pos, negsuc, suc, codes, ℕ, ◌^◌, ◌≤◌, ◌<◌, List, [], ◌∷◌, Bytes, All, length, take, drop,
}
use sanbao_prot.Config.Json.{Value, bool, number, text, array, object, Items, nil, cons, end, named}
use sanbao_prot.Config.{Settings}

abbrev pub items : List ℕ → Items
items [] = nil
items (n ∷ ns) = cons (number n) (items ns)

-- A number of the file for an `int`, which is not negative there.
abbrev pub magnitude : ℤ → ℕ
magnitude (pos n) = n
magnitude (negsuc n) = suc n

abbrev pub IsNatural : ℤ → Type 0
IsNatural (pos n) = n < 2 ^ 31
IsNatural (negsuc n) = ⊥

abbrev pub server_value : Settings → Value
server_value c =
    object (named (codes "ip") (text c.serverip) (named (codes "port") (number c.serverport) end))

abbrev pub client_value : Settings → Value
client_value c = object (
    named (codes "ip") (text c.clientip) (
      named (codes "port") (number c.clientport) (named (codes "device") (text c.netdev_name) end)))

abbrev pub alert_value : Settings → Value
alert_value c = object (
    named (codes "speed_filter_enable") (bool c.speed_filter_enable) (
      named (codes "alert_time_filter") (number c.alert_time_filter) (
        named (codes "jpeg_fps") (number c.jpeg_coder_fps) (
          named (codes "record_speed") (bool c.record_speed) (
            named (codes "record_period") (number c.record_period) (
              named (codes "use_heart") (bool c.use_heart) (
                named (codes "check_heart_period") (number c.check_heart_period) (
                  named (codes "adasBitRate") (array (items (take 7 c.bit_rates)))
                    (named (codes "dmsBitRate") (array (items (drop 7 c.bit_rates))) end)))))))))

abbrev pub tty_value : Settings → Value
tty_value c = object (
    named (codes "tty_name") (text c.tty_name) (
      named (codes "baudrate") (number (magnitude c.baudrate)) (
        named (codes "parity") (text c.parity) (
          named (codes "stopbit") (number (magnitude c.stopbit))
            (named (codes "bits") (number (magnitude c.bits)) end)))))

-- The layout of prot.json, with any value for the serial line.
abbrev pub document : Settings → Value → Value
document c tty = object (
    named (codes "server") (server_value c) (
      named (codes "client") (client_value c)
        (named (codes "alert_para") (alert_value c) (named (codes "tty") tty end))))

abbrev pub encode : Settings → Value
encode c = document c (tty_value c)

-- At most 31 bytes, without a NUL.
abbrev pub FitsArray : Bytes → Type 0
FitsArray s = (length s ≤ 31) × All (λ b. 0 < b) s

-- What the members of `LocalConfig` can hold, without the rates.
pub record Fits (c : Settings) : Type 0 where
  pub serverip : FitsArray c.serverip
  pub serverport : c.serverport < 2 ^ 16
  pub clientip : FitsArray c.clientip
  pub clientport : c.clientport < 2 ^ 16
  pub netdev_name : FitsArray c.netdev_name
  pub tty_name : FitsArray c.tty_name
  pub baudrate : IsNatural c.baudrate
  pub parity : FitsArray c.parity
  pub bits : IsNatural c.bits
  pub stopbit : IsNatural c.stopbit
  pub jpeg_coder_fps : c.jpeg_coder_fps < 2 ^ 8
  pub alert_time_filter : c.alert_time_filter < 2 ^ 8
  pub record_period : c.record_period < 2 ^ 32
  pub check_heart_period : c.check_heart_period < 2 ^ 32
