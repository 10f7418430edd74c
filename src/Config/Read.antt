-- ===== src/Config/Read.antt =====
-- A configuration that is written as JSON is read back.
use sanbao_prot.Base.{
  ℤ, pos, negsuc, ◌%◌, ◌^◌, ◌<◌, ◌≡◌, refl, ap, ◌∙◌, [], ◌∷◌, Bytes, All, Option, some, true, false,
  arith, length, take, drop, take_all, ◌>>=◌, same_bytes, ◌==◌,
}
use sanbao_prot.Config.Json.{Value, until_nul, member, get_bool, get_uint, get_string, get_array}
use sanbao_prot.Config.{
  Settings, zero_settings, get_server_config, get_client_config, get_tty_config, get_alert_para,
  rate_loop, parse_document, to_int,
}
use sanbao_prot.Config.Layout.{
  magnitude, IsNatural, items, server_value, client_value, alert_value, tty_value, encode,
  FitsArray, Fits,
}
use sanbao_prot.Config.Rates.{small, adas_rates, dms_rates}
use sanbao_prot.Config.Init.{
  f, take_document, parse_prot_json, local_config_init, main_option, main_options, configure,
}

until_nul-eq : (s : Bytes) → All (λ b. 0 < b) s → until_nul s ≡ s
until_nul-eq [] h = refl
until_nul-eq (c ∷ s) (p, h) =
    let more : (c == 0) ≡ false = ground arith in rw more (ap (◌∷◌ c) (until_nul-eq s h))

fits : (s : Bytes) → FitsArray s → take 31 (until_nul s) ≡ s
fits s (short, h) = ap (take 31) (until_nul-eq s h) ∙ take_all 31 s short

pub get_server_config-encode :
    (c d : Settings)
    → Fits c
    → get_server_config (server_value c) d
      ≡ some (record d { serverip = c.serverip; serverport = c.serverport })
unfolding get_server_config get_string get_uint member same_bytes
get_server_config-encode c d h =
    let port : c.serverport % 2 ^ 16 ≡ c.serverport = omega (arith, h.serverport) in
    let wide : c.serverport < 2 ^ 32 = omega (arith, h.serverport) in
    rw (small wide, fits c.serverip h.serverip, port) refl

pub get_client_config-encode :
    (c d : Settings)
    → Fits c
    → get_client_config (client_value c) d
      ≡ some (record d {
        clientip = c.clientip;
        clientport = c.clientport;
        netdev_name = c.netdev_name;
      })
unfolding get_client_config get_string get_uint member same_bytes
get_client_config-encode c d h =
    let port : c.clientport % 2 ^ 16 ≡ c.clientport = omega (arith, h.clientport) in
    let wide : c.clientport < 2 ^ 32 = omega (arith, h.clientport) in
    rw (small wide, fits c.clientip h.clientip, fits c.netdev_name h.netdev_name, port) refl

magnitude_small : (z : ℤ) → IsNatural z → magnitude z < 2 ^ 32
magnitude_small (pos n) h = omega (arith, h)
magnitude_small (negsuc n) h = absurd h

to_int-magnitude : (z : ℤ) → IsNatural z → to_int (magnitude z) ≡ z
unfolding to_int
to_int-magnitude (pos n) h = rw (small h) refl
to_int-magnitude (negsuc n) h = absurd h

get_tty_config-encode :
    (c d : Settings)
    → Fits c
    → get_tty_config (tty_value c) d
      ≡ some (record d {
        tty_name = c.tty_name;
        baudrate = c.baudrate;
        bits = c.bits;
        stopbit = c.stopbit;
        parity = c.parity;
      })
unfolding get_tty_config get_string get_uint member same_bytes
get_tty_config-encode c d h =
    rw
      (
        small (magnitude_small c.baudrate h.baudrate),
        small (magnitude_small c.bits h.bits),
        small (magnitude_small c.stopbit h.stopbit),
        to_int-magnitude c.baudrate h.baudrate,
        to_int-magnitude c.bits h.bits,
        to_int-magnitude c.stopbit h.stopbit,
        fits c.tty_name h.tty_name,
        fits c.parity h.parity,
      )
      refl

-- What `get_alert_para` does with the two arrays, when the members in front of them fit.
pub get_alert_para-rates :
    (c d : Settings)
    → Fits c
    → get_alert_para (alert_value c) d ≡ (
        rate_loop (items (take 7 c.bit_rates)) 0 d.bit_rates >>= λ adas.
        rate_loop (items (drop 7 c.bit_rates)) 7 adas >>= λ rates. some (record d {
          speed_filter_enable = c.speed_filter_enable;
          jpeg_coder_fps = c.jpeg_coder_fps;
          record_speed = c.record_speed;
          record_period = c.record_period;
          alert_time_filter = c.alert_time_filter;
          use_heart = c.use_heart;
          check_heart_period = c.check_heart_period;
          bit_rates = rates;
        }))
unfolding get_alert_para get_bool get_uint get_array member same_bytes
get_alert_para-rates c d h =
    let fps : c.jpeg_coder_fps % 2 ^ 8 ≡ c.jpeg_coder_fps = omega (arith, h.jpeg_coder_fps) in
    let filter : c.alert_time_filter % 2 ^ 8 ≡ c.alert_time_filter =
      omega (arith, h.alert_time_filter) in
    let wide_fps : c.jpeg_coder_fps < 2 ^ 32 = omega (arith, h.jpeg_coder_fps) in
    let wide_filter : c.alert_time_filter < 2 ^ 32 = omega (arith, h.alert_time_filter) in
    rw
      (
        small wide_fps,
        small wide_filter,
        small h.record_period,
        small h.check_heart_period,
        fps,
        filter,
      )
      refl

get_alert_para-encode :
    (c d : Settings)
    → Fits c
    → length c.bit_rates ≡ 13
    → All (λ n. n < 2 ^ 31) c.bit_rates
    → length d.bit_rates ≡ 13
    → get_alert_para (alert_value c) d
      ≡ some (record d {
        speed_filter_enable = c.speed_filter_enable;
        jpeg_coder_fps = c.jpeg_coder_fps;
        record_speed = c.record_speed;
        record_period = c.record_period;
        alert_time_filter = c.alert_time_filter;
        use_heart = c.use_heart;
        check_heart_period = c.check_heart_period;
        bit_rates = c.bit_rates;
      })
get_alert_para-encode c d h n13 each old =
    get_alert_para-rates c d h
    ∙ rw
        (
          adas_rates c.bit_rates d.bit_rates (omega (arith, n13)) old each,
          dms_rates c.bit_rates d.bit_rates n13 old each,
        )
        refl

-- A configuration that fits its members, with 13 rates, written as JSON in the layout of prot.json, is read back as
-- it was, over any configuration, whose flag for the file stays.
pub parse_document-encode :
    (c d : Settings)
    → Fits c
    → length c.bit_rates ≡ 13
    → All (λ n. n < 2 ^ 31) c.bit_rates
    → length d.bit_rates ≡ 13
    → parse_document (encode c) d ≡ some (record c { using_para_file = d.using_para_file })
unfolding parse_document member same_bytes
parse_document-encode c d h n13 each old =
    let d1 = record d { serverip = c.serverip; serverport = c.serverport } in
    let d2 : Settings = record d1 {
      clientip = c.clientip;
      clientport = c.clientport;
      netdev_name = c.netdev_name;
    } in
    let d3 : Settings = record c {
      using_para_file = d.using_para_file;
      tty_name = d.tty_name;
      baudrate = d.baudrate;
      bits = d.bits;
      stopbit = d.stopbit;
      parity = d.parity;
    } in
    rw
      (
        get_server_config-encode c d h,
        get_client_config-encode c d1 h,
        get_alert_para-encode c d2 h n13 each old,
        get_tty_config-encode c d3 h,
      )
      refl

-- The program started with `-f` and a file of less than 1024 bytes, without a NUL, in which the JSON
-- parser finds a configuration in the layout of prot.json, whose members fit, none of them
-- negative, and whose 13 rates are below 2^31, runs with exactly that configuration.
pub configure-encode :
    (parse : Bytes → Option Value) (content : Bytes) (c : Settings)
    → Fits c
    → length c.bit_rates ≡ 13
    → All (λ n. n < 2 ^ 31) c.bit_rates
    → length content < 1024
    → All (λ b. 0 < b) content
    → parse content ≡ some (encode c)
    → configure parse (f (some content) ∷ []) ≡ some (record c { using_para_file = true })
unfolding configure main_options main_option local_config_init parse_prot_json take_document
configure-encode parse content c h n13 each short plain parsed =
    let read : parse (until_nul content) ≡ some (encode c) =
      ap parse (until_nul-eq content plain) ∙ parsed in
    let whole : parse_prot_json parse content zero_settings
        ≡ some (record c { using_para_file = false }, true) =
      ap (λ v. take_document v zero_settings) read
      ∙ rw (parse_document-encode c zero_settings h n13 each refl) refl in
    rw (small short, whole) refl
