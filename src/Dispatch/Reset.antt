-- ===== src/Dispatch/Reset.antt =====
-- The factory reset, whose answer is built in the receive buffer before the device id is read.
use sanbao_prot.App.{App, send, send_in_place}
use sanbao_prot.Base.{
  ℕ, ◌/◌, ◌%◌, ◌<◌, ◌≡◌, ◌⊎◌, refl, sym, ap, ◌∙◌, subst, [], ◌∷◌, ◌++◌, append_assoc, false, Bytes,
  length, get_or, drop, get_or-append_le, arith,
}
use sanbao_prot.Dispatch.Address.{serial_for-recv, sample_on_cmd-mine}
use sanbao_prot.Dispatch.{run_cmd, record_serial, factory_reset, sample_on_cmd}
use sanbao_prot.Frame.Escape.{escape_byte, escape_bytes}
use sanbao_prot.Frame.Stream.{wire, wire-eq}
use sanbao_prot.Frame.{calc_sum, sum_loop}
use sanbao_prot.Para.{Paras, set_adas_para_setting_default, set_dms_para_setting_default}
use sanbao_prot.Prot.Cmd
use sanbao_prot.Prot.{Device, adas, dms, id_of, prot_magic, prot_esc_char, be16, read_be16}
use sanbao_prot.Send.Laws.{packet, message_queue_send-frame}
use sanbao_prot.Send.{unsealed, message_queue_send, master_is_me}
use sanbao_prot.Setting.{do_factory_reset}
use sanbao_prot.Warn.Message.{WarnFrame}

-- The bytes that escaping replaces.
abbrev pub IsSpecial : ℕ → Type 0
IsSpecial x = (x ≡ prot_magic) ⊎ (x ≡ prot_esc_char)

-- The answer's bytes between head and tail: its checksum is 0xDA or 0xDB.
packet-reset :
    (dev : Device) (n : ℕ)
    → (sum : ℕ) × (packet dev Cmd.factory_reset n []
        ≡ sum ∷ n / 256 % 256 ∷ n % 256 ∷ 0x12 ∷ 0x34 ∷ id_of dev ∷ Cmd.factory_reset ∷ [])
      × (escape_byte sum ≡ sum ∷ [])
unfolding packet unsealed calc_sum sum_loop be16 escape_byte
packet-reset adas n = (0xDA, refl, refl)
packet-reset dms n = (0xDB, refl, refl)

-- The answer on the wire.
abbrev reset_answer : Device → ℕ → Bytes
reset_answer dev n = wire (packet dev Cmd.factory_reset n [])

-- The same, from the two bytes of the serial number.
abbrev spelled : Device → ℕ → ℕ → ℕ → Bytes
spelled dev sum hi lo =
    prot_magic
    ∷ sum
    ∷ (escape_byte hi
        ++ (escape_byte lo ++ 0x12 ∷ 0x34 ∷ id_of dev ∷ Cmd.factory_reset ∷ prot_magic ∷ []))

tail_plain :
    (dev : Device)
    → escape_bytes (0x12 ∷ 0x34 ∷ id_of dev ∷ Cmd.factory_reset ∷ [])
      ≡ 0x12 ∷ 0x34 ∷ id_of dev ∷ Cmd.factory_reset ∷ []
unfolding escape_bytes escape_byte
tail_plain adas = refl
tail_plain dms = refl

escape_bytes-spread :
    (sum hi lo : ℕ) (rest end : Bytes)
    → escape_byte sum ≡ sum ∷ []
    → escape_bytes (sum ∷ hi ∷ lo ∷ rest) ++ end
      ≡ sum ∷ (escape_byte hi ++ (escape_byte lo ++ (escape_bytes rest ++ end)))
unfolding escape_bytes
escape_bytes-spread sum hi lo rest end plain =
    rw
      (
        plain,
        append_assoc (escape_byte hi) (escape_byte lo ++ escape_bytes rest) end,
        append_assoc (escape_byte lo) (escape_bytes rest) end,
      )
      refl

reset_answer-spelled :
    (dev : Device) (n : ℕ)
    → (sum : ℕ) × (reset_answer dev n ≡ spelled dev sum (n / 256 % 256) (n % 256))
reset_answer-spelled dev n =
    let (sum, same, plain) = packet-reset dev n in
    let rest = 0x12 ∷ 0x34 ∷ id_of dev ∷ Cmd.factory_reset ∷ [] in
    let end = prot_magic ∷ [] in
    (
      sum,
      ap wire same
          ∙ wire-eq (sum ∷ n / 256 % 256 ∷ n % 256 ∷ rest)
          ∙ ap (◌∷◌ prot_magic) (escape_bytes-spread sum (n / 256 % 256) (n % 256) rest end plain)
          ∙ ap
              (λ r.
                prot_magic
                ∷ sum
                ∷ (escape_byte (n / 256 % 256) ++ (escape_byte (n % 256) ++ (r ++ end))))
              (tail_plain dev),
    )

long_enough : (dev : Device) (sum hi lo : ℕ) → 6 < length (spelled dev sum hi lo)
unfolding escape_byte
long_enough dev sum hi lo = ground arith

id_kept :
    (dev : Device) (sum hi lo : ℕ)
    → ¬ IsSpecial hi
    → ¬ IsSpecial lo
    → get_or (spelled dev sum hi lo) 6 0 ≡ id_of dev
unfolding escape_byte
id_kept dev sum hi lo h l = ground arith

id_lost :
    (dev : Device) (sum hi lo : ℕ)
    → IsSpecial hi ⊎ IsSpecial lo
    → (get_or (spelled dev sum hi lo) 6 0 ≡ 0x12) ⊎ (get_or (spelled dev sum hi lo) 6 0 ≡ 0x34)
unfolding escape_byte
id_lost dev sum hi lo special = ground arith

reset_reply : master_is_me Cmd.factory_reset ≡ false
unfolding master_is_me
reset_reply = refl

-- The answer as it stands in the receive buffer.
answered :
    (msg : Bytes) (a : App)
    → (send_in_place Cmd.factory_reset [] msg (record_serial msg a)).1
      ≡ reset_answer a.dev (read_be16 msg 2)
        ++ drop (length (reset_answer a.dev (read_be16 msg 2))) msg
unfolding send_in_place record_serial
answered msg a =
    let s = (record_serial msg a).sender in
    let frame : (message_queue_send a.dev Cmd.factory_reset [] a.mem s).1
        ≡ reset_answer a.dev (read_be16 msg 2) =
      message_queue_send-frame a.dev Cmd.factory_reset [] a.mem s
      ∙ ap (λ n. reset_answer a.dev n) (serial_for-recv msg a Cmd.factory_reset reset_reply) in
    ap (λ (r : Bytes). r ++ drop (length r) msg) frame

-- The byte that is then read as the device id.
id_read :
    (msg : Bytes) (a : App)
    → (sum : ℕ) × (get_or (send_in_place Cmd.factory_reset [] msg (record_serial msg a)).1 6 0
        ≡ get_or (spelled a.dev sum (read_be16 msg 2 / 256 % 256) (read_be16 msg 2 % 256)) 6 0)
id_read msg a =
    let n = read_be16 msg 2 in
    let (sum, same) = reset_answer-spelled a.dev n in
    let long : 6 < length (reset_answer a.dev n) =
      subst (λ (r : Bytes). 6 < length r) (sym same)
        (long_enough a.dev sum (n / 256 % 256) (n % 256)) in
    (
      sum,
      ap (λ r. get_or r 6 0) (answered msg a)
          ∙ get_or-append_le (reset_answer a.dev n) (drop (length (reset_answer a.dev n)) msg) 6 0
              long
          ∙ ap (λ r. get_or r 6 0) same,
    )

-- The parameters behind a reset.
abbrev pub reset : Device → Paras → Paras
reset adas s = set_adas_para_setting_default s
reset dms s = set_dms_para_setting_default s

do_factory_reset-mine :
    (dev : Device) (a : App) → (do_factory_reset (id_of dev) a).paras ≡ reset dev a.paras
unfolding do_factory_reset
do_factory_reset-mine adas a = refl
do_factory_reset-mine dms a = refl

do_factory_reset-other : (id : ℕ) (a : App) → (id ≡ 0x12) ⊎ (id ≡ 0x34) → do_factory_reset id a ≡ a
unfolding do_factory_reset
do_factory_reset-other id a other = ground arith

run_reset :
    (f : WarnFrame) (a : App) (msg : Bytes) (len : ℕ)
    → get_or msg 6 0 ≡ id_of a.dev
    → get_or msg 7 0 ≡ Cmd.factory_reset
    → (sample_on_cmd f a msg len).0 ≡ (
        let (b, msg') = send_in_place Cmd.factory_reset [] msg (record_serial msg a) in
        do_factory_reset (get_or msg' 6 0) b)
unfolding run_cmd factory_reset
run_reset f a msg len id cmd = rw (sample_on_cmd-mine f a msg len id, cmd) refl

-- A factory reset request for this device, with neither byte of its serial number one that is
-- escaped, sets the device's parameters to their defaults.
pub sample_on_cmd-reset :
    (f : WarnFrame) (a : App) (msg : Bytes) (len : ℕ)
    → get_or msg 6 0 ≡ id_of a.dev
    → get_or msg 7 0 ≡ Cmd.factory_reset
    → ¬ IsSpecial (read_be16 msg 2 / 256 % 256)
    → ¬ IsSpecial (read_be16 msg 2 % 256)
    → (sample_on_cmd f a msg len).0.paras ≡ reset a.dev a.paras
unfolding send_in_place record_serial
sample_on_cmd-reset f a msg len id cmd hi lo =
    let (sum, read) = id_read msg a in
    let b = (send_in_place Cmd.factory_reset [] msg (record_serial msg a)).0 in
    ap (λ (c : App). c.paras) (run_reset f a msg len id cmd)
    ∙ ap (λ i. (do_factory_reset i b).paras) (read ∙ id_kept a.dev sum _ _ hi lo)
    ∙ do_factory_reset-mine a.dev b

-- The same request with an escaped byte in its serial number is answered as one that succeeded,
-- and nothing is reset: the recorded serial number and the answer are the only changes.
pub sample_on_cmd-reset_lost :
    (f : WarnFrame) (a : App) (msg : Bytes) (len : ℕ)
    → get_or msg 6 0 ≡ id_of a.dev
    → get_or msg 7 0 ≡ Cmd.factory_reset
    → IsSpecial (read_be16 msg 2 / 256 % 256) ⊎ IsSpecial (read_be16 msg 2 % 256)
    → (sample_on_cmd f a msg len).0 ≡ send Cmd.factory_reset [] (record_serial msg a)
unfolding send send_in_place
sample_on_cmd-reset_lost f a msg len id cmd special =
    let (sum, read) = id_read msg a in
    run_reset f a msg len id cmd
    ∙ do_factory_reset-other _ _ (rw read (id_lost a.dev sum _ _ special))
