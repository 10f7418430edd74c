-- ===== src/Serial.antt =====
-- Counters of process.cpp: `do_serial_num` and `get_next_id`. Both bodies run under a lock of their
-- own, so a call is one step.
pub mod Laws
use sanbao_prot.Base.{ℕ, zero, suc, ◌+◌, ◌%◌, ◌^◌, List, [], ◌∷◌, ltb, ◌==◌, if◌then◌else◌}

-- The statics `send_serial_num` and `recv_serial_num`, of 16 bits.
pub record Serial : Type 0 where
  pub send_serial_num : ℕ
  pub recv_serial_num : ℕ

pub data SerialMode : Type 0 where
  get_next_send_num record_recv_num get_recv_num : SerialMode

-- The new state, and `*num` behind the call. At 0xFF the counter starts again and leaves `*num`.
unfoldable pub do_serial_num : SerialMode → ℕ → Serial → Serial × ℕ
do_serial_num get_next_send_num num s =
    if s.send_serial_num == 0xFF then (record s { send_serial_num = 0 }, num) else (
      record s { send_serial_num = (s.send_serial_num + 1) % 2 ^ 16 },
      (s.send_serial_num + 1) % 2 ^ 16,
    )
do_serial_num record_recv_num num s =
    if ltb s.send_serial_num num
    then (record { recv_serial_num = num; send_serial_num = num }, num)
    else (record s { recv_serial_num = num }, num)
do_serial_num get_recv_num num s = (s, s.recv_serial_num)

-- `s_warning_id` and `s_mm_id`, of 32 bits.
pub record Ids : Type 0 where
  pub warning_id : ℕ
  pub mm_id : ℕ

-- `get_next_id(WARNING_ID_MODE, NULL, 0)`
unfoldable pub next_warning_id : Ids → Ids × ℕ
next_warning_id s =
    let warn_id = (s.warning_id + 1) % 2 ^ 32 in (record s { warning_id = warn_id }, warn_id)

-- The loop of `get_next_id(MM_ID_MODE, id, num)` over `num` rounds; the ids are in the order of `id`.
pub mm_id_loop : ℕ → ℕ → ℕ × List ℕ
mm_id_loop zero mm_id = (mm_id, [])
mm_id_loop (suc num) mm_id =
    let mm_id' = (mm_id + 1) % 2 ^ 32 in
    let (last, ids) = mm_id_loop num mm_id' in (last, mm_id' ∷ ids)

unfoldable pub next_mm_ids : ℕ → Ids → Ids × List ℕ
unfolding mm_id_loop
next_mm_ids num s = let (last, ids) = mm_id_loop num s.mm_id in (record s { mm_id = last }, ids)
