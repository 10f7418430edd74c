-- ===== src/Serial/Laws.antt =====
-- Serial numbers and ids that are handed out.
use sanbao_prot.Base.{
  ℕ, zero, suc, ◌+◌, ◌%◌, ◌^◌, ◌≤◌, ◌<◌, ◌≡◌, ◌≢◌, refl, length, get_or, arith, ap, All, All-map,
}
use sanbao_prot.Serial.{
  Serial, get_next_send_num, record_recv_num, get_recv_num, do_serial_num, Ids, mm_id_loop,
  next_mm_ids,
}

-- A reply carries the serial number of the request that was recorded last, also when messages of
-- the program's own were numbered in between.
pub serial-reply :
    (n x y : ℕ) (s : Serial)
    → (do_serial_num get_recv_num x
        (do_serial_num get_next_send_num y (do_serial_num record_recv_num n s).0).0).1
      ≡ n
unfolding do_serial_num
serial-reply n x y s = ground arith

-- While the numbers stay below 0xFF, the next message of the program's own is numbered above the
-- request just recorded and above its own last message, and at most 0xFF.
pub serial_next :
    (n : ℕ) (s : Serial)
    → n < 0xFF
    → s.send_serial_num < 0xFF
    → let num = (do_serial_num get_next_send_num 0 (do_serial_num record_recv_num n s).0).1 in
      (n < num) × (s.send_serial_num < num) × (num ≤ 0xFF)
unfolding do_serial_num
serial_next n s h k = ground arith

-- A request numbered above 0xFF and below 0xFFFF takes the counter past its reset: from then on the
-- next number is above 0xFF.
pub serial_past_reset :
    (n : ℕ) (s : Serial)
    → 0xFF < n
    → n < 0xFFFF
    → s.send_serial_num ≤ n
    → (do_serial_num get_next_send_num 0 (do_serial_num record_recv_num n s).0).1 ≡ n + 1
unfolding do_serial_num
serial_past_reset n s h k le = ground arith

-- The k-th of the media ids is the k-th successor of the last one, in 32 bits, and the counter
-- stands at the last id.
get_or-mm_id_loop : (num k m : ℕ) → k < num → get_or (mm_id_loop num m).1 k 0 ≡ (m + k + 1) % 2 ^ 32
unfolding mm_id_loop
get_or-mm_id_loop zero k m h = elim h [ ]
get_or-mm_id_loop (suc num) zero m h = omega arith
get_or-mm_id_loop (suc num) (suc k) m h =
    omega (arith, get_or-mm_id_loop num k ((m + 1) % 2 ^ 32) (omega arith))

length-mm_id_loop : (num m : ℕ) → length (mm_id_loop num m).1 ≡ num
unfolding mm_id_loop
length-mm_id_loop zero m = refl
length-mm_id_loop (suc num) m = ap suc (length-mm_id_loop num ((m + 1) % 2 ^ 32))

mm_id_loop_last : (num m : ℕ) → m < 2 ^ 32 → (mm_id_loop num m).0 ≡ (m + num) % 2 ^ 32
unfolding mm_id_loop
mm_id_loop_last zero m h = omega arith
mm_id_loop_last (suc num) m h = omega (arith, mm_id_loop_last num ((m + 1) % 2 ^ 32) (omega arith))

-- A request for `num` media ids gives `num` of them, and any two are different.
pub next_mm_ids_distinct :
    (num i j : ℕ) (s : Ids)
    → num < 2 ^ 32
    → i < j
    → j < num
    → (length (next_mm_ids num s).1 ≡ num)
      × (get_or (next_mm_ids num s).1 i 0 ≢ get_or (next_mm_ids num s).1 j 0)
unfolding next_mm_ids
next_mm_ids_distinct num i j s h p q = (
  length-mm_id_loop num s.mm_id,
  λ e.
      omega
        (arith, get_or-mm_id_loop num i s.mm_id (omega arith), get_or-mm_id_loop num j s.mm_id q),
)

-- Two requests in a row give ids that follow one another.
pub next_mm_ids_follow :
    (a b k : ℕ) (s : Ids)
    → s.mm_id < 2 ^ 32
    → k < b
    → let (s', first) = next_mm_ids a s in
      get_or (next_mm_ids b s').1 k 0 ≡ (s.mm_id + a + k + 1) % 2 ^ 32
unfolding next_mm_ids
next_mm_ids_follow a b k s h p =
    omega (arith, mm_id_loop_last a s.mm_id h, get_or-mm_id_loop b k (mm_id_loop a s.mm_id).0 p)

-- The media ids are above the last one, as long as they stay in 32 bits.
mm_id_loop_above :
    (num m : ℕ) → m + num < 2 ^ 32 → All (λ id. (m < id) × (id < 2 ^ 32)) (mm_id_loop num m).1
unfolding mm_id_loop
mm_id_loop_above zero m small = tt
mm_id_loop_above (suc num) m small =
    let next : (m + 1) % 2 ^ 32 ≡ m + 1 = omega arith in
    rw next (
      (omega arith, omega arith),
      All-map (λ id h. (omega (arith, h.0), h.1)) (mm_id_loop num (m + 1)).1
          (mm_id_loop_above num (m + 1) (omega arith)),
    )

pub next_mm_ids_above :
    (num : ℕ) (s : Ids)
    → s.mm_id + num < 2 ^ 32
    → All (λ id. (s.mm_id < id) × (id < 2 ^ 32)) (next_mm_ids num s).1
unfolding next_mm_ids
next_mm_ids_above num s small = mm_id_loop_above num s.mm_id small
