-- ===== src/Para/Copy.antt =====
-- What the byte loop of `write_dev_para` leaves in each byte.
use native.Mathlib.Decide.{ℕ_discrete}
use sanbao_prot.Base.{
  ℕ, zero, suc, ◌+◌, ◌≤◌, ◌<◌, ◌≡◌, ◌≢◌, refl, ap, ◌⊎◌, Bool, true, false, ◌&&◌, ◌||◌, Bytes,
  length, get_or, length-set, get_or-set_self, get_or-set_ne, ltb, leb, ◌==◌, if◌then◌else◌, arith,
}
use sanbao_prot.Para.{copy_byte, copy_loop, adas_skip, dms_skip}

length-copy_byte : (inn out : Bytes) (i : ℕ) → length (copy_byte inn i out) ≡ length out
unfolding copy_byte
length-copy_byte inn out i = ground (arith, length-set out i (get_or inn i 0))

pub length-copy_loop :
    (skip : ℕ → ℕ) (rounds i size : ℕ) (inn out : Bytes)
    → length (copy_loop skip rounds i size inn out) ≡ length out
unfolding copy_loop
length-copy_loop skip zero i size inn out = refl
length-copy_loop skip (suc rounds) i size inn out = ground (
  arith,
  length-copy_loop skip rounds (skip i + 1) size inn (copy_byte inn (skip i) out),
  length-copy_byte inn out (skip i),
)

-- 0xFF in the new parameters means: keep the old byte.
abbrev pub merged : Bytes → Bytes → ℕ → ℕ
merged inn out k = if get_or inn k 0 == 0xFF then get_or out k 0 else get_or inn k 0

get_or-copy_byte_self :
    (inn out : Bytes) (i : ℕ) → i < length out → get_or (copy_byte inn i out) i 0 ≡ merged inn out i
unfolding copy_byte
get_or-copy_byte_self inn out i h = ground (arith, get_or-set_self out i (get_or inn i 0) 0 h)

get_or-copy_byte_ne :
    (inn out : Bytes) (i k : ℕ) → i ≢ k → get_or (copy_byte inn i out) k 0 ≡ get_or out k 0
unfolding copy_byte
get_or-copy_byte_ne inn out i k h = ground (arith, get_or-set_ne out i k (get_or inn i 0) 0 h)

-- The 16-bit fields of each structure, which the loop jumps over.
abbrev pub adas_slot : ℕ → Bool
adas_slot k = leb 3 k && ltb k 7

abbrev pub dms_slot : ℕ → Bool
dms_slot k = adas_slot k || (leb 21 k && ltb k 25)

-- Facts about a jump: from a place where the loop can stand, it goes forward over slots only.
pub record Jumps (skip : ℕ → ℕ) (slot : ℕ → Bool) (Stands : ℕ → Type 0) : Type 0 where
  pub forward : (i : ℕ) → i ≤ skip i
  pub stands : (i : ℕ) → Stands i → Stands (skip i + 1)
  pub free : (i : ℕ) → Stands i → slot (skip i) ≡ false
  pub over : (i k : ℕ) → i ≤ k → k < skip i → slot k ≡ true

module _ {skip : ℕ → ℕ} {slot : ℕ → Bool} {Stands : ℕ → Type 0}
    (jumps : Jumps skip slot Stands) where
  pub get_or-copy_loop :
      (size rounds i k : ℕ) (inn out : Bytes)
      → Stands i
      → size ≤ i + rounds
      → k < size
      → length out ≡ size
      → get_or (copy_loop skip rounds i size inn out) k 0
        ≡ (if ltb k i || slot k then get_or out k 0 else merged inn out k)
  unfolding copy_loop
  get_or-copy_loop size zero i k inn out st h lt len = ground arith
  get_or-copy_loop size (suc rounds) i k inn out st h lt len =
      let j = skip i in
      let out' = copy_byte inn j out in
      let fwd = jumps.forward i in
      let size' = length-copy_byte inn out j in
      let ih =
        get_or-copy_loop size rounds (j + 1) k inn out' (jumps.stands i st) (omega arith) lt
          (omega arith) in
      elim (ℕ_discrete j k) [
        | yes e ↦ ground (
          arith,
          ih,
          get_or-copy_byte_self inn out j (omega (arith, e)),
          jumps.free i st,
          ap slot e,
          ap (λ n. get_or out' n 0) e,
          ap (merged inn out) e,
        )
        | no ne ↦ ground (arith, ih, get_or-copy_byte_ne inn out j k ne, jumps.over i k, fwd)
      ]

pub adas_jumps : Jumps adas_skip adas_slot (λ i. (i ≤ 3) ⊎ (7 ≤ i))
adas_jumps = record {
  forward = λ i. ground arith;
  stands = λ i st. ground arith;
  free = λ i st. ground arith;
  over = λ i k a b. ground arith;
}

pub dms_jumps : Jumps dms_skip dms_slot (λ i. (i ≤ 3) ⊎ (7 ≤ i) × (i ≤ 21) ⊎ (25 ≤ i))
dms_jumps = record {
  forward = λ i. ground arith;
  stands = λ i st. ground arith;
  free = λ i st. ground arith;
  over = λ i k a b. ground arith;
}
