-- ===== src/Field.antt =====
-- Fields of the packed parameter structures of prot.h, which the program copies as bytes, and the
-- checks that para.cpp makes on them. A 16-bit field stands in memory with its low byte first.
pub mod Laws
use sanbao_prot.Base.{
  ℕ, ◌+◌, ◌*◌, ◌/◌, ◌%◌, ◌≤◌, ◌<◌, Bool, List, [], ◌∷◌, ◌||◌, Bytes, get_or, set, ltb,
  if◌then◌else◌,
}

-- A uint8_t or a uint16_t at an offset.
pub data Field : Type 0 where
  byte word : ℕ → Field

unfoldable pub get_field : Bytes → Field → ℕ
get_field p (byte i) = get_or p i 0
get_field p (word i) = get_or p i 0 + 256 * get_or p (i + 1) 0

unfoldable pub set_field : Bytes → Field → ℕ → Bytes
set_field p (byte i) v = set p i (v % 256)
set_field p (word i) v = set (set p i (v % 256)) (i + 1) (v / 256 % 256)

abbrev pub start : Field → ℕ
start (byte i) = i
start (word i) = i

-- The offset behind the field.
abbrev pub end : Field → ℕ
end (byte i) = i + 1
end (word i) = i + 2

-- One more than the largest value.
abbrev pub limit : Field → ℕ
limit (byte i) = 256
limit (word i) = 65536

-- `if (p->field < lo || p->field > hi) p->field = fallback;`
pub record Rule : Type 0 where
  pub field : Field
  pub lo : ℕ
  pub hi : ℕ
  pub fallback : ℕ

unfoldable pub check_rule : Bytes → Rule → Bytes
check_rule p r =
    if ltb (get_field p r.field) r.lo || ltb r.hi (get_field p r.field)
    then set_field p r.field r.fallback
    else p

-- The checks in the order of the source.
unfoldable pub check_rules : List Rule → Bytes → Bytes
check_rules [] p = p
check_rules (r ∷ rs) p = check_rules rs (check_rule p r)
