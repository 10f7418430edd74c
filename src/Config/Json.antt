-- ===== src/Config/Json.antt =====
-- The values that the JSON parser gives, and what wsi.cpp asks of them: an `assert` on the kind of a
-- member, and then its value. rapidjson asserts that the member is there.
use sanbao_prot.Base.{
  ℕ, ◌-◌, ◌%◌, ◌^◌, Bool, [], ◌∷◌, ◌>>=◌, Bytes, Option, none, some, take, ltb, ◌==◌, if◌then◌else◌,
  same_bytes,
}

-- An integer is `number n` or `negative n`, which is -n; any other number is `real`.
mutual
  pub data Value : Type 0 where
    null real : Value
    bool : Bool → Value
    number negative : ℕ → Value
    text : Bytes → Value
    array : Items → Value
    object : Members → Value

  pub data Items : Type 0 where
    nil : Items
    cons : Value → Items → Items

  pub data Members : Type 0 where
    end : Members
    named : Bytes → Value → Members → Members

unfoldable pub find_member : Bytes → Members → Option Value
find_member name end = none
find_member name (named key v ms) = if same_bytes key name then some v else find_member name ms

-- `val["name"]`
unfoldable pub member : Bytes → Value → Option Value
unfolding find_member
member name (object ms) = find_member name ms
member name v = none

abbrev as_bool : Value → Option Bool
as_bool (bool b) = some b
as_bool v = none

-- `IsUint`: 32 bits.
abbrev as_uint : Value → Option ℕ
as_uint (number n) = if ltb n (2 ^ 32) then some n else none
as_uint v = none

abbrev as_array : Value → Option Items
as_array (array vs) = some vs
as_array v = none

-- What `%s` prints.
abbrev pub until_nul : Bytes → Bytes
until_nul [] = []
until_nul (c ∷ s) = if c == 0 then [] else c ∷ until_nul s

-- `snprintf` into an array of 32 bytes.
abbrev as_string : Value → Option Bytes
as_string (text s) = some (take 31 (until_nul s))
as_string v = none

unfoldable pub get_bool : Bytes → Value → Option Bool
unfolding member
get_bool name val = do v ← member name val; as_bool v

unfoldable pub get_uint : Bytes → Value → Option ℕ
unfolding member
get_uint name val = do v ← member name val; as_uint v

unfoldable pub get_string : Bytes → Value → Option Bytes
unfolding member
get_string name val = do v ← member name val; as_string v

unfoldable pub get_array : Bytes → Value → Option Items
unfolding member
get_array name val = do v ← member name val; as_array v

-- `GetInt` of 32 bits, kept in a `uint32_t`.
unfoldable pub get_int : Value → Option ℕ
get_int (number n) = if ltb n (2 ^ 31) then some n else none
get_int (negative n) = if ltb (2 ^ 31) n then none else some ((2 ^ 32 - n) % 2 ^ 32)
get_int v = none
