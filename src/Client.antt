-- ===== src/Client.antt =====
-- The websocket client, wsi.cpp: `msgpack_object_get` and `unpack_wsi_msg` for the messages that
-- come, `callback_lws_communicate` for the requests that go out; and `deal_wsi_adas_can760` of
-- process.cpp. `msgpack_unpack` is the library's, and is a parameter.
pub mod Fields
pub mod Requests
pub mod Connects
use sanbao_prot.Alert.Adas.{AdasRun, deal_wsi_adas_can700}
use sanbao_prot.Alert.Dms.{DmsRun, deal_wsi_dms_info}
use sanbao_prot.Alert.{LocalConfig}
use sanbao_prot.Base.{
  zero, suc, ℕ, Bool, List, [], ◌∷◌, ◌++◌, Bytes, Option, none, some, length, take, drop, replicate,
  ltb, if◌then◌else◌, same_bytes,
}
use sanbao_prot.Warn.Message.{WarnFrame}

-- `msgpack_object`. A string or a block of bytes is its size and the memory that its pointer leads
-- to, which goes on behind it. `scalar` is any of the kinds with one branch in the code, and what
-- `via.u64` reads of it; `unknown` is any other kind.
mutual
  pub data Object : Type 0 where
    scalar : ℕ → Object
    bin : ℕ → Bytes → Object
    str : ℕ → Bytes → Object
    map : Entries → Object
    unknown : Object

  pub data Entries : Type 0 where
    end : Entries
    entry : Object → Object → Entries → Entries

-- `data_type`: 0, and MSG_DATA_TYPE.
pub data DataType : Type 0 where
  no_data can_data can_source can_time can_topic : DataType

pub record WsiFrame : Type 0 where
  pub warning : Bytes
  pub source : Bytes
  pub time : ℕ
  pub topic : Bytes

-- memset(&can, 0, sizeof(can))
abbrev pub zero_frame : WsiFrame
zero_frame = record {
  warning = replicate 8 0;
  source = replicate 20 0;
  time = 0;
  topic = replicate 20 0;
}

-- `memcpy` of at most what the member holds.
unfoldable pub copy_into : ℕ → Bytes → Bytes → Bytes
copy_into size ptr old =
    let n = if ltb (length old) size then length old else size in take n ptr ++ drop n old

-- What a call leaves in `data_type` and in `*can`, where `can` may be NULL; none when a member is
-- written through NULL.
abbrev pub Got : Type 0
Got = Option (DataType × Option WsiFrame)

-- So many bytes are written; a copy of none through NULL does nothing.
unfoldable pub store : ℕ → (WsiFrame → WsiFrame) → Option WsiFrame → Got
store zero f none = some (no_data, none)
store (suc n) f none = none
store size f (some can) = some (no_data, some (f can))

-- "data", "source", "time" and "topic"
abbrev pub word_data : Bytes
word_data = 100 ∷ 97 ∷ 116 ∷ 97 ∷ []

abbrev pub word_source : Bytes
word_source = 115 ∷ 111 ∷ 117 ∷ 114 ∷ 99 ∷ 101 ∷ []

abbrev pub word_time : Bytes
word_time = 116 ∷ 105 ∷ 109 ∷ 101 ∷ []

abbrev pub word_topic : Bytes
word_topic = 116 ∷ 111 ∷ 112 ∷ 105 ∷ 99 ∷ []

-- `!strncmp(ptr, word, strlen(word))`
unfoldable pub starts : Bytes → Bytes → Bool
starts word ptr = same_bytes (take (length word) ptr) word

unfoldable pub key_type : Bytes → DataType → DataType
unfolding starts
key_type ptr t =
    if starts word_data ptr
    then can_data
    else if starts word_source ptr
    then can_source
    else if starts word_time ptr
    then can_time
    else if starts word_topic ptr
    then can_topic
    else t

unfoldable pub get_scalar : ℕ → Option WsiFrame → DataType → Got
unfolding store
get_scalar u64 can can_time = store 8 (λ c. record c { time = u64 }) can
get_scalar u64 can t = some (t, can)

unfoldable pub get_bin : ℕ → Bytes → Option WsiFrame → DataType → Got
unfolding store copy_into
get_bin size ptr can can_data =
    store size (λ c. record c { warning = copy_into size ptr c.warning }) can
get_bin size ptr can t = some (t, can)

unfoldable pub get_str : ℕ → Bytes → Option WsiFrame → DataType → Got
unfolding store copy_into key_type
get_str size ptr can can_source =
    store size (λ c. record c { source = copy_into size ptr c.source }) can
get_str size ptr can can_topic =
    store size (λ c. record c { topic = copy_into size ptr c.topic }) can
get_str size ptr can t = some (key_type ptr t, can)

-- The loop of a map goes on with what a key and its value left. A key is given NULL.
unfoldable mutual
  unfolding get_scalar get_bin get_str

  pub msgpack_object_get : Object → Option WsiFrame → DataType → Got
  msgpack_object_get (scalar u64) can t = get_scalar u64 can t
  msgpack_object_get (bin size ptr) can t = get_bin size ptr can t
  msgpack_object_get (str size ptr) can t = get_str size ptr can t
  msgpack_object_get (map es) can t = get_entries es can t
  msgpack_object_get unknown can t = some (t, can)

  pub get_entries : Entries → Option WsiFrame → DataType → Got
  get_entries end can t = some (t, can)
  get_entries (entry key val es) can t = elim (msgpack_object_get key none t) [
    | none ↦ none
    | some (t1, _) ↦ elim (msgpack_object_get val can t1) [
      | none ↦ none
      | some (t2, can2) ↦ get_entries es can2 t2
    ]
  ]

-- MESSAGE_CAN700, "output.can.0x700", and MESSAGE_CAN760
abbrev pub message_can : ℕ → Bytes
message_can digit =
    111 ∷ 117 ∷ 116 ∷ 112 ∷ 117 ∷ 116 ∷ 46 ∷ 99 ∷ 97 ∷ 110 ∷ 46 ∷ 48 ∷ 120 ∷ 55 ∷ digit ∷ 48 ∷ []

abbrev pub message_can700 : Bytes
message_can700 = message_can 48

abbrev pub message_can760 : Bytes
message_can760 = message_can 54

-- The static of `msgpack_object_get`, that of `can760_message_process`, and the handlers' state.
pub record AdasClient : Type 0 where
  pub data_type : DataType
  pub can760 : Bytes
  pub run : AdasRun

pub record DmsClient : Type 0 where
  pub data_type : DataType
  pub run : DmsRun

-- The first three bytes, the size of CAN760Info.
unfoldable pub deal_wsi_adas_can760 : WsiFrame → AdasClient → AdasClient
deal_wsi_adas_can760 can s = record s { can760 = take 3 can.warning }

unfoldable pub by_topic : LocalConfig → ℕ → WsiFrame → AdasClient → AdasClient
unfolding starts deal_wsi_adas_can760
by_topic c now can s =
    if starts message_can700 can.topic
    then record s { run = deal_wsi_adas_can700 c now can.warning s.run }
    else if starts message_can760 can.topic
    then deal_wsi_adas_can760 can s
    else s

-- What `unpack_wsi_msg` does with what was read.
unfoldable pub deliver : LocalConfig → ℕ → AdasClient → Got → Option AdasClient
unfolding by_topic
deliver c now s none = none
deliver c now s (some (t, none)) = none
deliver c now s (some (t, some can)) = some (by_topic c now can (record s { data_type = t }))

unfoldable pub deliver_dms : LocalConfig → WarnFrame → ℕ → DmsClient → Got → Option DmsClient
deliver_dms c junk now s none = none
deliver_dms c junk now s (some (t, none)) = none
deliver_dms c junk now s (some (t, some can)) =
    some (record { data_type = t; run = deal_wsi_dms_info c junk now can.warning s.run })

-- The two builds of `unpack_wsi_msg`; none when the program stops in `msgpack_object_get`.
module _ (msgpack_unpack : Bytes → Object) (c : LocalConfig) where
  unfoldable pub unpack_wsi_msg_adas : ℕ → Bytes → AdasClient → Option AdasClient
  unfolding deliver
  unpack_wsi_msg_adas now msg s =
      deliver c now s (msgpack_object_get (msgpack_unpack msg) (some zero_frame) s.data_type)

  unfoldable pub unpack_wsi_msg_dms : WarnFrame → ℕ → Bytes → DmsClient → Option DmsClient
  unfolding deliver_dms
  unpack_wsi_msg_dms junk now msg s =
      deliver_dms c junk now s
        (msgpack_object_get (msgpack_unpack msg) (some zero_frame) s.data_type)
