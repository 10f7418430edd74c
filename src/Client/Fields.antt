-- ===== src/Client/Fields.antt =====
-- What the websocket client reads from the messages that come.
use sanbao_prot.Base.{
  zero, suc, ◌<◌, ℕ, ◌≡◌, refl, List, [], ◌∷◌, ◌++◌, Bytes, Option, none, some, ap, arith, ◌∙◌,
  same_bytes,
}
use sanbao_prot.Alert.{LocalConfig}
use sanbao_prot.Client.{
  Object, Entries, scalar, bin, str, map, unknown, end, entry, DataType, no_data, can_source,
  WsiFrame, zero_frame, copy_into, word_data, word_source, word_time, word_topic,
  msgpack_object_get, get_entries, get_str, store, AdasClient, Got, by_topic, deal_wsi_adas_can760,
  deliver, unpack_wsi_msg_adas,
}

-- A pair of the sender's map, with the memory behind its key.
pub data Field : Type 0 where
  data_field : Bytes → ℕ → Bytes → Field
  source_field : Bytes → ℕ → Bytes → Field
  time_field : Bytes → ℕ → Field
  topic_field : Bytes → ℕ → Bytes → Field

abbrev pub encode : List Field → Entries → Entries
encode [] es = es
encode (data_field rest size ptr ∷ fs) es =
    entry (str 4 (word_data ++ rest)) (bin size ptr) (encode fs es)
encode (source_field rest size ptr ∷ fs) es =
    entry (str 6 (word_source ++ rest)) (str size ptr) (encode fs es)
encode (time_field rest u64 ∷ fs) es = entry (str 4 (word_time ++ rest)) (scalar u64) (encode fs es)
encode (topic_field rest size ptr ∷ fs) es =
    entry (str 5 (word_topic ++ rest)) (str size ptr) (encode fs es)

abbrev pub read_field : Field → WsiFrame → WsiFrame
read_field (data_field rest size ptr) can = record can { warning = copy_into size ptr can.warning }
read_field (source_field rest size ptr) can = record can { source = copy_into size ptr can.source }
read_field (time_field rest u64) can = record can { time = u64 }
read_field (topic_field rest size ptr) can = record can { topic = copy_into size ptr can.topic }

abbrev pub read_fields : List Field → WsiFrame → WsiFrame
read_fields [] can = can
read_fields (f ∷ fs) can = read_fields fs (read_field f can)

get_entries-encode :
    (fs : List Field) (es : Entries) (can : WsiFrame)
    → get_entries (encode fs es) (some can) no_data
      ≡ get_entries es (some (read_fields fs can)) no_data
unfolding msgpack_object_get get_entries same_bytes
get_entries-encode [] es can = refl
get_entries-encode (data_field rest size ptr ∷ fs) es can = get_entries-encode fs es _
get_entries-encode (source_field rest size ptr ∷ fs) es can = get_entries-encode fs es _
get_entries-encode (time_field rest u64 ∷ fs) es can = get_entries-encode fs es _
get_entries-encode (topic_field rest size ptr ∷ fs) es can = get_entries-encode fs es _

-- Neither a string nor a map.
pub data IsOther : Object → Type 0 where
  is_scalar : (u64 : ℕ) → IsOther (scalar u64)
  is_bin : (size : ℕ) (ptr : Bytes) → IsOther (bin size ptr)
  is_unknown : IsOther unknown

-- Such a value for "source" leaves `data_type` as the key has set it.
get_entries-other :
    (rest : Bytes) (odd : Object) (can : WsiFrame)
    → IsOther odd
    → get_entries (entry (str 6 (word_source ++ rest)) odd end) (some can) no_data
      ≡ some (can_source, some can)
unfolding get_entries msgpack_object_get same_bytes
get_entries-other rest _ can (is_scalar u64) = refl
get_entries-other rest _ can (is_bin size ptr) = refl
get_entries-other rest _ can is_unknown = refl

-- The next key is taken for the value.
get_entries-null :
    (size : ℕ) (ptr : Bytes) (val : Object) (es : Entries) (can : WsiFrame)
    → 0 < size
    → get_entries (entry (str size ptr) val es) (some can) can_source ≡ none
unfolding get_entries msgpack_object_get get_str store
get_entries-null zero ptr val es can long = absurd (omega (arith, long))
get_entries-null (suc n) ptr val es can long = refl

-- A message, when it comes, and the fields that its sender packed.
pub record Message : Type 0 where
  pub now : ℕ
  pub msg : Bytes
  pub fields : List Field

abbrev pub and_then : Option AdasClient → (AdasClient → Option AdasClient) → Option AdasClient
and_then none f = none
and_then (some s) f = f s

module _ (msgpack_unpack : Bytes → Object) (c : LocalConfig) where
  abbrev pub Packs : Message → Type 0
  Packs m = msgpack_unpack m.msg ≡ map (encode m.fields end)

  abbrev pub unpack_all : List Message → AdasClient → Option AdasClient
  unpack_all [] s = some s
  unpack_all (m ∷ ms) s =
      and_then (unpack_wsi_msg_adas msgpack_unpack c m.now m.msg s) (unpack_all ms)

  abbrev pub deal_all : List Message → AdasClient → AdasClient
  deal_all [] s = s
  deal_all (m ∷ ms) s = deal_all ms (by_topic c m.now (read_fields m.fields zero_frame) s)

  -- What is read of a message whose sender is known, from an idle client.
  abbrev got : Bytes → AdasClient → Got
  got msg s = msgpack_object_get (msgpack_unpack msg) (some zero_frame) s.data_type

  got-map :
      (msg : Bytes) (s : AdasClient) (es : Entries) (t : DataType)
      → s.data_type ≡ t
      → msgpack_unpack msg ≡ map es
      → got msg s ≡ get_entries es (some zero_frame) t
  unfolding msgpack_object_get
  got-map msg s es t type packs =
      ap (λ o. msgpack_object_get o (some zero_frame) s.data_type) packs
      ∙ ap (get_entries es (some zero_frame)) type

  by_topic-idle :
      (now : ℕ) (can : WsiFrame) (s : AdasClient) → (by_topic c now can s).data_type ≡ s.data_type
  unfolding by_topic deal_wsi_adas_can760
  by_topic-idle now can s = ground arith

  -- When the value of "source" is neither a string nor a map, and is the last pair of a message, the
  -- next message that begins with a string of one byte or more as its key stops the program: the key
  -- is copied through NULL.
  pub unpack_wsi_msg-null :
      (now now' size : ℕ) (first second rest ptr : Bytes) (fs : List Field) (odd val : Object)
      (es : Entries) (s : AdasClient)
      → s.data_type ≡ no_data
      → IsOther odd
      → msgpack_unpack first ≡ map (encode fs (entry (str 6 (word_source ++ rest)) odd end))
      → msgpack_unpack second ≡ map (entry (str size ptr) val es)
      → 0 < size
      → and_then
          (unpack_wsi_msg_adas msgpack_unpack c now first s)
          (unpack_wsi_msg_adas msgpack_unpack c now' second)
        ≡ none
  unfolding unpack_wsi_msg_adas deliver
  unpack_wsi_msg-null now now' size first second rest ptr fs odd val es s idle other one two long =
      let last = entry (str 6 (word_source ++ rest)) odd end in
      let s1 = by_topic c now (read_fields fs zero_frame) (record s { data_type = can_source }) in
      let taken : unpack_wsi_msg_adas msgpack_unpack c now first s ≡ some s1 =
        ap (deliver c now s) (
          got-map first s (encode fs last) no_data idle one
          ∙ get_entries-encode fs last zero_frame
          ∙ get_entries-other rest odd (read_fields fs zero_frame) other) in
      let stops : unpack_wsi_msg_adas msgpack_unpack c now' second s1 ≡ none =
        ap (deliver c now' s1) (
          got-map second s1 (entry (str size ptr) val es) can_source
            (by_topic-idle now (read_fields fs zero_frame) (record s { data_type = can_source }))
            two
          ∙ get_entries-null size ptr val es zero_frame long) in
      ap (λ o. and_then o (unpack_wsi_msg_adas msgpack_unpack c now' second)) taken ∙ stops
