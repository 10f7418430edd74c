-- ===== src/Client/Requests.antt =====
-- `callback_lws_communicate` of wsi.cpp in both builds: the requests of the websocket client.
-- `msgpack` is what the msgpack library packs for a topic.
use sanbao_prot.Base.{
  codes, All, ℕ, zero, suc, ◌+◌, ◌<◌, ◌≡◌, refl, Bool, true, false, List, [], ◌∷◌, ◌++◌, Bytes,
  length, take, ltb, ◌==◌, ◌&&◌, if◌then◌else◌, lt→ltb, take_all, min, ap, ◌∙◌, subst, arith,
}
use sanbao_prot.Client.{message_can700, message_can760}
use sanbao_prot.Prot.{Device, adas, dms}

-- The reasons with a branch that does more than print; `receive` calls `unpack_wsi_msg`.
pub data Reason : Type 0 where
  client_established closed client_receive connection_error client_writeable wsi_destroy other :
      Reason

-- `msg_send_index`, whether `wsi_dumb` is NULL, and how often `lws_callback_on_writable` was called.
-- `requests` is for statements: what was written since the connection ended last.
pub record Requests : Type 0 where
  pub msg_send_index : ℕ
  pub wsi_dumb_null : Bool
  pub asked : ℕ
  pub requests : List Bytes

-- DMS_ALERT_0X100
abbrev pub dms_alert_0x100 : Bytes
dms_alert_0x100 = codes "dms.alert.0x100"

-- LWS_WRITE_BUF_LEN, and the size of `datacmd`
abbrev pub lws_write_buf_len : ℕ
lws_write_buf_len = 512

module _ (msgpack : Bytes → Bytes) where
  unfoldable pub pack_wsi_msg : Bytes → Bytes
  pack_wsi_msg name = take lws_write_buf_len (msgpack name)

  unfoldable pub send_request : Bytes → Requests → Requests
  unfolding pack_wsi_msg
  send_request name s =
      let datacmd = pack_wsi_msg name in
      let written = ltb (length datacmd) lws_write_buf_len && ltb 0 (length datacmd) in
      record s {
        msg_send_index = s.msg_send_index + 1;
        asked = s.asked + 1;
        requests = if written then s.requests ++ datacmd ∷ [] else s.requests;
      }

  unfoldable pub on_writeable : Device → Requests → Requests
  unfolding send_request
  on_writeable adas s =
      if s.msg_send_index == 1
      then send_request message_can700 s
      else if s.msg_send_index == 2
      then send_request message_can760 s
      else if ltb s.msg_send_index 3
      then record s { msg_send_index = s.msg_send_index + 1 }
      else s
  on_writeable dms s =
      if s.msg_send_index == 1
      then send_request dms_alert_0x100 s
      else if ltb s.msg_send_index 2
      then record s { msg_send_index = s.msg_send_index + 1 }
      else s

  module _ (d : Device) where
    unfoldable pub callback_lws_communicate : Reason → Requests → Requests
    unfolding on_writeable
    callback_lws_communicate client_established s = record s { asked = s.asked + 1 }
    callback_lws_communicate closed s = record s {
      msg_send_index = 0;
      wsi_dumb_null = true;
      requests = [];
    }
    callback_lws_communicate client_receive s = s
    callback_lws_communicate connection_error s = record s { wsi_dumb_null = true }
    callback_lws_communicate client_writeable s = on_writeable d s
    callback_lws_communicate wsi_destroy s = record s {
      msg_send_index = 0;
      wsi_dumb_null = true;
      requests = [];
    }
    callback_lws_communicate other s = s

    abbrev pub callbacks : List Reason → Requests → Requests
    callbacks [] s = s
    callbacks (r ∷ rs) s = callbacks rs (callback_lws_communicate r s)

  -- What so many calls for writing since the connection ended last have written.
  abbrev pub due : Device → ℕ → List Bytes
  due d zero = []
  due d (suc zero) = []
  due adas (suc (suc zero)) = msgpack message_can700 ∷ []
  due adas (suc (suc (suc n))) = msgpack message_can700 ∷ msgpack message_can760 ∷ []
  due dms (suc (suc n)) = msgpack dms_alert_0x100 ∷ []

  -- No reason that ends the connection.
  abbrev pub is_open : Reason → Bool
  is_open closed = false
  is_open wsi_destroy = false
  is_open r = true

  abbrev pub AllOpen : List Reason → Type 0
  AllOpen rs = All (λ r. is_open r ≡ true) rs

  abbrev pub writeables : List Reason → ℕ
  writeables [] = 0
  writeables (client_writeable ∷ rs) = suc (writeables rs)
  writeables (r ∷ rs) = writeables rs

  -- MESSAGE_INDEX_MAX
  abbrev message_index_max : Device → ℕ
  message_index_max adas = 3
  message_index_max dms = 2

  record IsAfter (d : Device) (n : ℕ) (s : Requests) : Type 0 where
    index : s.msg_send_index ≡ min n (message_index_max d)
    written : s.requests ≡ due d n

  -- What the library packs fits in the buffer.
  abbrev pub Packs : Bytes → Type 0
  Packs name = (0 < length (msgpack name)) × (length (msgpack name) < lws_write_buf_len)

  -- The topics of a build.
  abbrev pub topics : Device → List Bytes
  topics adas = message_can700 ∷ message_can760 ∷ []
  topics dms = dms_alert_0x100 ∷ []

  send_request-fits :
      (name : Bytes) (s : Requests) (l : List Bytes)
      → Packs name
      → s.requests ≡ l
      → (send_request name s).requests ≡ l ++ msgpack name ∷ []
  unfolding send_request pack_wsi_msg
  send_request-fits name s l (one, few) e =
      let whole : pack_wsi_msg name ≡ msgpack name = take_all lws_write_buf_len _ (omega arith) in
      rw (whole, lt→ltb _ _ few, lt→ltb _ _ one) (ap (λ l. l ++ msgpack name ∷ []) e)

  on_writeable-IsAfter :
      (d : Device) (n : ℕ) (s : Requests)
      → All Packs (topics d)
      → IsAfter d n s
      → IsAfter d (suc n) (on_writeable d s)
  unfolding on_writeable
  on_writeable-IsAfter adas zero s p h = rw h.index (record { index = refl; written = h.written })
  on_writeable-IsAfter adas (suc zero) s (p, _) h =
      rw h.index
        (record { index = refl; written = send_request-fits message_can700 s [] p h.written })
  on_writeable-IsAfter adas (suc (suc zero)) s (_, (p, _)) h = rw h.index (record {
    index = refl;
    written = send_request-fits message_can760 s (msgpack message_can700 ∷ []) p h.written;
  })
  on_writeable-IsAfter adas (suc (suc (suc n))) s p h =
      let three : s.msg_send_index ≡ 3 = h.index ∙ omega arith in
      rw three (record { index = omega arith; written = h.written })
  on_writeable-IsAfter dms zero s p h = rw h.index (record { index = refl; written = h.written })
  on_writeable-IsAfter dms (suc zero) s (p, _) h =
      rw h.index
        (record { index = refl; written = send_request-fits dms_alert_0x100 s [] p h.written })
  on_writeable-IsAfter dms (suc (suc n)) s p h =
      let two : s.msg_send_index ≡ 2 = h.index ∙ omega arith in
      rw two (record { index = omega arith; written = h.written })

  callbacks-IsAfter :
      (d : Device) (rs : List Reason) (n : ℕ) (s : Requests)
      → All Packs (topics d)
      → AllOpen rs
      → IsAfter d n s
      → IsAfter d (writeables rs + n) (callbacks d rs s)
  unfolding callback_lws_communicate
  callbacks-IsAfter d [] n s p open_all h = subst (λ k. IsAfter d k s) (omega arith) h
  callbacks-IsAfter d (client_writeable ∷ rs) n s p (_, open_all) h =
      subst (λ k. IsAfter d k (callbacks d rs (on_writeable d s))) (omega arith)
        (callbacks-IsAfter d rs (suc n) (on_writeable d s) p open_all
          (on_writeable-IsAfter d n s p h))
  callbacks-IsAfter d (client_established ∷ rs) n s p (_, open_all) h =
      callbacks-IsAfter d rs n _ p open_all (record { index = h.index; written = h.written })
  callbacks-IsAfter d (client_receive ∷ rs) n s p (_, open_all) h =
      callbacks-IsAfter d rs n s p open_all h
  callbacks-IsAfter d (connection_error ∷ rs) n s p (_, open_all) h =
      callbacks-IsAfter d rs n _ p open_all (record { index = h.index; written = h.written })
  callbacks-IsAfter d (other ∷ rs) n s p (_, open_all) h = callbacks-IsAfter d rs n s p open_all h
  callbacks-IsAfter d (closed ∷ rs) n s p (shut, _) h = ground arith
  callbacks-IsAfter d (wsi_destroy ∷ rs) n s p (shut, _) h = ground arith

  ended-IsAfter :
      (d : Device) (r : Reason) (s : Requests)
      → is_open r ≡ false
      → IsAfter d 0 (callback_lws_communicate d r s)
  unfolding callback_lws_communicate
  ended-IsAfter d closed s shut = record { index = omega arith; written = refl }
  ended-IsAfter d wsi_destroy s shut = record { index = omega arith; written = refl }
  ended-IsAfter d client_established s shut = ground arith
  ended-IsAfter d client_receive s shut = ground arith
  ended-IsAfter d connection_error s shut = ground arith
  ended-IsAfter d client_writeable s shut = ground arith
  ended-IsAfter d other s shut = ground arith

  -- Whatever was requested before: since a connection ended, with any callbacks between that do not
  -- end one, the first call for writing requests nothing; in the build for ADAS the second requests
  -- the frames 0x700 and the third the frames 0x760, in that for DMS the second requests the alerts;
  -- later ones request nothing, so that each topic is requested once in each connection. The
  -- library's packed requests for the topics are not empty and below 512 bytes.
  pub callbacks-requests :
      (d : Device) (r : Reason) (rs : List Reason) (s : Requests)
      → All Packs (topics d)
      → is_open r ≡ false
      → AllOpen rs
      → (callbacks d rs (callback_lws_communicate d r s)).requests ≡ due d (writeables rs)
  callbacks-requests d r rs s p shut open_all =
      let h = callbacks-IsAfter d rs 0 _ p open_all (ended-IsAfter d r s shut) in
      h.written ∙ ap (due d) (omega arith)
