-- ===== src/Tests/Clients.antt =====
-- Messages and callbacks of the websocket client.
use sanbao_prot.Base.{
  ℕ, zero, suc, true, false, ◌≡◌, refl, List, [], ◌∷◌, Bytes, none, replicate, arith,
}
use sanbao_prot.Client.Connects.{
  Round, Client, pthread_websocket_client, Spaced, pthread_websocket_client-Spaced,
}
use sanbao_prot.Client.Fields.{
  is_scalar, Message, data_field, source_field, time_field, topic_field, encode, and_then,
  unpack_wsi_msg-null,
}
use sanbao_prot.Client.Fields as Fields
use sanbao_prot.Client.Requests.{
  Requests, Reason, client_established, closed, client_receive, client_writeable, callbacks,
  callback_lws_communicate, callbacks-requests,
}
use sanbao_prot.Client.{
  Object, Entries, bin, scalar, str, map, end, entry, no_data, word_data, word_source,
  message_can700, message_can760, AdasClient, unpack_wsi_msg_adas,
}
use sanbao_prot.Prot.{adas}
use sanbao_prot.Tests.Alerts.{adas_run, level}
use sanbao_prot.Tests.Sample.{config}

-- What a library may make of messages, told apart by their first byte: a source that is a number, a
-- level of the headway, the speed.
abbrev headway_fields : List Fields.Field
headway_fields =
    source_field (165 ∷ []) 3 (109 ∷ 101 ∷ 53 ∷ [])
    ∷ topic_field [] 16 message_can700
    ∷ time_field [] 77
    ∷ data_field [] 8 (level 2)
    ∷ []

abbrev speed_fields : List Fields.Field
speed_fields =
    data_field [] 8 (0 ∷ 0 ∷ 60 ∷ 0 ∷ 0 ∷ 0 ∷ 0 ∷ 0 ∷ []) ∷ topic_field [] 16 message_can760 ∷ []

abbrev unpack : Bytes → Object
unpack [] = map (encode [] (entry (str 6 word_source) (scalar 5) end))
unpack (zero ∷ b) = map (encode headway_fields end)
unpack (suc n ∷ b) = map (encode speed_fields end)

abbrev idle : AdasClient
idle = record { data_type = no_data; can760 = replicate 3 0; run = adas_run }

abbrev messages : List Message
messages =
    record { now = 100; msg = 1 ∷ []; fields = speed_fields }
    ∷ record { now = 101; msg = 0 ∷ []; fields = headway_fields }
    ∷ []

-- The first pair and the rest of the message with the speed.
abbrev first_value : Object
first_value = bin 8 (0 ∷ 0 ∷ 60 ∷ 0 ∷ 0 ∷ 0 ∷ 0 ∷ 0 ∷ [])

abbrev others : Entries
others = encode (topic_field [] 16 message_can760 ∷ []) end

unpack_wsi_msg-null_example :
    and_then
      (unpack_wsi_msg_adas unpack config 100 [] idle)
      (unpack_wsi_msg_adas unpack config 101 (1 ∷ []))
    ≡ none
unpack_wsi_msg-null_example =
    unpack_wsi_msg-null unpack config 100 101 4 [] (1 ∷ []) [] word_data [] (scalar 5) first_value
      others idle refl (is_scalar 5) refl refl (omega arith)

-- The library's length byte, and the topic.
abbrev packs : Bytes → Bytes
packs name = 176 ∷ name

abbrev written : Requests
written = record { msg_send_index = 3; wsi_dumb_null = false; asked = 4; requests = [] }

abbrev reasons : List Reason
reasons =
    client_established ∷ client_writeable ∷ client_writeable ∷ client_receive ∷ client_writeable
    ∷ client_writeable ∷ []

callbacks-requests_example :
    (callbacks packs adas reasons (callback_lws_communicate packs adas closed written)).requests
    ≡ packs message_can700 ∷ packs message_can760 ∷ []
callbacks-requests_example =
    callbacks-requests packs adas closed reasons written
      ((omega arith, omega arith), ((omega arith, omega arith), tt)) refl
      (refl, (refl, (refl, (refl, (refl, (refl, tt))))))

-- Attempts that make no socket, a second apart.
abbrev failing : ℕ → Round
failing now = record { now = now; made = false; reasons = [] }

abbrev rounds : List Round
rounds = failing 10 ∷ failing 11 ∷ failing 12 ∷ failing 13 ∷ []

abbrev unconnected : Client
unconnected = record {
  requests = record written { wsi_dumb_null = true };
  rl_dumb = 0;
  connects = [];
}

pthread_websocket_client-Spaced_example :
    Spaced (pthread_websocket_client packs adas rounds unconnected).connects
pthread_websocket_client-Spaced_example =
    pthread_websocket_client-Spaced packs adas rounds unconnected
      (omega arith, (omega arith, (omega arith, (omega arith, tt)))) refl
