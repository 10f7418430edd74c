-- ===== src/System/Sending.antt =====
-- The small steps of the handlers that keep the shared state sound.
use sanbao_prot.App.{App, send, send_in_place}
use sanbao_prot.Base.{ℕ, ◌≤◌, ◌≡◌, Bool, true, refl, ap, ◌∙◌, Bytes, IsByte, All, length, arith}
use sanbao_prot.Para.WriteAdas.{write_dev_para-adas_bounds, length-write_dev_para}
use sanbao_prot.Para.{Paras, write_dev_para}
use sanbao_prot.Prot.{id_adas, id_dms}
use sanbao_prot.Queue.Laws.{ptr_queue_push-bounded, length-ptr_queue_push}
use sanbao_prot.Queue.{InfoForStore, push_mm_queue, ptr_queue_buf_cnt}
use sanbao_prot.Send.{Sender, Memory, message_queue_send}
use sanbao_prot.Prot.{Device}
use sanbao_prot.System.{IsSound, Keeps}

-- A state that differs in other members only.
pub same-IsSound :
    (up : Bool) (a b : App)
    → IsSound up a
    → b.sender.send_q ≡ a.sender.send_q
    → b.sender.send_data ≡ a.sender.send_data
    → b.image_queue ≡ a.image_queue
    → b.paras ≡ a.paras
    → IsSound up b
same-IsSound up a b h q d i p = record {
  messages = rw q h.messages;
  posts = rw (q, d) h.posts;
  orders = rw i h.orders;
  size = rw p h.size;
  ranges = rw p h.ranges;
}

-- What a send does to the queue and its posts.
record Sent (s t : Sender) : Type 0 where
  bounded : length s.send_q ≤ ptr_queue_buf_cnt → length t.send_q ≤ ptr_queue_buf_cnt
  posted : length s.send_q ≤ s.send_data → length t.send_q ≤ t.send_data

message_queue_send-Sent :
    (dev : Device) (c : ℕ) (payload : Bytes) (mem : Memory) (s : Sender)
    → Sent s (message_queue_send dev c payload mem s).0
unfolding message_queue_send
message_queue_send-Sent dev c payload mem s = record {
  bounded = λ h. ptr_queue_push-bounded s.send_q _ mem.header mem.buffer h;
  posted = λ h. omega (arith, length-ptr_queue_push s.send_q _ mem.header mem.buffer);
}

sent-IsSound :
    (up : Bool) (a : App) (s : Sender)
    → IsSound up a
    → Sent a.sender s
    → IsSound up (record a { sender = s })
sent-IsSound up a s h t = record {
  messages = t.bounded h.messages;
  posts = λ e. t.posted (h.posts e);
  orders = h.orders;
  size = h.size;
  ranges = h.ranges;
}

pub send-IsSound : (c : ℕ) (payload : Bytes) → Keeps (send c payload)
unfolding send
send-IsSound c payload up a h =
    sent-IsSound up a _ h (message_queue_send-Sent a.dev c payload a.mem a.sender)

pub send_in_place-IsSound :
    (c : ℕ) (payload msg : Bytes) → Keeps (λ a. (send_in_place c payload msg a).0)
unfolding send_in_place
send_in_place-IsSound c payload msg up a h =
    sent-IsSound up a _ h (message_queue_send-Sent a.dev c payload a.mem a.sender)

-- A push into the queue of media orders.
pub push_mm_queue-IsSound :
    (mm : InfoForStore) (header up : Bool) (a : App)
    → IsSound up a
    → IsSound up (record a { image_queue = push_mm_queue a.image_queue mm header })
unfolding push_mm_queue
push_mm_queue-IsSound mm header up a h = record {
  messages = h.messages;
  posts = h.posts;
  orders = ptr_queue_push-bounded a.image_queue _ header true h.orders;
  size = h.size;
  ranges = h.ranges;
}

-- New parameters of either device.
pub adas-IsSound :
    (inn : Bytes) (up : Bool) (a b : App)
    → IsSound up a
    → All IsByte inn
    → b.sender ≡ a.sender
    → b.image_queue ≡ a.image_queue
    → b.paras ≡ write_dev_para id_adas inn a.paras
    → IsSound up b
adas-IsSound inn up a b h bytes s i p = record {
  messages = rw s h.messages;
  posts = rw s h.posts;
  orders = rw i h.orders;
  size = rw p (length-write_dev_para inn a.paras h.size);
  ranges = λ r m. rw p (write_dev_para-adas_bounds {r = r} m inn a.paras h.size bytes);
}

write_dms-adas : (inn : Bytes) (s : Paras) → (write_dev_para id_dms inn s).adas_para ≡ s.adas_para
unfolding write_dev_para
write_dms-adas inn s = refl

pub dms-IsSound :
    (inn : Bytes) (up : Bool) (a b : App)
    → IsSound up a
    → b.sender ≡ a.sender
    → b.image_queue ≡ a.image_queue
    → b.paras ≡ write_dev_para id_dms inn a.paras
    → IsSound up b
dms-IsSound inn up a b h s i p =
    let e = ap (λ (q : Paras). q.adas_para) p ∙ write_dms-adas inn a.paras in
    record {
      messages = rw s h.messages;
      posts = rw s h.posts;
      orders = rw i h.orders;
      size = rw e h.size;
      ranges = rw e h.ranges;
    }
