-- ===== src/Link/Package/Deliver.antt =====
-- What a round of the sending thread does with the message at the front of the queue.
use sanbao_prot.App.{App}
use sanbao_prot.Base.{
  ℕ, suc, ◌+◌, ◌≤◌, ◌<◌, ◌≡◌, refl, ap, ◌∙◌, true, false, not, List, ◌∷◌, ◌++◌, some, Bytes, length,
  take_all, replicate, arith, if◌then◌else◌, eqb_ne, ◌^◌, get_or,
}
use sanbao_prot.Link.Package.Laws.{
  Silent, Notified, here, send_rounds-once, send_rounds-Silent, send_rounds-acked,
  send_rounds-bounded,
}
use sanbao_prot.Link.Package.{
  Attempt, send_rounds, send_message, message_of, with_send_q, send_popped, send_package, take_post,
  send_round,
}
use sanbao_prot.Link.{Link}
use sanbao_prot.Prot.Cmd
use sanbao_prot.Prot.{ptr_queue_buf_size, image_size_per_packet, read_be32}
use sanbao_prot.Queue.Laws.{Carries, ptr_queue_pop_front}
use sanbao_prot.Queue.{Node, block, popped, ack_waiting, ptr_queue_pop}
use sanbao_prot.Transfer.Run.{send_mm_req_ack-starts, Uploading}
use sanbao_prot.Transfer.{send_mm_req_ack}

-- The connection is up, a post is there, and the message `msg`, not sent before, is at the front of
-- the queue.
pub record Ready (msg : Bytes) (n : Node) (rest : List Node) (l : Link) : Type 0 where
  pub connected : l.connect_status ≡ true
  pub posted : 0 < l.app.sender.send_data
  pub front : l.app.sender.send_q ≡ n ∷ rest
  pub carries : Carries n msg
  pub unsent : n.pkg.send_repeat ≡ 0
  pub waits : n.pkg.ack_status ≡ ack_waiting

abbrev popped_link : List Node → Link → Link
popped_link rest l = with_send_q rest (take_post l)

popped_sends :
    (msg : Bytes) (n : Node) (rest : List Node) (attempts : ℕ → Attempt) (l : Link)
    → n.pkg.send_repeat ≡ 0
    → n.pkg.ack_status ≡ ack_waiting
    → send_popped (popped (record n { len = length msg }) (block msg) rest) attempts l
      ≡ send_rounds 3 0 msg attempts (with_send_q rest l)
unfolding send_popped send_message message_of
popped_sends msg n rest attempts l unsent waits =
    simp (waits, unsent, take_all (length msg) msg (omega arith)) refl

round_sends :
    (old msg : Bytes) (n : Node) (rest : List Node) (attempts : ℕ → Attempt) (l : Link)
    → Ready msg n rest l
    → send_round old attempts l ≡ send_rounds 3 0 msg attempts (popped_link rest l)
unfolding send_round send_package take_post
round_sends old msg n rest attempts l r =
    let m = take_post l in
    let some_post = eqb_ne l.app.sender.send_data 0 (λ e. absurd (omega (arith, r.posted, e))) in
    ap (λ b. if b then l else send_package old attempts m) some_post
    ∙ ap
        (λ b.
          if not b
          then m
          else send_popped (ptr_queue_pop l.app.sender.send_q (block old) ptr_queue_buf_size)
              attempts m)
        r.connected
    ∙ ap (λ q. send_popped (ptr_queue_pop q (block old) ptr_queue_buf_size) attempts m) r.front
    ∙ ap (λ p. send_popped p attempts m) (ptr_queue_pop_front old msg n rest r.carries)
    ∙ popped_sends msg n rest attempts m r.unsent r.waits

-- A message that waits for its acknowledgement is sent again until one comes: if none comes in the
-- first `k` rounds, and one comes in the round behind them, at most the third, it is sent `k + 1`
-- times, and the acknowledgement is used up.
pub send_round-acked :
    (k : ℕ) (old msg : Bytes) (n : Node) (rest : List Node) (attempts : ℕ → Attempt) (l : Link)
    → Ready msg n rest l
    → k < 3
    → l.app.recv_ack ≡ false
    → ((i : ℕ) → i < k → Silent (attempts i))
    → ((a : App) → a.recv_ack ≡ false → Notified (attempts k).wakes ((attempts k).others a))
    → let m = send_round old attempts l in
      (m.sent ≡ replicate (suc k) msg ++ l.sent) × (m.app.recv_ack ≡ false)
unfolding take_post with_send_q
send_round-acked k old msg n rest attempts l r below no_ack silent notified =
    rw (round_sends old msg n rest attempts l r)
      (send_rounds-acked k 3 0 msg attempts (popped_link rest l) below refl silent notified no_ack)

-- A message whose acknowledgement does not come is sent three times, and then no transfer of media is
-- under way.
send_round-Silent :
    (old msg : Bytes) (n : Node) (rest : List Node) (attempts : ℕ → Attempt) (l : Link)
    → Ready msg n rest l
    → l.app.recv_ack ≡ false
    → ((i : ℕ) → Silent (attempts i))
    → let m = send_round old attempts l in
      (m.sent ≡ replicate 3 msg ++ l.sent) × (m.app.pkg.mm_data_trans_waiting ≡ false)
unfolding take_post with_send_q
send_round-Silent old msg n rest attempts l r no_ack silent =
    rw (round_sends old msg n rest attempts l r)
      (send_rounds-Silent 2 0 msg attempts (popped_link rest l) refl silent no_ack)

-- A terminal that falls silent does not block the upload of media: after a message that it leaves
-- unacknowledged, which is sent three times, a request for a file that can be read starts its
-- transfer, whatever transfer was under way before.
pub send_round-Silent_frees :
    (old msg content req : Bytes) (n : Node) (rest : List Node) (attempts : ℕ → Attempt) (l : Link)
    → Ready msg n rest l
    → l.app.recv_ack ≡ false
    → ((i : ℕ) → Silent (attempts i))
    → get_or req 7 0 ≡ Cmd.req_mm_data
    → (send_round old attempts l).app.image_memory ≡ true
    → (send_round old attempts l).app.disk (read_be32 req 9) ≡ some content
    → 0 < length content
    → length content + image_size_per_packet ≤ 2 ^ 31
    → let m = send_round old attempts l in
      let b = (send_mm_req_ack req 14 m.app).0 in
      (m.sent ≡ replicate 3 msg ++ l.sent)
      × Uploading content b
      × (b.pkg.packet_index ≡ 1)
      × (b.pkg.mm_data_trans_waiting ≡ true)
send_round-Silent_frees old msg content req n rest attempts l r no_ack silent c memory file
      some_bytes short =
    let s = send_round-Silent old msg n rest attempts l r no_ack silent in
    let t =
      send_mm_req_ack-starts content req (send_round old attempts l).app c s.1 memory file
        some_bytes short in
    (s.0, t.1, t.2, t.3)

-- Whatever the other threads do and however the waits end, a message that waits for its
-- acknowledgement is sent at most three times, and nothing else is sent in its round.
pub send_round-bounded :
    (old msg : Bytes) (n : Node) (rest : List Node) (attempts : ℕ → Attempt) (l : Link)
    → Ready msg n rest l
    → (k : ℕ) × (k ≤ 3) × ((send_round old attempts l).sent ≡ replicate k msg ++ l.sent)
unfolding take_post with_send_q
send_round-bounded old msg n rest attempts l r =
    rw (round_sends old msg n rest attempts l r)
      (send_rounds-bounded 3 0 msg attempts (popped_link rest l))

-- An acknowledgement that is noticed when no message waits for one is kept: the next message is then
-- sent once only, and passes for acknowledged before any answer to it, as long as the other threads
-- leave the flag set.
pub send_round-late_ack :
    (old msg : Bytes) (n : Node) (rest : List Node) (attempts : ℕ → Attempt) (l : Link)
    → Ready msg n rest l
    → l.app.recv_ack ≡ true
    → ((a : App) → a.recv_ack ≡ true → ((attempts 0).others a).recv_ack ≡ true)
    → let m = send_round old attempts l in (m.sent ≡ msg ∷ l.sent) × (m.app.recv_ack ≡ false)
unfolding take_post with_send_q
send_round-late_ack old msg n rest attempts l r ack stays =
    rw (round_sends old msg n rest attempts l r) (
      send_rounds-once 2 0 msg attempts (popped_link rest l)
        (here (stays (popped_link rest l).app ack)))
