-- ===== src/Link/Package.antt =====
-- `send_package` of process.cpp and the loop of `pthread_process_send` around it.
pub mod Laws
pub mod Deliver
use sanbao_prot.App.{App}
use sanbao_prot.Base.{
  ℕ, zero, suc, ◌+◌, ◌-◌, Bool, true, false, not, List, [], ◌∷◌, Bytes, take, leb, ◌==◌,
  if◌then◌else◌,
}
use sanbao_prot.Link.{Link}
use sanbao_prot.Prot.{ptr_queue_buf_size}
use sanbao_prot.Queue.{
  Node, AckStatus, ack_ready, ack_waiting, no_need_ack, Ptr, null, block, freed, Popped, empty,
  popped, wild_write, ptr_queue_pop,
}

-- A return of `pthread_cond_timedwait`: its value, and what the other threads did to the state while
-- the lock was released.
pub record Wake : Type 0 where
  pub rc : ℕ
  pub others : App → App

-- What happens from a send on: what the other threads do before the lock is taken, and the returns
-- of the wait. A list that comes to its end stands for the deadline, one second after the send.
pub record Attempt : Type 0 where
  pub others : App → App
  pub wakes : List Wake

-- ETIMEDOUT
abbrev pub etimedout : ℕ
etimedout = 110

-- `while ((recv_ack != NOTICE_MSG) && rc == 0)`
unfoldable pub wait_ack : List Wake → App → App × ℕ
wait_ack [] a = if a.recv_ack then (a, 0) else (a, etimedout)
wait_ack (w ∷ ws) a =
    let b = w.others a in
    let rest = wait_ack ws b in if a.recv_ack then (a, 0) else if w.rc == 0 then rest else (b, w.rc)

-- `handle->snd(handle)` of the message in `sndData_s`.
unfoldable pub snd : Bytes → Link → Link
snd msg l = record l { sent = msg ∷ l.sent }

unfoldable pub clear_ack : App → App
clear_ack a = record a { recv_ack = false }

unfoldable pub stop_transfer : App → App
stop_transfer a = record a { pkg = record a.pkg { mm_data_trans_waiting = false } }

-- One round of the `for`, without its `break`s: the send and the wait.
unfoldable pub attempt : Bytes → Attempt → Link → Link × ℕ
unfolding snd wait_ack
attempt msg t l =
    let m = snd msg l in
    let (b, rc) = wait_ack t.wakes (t.others m.app) in (record m { app = b }, rc)

-- The `for` over the rounds that are left.
unfoldable pub send_rounds : ℕ → ℕ → Bytes → (ℕ → Attempt) → Link → Link
unfolding attempt clear_ack stop_transfer
send_rounds zero send_repeat msg attempts l = l
send_rounds (suc n) send_repeat msg attempts l =
    let (m, rc) = attempt msg (attempts 0) l in
    let rest = send_rounds n (send_repeat + 1) msg (λ i. attempts (suc i)) m in
    if rc == 0
    then record m { app = clear_ack m.app }
    else if leb 3 (send_repeat + 1)
    then record m { app = stop_transfer m.app }
    else rest

unfoldable pub send_message : AckStatus → ℕ → Bytes → (ℕ → Attempt) → Link → Link
unfolding send_rounds
send_message ack_ready send_repeat msg attempts l = snd msg l
send_message ack_waiting send_repeat msg attempts l = send_rounds 3 send_repeat msg attempts l
send_message no_need_ack send_repeat msg attempts l = l

-- The `len` bytes of the message that the pop wrote to `sndData_s`; a node without a block leaves
-- `len` 0.
pub message_of : Node → Ptr → Bytes
message_of n null = []
message_of n (block b) = take n.len b
message_of n freed = []

unfoldable pub with_send_q : List Node → Link → Link
with_send_q q l = record l { app = record l.app { sender = record l.app.sender { send_q = q } } }

unfoldable pub send_popped : Popped → (ℕ → Attempt) → Link → Link
unfolding send_message with_send_q message_of
send_popped empty attempts l = l
send_popped (popped n p rest) attempts l =
    send_message n.pkg.ack_status n.pkg.send_repeat (message_of n p) attempts (with_send_q rest l)
send_popped wild_write attempts l = l

-- `sndData_s` holds `old`.
unfoldable pub send_package : Bytes → (ℕ → Attempt) → Link → Link
unfolding send_popped
send_package old attempts l =
    if not l.connect_status
    then l
    else send_popped (ptr_queue_pop l.app.sender.send_q (block old) ptr_queue_buf_size) attempts l

unfoldable pub take_post : Link → Link
take_post l = record l {
  app = record l.app { sender = record l.app.sender { send_data = l.app.sender.send_data - 1 } };
}

-- One round of the thread: `sem_wait` blocks while nothing was posted.
unfoldable pub send_round : Bytes → (ℕ → Attempt) → Link → Link
unfolding send_package take_post
send_round old attempts l =
    if l.app.sender.send_data == 0 then l else send_package old attempts (take_post l)
