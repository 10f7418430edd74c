-- ===== src/System/Rounds.antt =====
-- The rounds of the sending thread keep the shared state sound.
use sanbao_prot.App.{App}
use sanbao_prot.Base.{
  ℕ, zero, suc, ◌+◌, ◌≤◌, ◌≡◌, refl, sym, Bool, true, false, not, List, [], ◌∷◌, Bytes, All, length,
  leb, ◌==◌, if_both, arith, if◌then◌else◌, subst,
}
use sanbao_prot.Link.Package.{
  Wake, Attempt, wait_ack, attempt, snd, clear_ack, stop_transfer, send_rounds, send_message,
  with_send_q, send_popped, send_package, take_post, send_round,
}
use sanbao_prot.Link.{Link}
use sanbao_prot.Prot.{ptr_queue_buf_size}
use sanbao_prot.Queue.{
  Node, AckStatus, ack_ready, ack_waiting, no_need_ack, Popped, empty, popped, wild_write, block,
  ptr_queue_pop, ptr_queue_buf_cnt,
}
use sanbao_prot.Queue.Laws.{Pops, nothing, first, ptr_queue_pop-Pops}
use sanbao_prot.System.Sending.{same-IsSound}
use sanbao_prot.System.{IsSound, Keeps}

-- The status of the connection is `on`, and the shared state is sound.
pub record SoundAt (on up : Bool) (l : Link) : Type 0 where
  pub status : l.connect_status ≡ on
  pub sound : IsSound up l.app

abbrev pub KeepsLink : (Link → Link) → Type 0
KeepsLink f = (on up : Bool) (l : Link) → SoundAt on up l → SoundAt on up (f l)

-- What the other threads do during an attempt.
pub record Fair (t : Attempt) : Type 0 where
  pub before : Keeps t.others
  pub during : All (λ (w : Wake). Keeps w.others) t.wakes

abbrev SoundWait : Bool → App × ℕ → Type 0
SoundWait up p = IsSound up p.0

wait_ack-IsSound :
    (ws : List Wake) (up : Bool) (a : App)
    → All (λ (w : Wake). Keeps w.others) ws
    → IsSound up a
    → IsSound up (wait_ack ws a).0
unfolding wait_ack
wait_ack-IsSound [] up a fair h = if_both (SoundWait up) a.recv_ack h h
wait_ack-IsSound (w ∷ ws) up a (k, fair) h =
    let b = k up a h in
    if_both (SoundWait up) a.recv_ack h
      (if_both (SoundWait up) (w.rc == 0) (wait_ack-IsSound ws up (w.others a) fair b) b)

attempt-IsSound :
    (msg : Bytes) (t : Attempt) (on up : Bool) (l : Link)
    → Fair t
    → SoundAt on up l
    → SoundAt on up (attempt msg t l).0
unfolding attempt snd
attempt-IsSound msg t on up l fair h = record {
  status = h.status;
  sound = wait_ack-IsSound t.wakes up (t.others l.app) fair.during (fair.before up l.app h.sound);
}

send_rounds-IsSound :
    (n send_repeat : ℕ) (msg : Bytes) (attempts : ℕ → Attempt)
    → ((i : ℕ) → Fair (attempts i))
    → KeepsLink (send_rounds n send_repeat msg attempts)
unfolding send_rounds clear_ack stop_transfer
send_rounds-IsSound zero send_repeat msg attempts fair on up l h = h
send_rounds-IsSound (suc n) send_repeat msg attempts fair on up l h =
    let m = (attempt msg (attempts 0) l).0 in
    let g = attempt-IsSound msg (attempts 0) on up l (fair 0) h in
    let rest =
      send_rounds-IsSound n (send_repeat + 1) msg (λ i. attempts (suc i)) (λ i. fair (suc i)) on up
        m g in
    if_both (SoundAt on up) ((attempt msg (attempts 0) l).1 == 0)
      (record { status = g.status; sound = same-IsSound up m.app _ g.sound refl refl refl refl })
      (if_both (SoundAt on up) (leb 3 (send_repeat + 1))
        (record { status = g.status; sound = same-IsSound up m.app _ g.sound refl refl refl refl })
        rest)

send_message-IsSound :
    (status : AckStatus) (send_repeat : ℕ) (msg : Bytes) (attempts : ℕ → Attempt)
    → ((i : ℕ) → Fair (attempts i))
    → KeepsLink (send_message status send_repeat msg attempts)
unfolding send_message snd
send_message-IsSound ack_ready send_repeat msg attempts fair on up l h = record {
  status = h.status;
  sound = h.sound;
}
send_message-IsSound ack_waiting send_repeat msg attempts fair on up l h =
    send_rounds-IsSound 3 send_repeat msg attempts fair on up l h
send_message-IsSound no_need_ack send_repeat msg attempts fair on up l h = h

-- Between the post and the pop, the posts may be one short: the state is then sound as one of a
-- connection that is not up. A queue that is one shorter makes up for it.
with_send_q-IsSound :
    (rest : List Node) (on up : Bool) (l : Link)
    → l.connect_status ≡ on
    → IsSound false l.app
    → length rest ≤ ptr_queue_buf_cnt
    → (up ≡ true → length rest ≤ l.app.sender.send_data)
    → SoundAt on up (with_send_q rest l)
unfolding with_send_q
with_send_q-IsSound rest on up l status h small posted = record {
  status = status;
  sound = record {
    messages = small;
    posts = posted;
    orders = h.orders;
    size = h.size;
    ranges = h.ranges;
  };
}

pub none_waiting : (up : Bool) (a : App) → a.sender.send_q ≡ [] → IsSound false a → IsSound up a
none_waiting up a e h = record {
  messages = h.messages;
  posts = λ on. rw e (omega arith);
  orders = h.orders;
  size = h.size;
  ranges = h.ranges;
}

popped_sound :
    (p : Popped) (attempts : ℕ → Attempt) (q : List Node) (on up : Bool) (l : Link)
    → ((i : ℕ) → Fair (attempts i))
    → Pops q p
    → l.app.sender.send_q ≡ q
    → l.connect_status ≡ on
    → IsSound false l.app
    → (up ≡ true → length q ≤ l.app.sender.send_data + 1)
    → length q ≤ ptr_queue_buf_cnt
    → SoundAt on up (send_popped p attempts l)
unfolding send_popped
popped_sound empty attempts q on up l fair nothing e status h posted small = record {
  status = status;
  sound = none_waiting up l.app e h;
}
popped_sound (popped m p rest) attempts q on up l fair first e status h posted small =
    send_message-IsSound m.pkg.ack_status m.pkg.send_repeat _ attempts fair on up _
      (with_send_q-IsSound rest on up l status h (omega arith) (λ e. omega (arith, posted e)))
popped_sound wild_write attempts q on up l fair pops e status h posted small = elim pops [ ]

pub posted_again : (up : Bool) (a : App) → IsSound up a → IsSound false a
posted_again up a h = record {
  messages = h.messages;
  posts = λ off. absurd (ground (arith, off));
  orders = h.orders;
  size = h.size;
  ranges = h.ranges;
}

take_post-IsSound : (up : Bool) (l : Link) → IsSound up l.app → IsSound false (take_post l).app
unfolding take_post
take_post-IsSound up l h =
    let g = posted_again up l.app h in
    record {
      messages = g.messages;
      posts = λ off. absurd (ground (arith, off));
      orders = g.orders;
      size = g.size;
      ranges = g.ranges;
    }

send_package-IsSound :
    (old : Bytes) (attempts : ℕ → Attempt) (on up : Bool) (l : Link)
    → ((i : ℕ) → Fair (attempts i))
    → l.connect_status ≡ on
    → IsSound false l.app
    → (up ≡ true → on ≡ true)
    → (up ≡ true → length l.app.sender.send_q ≤ l.app.sender.send_data + 1)
    → SoundAt on up (send_package old attempts l)
unfolding send_package
send_package-IsSound old attempts true up l fair status h fits posted = simp status (
    popped_sound _ attempts l.app.sender.send_q true up l fair
      (ptr_queue_pop-Pops l.app.sender.send_q old ptr_queue_buf_size) refl status h posted
      h.messages)
send_package-IsSound old attempts false up l fair status h fits posted =
    let down : IsSound up l.app = record {
      messages = h.messages;
      posts = λ e. absurd (ground (arith, fits e));
      orders = h.orders;
      size = h.size;
      ranges = h.ranges;
    } in
    subst
      (λ b. SoundAt false up (
        if not b
        then l
        else send_popped (ptr_queue_pop l.app.sender.send_q (block old) ptr_queue_buf_size) attempts
            l))
      (sym status) (record { status = status; sound = down })

-- Posts are kept only where the connection is on.
pub send_round-IsSound :
    (old : Bytes) (attempts : ℕ → Attempt) (on up : Bool) (l : Link)
    → ((i : ℕ) → Fair (attempts i))
    → (up ≡ true → on ≡ true)
    → SoundAt on up l
    → SoundAt on up (send_round old attempts l)
unfolding send_round take_post
send_round-IsSound old attempts on up l fair fits h =
    let sent =
      send_package-IsSound old attempts on up (take_post l) fair h.status
        (take_post-IsSound up l h.sound) fits (λ e. omega (arith, h.sound.posts e)) in
    if_both (SoundAt on up) (l.app.sender.send_data == 0) h sent
