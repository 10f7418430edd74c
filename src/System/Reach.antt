-- ===== src/System/Reach.antt =====
-- The steps of the threads, and what holds after any of them in any order.
use sanbao_prot.Alert.Adas.{AdasRun, deal_wsi_adas_can700}
use sanbao_prot.Alert.Dms.{DmsRun, deal_wsi_dms_info}
use sanbao_prot.Alert.{LocalConfig}
use sanbao_prot.Base.{
  Bool, List, ◌&&◌, ◌≤◌, false, length, arith, ℕ, ◌≡◌, refl, sym, subst, true, Bytes, IsByte, All,
}
use sanbao_prot.Dispatch.{sample_on_cmd}
use sanbao_prot.Link.Package.{Attempt, send_round, with_send_q}
use sanbao_prot.Link.Snap.{SnapRun, snap_round}
use sanbao_prot.Link.{Link, set_connect_status, tcp_socket_close, send_stat_pkg_init}
use sanbao_prot.Prot.Cmd
use sanbao_prot.Queue.{Node, Ptr, popped, ptr_queue_pop, pull_mm_queue}
use sanbao_prot.Setting.{auto_send_work_status, module_status}
use sanbao_prot.System.Steps.{
  Holds, sample_on_cmd-IsSound, closed-Holds, pull-Holds, snap_round-Holds, forgot-Holds,
  cleared-Holds,
}
use sanbao_prot.System.Reports.{deal_wsi_dms_info-IsSound, deal_wsi_adas_can700-IsSound}
use sanbao_prot.System.Rounds.{Fair, send_round-IsSound}
use sanbao_prot.System.Sending.{send-IsSound}
use sanbao_prot.System.{IsSound}
use sanbao_prot.Warn.Message.{WarnFrame}

-- A step of one of the threads, but for that which turns a connection on. `sample_on_cmd` is given the
-- bytes of a frame, the handlers of alerts those of the algorithms; while a message waits for its
-- acknowledgement, the others keep the state sound and the status of the connection. `do_stat_reset`
-- is a step for the transfer and one for each call of `ptr_queue_pop` that takes a message; a call that
-- writes to freed memory has no step behind it.
pub data Step : Link → Link → Type 0 where
  command :
      (f : WarnFrame) (msg : Bytes) (len : ℕ) (l : Link)
      → All IsByte msg
      → Step l (record l { app = (sample_on_cmd f l.app msg len).0 })
  driver_alert :
      (c : LocalConfig) (junk : WarnFrame) (now : ℕ) (warning : Bytes) (r : DmsRun) (l : Link)
      → r.app ≡ l.app
      → Step l (record l { app = (deal_wsi_dms_info c junk now warning r).app })
  car_alert :
      (c : LocalConfig) (now : ℕ) (can : Bytes) (r : AdasRun) (l : Link)
      → r.app ≡ l.app
      → Step l (record l { app = (deal_wsi_adas_can700 c now can r).app })
  sending :
      (old : Bytes) (attempts : ℕ → Attempt) (l : Link)
      → ((i : ℕ) → Fair (attempts i))
      → Step l (send_round old attempts l)
  media_order :
      (l : Link)
      → Step l
          (record l { app = record l.app { image_queue = (pull_mm_queue l.app.image_queue).1 } })
  snapping :
      (c : LocalConfig) (junk : WarnFrame) (now : ℕ) (s : SnapRun)
      → Step s.link (snap_round c junk now s).link
  closing : (l : Link) → Step l (tcp_socket_close l)
  forgetting : (l : Link) → Step l (record l { app = send_stat_pkg_init l.app })
  clearing :
      (l : Link) (buf : Ptr) (len : ℕ) (n : Node) (left : Ptr) (rest : List Node)
      → ptr_queue_pop l.app.sender.send_q buf len ≡ popped n left rest
      → Step l (with_send_q rest l)
  telling : (l : Link) → Step l (record l { app = auto_send_work_status l.app })

-- The steps while no connection is turned on.
pub data Stays (l : Link) : Link → Type 0 where
  here : Stays l l
  step : {m n : Link} → Stays l m → Step m n → Stays l n

-- The steps of all the threads, in any order.
pub data Reaches (l : Link) : Link → Type 0 where
  start : Reaches l l
  next : {m n : Link} → Reaches l m → Step m n → Reaches l n
  turning_on : {m : Link} → Reaches l m → Reaches l (set_connect_status true m)

only_on : (posts up : Bool) → (posts && up) ≡ true → up ≡ true
only_on true up h = h
only_on false up h = ground arith

Step-Holds : (posts : Bool) {l m : Link} → Step l m → Holds posts l → Holds posts m
unfolding auto_send_work_status
Step-Holds posts (command f msg len l bytes) h =
    sample_on_cmd-IsSound f msg len bytes (posts && l.connect_status) l.app h
Step-Holds posts (driver_alert c junk now warning r l e) h =
    let up = posts && l.connect_status in
    deal_wsi_dms_info-IsSound c junk now warning up r (subst (IsSound up) (sym e) h)
Step-Holds posts (car_alert c now can r l e) h =
    let up = posts && l.connect_status in
    deal_wsi_adas_can700-IsSound c now can up r (subst (IsSound up) (sym e) h)
Step-Holds posts (sending old attempts l fair) h =
    let s =
      send_round-IsSound old attempts l.connect_status (posts && l.connect_status) l fair
        (only_on posts l.connect_status) (record { status = refl; sound = h }) in
    subst (λ b. IsSound (posts && b) (send_round old attempts l).app) (sym s.status) s.sound
Step-Holds posts (media_order l) h = pull-Holds (posts && l.connect_status) l.app h
Step-Holds posts (snapping c junk now s) h = snap_round-Holds posts c junk now s h
Step-Holds posts (closing l) h = closed-Holds posts l h
Step-Holds posts (forgetting l) h = forgot-Holds posts l h
Step-Holds posts (clearing l buf len n left rest e) h =
    cleared-Holds posts l buf len n left rest e h
Step-Holds posts (telling l) h =
    send-IsSound Cmd.upload_status module_status (posts && l.connect_status) l.app h

Stays-Holds : (posts : Bool) {l m : Link} → Stays l m → Holds posts l → Holds posts m
Stays-Holds posts here h = h
Stays-Holds posts (step r s) h = Step-Holds posts s (Stays-Holds posts r h)

Reaches-Holds : {l m : Link} → Reaches l m → IsSound false l.app → IsSound false m.app
unfolding set_connect_status
Reaches-Holds start h = h
Reaches-Holds (next r s) h = Step-Holds false s (Reaches-Holds r h)
Reaches-Holds (turning_on r) h = Reaches-Holds r h

-- A state with a post for every message that waits, if the connection is on.
abbrev pub Posted : Link → Type 0
Posted l = l.connect_status ≡ true → length l.app.sender.send_q ≤ l.app.sender.send_data

with_posts : (l : Link) → IsSound false l.app → Posted l → IsSound l.connect_status l.app
with_posts l h posted = record {
  messages = h.messages;
  posts = posted;
  orders = h.orders;
  size = h.size;
  ranges = h.ranges;
}

-- From a state with bounded queues and good parameters on, whatever frames come, alerts are raised,
-- connections close and begin, media are pulled and waits end, with the calls in any order: both queues
-- hold 16 nodes at most, and the ADAS parameters are 50 bytes with every checked field in its range.
-- Behind any state on the way in which no message waits without a post while the connection is on,
-- none does until a connection is turned on again.
pub Reaches-IsSound :
    {l m n : Link}
    → Reaches l m
    → Stays m n
    → IsSound false l.app
    → Posted m
    → IsSound n.connect_status n.app
Reaches-IsSound {m = m} way stays h posted =
    Stays-Holds true stays (with_posts m (Reaches-Holds way h) posted)
