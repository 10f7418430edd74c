-- ===== src/System/Steps.antt =====
-- What a step of each thread does to a sound state.
use sanbao_prot.Alert.{LocalConfig, limit_record_time}
use sanbao_prot.App.{App, write_heart}
use sanbao_prot.Base.{
  ℕ, ◌+◌, ◌%◌, ◌^◌, ◌≡◌, refl, Bool, true, false, not, List, [], ◌∷◌, ◌||◌, Bytes, IsByte, All,
  get_or, leb, ◌==◌, ◌&&◌, if_both, arith, if◌then◌else◌,
}
use sanbao_prot.Dispatch.{dev_info, run_cmd, record_serial, sample_on_cmd}
use sanbao_prot.Field.{get_field}
use sanbao_prot.Para.Adas as AdasPara
use sanbao_prot.Link.Snap.{
  SnapRun, auto_photo, snap_by_time, snap_by_distance, snap, snap_round, mileage, far_enough,
  snap_shot_by_time, snap_shot_by_distance,
}
use sanbao_prot.Link.{
  Link, HeartCheck, set_connect_status, tcp_socket_close, send_stat_pkg_init, count_heart_beat,
  check_heart_beat,
}
use sanbao_prot.Prot.Cmd
use sanbao_prot.Prot.{id_of, id_brdcst}
use sanbao_prot.Link.Package.{with_send_q}
use sanbao_prot.Queue.{Node, Ptr, popped, ptr_queue_pop, pull_mm_queue}
use sanbao_prot.System.Alerts.{do_snap_shot-IsSound}
use sanbao_prot.System.Handlers.{
  recv_para_setting-IsSound, send_para_setting-IsSound, factory_reset-IsSound,
  send_mm_req_ack-IsSound, recv_ack_and_send_image-IsSound, recv_upgrade_file-IsSound,
  recv_real_time_data-IsSound, recv_warning_ack-IsSound, recv_upload_status_cmd_ack-IsSound,
  reply_work_status-IsSound, send_snap_shot_ack-IsSound,
}
use sanbao_prot.System.Rounds.{posted_again}
use sanbao_prot.Queue.Laws.{length-pull_mm_queue, length-popped}
use sanbao_prot.System.Sending.{same-IsSound, send-IsSound, send_in_place-IsSound}
use sanbao_prot.System.{IsSound, Keeps}
use sanbao_prot.Warn.Message.{WarnFrame}

abbrev SoundIn : Bool → App × Bytes → Type 0
SoundIn up p = IsSound up p.0

run_cmd-IsSound :
    (f : WarnFrame) (c : ℕ) (msg : Bytes) (len : ℕ)
    → All IsByte msg
    → Keeps (λ a. (run_cmd f c msg len a).0)
unfolding run_cmd
run_cmd-IsSound f c msg len bytes up a h =
    let P = SoundIn up in
    if_both P (c == Cmd.query) (send_in_place-IsSound Cmd.query [] msg up a h) (
      if_both P (c == Cmd.factory_reset) (factory_reset-IsSound msg up a h) (
        if_both P (c == Cmd.speed_info) (recv_real_time_data-IsSound msg len up a h) (
          if_both P (c == Cmd.device_info) (send-IsSound Cmd.device_info dev_info up a h) (
            if_both P (c == Cmd.upgrade) (recv_upgrade_file-IsSound msg len up a h) (
              if_both P (c == Cmd.get_param) (send_para_setting-IsSound msg len up a h) (
                if_both P (c == Cmd.set_param) (recv_para_setting-IsSound msg len bytes up a h) (
                  if_both P (c == Cmd.warning_report) (recv_warning_ack-IsSound len up a h) (
                    if_both P (c == Cmd.req_status) (reply_work_status-IsSound len up a h) (
                      if_both P (c == Cmd.upload_status)
                        (recv_upload_status_cmd_ack-IsSound len up a h)
                        (if_both P (c == Cmd.req_mm_data) (send_mm_req_ack-IsSound msg len up a h) (
                          if_both P (c == Cmd.upload_mm_data)
                            (recv_ack_and_send_image-IsSound msg len up a h)
                            (if_both P (c == Cmd.snap_shot)
                              (do_snap_shot-IsSound f up _ (send_snap_shot_ack-IsSound len up a h))
                              h))))))))))))

pub sample_on_cmd-IsSound :
    (f : WarnFrame) (msg : Bytes) (len : ℕ)
    → All IsByte msg
    → Keeps (λ a. (sample_on_cmd f a msg len).0)
unfolding sample_on_cmd record_serial
sample_on_cmd-IsSound f msg len bytes up a h =
    if_both (SoundIn up) (not (get_or msg 6 0 == id_of a.dev) && not (get_or msg 6 0 == id_brdcst))
      h
      (run_cmd-IsSound f (get_or msg 7 0) msg len bytes up _
        (same-IsSound up a _ h refl refl refl refl))

-- The shared state is sound, with a post for every message while the connection is on if `posts`.
abbrev pub Holds : Bool → Link → Type 0
Holds posts l = IsSound (posts && l.connect_status) l.app

off-IsSound : (posts up : Bool) (a : App) → IsSound up a → IsSound (posts && false) a
off-IsSound true up a h = posted_again up a h
off-IsSound false up a h = posted_again up a h

pub closed-Holds : (posts : Bool) (l : Link) → Holds posts l → Holds posts (tcp_socket_close l)
unfolding tcp_socket_close set_connect_status
closed-Holds posts l h = if_both (Holds posts) l.connect_status (off-IsSound posts _ l.app h) h

pub pull-Holds :
    (up : Bool) (a : App)
    → IsSound up a
    → IsSound up (record a { image_queue = (pull_mm_queue a.image_queue).1 })
pull-Holds up a h = record {
  messages = h.messages;
  posts = h.posts;
  orders = omega (arith, length-pull_mm_queue a.image_queue);
  size = h.size;
  ranges = h.ranges;
}

abbrev HoldsHeart : Bool → HeartCheck × Link → Type 0
HoldsHeart posts p = Holds posts p.1

check_heart_beat-Holds :
    (posts : Bool) (c : LocalConfig) (now : ℕ) (h : HeartCheck) (l : Link)
    → Holds posts l
    → HoldsHeart posts (check_heart_beat c now h l)
unfolding check_heart_beat count_heart_beat write_heart
check_heart_beat-Holds posts c now h l k =
    let count = (h.count + 1) % 2 ^ 32 in
    let late =
      if_both (HoldsHeart posts) (leb c.check_heart_period count) (closed-Holds posts l k) k in
    let counted =
      if_both (HoldsHeart posts) (not l.app.heart_alive) late
        (same-IsSound (posts && l.connect_status) l.app _ k refl refl refl refl) in
    if_both (HoldsHeart posts) (not c.use_heart) k (
      if_both (HoldsHeart posts) (not l.connect_status) k
        (if_both (HoldsHeart posts) (limit_record_time now 1 h.s_record_last).1 counted k))

abbrev HoldsSnap : Bool → SnapRun → Type 0
HoldsSnap posts s = Holds posts s.link

snap-Holds :
    (posts : Bool) (junk : WarnFrame) (s : SnapRun)
    → HoldsSnap posts s
    → HoldsSnap posts (snap junk s)
unfolding snap
snap-Holds posts junk s h = do_snap_shot-IsSound junk (posts && s.link.connect_status) s.link.app h

snap_by_time-Holds :
    (posts : Bool) (junk : WarnFrame) (now period : ℕ) (s : SnapRun)
    → HoldsSnap posts s
    → HoldsSnap posts (snap_by_time junk now period s)
unfolding snap_by_time
snap_by_time-Holds posts junk now period s h =
    let t = record s { last = (limit_record_time now period s.last).0 } in
    let shot = record (snap junk t) { shots = now ∷ t.shots } in
    if_both (HoldsSnap posts) (period == 0) h (
      if_both (HoldsSnap posts) (limit_record_time now period s.last).1 {x = shot} {y = t}
        (snap-Holds posts junk t h) h)

snap_by_distance-Holds :
    (posts : Bool) (junk : WarnFrame) (period : ℕ) (s : SnapRun)
    → HoldsSnap posts s
    → HoldsSnap posts (snap_by_distance junk period s)
unfolding snap_by_distance
snap_by_distance-Holds posts junk period s h =
    let m = mileage s.link.app in
    let first_or_not : HoldsSnap posts (if s.mileage_last == 0 then s else snap junk s) =
      if_both (HoldsSnap posts) (s.mileage_last == 0) h (snap-Holds posts junk s h) in
    if_both (HoldsSnap posts) (period == 0 || not (far_enough m s.mileage_last period)) h
      first_or_not

auto_photo-Holds :
    (posts : Bool) (junk : WarnFrame) (now : ℕ) (para : Bytes) (s : SnapRun)
    → HoldsSnap posts s
    → HoldsSnap posts (auto_photo junk now para s)
unfolding auto_photo
auto_photo-Holds posts junk now para s h =
    let mode = get_field para AdasPara.auto_photo_mode in
    let timed =
      snap_by_time-Holds posts junk now (get_field para AdasPara.auto_photo_time_period) s h in
    let far =
      snap_by_distance-Holds posts junk (get_field para AdasPara.auto_photo_distance_period) s h in
    if_both (HoldsSnap posts) (mode == snap_shot_by_time) timed
      (if_both (HoldsSnap posts) (mode == snap_shot_by_distance) far h)

pub snap_round-Holds :
    (posts : Bool) (c : LocalConfig) (junk : WarnFrame) (now : ℕ) (s : SnapRun)
    → HoldsSnap posts s
    → HoldsSnap posts (snap_round c junk now s)
unfolding snap_round
snap_round-Holds posts c junk now s h =
    let p = check_heart_beat c now s.heart s.link in
    auto_photo-Holds posts junk now _ (record s { heart = p.0; link = p.1 })
      (check_heart_beat-Holds posts c now s.heart s.link h)

-- What the reset of a connection does, call by call.
pub forgot-Holds :
    (posts : Bool) (l : Link)
    → Holds posts l
    → Holds posts (record l { app = send_stat_pkg_init l.app })
unfolding send_stat_pkg_init
forgot-Holds posts l h = same-IsSound (posts && l.connect_status) l.app _ h refl refl refl refl

pub cleared-Holds :
    (posts : Bool) (l : Link) (buf : Ptr) (len : ℕ) (n : Node) (left : Ptr) (rest : List Node)
    → ptr_queue_pop l.app.sender.send_q buf len ≡ popped n left rest
    → Holds posts l
    → Holds posts (with_send_q rest l)
unfolding with_send_q
cleared-Holds posts l buf len n left rest e h =
    let fewer = length-popped l.app.sender.send_q buf len n left rest e in
    record {
      messages = omega (arith, fewer, h.messages);
      posts = λ on. omega (arith, fewer, h.posts on);
      orders = h.orders;
      size = h.size;
      ranges = h.ranges;
    }
