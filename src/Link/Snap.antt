-- ===== src/Link/Snap.antt =====
-- A round of `pthread_snap_shot`, process.cpp: the check of the heart beat, and the snapshots by time
-- and by distance. `record_speed`, in front of them, writes to the log only, and stands by itself in
-- Speed; the sleeps do nothing to the state.
pub mod Spacing
pub mod Speed
use sanbao_prot.Alert.{LocalConfig, limit_record_time}
use sanbao_prot.App.{App}
use sanbao_prot.Base.{
  ℕ, zero, suc, ◌+◌, ◌-◌, ◌*◌, ◌%◌, ◌^◌, Bool, true, false, not, List, [], ◌∷◌, Bytes, get_or, leb,
  ltb, ◌==◌, if◌then◌else◌, ◌||◌,
}
use sanbao_prot.Field.{get_field}
use sanbao_prot.Link.{Link, HeartCheck, check_heart_beat}
use sanbao_prot.Para.Adas as AdasPara
use sanbao_prot.Para.{read_dev_para}
use sanbao_prot.Prot.{id_of}
use sanbao_prot.Warn.Message.{WarnFrame}
use sanbao_prot.Warn.{do_snap_shot}

-- SNAP_SHOT_BY_TIME and SNAP_SHOT_BY_DISTANCE
abbrev pub snap_shot_by_time : ℕ
snap_shot_by_time = 1

abbrev pub snap_shot_by_distance : ℕ
snap_shot_by_distance = 2

-- The locals of the thread and the statics of the check of the heart beat. `shots` is for statements:
-- the times of the snapshots by time, the latest first.
pub record SnapRun : Type 0 where
  pub link : Link
  pub heart : HeartCheck
  pub last : ℕ
  pub mileage_last : ℕ
  pub shots : List ℕ

-- `rt_data.mileage`: four bytes of the real-time data as the host reads them, low byte first.
unfoldable pub mileage : App → ℕ
mileage a =
    get_or a.real_time 2 0
    + 256 * (get_or a.real_time 3 0 + 256 * (get_or a.real_time 4 0 + 256 * get_or a.real_time 5 0))

unfoldable pub snap : WarnFrame → SnapRun → SnapRun
snap junk s = record s { link = record s.link { app = do_snap_shot junk s.link.app } }

unfoldable pub snap_by_time : WarnFrame → ℕ → ℕ → SnapRun → SnapRun
unfolding snap
snap_by_time junk now period s =
    let (last', over) = limit_record_time now period s.last in
    let t = record s { last = last' } in
    if period == 0 then s else if over then record (snap junk t) { shots = now ∷ t.shots } else t

-- `(rt_data.mileage - mileage_last)*100 >= period`, in 32 bits.
unfoldable pub far_enough : ℕ → ℕ → ℕ → Bool
far_enough now last period = leb period ((now + 2 ^ 32 - last) % 2 ^ 32 * 100 % 2 ^ 32)

unfoldable pub snap_by_distance : WarnFrame → ℕ → SnapRun → SnapRun
unfolding snap far_enough
snap_by_distance junk period s =
    let m = mileage s.link.app in
    if period == 0 || not (far_enough m s.mileage_last period)
    then s
    else record (if s.mileage_last == 0 then s else snap junk s) { mileage_last = m }

-- The members that the thread reads stand at the same offsets in both structures of parameters.
unfoldable pub auto_photo : WarnFrame → ℕ → Bytes → SnapRun → SnapRun
unfolding snap_by_time snap_by_distance
auto_photo junk now para s =
    let mode = get_field para AdasPara.auto_photo_mode in
    if mode == snap_shot_by_time
    then snap_by_time junk now (get_field para AdasPara.auto_photo_time_period) s
    else if mode == snap_shot_by_distance
    then snap_by_distance junk (get_field para AdasPara.auto_photo_distance_period) s
    else s

unfoldable pub snap_round : LocalConfig → WarnFrame → ℕ → SnapRun → SnapRun
unfolding auto_photo
snap_round c junk now s =
    let (heart', link') = check_heart_beat c now s.heart s.link in
    auto_photo junk now (read_dev_para (id_of link'.app.dev) link'.app.paras [])
      (record s { heart = heart'; link = link' })

-- A round of the thread, and what the other threads did since the one before.
pub record Input : Type 0 where
  pub now : ℕ
  pub junk : WarnFrame
  pub others : Link → Link

abbrev pub snap_all : LocalConfig → List Input → SnapRun → SnapRun
snap_all c [] s = s
snap_all c (i ∷ is) s =
    snap_all c is (snap_round c i.junk i.now (record s { link = i.others s.link }))

-- The period of the parameters.
unfoldable pub time_period : Link → ℕ
time_period l =
    get_field (read_dev_para (id_of l.app.dev) l.app.paras []) AdasPara.auto_photo_time_period
