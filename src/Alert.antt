-- ===== src/Alert.antt =====
-- The alerts of the two algorithms, process.cpp: the configuration that they read, and the filters
-- `filter_alert_by_time`, `limit_record_time` and `filter_alert_by_speed`. A call of a handler takes
-- the clock's seconds as an argument: the clock is taken to read the same throughout one call.
pub mod Dms
pub mod Adas
use sanbao_prot.App.{App, car_speed}
use sanbao_prot.Base.{ℕ, ◌+◌, Bool, true, false, not, [], ltb, if◌then◌else◌}
use sanbao_prot.Field.{get_field}
use sanbao_prot.Para.Adas as AdasPara
use sanbao_prot.Para.{read_dev_para}
use sanbao_prot.Prot.{id_adas}

-- The members of LocalConfig that the modelled code reads.
pub record LocalConfig : Type 0 where
  pub speed_filter_enable : Bool
  pub alert_time_filter : ℕ
  pub use_heart : Bool
  pub check_heart_period : ℕ

-- `tv_sec - *last < secs`, in signed numbers. The new `*last`, and whether the alert passes.
unfoldable pub filter_alert_by_time : ℕ → ℕ → ℕ → ℕ × Bool
filter_alert_by_time now secs last = if ltb now (last + secs) then (last, false) else (now, true)

-- The new `*last`.
unfoldable pub touch_time : ℕ → ℕ
touch_time now = now

unfoldable pub limit_record_time : ℕ → ℕ → ℕ → ℕ × Bool
limit_record_time now secs last = if ltb now (last + secs) then (last, false) else (now, true)

-- Both builds compare with the speed of the ADAS parameters.
unfoldable pub filter_alert_by_speed : LocalConfig → App → Bool
filter_alert_by_speed c a =
    if not c.speed_filter_enable
    then true
    else ltb (get_field (read_dev_para id_adas a.paras []) AdasPara.warning_speed_val) (car_speed a)
