-- ===== src/Alert/Adas/Calm.antt =====
-- Frames in which the level of the headway warning is not red, behind one in which it was not.
use sanbao_prot.Alert.Adas.Stream.{Input, deal_all}
use sanbao_prot.Alert.Adas.{
  AdasRun, Event, ldw, fcw, hw_begin, hw_end, filtered, upload_ldw, upload_fcw, upload, ldw_event,
  fcw_event, trigger_events, headway, headway_event, headway_warning_level, hw_level_red_car,
  put_ldw, put_fcw, FilterTimes, filter_times, left_ldw, right_ldw, fcw_on, trigger_data,
  deal_wsi_adas_can700, all_warning_data,
}
use sanbao_prot.Alert.{LocalConfig, filter_alert_by_time, filter_alert_by_speed}
use sanbao_prot.Base.{
  ℕ, ◌≡◌, ◌≢◌, refl, sym, ap, ◌∙◌, true, false, not, List, [], ◌∷◌, Bytes, All, get_or, arith, ◌==◌,
  if_both, ◌||◌, ◌&&◌, same_bytes, Bool-cases, inl, inr, eqb_ne,
}
use sanbao_prot.Para.{read_dev_para}
use sanbao_prot.Prot.{id_adas}

-- The headway alerts of a log.
abbrev pub headways : List Event → List Event
headways [] = []
headways (ldw ∷ log) = headways log
headways (fcw ∷ log) = headways log
headways (hw_begin ∷ log) = hw_begin ∷ headways log
headways (hw_end ∷ log) = hw_end ∷ headways log

-- No headway alert is sent, and the mark of a begun one stays.
pub record Calm (r s : AdasRun) : Type 0 where
  pub log : headways s.reports ≡ headways r.reports
  pub flag : s.s_start_flag ≡ r.s_start_flag
  warning : s.g_last_warning_data ≡ r.g_last_warning_data

calm : (r : AdasRun) → Calm r r
calm r = record { log = refl; flag = refl; warning = refl }

Calm-trans : (r s t : AdasRun) → Calm r s → Calm s t → Calm r t
Calm-trans r s t f g = record {
  log = g.log ∙ f.log;
  flag = g.flag ∙ f.flag;
  warning = g.warning ∙ f.warning;
}

-- What holds on each way through the filters.
filtered_both :
    (P : AdasRun → Type 0) (c : LocalConfig) (now secs last : ℕ) (put : ℕ → AdasRun → AdasRun)
    (message : AdasRun → AdasRun) (r : AdasRun)
    → let s = put (filter_alert_by_time now secs last).0 r in
      P s → P (record s { out = true }) → P (message s) → P (filtered c now secs last put message r)
unfolding filtered
filtered_both P c now secs last put message r waits slow sends =
    let s = put (filter_alert_by_time now secs last).0 r in
    if_both P (not (filter_alert_by_time now secs last).1) waits
      (if_both P (not (filter_alert_by_speed c s.app)) slow sends)

same_log :
    (r s : AdasRun)
    → headways s.reports ≡ headways r.reports
    → s.s_start_flag ≡ r.s_start_flag
    → s.g_last_warning_data ≡ r.g_last_warning_data
    → Calm r s
same_log r s log flag warning = record { log = log; flag = flag; warning = warning }

ldw_event-Calm :
    (c : LocalConfig) (now : ℕ) (times : FilterTimes) (can : Bytes) (r : AdasRun)
    → Calm r (ldw_event c now times can r)
unfolding ldw_event upload_ldw upload
ldw_event-Calm c now times can r =
    if_both (Calm r) (left_ldw can || right_ldw can)
      (filtered_both (Calm r) c now times.ldw_filter_time r.ldw_alert put_ldw (upload_ldw can) r
        (same_log r _ refl refl refl) (same_log r _ refl refl refl) (same_log r _ refl refl refl))
      (calm r)

fcw_event-Calm :
    (c : LocalConfig) (now : ℕ) (times : FilterTimes) (can : Bytes) (r : AdasRun)
    → Calm r (fcw_event c now times can r)
unfolding fcw_event upload_fcw upload
fcw_event-Calm c now times can r =
    if_both (Calm r) (not r.out && fcw_on can)
      (filtered_both (Calm r) c now times.fcw_filter_time r.fcw_alert put_fcw upload_fcw r
        (same_log r _ refl refl refl) (same_log r _ refl refl refl) (same_log r _ refl refl refl))
      (calm r)

trigger_events-Calm :
    (c : LocalConfig) (now : ℕ) (times : FilterTimes) (can : Bytes) (r : AdasRun)
    → Calm r (trigger_events c now times can r)
unfolding trigger_events
trigger_events-Calm c now times can r =
    let s = ldw_event c now times can r in
    if_both (Calm r)
      (same_bytes (trigger_data can) r.g_last_trigger_warning || get_or (trigger_data can) 4 0 == 0)
      (calm r)
      (Calm-trans r s (fcw_event c now times can s) (ldw_event-Calm c now times can r)
        (fcw_event-Calm c now times can s))

headway_event-Calm :
    (c : LocalConfig) (now : ℕ) (times : FilterTimes) (can : Bytes) (r : AdasRun)
    → headway_warning_level r.g_last_warning_data ≢ hw_level_red_car
    → headway_warning_level can ≢ hw_level_red_car
    → Calm r (headway_event c now times can r)
unfolding headway_event headway
headway_event-Calm c now times can r before now_not =
    rw (eqb_ne _ _ now_not, eqb_ne _ _ before)
      (if_both (Calm r) r.out (calm r) (
        if_both (Calm r) (headway_warning_level r.g_last_warning_data == headway_warning_level can)
          (calm r) (calm r)))

deal-Calm :
    (c : LocalConfig) (now : ℕ) (can : Bytes) (r : AdasRun)
    → headway_warning_level r.g_last_warning_data ≢ hw_level_red_car
    → headway_warning_level can ≢ hw_level_red_car
    → let s = deal_wsi_adas_can700 c now can r in
      (headways s.reports ≡ headways r.reports)
      × (s.s_start_flag ≡ r.s_start_flag)
      × (headway_warning_level s.g_last_warning_data ≢ hw_level_red_car)
unfolding deal_wsi_adas_can700 all_warning_data
deal-Calm c now can r before now_not =
    let times = filter_times c (read_dev_para id_adas r.app.paras []) in
    let start = record r { out = false } in
    let t = trigger_events c now times can start in
    let f = trigger_events-Calm c now times can start in
    let g =
      headway_event-Calm c now times can t
        (λ e. before (sym (ap headway_warning_level f.warning) ∙ e)) now_not in
    elim (Bool-cases (same_bytes (all_warning_data can) r.g_last_warning_data)) [
      | inl same ↦ rw same (refl, refl, before)
      | inr new ↦ rw new (g.log ∙ f.log, g.flag ∙ f.flag, λ e. now_not (omega (arith, e)))
    ]

-- The headway alerts and the mark, behind any such frames.
pub record StaysCalm (r s : AdasRun) : Type 0 where
  pub log : headways s.reports ≡ headways r.reports
  pub flag : s.s_start_flag ≡ r.s_start_flag

pub deal_all-Calm :
    (c : LocalConfig) (inputs : List Input) (r : AdasRun)
    → headway_warning_level r.g_last_warning_data ≢ hw_level_red_car
    → All (λ (i : Input). headway_warning_level i.can ≢ hw_level_red_car) inputs
    → StaysCalm r (deal_all c inputs r)
deal_all-Calm c [] r before h = record { log = refl; flag = refl }
deal_all-Calm c (i ∷ is) r before (now_not, h) =
    let changed = record r { app = i.others r.app; uploadmsg = i.uploadmsg } in
    let (log, flag, after) = deal-Calm c i.now i.can changed before now_not in
    let rest = deal_all-Calm c is (deal_wsi_adas_can700 c i.now i.can changed) after h in
    record { log = rest.log ∙ log; flag = rest.flag ∙ flag }
