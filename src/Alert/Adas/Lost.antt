-- ===== src/Alert/Adas/Lost.antt =====
-- An end of a headway alert that is not sent.
use sanbao_prot.Alert.Adas.{
  AdasRun, filtered, ldw_event, fcw_event, trigger_events, headway_event, headway_warning_level,
  hw_level_red_car, put_ldw, upload_ldw, filter_times, FilterTimes, deal_wsi_adas_can700,
  all_warning_data, left_ldw, right_ldw, trigger_data, trigger_bits,
}
use sanbao_prot.Alert.Adas.Calm.{headways, deal_all-Calm}
use sanbao_prot.Alert.Adas.Stream.{Input, deal_all}
use sanbao_prot.Alert.{LocalConfig, filter_alert_by_time, filter_alert_by_speed}
use sanbao_prot.Base.{
  ℕ, ◌+◌, ◌≤◌, ◌≡◌, ◌≢◌, refl, ap, ◌∙◌, true, false, inl, inr, Bytes, List, All, [], get_or, arith,
  ◌==◌, Bool-cases, ◌||◌, same_bytes, same_bytes-eq,
}
use sanbao_prot.Para.{read_dev_para}
use sanbao_prot.Prot.{id_adas}

time_over :
    (now secs last : ℕ) → last + secs ≤ now → filter_alert_by_time now secs last ≡ (now, true)
unfolding filter_alert_by_time
time_over now secs last h = ground arith

filtered_slow :
    (c : LocalConfig) (now secs last : ℕ) (put : ℕ → AdasRun → AdasRun)
    (message : AdasRun → AdasRun) (r : AdasRun)
    → last + secs ≤ now
    → filter_alert_by_speed c (put now r).app ≡ false
    → filtered c now secs last put message r ≡ record (put now r) { out = true }
unfolding filtered
filtered_slow c now secs last put message r over slow = rw (time_over now secs last over, slow) refl

ldw_triggers :
    (can : Bytes)
    → (left_ldw can || right_ldw can) ≡ true
    → (get_or (trigger_data can) 4 0 == 0) ≡ false
unfolding left_ldw right_ldw trigger_data trigger_bits
ldw_triggers can h = ground arith

slow_ldw :
    (c : LocalConfig) (now : ℕ) (times : FilterTimes) (can : Bytes) (r : AdasRun)
    → filter_alert_by_speed c r.app ≡ false
    → (left_ldw can || right_ldw can) ≡ true
    → r.ldw_alert + times.ldw_filter_time ≤ now
    → ldw_event c now times can r ≡ record r { ldw_alert = now; out = true }
unfolding ldw_event
slow_ldw c now times can r slow left over =
    rw
      (
        left,
        filtered_slow c now times.ldw_filter_time r.ldw_alert put_ldw (upload_ldw can) r over slow,
      )
      refl

slow_trigger :
    (c : LocalConfig) (now : ℕ) (times : FilterTimes) (can : Bytes) (r : AdasRun)
    → filter_alert_by_speed c r.app ≡ false
    → (left_ldw can || right_ldw can) ≡ true
    → same_bytes (trigger_data can) r.g_last_trigger_warning ≡ false
    → r.ldw_alert + times.ldw_filter_time ≤ now
    → trigger_events c now times can r ≡ record r { ldw_alert = now; out = true }
unfolding trigger_events fcw_event
slow_trigger c now times can r slow left new over =
    rw (new, ldw_triggers can left, slow_ldw c now times can r slow left over) refl

level_same :
    (can : Bytes) (r : AdasRun)
    → same_bytes (all_warning_data can) r.g_last_warning_data ≡ true
    → headway_warning_level can ≡ headway_warning_level r.g_last_warning_data
unfolding all_warning_data
level_same can r same =
    let e =
      ap headway_warning_level (same_bytes-eq (all_warning_data can) r.g_last_warning_data same) in
    omega (arith, e)

lost_frame :
    (c : LocalConfig) (now : ℕ) (can : Bytes) (r : AdasRun)
    → headway_warning_level r.g_last_warning_data ≡ hw_level_red_car
    → headway_warning_level can ≢ hw_level_red_car
    → filter_alert_by_speed c r.app ≡ false
    → (left_ldw can || right_ldw can) ≡ true
    → same_bytes (trigger_data can) r.g_last_trigger_warning ≡ false
    → r.ldw_alert + (filter_times c (read_dev_para id_adas r.app.paras [])).ldw_filter_time ≤ now
    → deal_wsi_adas_can700 c now can r ≡ record r {
      ldw_alert = now;
      g_last_warning_data = all_warning_data can;
      g_last_trigger_warning = trigger_data can;
      out = false;
    }
unfolding deal_wsi_adas_can700 headway_event
lost_frame c now can r red leaves slow lane new over =
    elim (Bool-cases (same_bytes (all_warning_data can) r.g_last_warning_data)) [
      | inl same ↦ absurd (leaves (level_same can r same ∙ red))
      | inr changed ↦
          let start = record r { out = false } in
          rw
            (
              changed,
              slow_trigger c now (filter_times c (read_dev_para id_adas r.app.paras [])) can start
                  slow lane new over,
            )
            refl
    ]

-- The car is too slow for a lane alert, on either side, that is due in the frame that leaves the level
-- red: then the end of the headway alert that was begun is never sent. Whatever frames come later, as
-- long as the level is not red again, no headway alert is sent in that frame or with them, and the
-- alert stays marked as begun.
pub deal_wsi_adas_can700-lost :
    (c : LocalConfig) (now : ℕ) (can : Bytes) (r : AdasRun) (later : List Input)
    → r.s_start_flag ≡ true
    → headway_warning_level r.g_last_warning_data ≡ hw_level_red_car
    → headway_warning_level can ≢ hw_level_red_car
    → filter_alert_by_speed c r.app ≡ false
    → (left_ldw can || right_ldw can) ≡ true
    → same_bytes (trigger_data can) r.g_last_trigger_warning ≡ false
    → r.ldw_alert + (filter_times c (read_dev_para id_adas r.app.paras [])).ldw_filter_time ≤ now
    → All (λ (i : Input). headway_warning_level i.can ≢ hw_level_red_car) later
    → let s = deal_all c later (deal_wsi_adas_can700 c now can r) in
      (headways s.reports ≡ headways r.reports) × (s.s_start_flag ≡ true)
unfolding all_warning_data
deal_wsi_adas_can700-lost c now can r later started red leaves slow lane new over calm =
    let t = record r {
      ldw_alert = now;
      g_last_warning_data = all_warning_data can;
      g_last_trigger_warning = trigger_data can;
      out = false;
    } in
    let e = lost_frame c now can r red leaves slow lane new over in
    let q = deal_all-Calm c later t (λ same. leaves (omega (arith, same))) calm in
    rw e (q.log, q.flag ∙ started)
