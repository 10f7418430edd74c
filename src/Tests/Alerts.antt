-- ===== src/Tests/Alerts.antt =====
-- Frames of the algorithms.
use sanbao_prot.Alert.Adas.Calm.{headways}
use sanbao_prot.Alert.Adas.Lost.{deal_wsi_adas_can700-lost}
use sanbao_prot.Alert.Adas.Stream as AdasStream
use sanbao_prot.Alert.Adas.Stream.{deal_wsi_adas_can700-Turns}
use sanbao_prot.Alert.Adas.Turns.{IsPaired}
use sanbao_prot.Alert.Adas.{
  AdasRun, hw_begin, headway_warning_level, trigger_data, trigger_bits, left_ldw, right_ldw,
  filter_times, deal_wsi_adas_can700,
}
use sanbao_prot.Alert.Dms.Spacing.{gap, Spaced}
use sanbao_prot.Alert.Dms.Stream as DmsStream
use sanbao_prot.Alert.Dms.Stream.{deal_wsi_dms_info-Spaced}
use sanbao_prot.Alert.Dms.{DmsRun}
use sanbao_prot.Alert.{LocalConfig, filter_alert_by_speed}
use sanbao_prot.App.{App, car_speed}
use sanbao_prot.Base.{
  ℕ, ◌+◌, ◌≤◌, ◌≡◌, ◌||◌, refl, true, false, List, [], ◌∷◌, Bytes, replicate, same_bytes, arith,
}
use sanbao_prot.Field.{get_field}
use sanbao_prot.Para.{read_dev_para}
use sanbao_prot.Prot.{adas, dms, id_adas}
use sanbao_prot.Tests.Sample.{app_of, frame, config}

abbrev dms_run : DmsRun
dms_run = record {
  app = app_of dms;
  uploadmsg = frame;
  times = λ k. 0;
  alert_last = replicate 8 0;
  reports = [];
  out = false;
}

-- The eyes close, open, and close again.
abbrev eyes : ℕ → ℕ → DmsStream.Input
eyes closed now = record {
  warning = closed ∷ replicate 7 0;
  now = now;
  uploadmsg = frame;
  junk = frame;
  others = λ a. a;
}

abbrev blinks : List DmsStream.Input
blinks = eyes 1 100 ∷ eyes 0 101 ∷ eyes 1 103 ∷ eyes 0 110 ∷ eyes 1 130 ∷ []

deal_wsi_dms_info-Spaced_example :
    Spaced (gap config) (DmsStream.deal_all config blinks dms_run).reports
deal_wsi_dms_info-Spaced_example = deal_wsi_dms_info-Spaced config blinks dms_run refl

abbrev pub adas_run : AdasRun
adas_run = record {
  app = app_of adas;
  uploadmsg = frame;
  ldw_alert = 0;
  fcw_alert = 0;
  hw_alert = 0;
  s_start_flag = false;
  g_last_warning_data = replicate 8 0;
  g_last_trigger_warning = replicate 8 0;
  reports = [];
  out = false;
}

-- A headway level, with no other warning.
abbrev pub level : ℕ → Bytes
level n = 0 ∷ 0 ∷ 0 ∷ 0 ∷ 0 ∷ 0 ∷ 0 ∷ n ∷ []

abbrev comes : ℕ → ℕ → AdasStream.Input
comes n now = record { can = level n; now = now; uploadmsg = frame; others = λ a. a }

abbrev traffic : List AdasStream.Input
traffic = comes 2 100 ∷ comes 1 110 ∷ comes 2 200 ∷ []

deal_wsi_adas_can700-Turns_example :
    IsPaired
      (headway_warning_level (AdasStream.deal_all config traffic adas_run).g_last_warning_data)
      (AdasStream.deal_all config traffic adas_run)
deal_wsi_adas_can700-Turns_example =
    deal_wsi_adas_can700-Turns config traffic adas_run refl refl refl

-- A car at 9 km/h, where alerts are for cars above 60.
abbrev slow : App
slow = record (app_of adas) {
  paras = record { adas_para = replicate 50 60; dms_para = replicate 43 60 };
}

abbrev by_speed : LocalConfig
by_speed = record config { speed_filter_enable = true }

abbrev begun : AdasRun
begun = record adas_run {
  app = slow;
  s_start_flag = true;
  g_last_warning_data = level 2;
  reports = hw_begin ∷ [];
}

-- The car leaves its lane to the left, away from the car ahead.
abbrev leaving : Bytes
leaving = 0 ∷ 0 ∷ 0 ∷ 0 ∷ 2 ∷ 0 ∷ 0 ∷ 0 ∷ []

too_slow : filter_alert_by_speed by_speed slow ≡ false
unfolding filter_alert_by_speed get_field read_dev_para car_speed
too_slow = refl

to_the_left : (left_ldw leaving || right_ldw leaving) ≡ true
unfolding left_ldw right_ldw
to_the_left = refl

newly : same_bytes (trigger_data leaving) begun.g_last_trigger_warning ≡ false
unfolding trigger_data trigger_bits same_bytes
newly = refl

time_over : 0 + (filter_times by_speed (read_dev_para id_adas slow.paras [])).ldw_filter_time ≤ 500
unfolding filter_times get_field read_dev_para
time_over = omega arith

-- The road ahead is free a second later.
abbrev later : List AdasStream.Input
later = record { can = replicate 8 0; now = 501; uploadmsg = frame; others = λ a. a } ∷ []

deal_wsi_adas_can700-lost_example :
    let s = AdasStream.deal_all by_speed later (deal_wsi_adas_can700 by_speed 500 leaving begun) in
    (headways s.reports ≡ headways begun.reports) × (s.s_start_flag ≡ true)
deal_wsi_adas_can700-lost_example =
    deal_wsi_adas_can700-lost by_speed 500 leaving begun later refl refl (λ e. omega (arith, e))
      too_slow to_the_left newly time_over ((λ e. omega (arith, e)), tt)
