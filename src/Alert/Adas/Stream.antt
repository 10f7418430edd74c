-- ===== src/Alert/Adas/Stream.antt =====
-- The headway alerts over many frames.
use sanbao_prot.Alert.Adas.Turns.{IsPaired, trigger_events-Quiet, headway_event-IsPaired}
use sanbao_prot.Alert.Adas.{
  AdasRun, trigger_events, headway_warning_level, filter_times, deal_wsi_adas_can700,
  all_warning_data,
}
use sanbao_prot.Alert.{LocalConfig}
use sanbao_prot.App.{App}
use sanbao_prot.Base.{
  ℕ, ◌≡◌, sym, ap, ◌∙◌, false, inl, inr, List, [], ◌∷◌, Bytes, arith, Bool-cases, same_bytes,
}
use sanbao_prot.Para.{read_dev_para}
use sanbao_prot.Prot.{id_adas}
use sanbao_prot.Warn.Message.{WarnFrame}

abbrev level_of : AdasRun → ℕ
level_of r = headway_warning_level r.g_last_warning_data

deal_wsi_adas_can700-IsPaired :
    (c : LocalConfig) (now : ℕ) (can : Bytes) (r : AdasRun)
    → c.speed_filter_enable ≡ false
    → IsPaired (level_of r) r
    → IsPaired (level_of (deal_wsi_adas_can700 c now can r)) (deal_wsi_adas_can700 c now can r)
unfolding deal_wsi_adas_can700 all_warning_data
deal_wsi_adas_can700-IsPaired c now can r off h =
    elim (Bool-cases (same_bytes (all_warning_data can) r.g_last_warning_data)) [
      | inl same ↦ rw same h
      | inr new ↦
          let times = filter_times c (read_dev_para id_adas r.app.paras []) in
          let start = record r { out = false } in
          let s = trigger_events c now times can start in
          let q = trigger_events-Quiet c now times can start off in
          let before : IsPaired (level_of s) s = record {
            turns = q.turns h.turns;
            red = λ on. ap headway_warning_level q.warning ∙ h.red (sym q.flag ∙ on);
          } in
          let after = headway_event-IsPaired c now times can s off q.stays before in
          rw new (record {
            turns = after.turns;
            red = λ on. let red = after.red on in ground (arith, red);
          })
    ]

-- A frame of the algorithm, the time at which it comes, what the stack holds where the message is
-- built, and what the other threads did to the state since the frame before.
pub record Input : Type 0 where
  pub can : Bytes
  pub now : ℕ
  pub uploadmsg : WarnFrame
  pub others : App → App

abbrev pub deal_all : LocalConfig → List Input → AdasRun → AdasRun
deal_all c [] r = r
deal_all c (i ∷ is) r = deal_all c is (
    deal_wsi_adas_can700 c i.now i.can (record r { app = i.others r.app; uploadmsg = i.uploadmsg }))

deal_all-IsPaired :
    (c : LocalConfig) (inputs : List Input) (r : AdasRun)
    → c.speed_filter_enable ≡ false
    → IsPaired (level_of r) r
    → IsPaired (level_of (deal_all c inputs r)) (deal_all c inputs r)
deal_all-IsPaired c [] r off h = h
deal_all-IsPaired c (i ∷ is) r off h =
    let changed = record r { app = i.others r.app; uploadmsg = i.uploadmsg } in
    deal_all-IsPaired c is _ off (
      deal_wsi_adas_can700-IsPaired c i.now i.can changed off
        (record { turns = h.turns; red = h.red }))

-- With the filter by speed switched off, over any frames, at any times, with any changes of the rest
-- of the state in between, the headway alerts that are sent begin and end in turns, from a begin on,
-- and the last one is still without its end exactly when the flag is set, at the level red.
pub deal_wsi_adas_can700-Turns :
    (c : LocalConfig) (inputs : List Input) (r : AdasRun)
    → c.speed_filter_enable ≡ false
    → r.reports ≡ []
    → r.s_start_flag ≡ false
    → IsPaired
        (headway_warning_level (deal_all c inputs r).g_last_warning_data)
        (deal_all c inputs r)
deal_wsi_adas_can700-Turns c inputs r off none_yet closed =
    deal_all-IsPaired c inputs r off
      (record { turns = rw none_yet closed; red = λ on. absurd (grind (arith, on, closed)) })
