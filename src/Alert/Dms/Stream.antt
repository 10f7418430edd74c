-- ===== src/Alert/Dms/Stream.antt =====
-- The driver alerts over many frames.
use sanbao_prot.Alert.Dms.Spacing.{
  gap, Spaced, IsSpaced, Keeps, gap-le-filter_time, check-IsSpaced, driver_change-IsSpaced,
}
use sanbao_prot.Alert.Dms.{
  Watch, fatigue, distract, calling, smoking, abnormal, absence_release, filter_time, DmsRun,
  checks, mask_alert, deal_wsi_dms_info, triggers, rises, face_id,
}
use sanbao_prot.Alert.{LocalConfig}
use sanbao_prot.App.{App}
use sanbao_prot.Base.{
  ℕ, ◌≡◌, refl, sym, ap, ◌∙◌, true, false, inl, inr, List, [], ◌∷◌, Bytes, Bool-cases, same_bytes,
  same_bytes_refl,
}
use sanbao_prot.Para.{read_dev_para}
use sanbao_prot.Prot.{id_dms}
use sanbao_prot.Warn.Message.{WarnFrame}

checks-IsSpaced :
    (c : LocalConfig) (junk : WarnFrame) (now : ℕ) (cur : Bytes) → Keeps c (checks c junk now cur)
unfolding checks
checks-IsSpaced c junk now cur r h =
    let last = r.alert_last in
    let para = read_dev_para id_dms r.app.paras [] in
    let secs = filter_time c para in
    let step = λ (k : Watch) (s : DmsRun) (g : IsSpaced c s).
      check-IsSpaced c junk now secs k (triggers k last cur) (gap-le-filter_time c para k) s g in
    let h1 = step fatigue _ h in
    let h2 = step distract _ h1 in
    let h3 = step calling _ h2 in
    let h4 = step smoking _ h3 in
    let h5 = step abnormal _ h4 in
    step absence_release _ (driver_change-IsSpaced c (rises face_id last cur) _ h5)

deal_wsi_dms_info-IsSpaced :
    (c : LocalConfig) (junk : WarnFrame) (now : ℕ) (warning : Bytes)
    → Keeps c (deal_wsi_dms_info c junk now warning)
unfolding deal_wsi_dms_info
deal_wsi_dms_info-IsSpaced c junk now warning r h =
    let start = record r { out = false } in
    let s =
      checks-IsSpaced c junk now (mask_alert warning) start
        (record { spaced = h.spaced; logged = h.logged }) in
    elim (Bool-cases (same_bytes (mask_alert warning) r.alert_last)) [
      | inl same ↦ rw same (record { spaced = h.spaced; logged = h.logged })
      | inr new ↦ rw new (record { spaced = s.spaced; logged = s.logged })
    ]

-- A frame of the algorithm, the time at which it comes, what the stack holds where the handler and
-- the snapshot build their messages, and what the other threads did to the state since the frame
-- before.
pub record Input : Type 0 where
  pub warning : Bytes
  pub now : ℕ
  pub uploadmsg : WarnFrame
  pub junk : WarnFrame
  pub others : App → App

abbrev pub deal_all : LocalConfig → List Input → DmsRun → DmsRun
deal_all c [] r = r
deal_all c (i ∷ is) r = deal_all c is (
    deal_wsi_dms_info c i.junk i.now i.warning
      (record r { app = i.others r.app; uploadmsg = i.uploadmsg }))

deal_all-IsSpaced : (c : LocalConfig) (inputs : List Input) → Keeps c (deal_all c inputs)
deal_all-IsSpaced c [] r h = h
deal_all-IsSpaced c (i ∷ is) r h =
    let changed = record r { app = i.others r.app; uploadmsg = i.uploadmsg } in
    deal_all-IsSpaced c is _ (
      deal_wsi_dms_info-IsSpaced c i.junk i.now i.warning changed
        (record { spaced = h.spaced; logged = h.logged }))

-- Over any frames, at any times, with any changes of the parameters and the speed in between, two
-- reports of the same driver alert are at least the configured filter time apart, and two snapshots
-- for a driver's return 10 seconds.
pub deal_wsi_dms_info-Spaced :
    (c : LocalConfig) (inputs : List Input) (r : DmsRun)
    → r.reports ≡ []
    → Spaced (gap c) (deal_all c inputs r).reports
deal_wsi_dms_info-Spaced c inputs r none_yet =
    (deal_all-IsSpaced c inputs r
      (record { spaced = rw none_yet tt; logged = rw none_yet tt })).spaced

deal_last :
    (c : LocalConfig) (junk : WarnFrame) (now : ℕ) (warning : Bytes) (r : DmsRun)
    → (deal_wsi_dms_info c junk now warning r).alert_last ≡ mask_alert warning
unfolding deal_wsi_dms_info
deal_last c junk now warning r = elim (Bool-cases (same_bytes (mask_alert warning) r.alert_last)) [
  | inl same ↦ rw same refl
  | inr new ↦ rw new refl
]

deal_same :
    (c : LocalConfig) (junk : WarnFrame) (now : ℕ) (warning : Bytes) (r : DmsRun)
    → r.alert_last ≡ mask_alert warning
    → deal_wsi_dms_info c junk now warning r ≡ r
unfolding deal_wsi_dms_info
deal_same c junk now warning r e =
    let same : same_bytes (mask_alert warning) r.alert_last ≡ true =
      ap (same_bytes (mask_alert warning)) e ∙ same_bytes_refl (mask_alert warning) in
    rw same (ap (λ l. record r { alert_last = l }) (sym e))

-- A frame that repeats the one before does nothing, at whatever time it comes.
pub deal_wsi_dms_info_twice :
    (c : LocalConfig) (junk junk' : WarnFrame) (now now' : ℕ) (warning : Bytes) (r : DmsRun)
    → let s = deal_wsi_dms_info c junk now warning r in deal_wsi_dms_info c junk' now' warning s ≡ s
deal_wsi_dms_info_twice c junk junk' now now' warning r =
    let s = deal_wsi_dms_info c junk now warning r in
    deal_same c junk' now' warning s (deal_last c junk now warning r)
