-- ===== src/Alert/Dms/Spacing.antt =====
-- How often a driver alert is reported.
use sanbao_prot.Alert.Dms.{
  Watch, fatigue, distract, calling, smoking, abnormal, absence_release, same_watch, alert_type,
  filter_time, filter_dms_alert_set_time, DmsRun, report, emit, passed, check, driver_change,
}
use sanbao_prot.Alert.{LocalConfig, filter_alert_by_time, filter_alert_by_speed}
use sanbao_prot.Base.{
  ℕ, ◌+◌, ◌≤◌, ◌≡◌, refl, sym, ap, ◌∙◌, Bool, true, not, inl, inr, List, [], ◌∷◌, Bytes, All, arith,
  ◌==◌, if◌then◌else◌, Bool-cases, ◌||◌,
}
use sanbao_prot.Warn.Message.{WarnFrame}

-- The least time between two reports of a watch, whatever the parameters.
abbrev pub gap : LocalConfig → Watch → ℕ
gap c absence_release = filter_dms_alert_set_time
gap c fatigue = c.alert_time_filter
gap c distract = c.alert_time_filter
gap c calling = c.alert_time_filter
gap c smoking = c.alert_time_filter
gap c abnormal = c.alert_time_filter

pub gap-le-filter_time :
    (c : LocalConfig) (para : Bytes) (k : Watch) → gap c k ≤ filter_time c para k
unfolding filter_time
gap-le-filter_time c para fatigue = omega arith
gap-le-filter_time c para distract = omega arith
gap-le-filter_time c para calling = omega arith
gap-le-filter_time c para smoking = omega arith
gap-le-filter_time c para abnormal = omega arith
gap-le-filter_time c para absence_release = omega arith

watch_of : ℕ → Watch
watch_of n =
    if n == 1
    then fatigue
    else if n == 2
    then calling
    else if n == 3
    then smoking
    else if n == 4
    then distract
    else if n == 5
    then abnormal
    else absence_release

watch_of-alert_type : (k : Watch) → watch_of (alert_type k) ≡ k
unfolding watch_of
watch_of-alert_type fatigue = refl
watch_of-alert_type distract = refl
watch_of-alert_type calling = refl
watch_of-alert_type smoking = refl
watch_of-alert_type abnormal = refl
watch_of-alert_type absence_release = refl

same_watch_sound : (j k : Watch) → same_watch j k ≡ true → j ≡ k
same_watch_sound j k h =
    let same : alert_type j ≡ alert_type k = ground arith in
    sym (watch_of-alert_type j) ∙ ap watch_of same ∙ watch_of-alert_type k

-- No report of the watch in the log is less than its gap before this time.
abbrev pub Apart : (Watch → ℕ) → Watch → ℕ → List (Watch × ℕ) → Type 0
Apart g k t [] = Unit
Apart g k t ((j, u) ∷ log) = (j ≡ k → u + g k ≤ t) × Apart g k t log

-- Two reports of one watch are at least its gap apart.
abbrev pub Spaced : (Watch → ℕ) → List (Watch × ℕ) → Type 0
Spaced g [] = Unit
Spaced g ((k, t) ∷ log) = Apart g k t log × Spaced g log

-- The static of a watch is not before its last report.
abbrev pub Logged : (Watch → ℕ) → List (Watch × ℕ) → Type 0
Logged times log = All (λ (e : Watch × ℕ). e.1 ≤ times e.0) log

pub record IsSpaced (c : LocalConfig) (r : DmsRun) : Type 0 where
  pub spaced : Spaced (gap c) r.reports
  pub logged : Logged r.times r.reports

Apart-Logged :
    (g : Watch → ℕ) (times : Watch → ℕ) (k : Watch) (now : ℕ) (log : List (Watch × ℕ))
    → Logged times log
    → times k + g k ≤ now
    → Apart g k now log
Apart-Logged g times k now [] h le = tt
Apart-Logged g times k now ((j, u) ∷ log) (h, hs) le = (
  λ e. let t : times j ≡ times k = ap times e in omega (arith, t),
  Apart-Logged g times k now log hs le,
)

abbrev moved : ℕ → Watch → (Watch → ℕ) → Watch → ℕ
moved now k times j = if same_watch j k then now else times j

Logged-moved :
    (times : Watch → ℕ) (k : Watch) (now : ℕ) (log : List (Watch × ℕ))
    → Logged times log
    → times k ≤ now
    → Logged (moved now k times) log
Logged-moved times k now [] h le = tt
Logged-moved times k now ((j, u) ∷ log) (h, hs) le = (
  elim (Bool-cases (same_watch j k)) [
    | inl same ↦
        let t : times j ≡ times k = ap times (same_watch_sound j k same) in
        rw same (omega (arith, t))
    | inr other ↦ rw other h
  ],
  Logged-moved times k now log hs le,
)

emit-eq :
    (junk : WarnFrame) (k : Watch) (r : DmsRun)
    → ((emit junk k r).out ≡ r.out) × ((emit junk k r).alert_last ≡ r.alert_last)
unfolding emit report
emit-eq junk fatigue r = (refl, refl)
emit-eq junk distract r = (refl, refl)
emit-eq junk calling r = (refl, refl)
emit-eq junk smoking r = (refl, refl)
emit-eq junk abnormal r = (refl, refl)
emit-eq junk absence_release r = (refl, refl)

same_watch_refl : (k : Watch) → same_watch k k ≡ true
same_watch_refl k = ground arith

passed-IsSpaced :
    (c : LocalConfig) (junk : WarnFrame) (now : ℕ) (k : Watch) (r : DmsRun)
    → IsSpaced c r
    → r.times k + gap c k ≤ now
    → IsSpaced c (passed junk now k r)
unfolding passed
passed-IsSpaced c junk now k r h le = record {
  spaced = (Apart-Logged (gap c) r.times k now r.reports h.logged le, h.spaced);
  logged = (
    rw (same_watch_refl k) (omega arith),
    Logged-moved r.times k now r.reports h.logged (omega arith),
  );
}

time_passed :
    (now secs last : ℕ) → (filter_alert_by_time now secs last).1 ≡ true → last + secs ≤ now
unfolding filter_alert_by_time
time_passed now secs last h = ground arith

-- The property of every step of the handler: what it leaves is spaced.
abbrev pub Keeps : LocalConfig → (DmsRun → DmsRun) → Type 0
Keeps c f = (r : DmsRun) → IsSpaced c r → IsSpaced c (f r)

pub check-IsSpaced :
    (c : LocalConfig) (junk : WarnFrame) (now : ℕ) (secs : Watch → ℕ) (k : Watch) (trigger : Bool)
    → gap c k ≤ secs k
    → Keeps c (check c junk now secs k trigger)
unfolding check
check-IsSpaced c junk now secs k trigger le r h = elim (Bool-cases (r.out || not trigger)) [
  | inl skip ↦ rw skip h
  | inr go ↦ elim (Bool-cases (not (filter_alert_by_speed c r.app))) [
    | inl slow ↦ rw (go, slow) (record { spaced = h.spaced; logged = h.logged })
    | inr fast ↦ elim (Bool-cases (filter_alert_by_time now (secs k) (r.times k)).1) [
      | inl late ↦
          rw (go, fast, late)
            (passed-IsSpaced c junk now k r h
              (omega (arith, time_passed now (secs k) (r.times k) late)))
      | inr soon ↦ rw (go, fast, soon) h
    ]
  ]
]

pub driver_change-IsSpaced : (c : LocalConfig) (trigger : Bool) → Keeps c (driver_change trigger)
unfolding driver_change report
driver_change-IsSpaced c trigger r h = elim (Bool-cases (r.out || not trigger)) [
  | inl skip ↦ rw skip h
  | inr go ↦ rw go (record { spaced = h.spaced; logged = h.logged })
]
