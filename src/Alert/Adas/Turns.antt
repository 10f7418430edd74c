-- ===== src/Alert/Adas/Turns.antt =====
-- What the steps of the handler do to the order of the headway alerts.
use sanbao_prot.Alert.Adas.{
  AdasRun, Event, ldw, fcw, hw_begin, hw_end, filtered, upload_ldw, upload_fcw, upload, ldw_event,
  fcw_event, trigger_events, headway, headway_event, headway_warning_level, hw_level_red_car,
  put_ldw, put_fcw, put_hw, upload_hw_begin, upload_hw_end, FilterTimes, left_ldw, right_ldw,
  fcw_on, trigger_data,
}
use sanbao_prot.Alert.{LocalConfig, filter_alert_by_time, filter_alert_by_speed}
use sanbao_prot.App.{App}
use sanbao_prot.Base.{
  ℕ, ◌≡◌, refl, sym, ◌∙◌, subst, Bool, true, false, not, ◌⊎◌, inl, inr, List, [], ◌∷◌, Bytes,
  get_or, arith, ◌==◌, if◌then◌else◌, Bool-cases, ◌||◌, ◌&&◌, same_bytes,
}

-- The headway alerts of a log begin and end in turns, and the last one is open as the flag says.
abbrev pub Turns : Bool → List Event → Type 0
Turns started [] = started ≡ false
Turns started (ldw ∷ log) = Turns started log
Turns started (fcw ∷ log) = Turns started log
Turns started (hw_begin ∷ log) = (started ≡ true) × Turns false log
Turns started (hw_end ∷ log) = (started ≡ false) × Turns true log

-- An alert is open only at the level red.
pub record IsPaired (level : ℕ) (r : AdasRun) : Type 0 where
  pub turns : Turns r.s_start_flag r.reports
  pub red : r.s_start_flag ≡ true → level ≡ hw_level_red_car

-- What a step that is no headway alert leaves as it was.
pub record Quiet (r s : AdasRun) : Type 0 where
  pub flag : s.s_start_flag ≡ r.s_start_flag
  pub warning : s.g_last_warning_data ≡ r.g_last_warning_data
  pub stays : s.out ≡ r.out
  pub turns : Turns r.s_start_flag r.reports → Turns s.s_start_flag s.reports

quiet : (r : AdasRun) → Quiet r r
quiet r = record { flag = refl; warning = refl; stays = refl; turns = λ t. t }

quiet_then : (r s t : AdasRun) → Quiet r s → Quiet s t → Quiet r t
quiet_then r s t f g = record {
  flag = g.flag ∙ f.flag;
  warning = g.warning ∙ f.warning;
  stays = g.stays ∙ f.stays;
  turns = λ h. g.turns (f.turns h);
}

speed_off :
    (c : LocalConfig) (a : App) → c.speed_filter_enable ≡ false → filter_alert_by_speed c a ≡ true
unfolding filter_alert_by_speed
speed_off c a off = rw off refl

-- Without the filter by speed, a filter sends or does not.
filtered-cases :
    (c : LocalConfig) (now secs last : ℕ) (put : ℕ → AdasRun → AdasRun)
    (message : AdasRun → AdasRun) (r : AdasRun)
    → c.speed_filter_enable ≡ false
    → let last' = (filter_alert_by_time now secs last).0 in
      let s = filtered c now secs last put message r in
      (s ≡ put last' r) ⊎ (s ≡ message (put last' r))
unfolding filtered
filtered-cases c now secs last put message r off =
    elim (Bool-cases (filter_alert_by_time now secs last).1) [
      | inl pass ↦
          inr (rw (pass, speed_off c (put (filter_alert_by_time now secs last).0 r).app off) refl)
      | inr wait ↦ inl (rw wait refl)
    ]

ldw_event-Quiet :
    (c : LocalConfig) (now : ℕ) (times : FilterTimes) (can : Bytes) (r : AdasRun)
    → c.speed_filter_enable ≡ false
    → Quiet r (ldw_event c now times can r)
unfolding ldw_event upload_ldw upload
ldw_event-Quiet c now times can r off = elim (Bool-cases (left_ldw can || right_ldw can)) [
  | inl on ↦
      rw on
        (elim (filtered-cases c now times.ldw_filter_time r.ldw_alert put_ldw (upload_ldw can) r
          off) [
            | inl e ↦ rw e (record { flag = refl; warning = refl; stays = refl; turns = λ t. t })
            | inr e ↦ rw e (record { flag = refl; warning = refl; stays = refl; turns = λ t. t })
          ])
  | inr other ↦ rw other (quiet r)
]

fcw_event-Quiet :
    (c : LocalConfig) (now : ℕ) (times : FilterTimes) (can : Bytes) (r : AdasRun)
    → c.speed_filter_enable ≡ false
    → Quiet r (fcw_event c now times can r)
unfolding fcw_event upload_fcw upload
fcw_event-Quiet c now times can r off = elim (Bool-cases (not r.out && fcw_on can)) [
  | inl on ↦
      rw on
        (elim (filtered-cases c now times.fcw_filter_time r.fcw_alert put_fcw upload_fcw r off) [
          | inl e ↦ rw e (record { flag = refl; warning = refl; stays = refl; turns = λ t. t })
          | inr e ↦ rw e (record { flag = refl; warning = refl; stays = refl; turns = λ t. t })
        ])
  | inr other ↦ rw other (quiet r)
]

pub trigger_events-Quiet :
    (c : LocalConfig) (now : ℕ) (times : FilterTimes) (can : Bytes) (r : AdasRun)
    → c.speed_filter_enable ≡ false
    → Quiet r (trigger_events c now times can r)
unfolding trigger_events
trigger_events-Quiet c now times can r off =
    let s = ldw_event c now times can r in
    let both =
      quiet_then r s (fcw_event c now times can s) (ldw_event-Quiet c now times can r off)
        (fcw_event-Quiet c now times can s off) in
    elim (Bool-cases (
      same_bytes (trigger_data can) r.g_last_trigger_warning
      || get_or (trigger_data can) 4 0 == 0)) [ inl skip ↦ rw skip (quiet r) | inr go ↦ rw go both ]

flag_closed :
    (level : ℕ) (r : AdasRun)
    → IsPaired level r
    → (level == hw_level_red_car) ≡ false
    → r.s_start_flag ≡ false
flag_closed level r h other = elim (Bool-cases r.s_start_flag) [
  | inl on ↦ absurd (ground (arith, h.red on))
  | inr off ↦ off
]

headway-IsPaired :
    (c : LocalConfig) (now : ℕ) (times : FilterTimes) (can : Bytes) (r : AdasRun)
    → c.speed_filter_enable ≡ false
    → IsPaired (headway_warning_level r.g_last_warning_data) r
    → IsPaired (headway_warning_level can) (headway c now times can r)
unfolding headway upload_hw_begin upload_hw_end upload
headway-IsPaired c now times can r off h =
    let level = headway_warning_level can in
    let last = headway_warning_level r.g_last_warning_data in
    elim (Bool-cases (last == level)) [
      | inl same ↦ let e : last ≡ level = ground arith in rw same (subst (λ l. IsPaired l r) e h)
      | inr new ↦ elim (Bool-cases (level == hw_level_red_car)) [
        | inl red ↦
            let is_red : level ≡ hw_level_red_car = ground arith in
            let closed = flag_closed last r h (ground arith) in
            let t : Turns false r.reports = subst (λ b. Turns b r.reports) closed h.turns in
            rw (new, red)
              (elim (filtered-cases c now times.hw_filter_time r.hw_alert put_hw upload_hw_begin r
                off) [
                  | inl e ↦ rw e (record { turns = h.turns; red = λ _. is_red })
                  | inr e ↦ rw e (record { turns = (refl, t); red = λ _. is_red })
                ])
        | inr other ↦ elim (Bool-cases (last == hw_level_red_car && r.s_start_flag)) [
          | inl ends ↦
              let on : r.s_start_flag ≡ true = ground arith in
              let t : Turns true r.reports = subst (λ b. Turns b r.reports) on h.turns in
              rw (new, other, ends) (record { turns = (refl, t); red = λ e. absurd (grind arith) })
          | inr none_open ↦
              let closed : r.s_start_flag ≡ false = elim (Bool-cases r.s_start_flag) [
                | inl on ↦ absurd (ground (arith, h.red on))
                | inr off' ↦ off'
              ] in
              rw (new, other, none_open)
                (record { turns = h.turns; red = λ on. absurd (grind arith) })
        ]
      ]
    ]

pub headway_event-IsPaired :
    (c : LocalConfig) (now : ℕ) (times : FilterTimes) (can : Bytes) (r : AdasRun)
    → c.speed_filter_enable ≡ false
    → r.out ≡ false
    → IsPaired (headway_warning_level r.g_last_warning_data) r
    → IsPaired (headway_warning_level can) (headway_event c now times can r)
unfolding headway_event
headway_event-IsPaired c now times can r off stays h =
    subst (λ o. IsPaired (headway_warning_level can) (if o then r else headway c now times can r))
      (sym stays) (headway-IsPaired c now times can r off h)
