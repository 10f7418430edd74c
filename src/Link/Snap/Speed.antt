-- ===== src/Link/Snap/Speed.antt =====
-- `record_speed` of process.cpp, which `pthread_snap_shot` calls in each round: the speeds in the log.
use sanbao_prot.Alert.{limit_record_time}
use sanbao_prot.Base.{ℕ, ◌≤◌, not, List, [], ◌∷◌, ltb, if◌then◌else◌, arith, Bool-cases, inl, inr}
use sanbao_prot.Config.{Settings}
use sanbao_prot.Link.Snap.Spacing.{Apart, Spaced, Apart-later, over_or_not}
use sanbao_prot.Prot.{Device, adas, dms}

-- The static, and the lines of the log: the time and the speed of each, the latest first.
pub record SpeedLog : Type 0 where
  pub s_record_last : ℕ
  pub times : List ℕ
  pub values : List ℕ

-- RECORD_TIME_PERIOD_MIN is 5.
unfoldable pub speed_period : Settings → ℕ
speed_period c = if ltb c.record_period 5 then 5 else c.record_period

-- `speed` is that of the last message 0x760. Only the ADAS build records.
unfoldable pub record_speed : Device → Settings → ℕ → ℕ → SpeedLog → SpeedLog
unfolding speed_period
record_speed adas c now speed s =
    let (last, over) = limit_record_time now (speed_period c) s.s_record_last in
    if not c.record_speed
    then s
    else if over
    then record { s_record_last = last; times = now ∷ s.times; values = speed ∷ s.values }
    else record s { s_record_last = last }
record_speed dms c now speed s = s

-- The rounds of the thread, with the time and the speed in each.
abbrev pub record_speeds : Device → Settings → List (ℕ × ℕ) → SpeedLog → SpeedLog
record_speeds d c [] s = s
record_speeds d c ((now, speed) ∷ rounds) s =
    record_speeds d c rounds (record_speed d c now speed s)

record IsSpaced (gap : ℕ) (s : SpeedLog) : Type 0 where
  spaced : Spaced gap s.times
  logged : Apart 0 s.s_record_last s.times

record_speed-IsSpaced :
    (d : Device) (c : Settings) (now speed : ℕ) (s : SpeedLog)
    → IsSpaced (speed_period c) s
    → IsSpaced (speed_period c) (record_speed d c now speed s)
unfolding record_speed
record_speed-IsSpaced dms c now speed s h = h
record_speed-IsSpaced adas c now speed s h = elim (Bool-cases c.record_speed) [
  | inr off ↦ rw off h
  | inl on ↦ elim (over_or_not now (speed_period c) s.s_record_last) [
    | inl soon ↦ rw (on, soon) (record { spaced = h.spaced; logged = h.logged })
    | inr (over, late) ↦
        rw (on, over)
          (record {
            spaced =
                (Apart-later (speed_period c) s.s_record_last now s.times h.logged late, h.spaced);
            logged = omega arith;
          })
  ]
]

record_speeds-IsSpaced :
    (d : Device) (c : Settings) (rounds : List (ℕ × ℕ)) (s : SpeedLog)
    → IsSpaced (speed_period c) s
    → IsSpaced (speed_period c) (record_speeds d c rounds s)
record_speeds-IsSpaced d c [] s h = h
record_speeds-IsSpaced d c ((now, speed) ∷ rounds) s h =
    record_speeds-IsSpaced d c rounds (record_speed d c now speed s)
      (record_speed-IsSpaced d c now speed s h)

speed_period_ge : (c : Settings) → (5 ≤ speed_period c) × (c.record_period ≤ speed_period c)
unfolding speed_period
speed_period_ge c = ground arith

-- In the log, two speeds are as many seconds apart as the configuration says, and five at least,
-- however often the thread comes round.
pub record_speeds-Spaced :
    (d : Device) (c : Settings) (rounds : List (ℕ × ℕ)) (last : ℕ)
    → let s : SpeedLog = record { s_record_last = last; times = []; values = [] } in
      Spaced (speed_period c) (record_speeds d c rounds s).times
      × (5 ≤ speed_period c)
      × (c.record_period ≤ speed_period c)
record_speeds-Spaced d c rounds last =
    let s : SpeedLog = record { s_record_last = last; times = []; values = [] } in
    let (five, asked) = speed_period_ge c in
    let h = record_speeds-IsSpaced d c rounds s (record { spaced = tt; logged = tt }) in
    (h.spaced, five, asked)
