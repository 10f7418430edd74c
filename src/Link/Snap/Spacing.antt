-- ===== src/Link/Snap/Spacing.antt =====
-- How often the thread of `pthread_snap_shot` takes a photo.
use sanbao_prot.Alert.{LocalConfig, limit_record_time}
use sanbao_prot.App.{App, write_heart}
use sanbao_prot.Base.{
  ℕ, ◌+◌, ◌%◌, ◌^◌, ◌≤◌, ◌<◌, ◌≡◌, ◌⊎◌, refl, true, false, not, List, [], ◌∷◌, Bytes, All, leb, ltb,
  ◌==◌, ◌||◌, arith, Bool-cases, inl, inr, IsByte, if_both,
}
use sanbao_prot.Field.{get_field}
use sanbao_prot.Link.Snap.{
  SnapRun, Input, snap, snap_by_time, snap_by_distance, far_enough, auto_photo, snap_round,
  snap_all, mileage, time_period, snap_shot_by_time, snap_shot_by_distance,
}
use sanbao_prot.Link.{
  Link, HeartCheck, check_heart_beat, count_heart_beat, tcp_socket_close, set_connect_status,
}
use sanbao_prot.Para.Adas as AdasPara
use sanbao_prot.Para.{read_dev_para}
use sanbao_prot.Prot.{id_of}
use sanbao_prot.Warn.Message.{WarnFrame}

-- The first of the times, if there is one, is `gap` or more before `t`.
abbrev pub Apart : ℕ → ℕ → List ℕ → Type 0
Apart gap t [] = Unit
Apart gap t (u ∷ us) = u + gap ≤ t

-- The times, the latest first, are `gap` or more apart.
abbrev pub Spaced : ℕ → List ℕ → Type 0
Spaced gap [] = Unit
Spaced gap (t ∷ ts) = Apart gap t ts × Spaced gap ts

record IsSpaced (gap : ℕ) (s : SnapRun) : Type 0 where
  spaced : Spaced gap s.shots
  logged : Apart 0 s.last s.shots

pub Apart-later : (gap last t : ℕ) (ts : List ℕ) → Apart 0 last ts → last + gap ≤ t → Apart gap t ts
Apart-later gap last t [] h le = tt
Apart-later gap last t (u ∷ us) h le = omega arith

pub over_or_not :
    (now secs last : ℕ)
    → (limit_record_time now secs last ≡ (last, false))
      ⊎ ((limit_record_time now secs last ≡ (now, true)) × (last + secs ≤ now))
unfolding limit_record_time
over_or_not now secs last = elim (Bool-cases (ltb now (last + secs))) [
  | inl soon ↦ inl (rw soon refl)
  | inr over ↦ inr (rw over refl, ground arith)
]

snap_by_time-IsSpaced :
    (gap : ℕ) (junk : WarnFrame) (now period : ℕ) (s : SnapRun)
    → gap ≤ period
    → IsSpaced gap s
    → IsSpaced gap (snap_by_time junk now period s)
unfolding snap_by_time snap
snap_by_time-IsSpaced gap junk now period s le h = elim (Bool-cases (period == 0)) [
  | inl off ↦ rw off h
  | inr on ↦ elim (over_or_not now period s.last) [
    | inl soon ↦ rw (on, soon) (record { spaced = h.spaced; logged = h.logged })
    | inr (over, due) ↦
        rw (on, over)
          (record {
            spaced = (Apart-later gap s.last now s.shots h.logged (omega arith), h.spaced);
            logged = omega arith;
          })
  ]
]

snap_by_distance-IsSpaced :
    (gap : ℕ) (junk : WarnFrame) (period : ℕ) (s : SnapRun)
    → IsSpaced gap s
    → IsSpaced gap (snap_by_distance junk period s)
unfolding snap_by_distance snap
snap_by_distance-IsSpaced gap junk period s h =
    elim (Bool-cases (period == 0 || not (far_enough (mileage s.link.app) s.mileage_last period))) [
      | inl stay ↦ rw stay h
      | inr far ↦ elim (Bool-cases (s.mileage_last == 0)) [
        | inl first ↦ rw (far, first) (record { spaced = h.spaced; logged = h.logged })
        | inr later ↦ rw (far, later) (record { spaced = h.spaced; logged = h.logged })
      ]
    ]

auto_photo-IsSpaced :
    (gap : ℕ) (junk : WarnFrame) (now : ℕ) (para : Bytes) (s : SnapRun)
    → gap ≤ get_field para AdasPara.auto_photo_time_period
    → IsSpaced gap s
    → IsSpaced gap (auto_photo junk now para s)
unfolding auto_photo
auto_photo-IsSpaced gap junk now para s le h =
    let mode = get_field para AdasPara.auto_photo_mode in
    let timed =
      snap_by_time-IsSpaced gap junk now (get_field para AdasPara.auto_photo_time_period) s le h in
    let far =
      snap_by_distance-IsSpaced gap junk (get_field para AdasPara.auto_photo_distance_period) s h in
    if_both (IsSpaced gap) (mode == snap_shot_by_time) timed
      (if_both (IsSpaced gap) (mode == snap_shot_by_distance) far h)

same_period :
    (l m : Link) → m.app.dev ≡ l.app.dev → m.app.paras ≡ l.app.paras → time_period m ≡ time_period l
unfolding time_period
same_period l m d p = simp (d, p) refl

-- The check of the heart beat leaves the parameters alone.
check_heart_beat-period :
    (c : LocalConfig) (now : ℕ) (h : HeartCheck) (l : Link)
    → time_period (check_heart_beat c now h l).1 ≡ time_period l
unfolding check_heart_beat count_heart_beat tcp_socket_close set_connect_status write_heart
check_heart_beat-period c now h l =
    let P = λ (r : HeartCheck × Link). time_period r.1 ≡ time_period l in
    let Q = λ (m : Link). time_period m ≡ time_period l in
    let count = (h.count + 1) % 2 ^ 32 in
    let closed : Q (tcp_socket_close l) =
      if_both Q l.connect_status (same_period l _ refl refl) refl in
    let late = if_both P (leb c.check_heart_period count) closed refl in
    let counted = if_both P (not l.app.heart_alive) late (same_period l _ refl refl) in
    if_both P (not c.use_heart) refl (
      if_both P (not l.connect_status) refl
        (if_both P (limit_record_time now 1 h.s_record_last).1 counted refl))

snap_all-IsSpaced :
    (c : LocalConfig) (gap : ℕ) (inputs : List Input) (s : SnapRun)
    → All (λ (i : Input). (l : Link) → gap ≤ time_period (i.others l)) inputs
    → IsSpaced gap s
    → IsSpaced gap (snap_all c inputs s)
unfolding snap_round time_period
snap_all-IsSpaced c gap [] s slow h = h
snap_all-IsSpaced c gap (i ∷ is) s (slow, rest) h =
    let l = i.others s.link in
    let r = check_heart_beat c i.now s.heart l in
    let t = record s { heart = r.0; link = r.1 } in
    let wide : gap ≤ time_period r.1 =
      omega (arith, slow s.link, check_heart_beat-period c i.now s.heart l) in
    snap_all-IsSpaced c gap is _ rest (
      auto_photo-IsSpaced gap i.junk i.now (read_dev_para (id_of r.1.app.dev) r.1.app.paras []) t
        wide (record { spaced = h.spaced; logged = h.logged }))

-- As long as the period of the parameters is at least `gap`, the snapshots by time are `gap` or more
-- apart, over any rounds, whatever the other threads do and whichever mode is set in between.
pub snap_all-Spaced :
    (c : LocalConfig) (gap : ℕ) (inputs : List Input) (s : SnapRun)
    → All (λ (i : Input). (l : Link) → gap ≤ time_period (i.others l)) inputs
    → s.shots ≡ []
    → Spaced gap (snap_all c inputs s).shots
snap_all-Spaced c gap inputs s slow none_yet =
    (snap_all-IsSpaced c gap inputs s slow
      (record { spaced = rw none_yet tt; logged = rw none_yet tt })).spaced

-- The mileage comes with its high byte first, as the positions do, and is read with its low byte
-- first: a step of one unit, 100 meters, in its last byte passes for the whole of any distance that
-- the parameters can hold, however long that is.
pub far_enough-any_period :
    (b0 b1 b2 b3 period : ℕ) (r0 r1 : ℕ) (rest : Bytes) (a a' : App)
    → IsByte b0
    → IsByte b1
    → IsByte b2
    → b3 + 1 < 256
    → period < 2 ^ 16
    → a.real_time ≡ r0 ∷ r1 ∷ b0 ∷ b1 ∷ b2 ∷ b3 ∷ rest
    → a'.real_time ≡ r0 ∷ r1 ∷ b0 ∷ b1 ∷ b2 ∷ (b3 + 1) ∷ rest
    → far_enough (mileage a') (mileage a) period ≡ true
unfolding far_enough mileage
far_enough-any_period b0 b1 b2 b3 period r0 r1 rest a a' h0 h1 h2 h3 small e e' =
    rw (e, e') (ground arith)
