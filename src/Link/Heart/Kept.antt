-- ===== src/Link/Heart/Kept.antt =====
-- `check_heart_beat` while data comes: the connection is kept.
use sanbao_prot.Alert.{LocalConfig}
use sanbao_prot.App.{write_heart}
use sanbao_prot.Base.{
  ℕ, ◌+◌, ◌<◌, ◌^◌, ◌≡◌, refl, ap, ◌∙◌, true, false, List, [], ◌∷◌, subst, Bool-cases, inl, inr,
  if◌then◌else◌,
}
use sanbao_prot.Link.Heart.{Round, arrive, rounds, Ticks, Checked, check_due, count_dead, go_on}
use sanbao_prot.Link.{Link, HeartCheck, count_heart_beat, check_heart_beat}

-- Never `period` rounds in a row without data, `count` of them before the first.
abbrev pub Alive : ℕ → ℕ → List Round → Type 0
Alive period count [] = Unit
Alive period count (r ∷ rs) =
    if r.beat then Alive period 0 rs else ((count + 1 < period) × Alive period (count + 1) rs)

count_alive :
    (c : LocalConfig) (h : HeartCheck) (l : Link)
    → count_heart_beat c h (arrive true l)
      ≡ (record h { count = 0 }, record l { app = write_heart false l.app })
unfolding count_heart_beat write_heart
count_alive c h l = refl

-- While there are never that many rounds in a row without data, the connection is not closed.
pub check_heart_beat-Alive :
    (c : LocalConfig) (rs : List Round) (h : HeartCheck) (l : Link)
    → Checked c l
    → Ticks h.s_record_last rs
    → Alive c.check_heart_period h.count rs
    → c.check_heart_period < 2 ^ 32
    → ((rounds c rs h l).1.connect_status ≡ true) × ((rounds c rs h l).1.closes ≡ l.closes)
unfolding write_heart
check_heart_beat-Alive c [] h l k ticks alive small = (k.connected, refl)
check_heart_beat-Alive c (r ∷ rs) h l k (due, ticks) alive small = elim (Bool-cases r.beat) [
  | inl beat ↦
      let m = record l { app = write_heart false l.app } in
      let alive' : Alive c.check_heart_period 0 rs =
        subst
          (λ b.
            if b
            then Alive c.check_heart_period 0 rs
            else ((h.count + 1 < c.check_heart_period)
                × Alive c.check_heart_period (h.count + 1) rs))
          beat alive in
      let k' : Checked c m = record {
        use_heart = k.use_heart;
        connected = k.connected;
        no_beat = refl;
      } in
      let rest =
        check_heart_beat-Alive c rs (record { s_record_last = r.now; count = 0 }) m k' ticks alive'
          small in
      let step =
        ap (λ b. go_on c rs (check_heart_beat c r.now h (arrive b l))) beat
        ∙ ap (go_on c rs) (
            check_due c r.now h (arrive true l) k.use_heart k.connected due
            ∙ count_alive c (record h { s_record_last = r.now }) l) in
      rw step rest
  | inr none_came ↦
      let alive' : (h.count + 1 < c.check_heart_period)
          × Alive c.check_heart_period (h.count + 1) rs =
        subst
          (λ b.
            if b
            then Alive c.check_heart_period 0 rs
            else ((h.count + 1 < c.check_heart_period)
                × Alive c.check_heart_period (h.count + 1) rs))
          none_came alive in
      let rest =
        check_heart_beat-Alive c rs (record { s_record_last = r.now; count = h.count + 1 }) l k
          ticks alive'.1 small in
      let step =
        ap (λ b. go_on c rs (check_heart_beat c r.now h (arrive b l))) none_came
        ∙ ap (go_on c rs) (
            check_due c r.now h l k.use_heart k.connected due
            ∙ count_dead c (record h { s_record_last = r.now }) l k.no_beat alive'.0 small) in
      rw step rest
]
