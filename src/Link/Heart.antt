-- ===== src/Link/Heart.antt =====
-- `check_heart_beat` over many rounds of its thread.
pub mod Kept
use sanbao_prot.Alert.{LocalConfig, limit_record_time, touch_time}
use sanbao_prot.App.{write_heart}
use sanbao_prot.Base.{
  ℕ, suc, ◌+◌, ◌≤◌, ◌<◌, ◌%◌, ◌^◌, ◌≡◌, refl, ap, ◌∙◌, Bool, true, false, not, List, [], ◌∷◌, ◌++◌,
  length, subst, Bool-cases, inl, inr, arith, leb, if◌then◌else◌,
}
use sanbao_prot.Link.{
  Link, HeartCheck, tcp_socket_close, set_connect_status, count_heart_beat, check_heart_beat,
}

-- A round: its time, and whether real-time data came since the round before.
pub record Round : Type 0 where
  pub now : ℕ
  pub beat : Bool

abbrev pub arrive : Bool → Link → Link
arrive beat l = if beat then record l { app = write_heart true l.app } else l

abbrev pub rounds : LocalConfig → List Round → HeartCheck → Link → HeartCheck × Link
rounds c [] h l = (h, l)
rounds c (r ∷ rs) h l =
    let (h', l') = check_heart_beat c r.now h (arrive r.beat l) in rounds c rs h' l'

-- Each round is a second or more behind the one before.
abbrev pub Ticks : ℕ → List Round → Type 0
Ticks last [] = Unit
Ticks last (r ∷ rs) = (last + 1 ≤ r.now) × Ticks r.now rs

-- No data in any round.
abbrev pub Dead : List Round → Type 0
Dead [] = Unit
Dead (r ∷ rs) = (r.beat ≡ false) × Dead rs

-- The connection is up and checked, and no data came since the last round.
pub record Checked (c : LocalConfig) (l : Link) : Type 0 where
  pub use_heart : c.use_heart ≡ true
  pub connected : l.connect_status ≡ true
  pub no_beat : l.app.heart_alive ≡ false

abbrev pub last_time : ℕ → List Round → ℕ
last_time last [] = last
last_time last (r ∷ rs) = last_time r.now rs

tick : (now last : ℕ) → last + 1 ≤ now → limit_record_time now 1 last ≡ (now, true)
unfolding limit_record_time
tick now last h = ground arith

pub check_due :
    (c : LocalConfig) (now : ℕ) (h : HeartCheck) (l : Link)
    → c.use_heart ≡ true
    → l.connect_status ≡ true
    → h.s_record_last + 1 ≤ now
    → check_heart_beat c now h l ≡ count_heart_beat c (record h { s_record_last = now }) l
unfolding check_heart_beat touch_time
check_due c now h l used on due =
    let when = λ (p : ℕ × Bool).
      let g = record h { s_record_last = p.0 } in if p.1 then count_heart_beat c g l else (g, l) in
    let up = λ (b : Bool).
      if not b
      then (record h { s_record_last = now }, l)
      else when (limit_record_time now 1 h.s_record_last) in
    ap (λ b. if not b then (h, l) else up l.connect_status) used
    ∙ ap up on
    ∙ ap when (tick now h.s_record_last due)

-- The check without data, by the test of its count, and with it.
abbrev unless_late : Bool → ℕ → HeartCheck → Link → HeartCheck × Link
unless_late late n h l =
    if late then (record h { count = 0 }, tcp_socket_close l) else (record h { count = n }, l)

abbrev counted : Bool → LocalConfig → ℕ → HeartCheck → Link → HeartCheck × Link
counted alive c n h l =
    if not alive
    then unless_late (leb c.check_heart_period n) n h l
    else (record h { count = 0 }, record l { app = write_heart false l.app })

count_counted :
    (c : LocalConfig) (h : HeartCheck) (l : Link)
    → l.app.heart_alive ≡ false
    → h.count + 1 < 2 ^ 32
    → count_heart_beat c h l
      ≡ unless_late (leb c.check_heart_period (h.count + 1)) (h.count + 1) h l
unfolding count_heart_beat
count_counted c h l dead small =
    let next : (h.count + 1) % 2 ^ 32 ≡ h.count + 1 = omega arith in
    ap (λ b. counted b c ((h.count + 1) % 2 ^ 32) h l) dead ∙ ap (λ n. counted false c n h l) next

pub count_dead :
    (c : LocalConfig) (h : HeartCheck) (l : Link)
    → l.app.heart_alive ≡ false
    → h.count + 1 < c.check_heart_period
    → c.check_heart_period < 2 ^ 32
    → count_heart_beat c h l ≡ (record h { count = h.count + 1 }, l)
count_dead c h l dead below small =
    let early : leb c.check_heart_period (h.count + 1) ≡ false = ground arith in
    count_counted c h l dead (omega arith) ∙ ap (λ b. unless_late b (h.count + 1) h l) early

-- The state after the connection was closed.
abbrev pub closed : Link → Link
closed l = record l { connect_status = false; closes = l.closes + 1 }

count_last :
    (c : LocalConfig) (h : HeartCheck) (l : Link)
    → l.app.heart_alive ≡ false
    → l.connect_status ≡ true
    → h.count + 1 ≡ c.check_heart_period
    → c.check_heart_period < 2 ^ 32
    → count_heart_beat c h l ≡ (record h { count = 0 }, closed l)
unfolding tcp_socket_close set_connect_status
count_last c h l dead on total small =
    let late : leb c.check_heart_period (h.count + 1) ≡ true = ground arith in
    count_counted c h l dead (omega arith)
    ∙ ap (λ b. unless_late b (h.count + 1) h l) late
    ∙ ap (λ b. (record h { count = 0 }, if b then closed l else l)) on

abbrev pub go_on : LocalConfig → List Round → HeartCheck × Link → HeartCheck × Link
go_on c rs (h, l) = rounds c rs h l

-- When no data comes for the configured number of rounds, a second or more apart, the connection is
-- closed by the last of them, once, and not before; nothing else of the shared state changes.
pub check_heart_beat-closes :
    (c : LocalConfig) (rs : List Round) (r : Round) (h : HeartCheck) (l : Link)
    → Checked c l
    → Ticks h.s_record_last (rs ++ r ∷ [])
    → Dead (rs ++ r ∷ [])
    → h.count + length rs + 1 ≡ c.check_heart_period
    → c.check_heart_period < 2 ^ 32
    → (rounds c rs h l
        ≡ (record { s_record_last = last_time h.s_record_last rs; count = h.count + length rs }, l))
      × (rounds c (rs ++ r ∷ []) h l ≡ (record { s_record_last = r.now; count = 0 }, closed l))
check_heart_beat-closes c [] r h l k (due, _) (quiet, _) total small =
    let start : arrive r.beat l ≡ l = ap (λ b. arrive b l) quiet in
    let dies =
      check_due c r.now h l k.use_heart k.connected due
      ∙ count_last c (record h { s_record_last = r.now }) l k.no_beat k.connected (omega arith)
          small in
    (
      ap (λ n. (record h { count = n }, l)) (omega arith),
      ap (λ m. go_on c [] (check_heart_beat c r.now h m)) start ∙ dies,
    )
check_heart_beat-closes c (q ∷ rs) r h l k (due, ticks) (quiet, dead) total small =
    let start : arrive q.beat l ≡ l = ap (λ b. arrive b l) quiet in
    let h' : HeartCheck = record { s_record_last = q.now; count = h.count + 1 } in
    let lives =
      check_due c q.now h l k.use_heart k.connected due
      ∙ count_dead c (record h { s_record_last = q.now }) l k.no_beat (omega arith) small in
    let rest = check_heart_beat-closes c rs r h' l k ticks dead (omega arith) small in
    let steps = λ (ts : List Round).
      ap (λ m. go_on c ts (check_heart_beat c q.now h m)) start ∙ ap (go_on c ts) lives in
    let sum : h.count + 1 + length rs ≡ h.count + suc (length rs) = omega arith in
    (
      steps rs
          ∙ rest.0
          ∙ ap (λ n. (record { s_record_last = last_time q.now rs; count = n }, l)) sum,
      steps (rs ++ r ∷ []) ∙ rest.1,
    )
