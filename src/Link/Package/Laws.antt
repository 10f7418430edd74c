-- ===== src/Link/Package/Laws.antt =====
-- How often a message is sent, and what an acknowledgement does.
use sanbao_prot.App.{App}
use sanbao_prot.Base.{
  ℕ, zero, suc, ◌+◌, ◌≤◌, ◌<◌, ◌≡◌, refl, ap, ◌∙◌, true, false, inl, inr, List, [], ◌∷◌, ◌++◌,
  Bytes, All, replicate, arith, leb, ◌==◌, Bool-cases,
}
use sanbao_prot.Link.Package.{
  Wake, Attempt, wait_ack, snd, clear_ack, stop_transfer, attempt, send_rounds,
}
use sanbao_prot.Link.{Link}

-- The other threads notice no acknowledgement.
abbrev pub Ignores : (App → App) → Type 0
Ignores others = (a : App) → a.recv_ack ≡ false → (others a).recv_ack ≡ false

-- No acknowledgement comes, whatever wakes the wait up.
pub record Silent (t : Attempt) : Type 0 where
  pub before : Ignores t.others
  pub during : All (λ (w : Wake). Ignores w.others) t.wakes

-- An acknowledgement has come when the wait begins, or by one of its returns that are no errors.
pub data Notified : List Wake → App → Type 0 where
  here : {ws : List Wake} {a : App} → a.recv_ack ≡ true → Notified ws a
  later :
      {w : Wake} {ws : List Wake} {a : App}
      → w.rc ≡ 0
      → Notified ws (w.others a)
      → Notified (w ∷ ws) a

-- The state in which an attempt that no acknowledgement ends leaves the program.
record Unanswered (r : App × ℕ) : Type 0 where
  waits : r.0.recv_ack ≡ false
  code : (r.1 == 0) ≡ false

wait_ack_silent :
    (ws : List Wake) (a : App)
    → All (λ (w : Wake). Ignores w.others) ws
    → a.recv_ack ≡ false
    → Unanswered (wait_ack ws a)
unfolding wait_ack
wait_ack_silent [] a h no_ack = simp no_ack (record { waits = no_ack; code = refl })
wait_ack_silent (w ∷ ws) a (h, hs) no_ack =
    let rest = wait_ack_silent ws (w.others a) hs (h a no_ack) in
    elim (Bool-cases (w.rc == 0)) [
      | inl again ↦ simp (no_ack, again) rest
      | inr ends ↦ simp (no_ack, ends) (record { waits = h a no_ack; code = ends })
    ]

wait_ack-Notified : {ws : List Wake} {a : App} → Notified ws a → (wait_ack ws a).1 ≡ 0
unfolding wait_ack
wait_ack-Notified {ws = []} (here ack) = rw ack refl
wait_ack-Notified {ws = w ∷ ws} (here ack) = rw ack refl
wait_ack-Notified {ws = w ∷ ws} {a = a} (later ok n) = elim (Bool-cases a.recv_ack) [
  | inl ack ↦ rw ack refl
  | inr no_ack ↦ simp (no_ack, ok) (wait_ack-Notified n)
]

attempt-Silent :
    (msg : Bytes) (t : Attempt) (l : Link)
    → Silent t
    → l.app.recv_ack ≡ false
    → ((attempt msg t l).0.app.recv_ack ≡ false) × (((attempt msg t l).1 == 0) ≡ false)
unfolding attempt snd
attempt-Silent msg t l s no_ack =
    let u = wait_ack_silent t.wakes (t.others l.app) s.during (s.before l.app no_ack) in
    (u.waits, u.code)

replicate-snoc :
    (k : ℕ) (x : Bytes) (xs : List Bytes) → replicate k x ++ x ∷ xs ≡ x ∷ (replicate k x ++ xs)
replicate-snoc zero x xs = refl
replicate-snoc (suc k) x xs = ap (◌∷◌ x) (replicate-snoc k x xs)

attempt-sent : (msg : Bytes) (t : Attempt) (l : Link) → (attempt msg t l).0.sent ≡ msg ∷ l.sent
unfolding attempt snd
attempt-sent msg t l = refl

-- Without an acknowledgement, every round is used, and the last one ends the transfer of media.
pub send_rounds-Silent :
    (n send_repeat : ℕ) (msg : Bytes) (attempts : ℕ → Attempt) (l : Link)
    → suc n + send_repeat ≡ 3
    → ((i : ℕ) → Silent (attempts i))
    → l.app.recv_ack ≡ false
    → let m = send_rounds (suc n) send_repeat msg attempts l in
      (m.sent ≡ replicate (suc n) msg ++ l.sent) × (m.app.pkg.mm_data_trans_waiting ≡ false)
unfolding send_rounds stop_transfer
send_rounds-Silent zero send_repeat msg attempts l total silent no_ack =
    let u = attempt-Silent msg (attempts 0) l (silent 0) no_ack in
    let last : leb 3 (send_repeat + 1) ≡ true = ground arith in
    rw (u.1, last) (attempt-sent msg (attempts 0) l, refl)
send_rounds-Silent (suc n) send_repeat msg attempts l total silent no_ack =
    let u = attempt-Silent msg (attempts 0) l (silent 0) no_ack in
    let m = (attempt msg (attempts 0) l).0 in
    let more : leb 3 (send_repeat + 1) ≡ false = ground arith in
    let rest =
      send_rounds-Silent n (send_repeat + 1) msg (λ i. attempts (suc i)) m (omega arith)
        (λ i. silent (suc i)) u.0 in
    let all_sent : replicate (suc n) msg ++ m.sent ≡ replicate (suc (suc n)) msg ++ l.sent =
      ap (◌++◌ (replicate (suc n) msg)) (attempt-sent msg (attempts 0) l)
      ∙ replicate-snoc (suc n) msg l.sent in
    rw (u.1, more) (rest.0 ∙ all_sent, rest.1)

-- An acknowledgement in the first round ends the rounds.
pub send_rounds-once :
    (n send_repeat : ℕ) (msg : Bytes) (attempts : ℕ → Attempt) (l : Link)
    → Notified (attempts 0).wakes ((attempts 0).others l.app)
    → let m = send_rounds (suc n) send_repeat msg attempts l in
      (m.sent ≡ msg ∷ l.sent) × (m.app.recv_ack ≡ false)
unfolding send_rounds clear_ack attempt snd
send_rounds-once n send_repeat msg attempts l notified =
    let rc = wait_ack-Notified notified in rw rc (refl, refl)

-- An acknowledgement in the round `k` ends the rounds there.
pub send_rounds-acked :
    (k n send_repeat : ℕ) (msg : Bytes) (attempts : ℕ → Attempt) (l : Link)
    → k < n
    → n + send_repeat ≡ 3
    → ((i : ℕ) → i < k → Silent (attempts i))
    → ((a : App) → a.recv_ack ≡ false → Notified (attempts k).wakes ((attempts k).others a))
    → l.app.recv_ack ≡ false
    → let m = send_rounds n send_repeat msg attempts l in
      (m.sent ≡ replicate (suc k) msg ++ l.sent) × (m.app.recv_ack ≡ false)
unfolding send_rounds clear_ack attempt snd
send_rounds-acked k zero send_repeat msg attempts l below total silent notified no_ack =
    absurd (omega arith)
send_rounds-acked zero (suc n) send_repeat msg attempts l below total silent notified no_ack =
    send_rounds-once n send_repeat msg attempts l (notified l.app no_ack)
send_rounds-acked (suc k) (suc n) send_repeat msg attempts l below total silent notified no_ack =
    let u = attempt-Silent msg (attempts 0) l (silent 0 (omega arith)) no_ack in
    let m = (attempt msg (attempts 0) l).0 in
    let more : leb 3 (send_repeat + 1) ≡ false = ground arith in
    let rest =
      send_rounds-acked k n (send_repeat + 1) msg (λ i. attempts (suc i)) m (omega arith)
        (omega arith) (λ i lt. silent (suc i) (omega arith)) notified u.0 in
    rw (u.1, more) (rest.0 ∙ replicate-snoc (suc k) msg l.sent, rest.1)

-- Whatever happens, a message is sent at least once and at most three times.
pub send_rounds-bounded :
    (n send_repeat : ℕ) (msg : Bytes) (attempts : ℕ → Attempt) (l : Link)
    → (k : ℕ) × (k ≤ n)
      × ((send_rounds n send_repeat msg attempts l).sent ≡ replicate k msg ++ l.sent)
unfolding send_rounds
send_rounds-bounded zero send_repeat msg attempts l = (0, omega arith, refl)
send_rounds-bounded (suc n) send_repeat msg attempts l =
    let m = (attempt msg (attempts 0) l).0 in
    let (k, le, e) = send_rounds-bounded n (send_repeat + 1) msg (λ i. attempts (suc i)) m in
    elim (Bool-cases ((attempt msg (attempts 0) l).1 == 0)) [
      | inl acked ↦ (1, omega arith, rw acked (attempt-sent msg (attempts 0) l))
      | inr again ↦ elim (Bool-cases (leb 3 (send_repeat + 1))) [
        | inl last ↦ (1, omega arith, rw (again, last) (attempt-sent msg (attempts 0) l))
        | inr more ↦ (
          suc k,
          omega arith,
          rw (again, more)
              (e
                ∙ ap (◌++◌ (replicate k msg)) (attempt-sent msg (attempts 0) l)
                ∙ replicate-snoc k msg l.sent),
        )
      ]
    ]
