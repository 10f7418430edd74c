-- ===== src/Client/Connects.antt =====
-- The thread of the websocket client, wsi.cpp: `ratelimit_connects` and the loop of
-- `pthread_websocket_client`.
use sanbao_prot.Base.{
  ℕ, ◌+◌, ◌%◌, ◌^◌, ◌≤◌, ◌<◌, ◌≡◌, Bool, true, false, not, List, [], ◌∷◌, Bytes, ltb, ◌&&◌,
  if◌then◌else◌, arith, Bool-cases, inl, inr,
}
use sanbao_prot.Client.Requests.{Requests, Reason, callbacks}
use sanbao_prot.Prot.{Device}

-- The new `*last`, of 32 bits, and whether an attempt may be made; `tv_sec - *last` is signed.
unfoldable pub ratelimit_connects : ℕ → ℕ → ℕ → ℕ × Bool
ratelimit_connects now secs last =
    if ltb now (last + secs) then (last, false) else (now % 2 ^ 32, true)

-- A round: the time, whether `lws_client_connect_via_info` makes a socket, and the callbacks that
-- `lws_service` calls.
pub record Round : Type 0 where
  pub now : ℕ
  pub made : Bool
  pub reasons : List Reason

-- `connects` is for statements: when it was tried to connect, the latest first.
pub record Client : Type 0 where
  pub requests : Requests
  pub rl_dumb : ℕ
  pub connects : List ℕ

module _ (msgpack : Bytes → Bytes) (d : Device) where
  unfoldable pub client_round : Round → Client → Client
  unfolding ratelimit_connects
  client_round r s =
      let (last, may) = ratelimit_connects r.now 2 s.rl_dumb in
      let q = s.requests in
      let tried : Client = record {
        requests = record q { wsi_dumb_null = not r.made };
        rl_dumb = last;
        connects = r.now ∷ s.connects;
      } in
      let t = if q.wsi_dumb_null && may then tried else s in
      record t { requests = callbacks msgpack d r.reasons t.requests }

  unfoldable pub pthread_websocket_client : List Round → Client → Client
  unfolding client_round
  pthread_websocket_client [] s = s
  pthread_websocket_client (r ∷ rs) s = pthread_websocket_client rs (client_round r s)

-- Each attempt is two seconds or more behind the one before.
abbrev pub Apart : ℕ → List ℕ → Type 0
Apart next [] = Unit
Apart next (t ∷ ts) = (t + 2 ≤ next) × Apart t ts

abbrev pub Spaced : List ℕ → Type 0
Spaced [] = Unit
Spaced (t ∷ ts) = Apart t ts

-- The clock's seconds are a number of 32 bits.
abbrev pub Small : List Round → Type 0
Small [] = Unit
Small (r ∷ rs) = (r.now < 2 ^ 32) × Small rs

Apart-mono : (ts : List ℕ) (n m : ℕ) → n ≤ m → Apart n ts → Apart m ts
Apart-mono [] n m le h = tt
Apart-mono (t ∷ ts) n m le (h, hs) = (omega arith, hs)

Apart-Spaced : (n : ℕ) (ts : List ℕ) → Apart n ts → Spaced ts
Apart-Spaced n [] h = tt
Apart-Spaced n (t ∷ ts) (h, hs) = hs

module _ (msgpack : Bytes → Bytes) (d : Device) where
  client_round-Apart :
      (r : Round) (s : Client)
      → r.now < 2 ^ 32
      → Apart (s.rl_dumb + 2) s.connects
      → let t = client_round msgpack d r s in Apart (t.rl_dumb + 2) t.connects
  unfolding client_round ratelimit_connects
  client_round-Apart r s small h = elim (Bool-cases (ltb r.now (s.rl_dumb + 2))) [
    | inl soon ↦ elim (Bool-cases s.requests.wsi_dumb_null) [
      | inl free ↦ rw (soon, free) h
      | inr used ↦ rw (soon, used) h
    ]
    | inr late ↦ elim (Bool-cases s.requests.wsi_dumb_null) [
      | inl free ↦
          let word : r.now % 2 ^ 32 ≡ r.now = omega (arith, small) in
          let over : s.rl_dumb + 2 ≤ r.now = ground arith in
          rw (late, free, word) (omega arith, Apart-mono s.connects (s.rl_dumb + 2) r.now over h)
      | inr used ↦ rw (late, used) h
    ]
  ]

  client-Apart :
      (rs : List Round) (s : Client)
      → Small rs
      → Apart (s.rl_dumb + 2) s.connects
      → let t = pthread_websocket_client msgpack d rs s in Apart (t.rl_dumb + 2) t.connects
  unfolding pthread_websocket_client
  client-Apart [] s small h = h
  client-Apart (r ∷ rs) s (now, small) h =
      client-Apart rs (client_round msgpack d r s) small (client_round-Apart r s now h)

  -- However often connections fail or end, two attempts to connect are two seconds or more apart, as
  -- long as the seconds of the clock fit in 32 bits.
  pub pthread_websocket_client-Spaced :
      (rs : List Round) (s : Client)
      → Small rs
      → s.connects ≡ []
      → Spaced (pthread_websocket_client msgpack d rs s).connects
  pthread_websocket_client-Spaced rs s small none_yet =
      Apart-Spaced _ _ (client-Apart rs s small (rw none_yet tt))
