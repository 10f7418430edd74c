-- ===== src/Camera/Encode/Picks.antt =====
-- Which frames of the camera become photos.
use sanbao_prot.Base.{
  ℕ, ◌+◌, ◌%◌, ◌≤◌, ◌<◌, ◌≡◌, ◌≢◌, ltb, refl, sym, subst, ◌∙◌, Bool, true, false, not, List, [],
  ◌∷◌, ◌==◌, ◌&&◌, ◌||◌, if◌then◌else◌, arith, Bool-cases, inl, inr,
}
use sanbao_prot.Camera.Encode.{
  Raw, invalid, exhausted, numbered, Photo, Encoder, Round, encode_round, encode_frame,
  encode_ring_buf_write, encode_jpeg,
}

-- How many photos there are of a frame.
abbrev pub count : ℕ → List Photo → ℕ
count k [] = 0
count k (p ∷ ps) = (if p.source == k then 1 else 0) + count k ps

-- Whether a frame is seen.
abbrev pub shows : ℕ → Raw → Bool
shows k invalid = false
shows k exhausted = false
shows k (numbered n) = n == k

abbrev pub seen : ℕ → List Round → Bool
seen k [] = false
seen k (r ∷ rs) = shows k r.raw || seen k rs

-- The camera counts its frames up, from the last one, and there is room for photos.
abbrev pub Ascends : ℕ → Raw → Type 0
Ascends old invalid = Unit
Ascends old exhausted = Unit
Ascends old (numbered n) = old ≤ n

abbrev pub last_frame : ℕ → Raw → ℕ
last_frame old invalid = old
last_frame old exhausted = old
last_frame old (numbered n) = n

abbrev pub Ascending : ℕ → List Round → Type 0
Ascending old [] = Unit
Ascending old (r ∷ rs) =
    Ascends old r.raw × (r.room ≡ (true, true)) × Ascending (last_frame old r.raw) rs

-- What a round does to the photos of a frame.
round-count :
    (k : ℕ) (raw : Raw) (e : Encoder)
    → Ascends e.framecnt_old raw
    → let e' = encode_round (record { raw = raw; room = (true, true) }) e in
      (e'.framecnt_old ≡ last_frame e.framecnt_old raw)
      × (count k e'.photos
          ≡ (if shows k raw && not (k == e.framecnt_old) && not (k % 3 == 0) then 2 else 0)
            + count k e.photos)
unfolding encode_round encode_frame encode_ring_buf_write
round-count k invalid e h = (refl, omega arith)
round-count k exhausted e h = (refl, omega arith)
round-count k (numbered n) e h = elim (Bool-cases (n == e.framecnt_old)) [
  | inl same ↦ rw same (ground arith, ground arith)
  | inr new ↦ elim (Bool-cases (n % 3 == 0)) [
    | inl third ↦ rw (new, third) (refl, ground arith)
    | inr picked ↦
        rw (new, picked)
          (
            refl,
            elim (Bool-cases (n == k)) [
              | inl it ↦ rw it (ground arith)
              | inr other ↦ rw other (omega arith)
            ],
          )
  ]
]

abbrev Rounds : ℕ → Raw → Bool × Bool → Encoder → Type 0
Rounds k raw room e =
    let e' = encode_round (record { raw = raw; room = room }) e in
    (e'.framecnt_old ≡ last_frame e.framecnt_old raw)
    × (count k e'.photos
        ≡ (if shows k raw && not (k == e.framecnt_old) && not (k % 3 == 0) then 2 else 0)
          + count k e.photos)

with_room :
    (k : ℕ) (r : Round) (e : Encoder)
    → Ascends e.framecnt_old r.raw
    → r.room ≡ (true, true)
    → Rounds k r.raw r.room e
with_room k r e a room = subst (λ m. Rounds k r.raw m e) (sym room) (round-count k r.raw e a)

last_frame_ge : (old : ℕ) (raw : Raw) → Ascends old raw → old ≤ last_frame old raw
last_frame_ge old invalid a = omega arith
last_frame_ge old exhausted a = omega arith
last_frame_ge old (numbered n) a = a

-- What a round shows is the last frame or below what it was before.
shows-last : (k old : ℕ) (raw : Raw) → old < k → shows k raw ≡ true → last_frame old raw ≡ k
shows-last k old invalid new h = ground arith
shows-last k old exhausted new h = ground arith
shows-last k old (numbered n) new h = ground arith

hidden-last : (k old : ℕ) (raw : Raw) → old < k → shows k raw ≡ false → last_frame old raw ≢ k
hidden-last k old invalid new h = λ e. omega (arith, e)
hidden-last k old exhausted new h = λ e. omega (arith, e)
hidden-last k old (numbered n) new h = λ e. ground (arith, e)

shows-old :
    (k old : ℕ) (raw : Raw) → Ascends old raw → k ≤ old → (shows k raw && not (k == old)) ≡ false
shows-old k old invalid a le = refl
shows-old k old exhausted a le = refl
shows-old k old (numbered n) a le = ground arith

-- A frame that was passed gets no photo any more, and is not seen once another is.
count-passed :
    (k : ℕ) (rs : List Round) (e : Encoder)
    → Ascending e.framecnt_old rs
    → k ≤ e.framecnt_old
    → count k (encode_jpeg rs e).photos ≡ count k e.photos
unfolding encode_jpeg
count-passed k [] e h le = refl
count-passed k (r ∷ rs) e (a, room, h) le =
    let (last, now) = with_room k r e a room in
    let h' = subst (λ n. Ascending n rs) (sym last) h in
    count-passed k rs (encode_round r e) h'
      (omega (arith, last, le, last_frame_ge e.framecnt_old r.raw a))
    ∙ now
    ∙ rw (shows-old k e.framecnt_old r.raw a le) (omega arith)

seen_below : (k old : ℕ) (rs : List Round) → Ascending old rs → k < old → seen k rs ≡ false
seen_below k old [] h below = refl
seen_below k old (r ∷ rs) (a, _, h) below =
    let rest =
      seen_below k (last_frame old r.raw) rs h (omega (arith, below, last_frame_ge old r.raw a)) in
    rw rest (not_shown k old r.raw a below)
  where
    not_shown : (k old : ℕ) (raw : Raw) → Ascends old raw → k < old → (shows k raw || false) ≡ false
    not_shown k old invalid a below = refl
    not_shown k old exhausted a below = refl
    not_shown k old (numbered n) a below = ground arith

-- When the camera counts its frames up and there is room in the ring buffer, each frame behind the
-- last one that was seen before becomes two photos if it is seen and its number is no multiple of 3,
-- however often it is seen, and none otherwise.
pub encode_jpeg-count :
    (k : ℕ) (rs : List Round) (e : Encoder)
    → Ascending e.framecnt_old rs
    → e.framecnt_old < k
    → count k (encode_jpeg rs e).photos
      ≡ (if seen k rs && not (k % 3 == 0) then 2 else 0) + count k e.photos
unfolding encode_jpeg
encode_jpeg-count k [] e h new = omega arith
encode_jpeg-count k (r ∷ rs) e (a, room, h) new =
    let (last, now) = with_room k r e a room in
    let h' = subst (λ n. Ascending n rs) (sym last) h in
    let unlike : (k == e.framecnt_old) ≡ false = ground arith in
    let last_now = last_frame e.framecnt_old r.raw in
    elim (Bool-cases (shows k r.raw)) [
      | inl shown ↦
          count-passed k rs (encode_round r e) h'
            (omega (arith, last, shows-last k e.framecnt_old r.raw new shown))
          ∙ now
          ∙ rw (shown, unlike) refl
      | inr hidden ↦
          let same : count k (encode_round r e).photos ≡ count k e.photos =
            now ∙ rw hidden (omega arith) in
          elim (Bool-cases (ltb last_now k)) [
            | inl ahead ↦
                let before : last_now < k = ground arith in
                encode_jpeg-count k rs (encode_round r e) h' (omega (arith, last, before))
                ∙ rw (hidden, same) refl
            | inr passed ↦
                let at : last_now ≢ k = hidden-last k e.framecnt_old r.raw new hidden in
                let behind : k < last_now = ground arith in
                count-passed k rs (encode_round r e) h' (omega (arith, last, behind))
                ∙ same
                ∙ rw (hidden, seen_below k last_now rs h behind) (omega arith)
          ]
    ]
