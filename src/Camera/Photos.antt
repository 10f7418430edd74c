-- ===== src/Camera/Photos.antt =====
-- The photos of an order.
use sanbao_prot.Base.{
  ℕ, zero, suc, ◌+◌, ◌≤◌, ◌<◌, ◌≡◌, ◌≢◌, refl, Bool, true, List, [], ◌∷◌, Option, none, some,
  length, ltb, Bool-cases, inl, inr, arith, eqb_ne, get_or,
}
use sanbao_prot.Camera.{Shooting, photo_interval, take_photo, photo_rounds, store_jpegs}
use sanbao_prot.Queue.{InfoForStore}

-- The latest photo before `t` is more than the interval before it; the first one is more than the
-- interval after 0.
abbrev pub After : ℕ → ℕ → List (ℕ × ℕ) → Type 0
After interval t [] = interval < t
After interval t ((id, u) ∷ photos) = u + interval < t

abbrev pub Spaced : ℕ → List (ℕ × ℕ) → Type 0
Spaced interval [] = Unit
Spaced interval ((id, t) ∷ photos) = After interval t photos × Spaced interval photos

-- The time of the latest photo.
abbrev latest : List (ℕ × ℕ) → ℕ
latest [] = 0
latest ((id, t) ∷ photos) = t

-- The photos so far are spaced and counted by the index, and `old_pts` is the time of the latest.
pub record IsShooting (mm : InfoForStore) (s : Shooting) : Type 0 where
  pub spaced : Spaced (photo_interval mm) s.photos
  pub counted : length s.photos ≡ s.jpeg_index
  pub last : s.old_pts ≡ latest s.photos

After-latest :
    (interval t : ℕ) (photos : List (ℕ × ℕ))
    → latest photos + interval < t
    → After interval t photos
After-latest interval t [] h = omega (arith, h)
After-latest interval t ((id, u) ∷ photos) h = h

take_photo-IsShooting :
    (mm : InfoForStore) (frame : Option ℕ) (s : Shooting)
    → IsShooting mm s
    → IsShooting mm (take_photo mm frame s)
unfolding take_photo
take_photo-IsShooting mm none s h = h
take_photo-IsShooting mm (some pts) s h =
    elim (Bool-cases (ltb (s.old_pts + photo_interval mm) pts)) [
      | inl far ↦
          let late : latest s.photos + photo_interval mm < pts = ground (arith, h.last) in
          rw far (record {
            spaced = (After-latest (photo_interval mm) pts s.photos late, h.spaced);
            counted = omega arith;
            last = refl;
          })
      | inr near ↦ rw near h
    ]

-- The times of the frames do not go back; rounds without a frame may stand anywhere.
abbrev pub Ascending : ℕ → List (Option ℕ) → Type 0
Ascending low [] = Unit
Ascending low (none ∷ frames) = Ascending low frames
Ascending low (some pts ∷ frames) = (low ≤ pts) × Ascending pts frames

-- So many of the frames, with any others in between, are each more than the interval behind the one
-- before, the first behind `old`.
pub data Offers (interval : ℕ) : ℕ → ℕ → List (Option ℕ) → Type 0 where
  enough : (old : ℕ) (frames : List (Option ℕ)) → Offers interval 0 old frames
  pass :
      {n old : ℕ} {frames : List (Option ℕ)} (frame : Option ℕ)
      → Offers interval n old frames
      → Offers interval n old (frame ∷ frames)
  pick :
      {n old : ℕ} {frames : List (Option ℕ)} (pts : ℕ)
      → old + interval < pts
      → Offers interval n pts frames
      → Offers interval (suc n) old (some pts ∷ frames)

-- An earlier start loses nothing.
Offers-earlier :
    {interval n old : ℕ} {frames : List (Option ℕ)} (low : ℕ)
    → low ≤ old
    → Offers interval n old frames
    → Offers interval n low frames
Offers-earlier low le (enough old frames) = enough low frames
Offers-earlier low le (pass frame o) = pass frame (Offers-earlier low le o)
Offers-earlier low le (pick pts late o) = pick pts (omega (arith, le, late)) o

-- Without the first of them, the others are behind any time that is not behind the frames.
Offers-rest :
    {interval n old : ℕ} {frames : List (Option ℕ)} (low : ℕ)
    → Offers interval (suc n) old frames
    → Ascending low frames
    → Offers interval n low frames
Offers-rest low (pass none o) asc = pass none (Offers-rest low o asc)
Offers-rest low (pass (some pts) o) (le, asc) =
    pass (some pts) (Offers-earlier low le (Offers-rest pts o asc))
Offers-rest low (pick pts late o) (le, asc) = pass (some pts) (Offers-earlier low le o)

Offers-taken :
    {interval n old : ℕ} {frames : List (Option ℕ)} (pts : ℕ)
    → Ascending pts frames
    → Offers interval (suc n) old (some pts ∷ frames)
    → Offers interval n pts frames
Offers-taken pts asc (pass frame o) = Offers-rest pts o asc
Offers-taken pts asc (pick _ late o) = o

Offers-passed :
    {interval n old : ℕ} {frames : List (Option ℕ)} (pts : ℕ)
    → pts ≤ old + interval
    → Offers interval n old (some pts ∷ frames)
    → Offers interval n old frames
Offers-passed pts near (enough old frames) = enough old _
Offers-passed pts near (pass frame o) = o
Offers-passed pts near (pick _ late o) = absurd (omega (arith, near, late))

Offers-none :
    {interval n old : ℕ} {frames : List (Option ℕ)}
    → Offers interval n old (none ∷ frames)
    → Offers interval n old frames
Offers-none (enough old frames) = enough old _
Offers-none (pass frame o) = o

-- The loop has ended, with the photos that the order asks for.
abbrev pub Complete : InfoForStore → Shooting × Bool → Type 0
Complete mm (s, ended) =
    (ended ≡ true) × (length s.photos ≡ mm.photo_num) × Spaced (photo_interval mm) s.photos

photo_rounds-Complete :
    (mm : InfoForStore) (frames : List (Option ℕ)) (s : Shooting) (n low : ℕ)
    → IsShooting mm s
    → Ascending low frames
    → Offers (photo_interval mm) n s.old_pts frames
    → s.jpeg_index < mm.photo_num
    → mm.photo_num ≤ s.jpeg_index + n
    → Complete mm (photo_rounds mm frames s)
unfolding photo_rounds take_photo
photo_rounds-Complete mm frames s zero low h asc o more covers =
    absurd (omega (arith, more, covers))
photo_rounds-Complete mm [] s (suc n) low h asc o more covers = elim o [ ]
photo_rounds-Complete mm (none ∷ frames) s (suc n) low h asc o more covers =
    let again : ltb s.jpeg_index mm.photo_num ≡ true = ground arith in
    rw again (photo_rounds-Complete mm frames s (suc n) low h asc (Offers-none o) more covers)
photo_rounds-Complete mm (some pts ∷ frames) s (suc n) low h (le, asc) o more covers =
    let shot = take_photo-IsShooting mm (some pts) s h in
    let t : Shooting = record {
      jpeg_index = s.jpeg_index + 1;
      old_pts = pts;
      photos = (get_or mm.photo_id s.jpeg_index 0, pts) ∷ s.photos;
    } in
    elim (Bool-cases (ltb (s.old_pts + photo_interval mm) pts)) [
      | inr near ↦
          let again : ltb s.jpeg_index mm.photo_num ≡ true = ground (arith, more) in
          let early : pts ≤ s.old_pts + photo_interval mm = ground (arith, near) in
          rw (near, again)
            (photo_rounds-Complete mm frames s (suc n) pts h asc (Offers-passed pts early o) more
              covers)
      | inl taken ↦
          let g : IsShooting mm t = rw taken at shot in
          elim (Bool-cases (ltb (s.jpeg_index + 1) mm.photo_num)) [
            | inl again ↦
                rw (taken, again)
                  (photo_rounds-Complete mm frames t n pts g asc (Offers-taken pts asc o)
                    (ground (arith, again)) (omega (arith, covers)))
            | inr last ↦
                let total : length t.photos ≡ mm.photo_num =
                  ground (arith, last, g.counted, more) in
                rw (taken, last) (refl, total, g.spaced)
          ]
    ]

-- For an order with photos enabled, one or more: when the times of the camera's frames do not go back,
-- and as many of the frames as the order asks for, with any others in between, are each more than the
-- order's interval behind the one before, the first behind 0, the loop of `store_jpegs` ends with
-- exactly that many photos, each more than the interval after the one before, whichever frames it
-- meets first.
pub store_jpegs-Complete :
    (mm : InfoForStore) (frames : List (Option ℕ))
    → mm.photo_enable ≢ 0
    → 1 ≤ mm.photo_num
    → Ascending 0 frames
    → Offers (photo_interval mm) mm.photo_num 0 frames
    → Complete mm (store_jpegs mm frames)
unfolding store_jpegs
store_jpegs-Complete mm frames on wanted asc offers =
    let start : Shooting = record { jpeg_index = 0; old_pts = 0; photos = [] } in
    rw (eqb_ne mm.photo_enable 0 on) (
      photo_rounds-Complete mm frames start mm.photo_num 0
        (record { spaced = tt; counted = refl; last = refl }) asc offers (omega (arith, wanted))
        (omega arith))
