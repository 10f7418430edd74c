-- ===== src/Tests/Cameras.antt =====
-- The media thread.
use sanbao_prot.Base.{ℕ, List, [], ◌∷◌, none, some, Option, arith}
use sanbao_prot.Camera.Photos.{Offers, pass, pick, enough, Complete, store_jpegs-Complete}
use sanbao_prot.Camera.{photo_interval, store_jpegs}
use sanbao_prot.Queue.{InfoForStore}
use sanbao_prot.Send.{blank_mm}

-- Two photos, half a second apart.
abbrev order : InfoForStore
order = record blank_mm {
  photo_enable = 1;
  photo_num = 2;
  photo_time_period = 5;
  photo_id = 7 ∷ 8 ∷ [];
}

abbrev frames : List (Option ℕ)
frames = none ∷ some 600000 ∷ some 700000 ∷ none ∷ some 1200000 ∷ []

-- The frames at 0.6 and 1.2 seconds are far enough apart, that at 0.7 is too early.
frames-Offers : Offers (photo_interval order) 2 0 frames
unfolding photo_interval
frames-Offers = pass none (
    pick 600000 (omega arith)
      (pass (some 700000) (pass none (pick 1200000 (omega arith) (enough 1200000 [])))))

store_jpegs-Complete_example : Complete order (store_jpegs order frames)
store_jpegs-Complete_example =
    store_jpegs-Complete order frames (λ e. omega (arith, e)) (omega arith)
      (omega arith, (omega arith, (omega arith, tt))) frames-Offers
