-- ===== src/Setting/Swap.antt =====
-- The 16-bit fields of a request, from the byte order of the protocol to that of the program.
use sanbao_prot.Base.{
  ℕ, zero, suc, ◌+◌, ◌≤◌, ◌<◌, ◌≡◌, ◌≢◌, refl, sym, ap, ◌∙◌, false, inl, inr, ◌⊎◌, [], ◌∷◌, Bytes,
  IsByte, All, length, get_or, set, take, drop, length-set, get_or-set_self, get_or-set_ne, arith,
}
use sanbao_prot.Field.{Field, byte, word, get_field}
use sanbao_prot.Para.Copy.{adas_slot}
use sanbao_prot.Para.Words.{get_or-IsByte}
use sanbao_prot.Para.WriteAdas.{IsAdasField}
use sanbao_prot.Prot.{read_be16}
use sanbao_prot.Setting.{swap_word, swap_adas}

pub get_or-drop : (n i : ℕ) (xs : Bytes) → get_or (drop n xs) i 0 ≡ get_or xs (n + i) 0
get_or-drop zero i xs = ap (λ k. get_or xs k 0) (omega arith)
get_or-drop (suc n) i [] = refl
get_or-drop (suc n) i (x ∷ xs) =
    let next : suc (n + i) ≡ suc n + i = omega arith in
    get_or-drop n i xs ∙ ap (λ k. get_or (x ∷ xs) k 0) next

pub get_or-take : (n i : ℕ) (xs : Bytes) → i < n → get_or (take n xs) i 0 ≡ get_or xs i 0
get_or-take zero i xs h = elim h [ ]
get_or-take (suc n) i [] h = refl
get_or-take (suc n) zero (x ∷ xs) h = refl
get_or-take (suc n) (suc i) (x ∷ xs) h = get_or-take n i xs (omega arith)

All-set : (xs : Bytes) (i v : ℕ) → All IsByte xs → IsByte v → All IsByte (set xs i v)
All-set [] i v h b = tt
All-set (x ∷ xs) zero v (h, hs) b = (b, hs)
All-set (x ∷ xs) (suc i) v (h, hs) b = (h, All-set xs i v hs b)

pub All-take : (n : ℕ) (xs : Bytes) → All IsByte xs → All IsByte (take n xs)
All-take zero xs h = tt
All-take (suc n) [] h = tt
All-take (suc n) (x ∷ xs) (h, hs) = (h, All-take n xs hs)

pub All-drop : (n : ℕ) (xs : Bytes) → All IsByte xs → All IsByte (drop n xs)
All-drop zero xs h = h
All-drop (suc n) [] h = tt
All-drop (suc n) (x ∷ xs) (h, hs) = All-drop n xs hs

pub swap_word-IsByte : (i : ℕ) (p : Bytes) → All IsByte p → All IsByte (swap_word i p)
unfolding swap_word
swap_word-IsByte i p h =
    All-set (set p i (get_or p (i + 1) 0)) (i + 1) (get_or p i 0)
      (All-set p i (get_or p (i + 1) 0) h (get_or-IsByte p (i + 1) h)) (get_or-IsByte p i h)

length-swap_word : (i : ℕ) (p : Bytes) → length (swap_word i p) ≡ length p
unfolding swap_word
length-swap_word i p =
    length-set (set p i (get_or p (i + 1) 0)) (i + 1) (get_or p i 0)
    ∙ length-set p i (get_or p (i + 1) 0)

swap_word_ne : (i k : ℕ) (p : Bytes) → k ≢ i → k ≢ i + 1 → get_or (swap_word i p) k 0 ≡ get_or p k 0
unfolding swap_word
swap_word_ne i k p h g =
    get_or-set_ne (set p i (get_or p (i + 1) 0)) (i + 1) k (get_or p i 0) 0 (λ e. g (sym e))
    ∙ get_or-set_ne p i k (get_or p (i + 1) 0) 0 (λ e. h (sym e))

-- A 16-bit field that came with its high byte first has its value behind the swap.
swap_word_lem :
    (i : ℕ) (p : Bytes) → i + 2 ≤ length p → get_field (swap_word i p) (word i) ≡ read_be16 p i
unfolding swap_word get_field read_be16
swap_word_lem i p h =
    let q = set p i (get_or p (i + 1) 0) in
    omega (
      arith,
      get_or-set_ne q (i + 1) i (get_or p i 0) 0 (λ e. omega (arith, e)),
      get_or-set_self p i (get_or p (i + 1) 0) 0 (omega arith),
      get_or-set_self q (i + 1) (get_or p i 0) 0
          (omega (arith, length-set p i (get_or p (i + 1) 0))),
    )

free_slot : (i : ℕ) → adas_slot i ≡ false → (i < 3) ⊎ (7 ≤ i)
free_slot i h = ground arith

-- The value of a field in a message's bytes, with the high byte first.
abbrev pub sent : Bytes → ℕ → Field → ℕ
sent msg at (byte i) = get_or msg (at + i) 0
sent msg at (word i) = read_be16 msg (at + i)

swap_adas-time : (p : Bytes) → length p ≡ 50 → get_field (swap_adas p) (word 3) ≡ read_be16 p 3
unfolding swap_adas get_field read_be16
swap_adas-time p size =
    let q = swap_word 3 p in
    omega (
      arith,
      swap_word_ne 5 3 q (λ e. omega (arith, e)) (λ e. omega (arith, e)),
      swap_word_ne 5 4 q (λ e. omega (arith, e)) (λ e. omega (arith, e)),
      swap_word_lem 3 p (omega arith),
    )

swap_adas-distance : (p : Bytes) → length p ≡ 50 → get_field (swap_adas p) (word 5) ≡ read_be16 p 5
unfolding swap_adas get_field read_be16
swap_adas-distance p size = omega (
  arith,
  swap_word_ne 3 5 p (λ e. omega (arith, e)) (λ e. omega (arith, e)),
  swap_word_ne 3 6 p (λ e. omega (arith, e)) (λ e. omega (arith, e)),
  swap_word_lem 5 (swap_word 3 p) (omega (arith, length-swap_word 3 p)),
)

pub get_field-swap_adas :
    (p : Bytes) (f : Field) → length p ≡ 50 → IsAdasField f → get_field (swap_adas p) f ≡ sent p 0 f
unfolding swap_adas get_field read_be16
get_field-swap_adas p (byte i) size (h, free) =
    let q = swap_word 3 p in
    let out = free_slot i free in
    swap_word_ne 5 i q (λ e. omega (arith, e, out)) (λ e. omega (arith, e, out))
    ∙ swap_word_ne 3 i p (λ e. omega (arith, e, out)) (λ e. omega (arith, e, out))
    ∙ ap (λ k. get_or p k 0) (omega arith)
get_field-swap_adas p (word i) size (inl e) =
    let place : 3 ≡ 0 + i = omega (arith, e) in
    ap (λ k. get_field (swap_adas p) (word k)) e ∙ swap_adas-time p size ∙ ap (read_be16 p) place
get_field-swap_adas p (word i) size (inr e) =
    let place : 5 ≡ 0 + i = omega (arith, e) in
    ap (λ k. get_field (swap_adas p) (word k)) e
    ∙ swap_adas-distance p size
    ∙ ap (read_be16 p) place
