-- ===== src/Files/Names.antt =====
-- The id is read back from the name of a media file.
use sanbao_prot.Base.{
  ℕ, zero, suc, ◌+◌, ◌*◌, ◌/◌, ◌%◌, ◌^◌, ◌<◌, ◌≡◌, refl, sym, ap, ◌∙◌, [], ◌∷◌, ◌++◌, append_assoc,
  append-nil, Bytes, arith, true, false,
}
use sanbao_prot.Files.{
  digits, mmid_to_filename, read_digits, read_signed, skip_spaces, is_digit, get_file_id, to_u32,
  strtol,
}

read_digit :
    (d n : ℕ) (s : Bytes) → d < 10 → read_digits ((48 + d) ∷ s) n ≡ read_digits s (n * 10 + d)
read_digit d n s h = ground arith

-- The number that the last `k` digits of `n` make behind `m`.
abbrev value : ℕ → ℕ → ℕ → ℕ
value zero n m = m
value (suc k) n m = value k (n / 10) m * 10 + n % 10

read_digits-digits :
    (k n m : ℕ) (s : Bytes) → read_digits (digits k n ++ s) m ≡ read_digits s (value k n m)
read_digits-digits zero n m s = refl
read_digits-digits (suc k) n m s =
    ap (λ t. read_digits t m) (append_assoc (digits k (n / 10)) ((48 + n % 10) ∷ []) s)
    ∙ read_digits-digits k (n / 10) m ((48 + n % 10) ∷ s)
    ∙ read_digit (n % 10) (value k (n / 10) m) s (omega arith)

abbrev ten_to : ℕ → ℕ
ten_to zero = 1
ten_to (suc k) = 10 * ten_to k

value-eq : (k n : ℕ) → n < ten_to k → value k n 0 ≡ n
value-eq zero n h = omega arith
value-eq (suc k) n h = omega (arith, value-eq k (n / 10) (omega arith))

-- A name of digits is read as its digits, without a sign.
abbrev pub Starts : Bytes → Type 0
Starts [] = ⊥
Starts (c ∷ s) = is_digit c ≡ true

Starts-append : (s t : Bytes) → Starts s → Starts (s ++ t)
Starts-append [] t h = absurd h
Starts-append (c ∷ s) t h = h

pub digits-Starts : (k n : ℕ) → Starts (digits (suc k) n)
digits-Starts zero n = ground arith
digits-Starts (suc k) n = Starts-append (digits (suc k) (n / 10)) _ (digits-Starts k (n / 10))

strtol-Starts : (s : Bytes) → Starts s → read_signed (skip_spaces s) ≡ (false, read_digits s 0)
strtol-Starts [] h = absurd h
strtol-Starts (c ∷ s) h = ground arith

pub strtol_small :
    (s : Bytes) (n : ℕ) → Starts s → read_digits s 0 ≡ n → n < 2 ^ 32 → get_file_id s ≡ n
unfolding get_file_id strtol to_u32
strtol_small s n start e small = rw (strtol-Starts s start, e) (ground arith)

-- The id of a media file, any number of 32 bits, is read back from the file's name.
pub get_file_id-mmid_to_filename : (id : ℕ) → id < 2 ^ 32 → get_file_id (mmid_to_filename id) ≡ id
unfolding mmid_to_filename
get_file_id-mmid_to_filename id small =
    strtol_small (digits 10 id) id (digits-Starts 9 id)
      (ap (λ s. read_digits s 0) (sym (append-nil (digits 10 id)))
        ∙ read_digits-digits 10 id 0 []
        ∙ value-eq 10 id (omega arith))
      small
