-- ===== src/Para/Words.antt =====
-- The 16-bit assignments of `write_dev_para`, and what a merge means for a field.
use native.Mathlib.Nat.{le_trans}
use sanbao_prot.Base.{
  ℕ, zero, suc, ◌+◌, ◌-◌, ◌≤◌, ◌<◌, ◌≡◌, ◌⊎◌, inl, inr, [], ◌∷◌, Bytes, length, get_or, IsByte, All,
  ◌==◌, if◌then◌else◌, arith,
}
use sanbao_prot.Field.Laws.{
  length-set_field, get_field-set_field_self, get_or-set_field, get_field-ext,
}
use sanbao_prot.Field.{Field, byte, word, get_field, start, end, limit}
use sanbao_prot.Para.{keep_word}

-- All ones in a new field means: keep the old value.
abbrev pub merged_field : Bytes → Bytes → Field → ℕ
merged_field inn old f = if get_field inn f == limit f - 1 then get_field old f else get_field inn f

pub get_or-IsByte : (b : Bytes) (i : ℕ) → All IsByte b → IsByte (get_or b i 0)
get_or-IsByte [] i h = omega arith
get_or-IsByte (x ∷ b) zero (h, hs) = h
get_or-IsByte (x ∷ b) (suc i) (h, hs) = get_or-IsByte b i hs

pub get_field-limit : (b : Bytes) (f : Field) → All IsByte b → get_field b f < limit f
unfolding get_field
get_field-limit b (byte i) h = get_or-IsByte b i h
get_field-limit b (word i) h = omega (arith, get_or-IsByte b i h, get_or-IsByte b (i + 1) h)

pub length-keep_word : (f : Field) (inn out : Bytes) → length (keep_word f inn out) ≡ length out
unfolding keep_word
length-keep_word f inn out = ground (arith, length-set_field out f (get_field inn f))

pub get_or-keep_word :
    (f : Field) (inn out : Bytes) (k : ℕ)
    → (k < start f) ⊎ (end f ≤ k)
    → get_or (keep_word f inn out) k 0 ≡ get_or out k 0
unfolding keep_word
get_or-keep_word f inn out k h = ground (arith, get_or-set_field out f (get_field inn f) k h)

pub get_field-keep_word_self :
    (i : ℕ) (inn out : Bytes)
    → i + 2 ≤ length out
    → All IsByte inn
    → get_field (keep_word (word i) inn out) (word i) ≡ merged_field inn out (word i)
unfolding keep_word
get_field-keep_word_self i inn out h b =
    let small = get_field-limit inn (word i) b in
    ground (arith, get_field-set_field_self out (word i) (get_field inn (word i)) h small)

pub get_field-keep_word_ne :
    (f g : Field) (inn out : Bytes)
    → (end g ≤ start f) ⊎ (end f ≤ start g)
    → get_field (keep_word f inn out) g ≡ get_field out g
get_field-keep_word_ne f g inn out h =
    get_field-ext (keep_word f inn out) out g
      (λ k lo hi. get_or-keep_word f inn out k (apart k lo hi))
  where
    apart : (k : ℕ) → start g ≤ k → k < end g → (k < start f) ⊎ (end f ≤ k)
    apart k lo hi = elim h [ inl a ↦ inl (le_trans hi a) | inr a ↦ inr (le_trans a lo) ]
