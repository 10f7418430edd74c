-- ===== src/Para/WriteAdas.antt =====
-- What `write_dev_para` leaves in each field of the ADAS parameters.
use sanbao_prot.Base.{
  ℕ, ◌-◌, ◌≤◌, ◌<◌, ◌≡◌, ◌≢◌, sym, ap, ◌∙◌, ◌⊎◌, inl, inr, false, Bytes, length, get_or, IsByte,
  All, subst, eqb_ne, if◌then◌else◌, arith,
}
use sanbao_prot.Field.Laws.{
  get_field-ext, corrected, corrected_bounds, In, Follow, get_field-check_rules, In-Follow, All-In,
  length-check_rules, corrected_fallback,
}
use sanbao_prot.Field.{Field, byte, word, get_field, limit, Rule}
use sanbao_prot.Para.Adas
use sanbao_prot.Para.Copy.{merged, adas_slot, length-copy_loop, get_or-copy_loop, adas_jumps}
use sanbao_prot.Para.Words.{
  merged_field, length-keep_word, get_or-keep_word, get_field-keep_word_self,
  get_field-keep_word_ne,
}
use sanbao_prot.Para.{
  Paras, adas_para_check, keep_word, adas_skip, merge_adas, write_dev_para, adas_default,
  set_adas_para_setting_default,
}
use sanbao_prot.Prot.{id_adas}

-- The fields: single bytes outside the 16-bit slots, and the slots.
abbrev pub IsAdasField : Field → Type 0
IsAdasField (byte i) = (i < 50) × (adas_slot i ≡ false)
IsAdasField (word i) = (i ≡ 3) ⊎ (i ≡ 5)

-- The words of `old` with the new ones over them.
abbrev adas_words : Bytes → Bytes → Bytes
adas_words inn old = keep_word (word 5) inn (keep_word (word 3) inn old)

length-adas_words : (inn old : Bytes) → length (adas_words inn old) ≡ length old
length-adas_words inn old =
    length-keep_word (word 5) inn (keep_word (word 3) inn old) ∙ length-keep_word (word 3) inn old

module _ (inn old : Bytes) (size : length old ≡ 50) (bytes : All IsByte inn) where
  get_or-merge_adas :
      (k : ℕ)
      → k < 50
      → get_or (merge_adas inn old) k 0 ≡ (
          if adas_slot k
          then get_or (adas_words inn old) k 0
          else merged inn (adas_words inn old) k)
  unfolding merge_adas
  get_or-merge_adas k h =
      get_or-copy_loop adas_jumps 50 50 0 k inn (adas_words inn old) (inl (omega arith))
        (omega arith) h (length-adas_words inn old ∙ size)
      ∙ ground arith

  get_or-adas_words :
      (k : ℕ) → adas_slot k ≡ false → get_or (adas_words inn old) k 0 ≡ get_or old k 0
  get_or-adas_words k h =
      get_or-keep_word (word 5) inn (keep_word (word 3) inn old) k (ground arith)
      ∙ get_or-keep_word (word 3) inn old k (ground arith)

  get_field-merge_adas_slot :
      (i : ℕ)
      → 3 ≤ i
      → i < 6
      → get_field (merge_adas inn old) (word i) ≡ get_field (adas_words inn old) (word i)
  get_field-merge_adas_slot i lo hi =
      get_field-ext _ _ (word i) (λ k a b. get_or-merge_adas k (omega arith) ∙ ground arith)

  get_field-merge_adas_byte :
      (i : ℕ)
      → i < 50
      → adas_slot i ≡ false
      → get_field (merge_adas inn old) (byte i) ≡ merged_field inn old (byte i)
  unfolding get_field
  get_field-merge_adas_byte i h free =
      get_or-merge_adas i h ∙ ground (arith, get_or-adas_words i free)

  get_field-merge_adas_time :
      get_field (merge_adas inn old) (word 3) ≡ merged_field inn old (word 3)
  get_field-merge_adas_time =
      get_field-merge_adas_slot 3 (omega arith) (omega arith)
      ∙ get_field-keep_word_ne (word 5) (word 3) inn (keep_word (word 3) inn old)
          (inl (omega arith))
      ∙ get_field-keep_word_self 3 inn old (omega arith) bytes

  get_field-merge_adas_distance :
      get_field (merge_adas inn old) (word 5) ≡ merged_field inn old (word 5)
  get_field-merge_adas_distance =
      let first = keep_word (word 3) inn old in
      get_field-merge_adas_slot 5 (omega arith) (omega arith)
      ∙ get_field-keep_word_self 5 inn first (omega (arith, length-keep_word (word 3) inn old))
          bytes
      ∙ ground (arith, get_field-keep_word_ne (word 3) (word 5) inn old (inr (omega arith)))

  pub get_field-merge_adas :
      (f : Field) → IsAdasField f → get_field (merge_adas inn old) f ≡ merged_field inn old f
  get_field-merge_adas (byte i) (h, free) = get_field-merge_adas_byte i h free
  get_field-merge_adas (word i) (inl e) =
      subst (λ j. get_field (merge_adas inn old) (word j) ≡ merged_field inn old (word j)) (sym e)
        get_field-merge_adas_time
  get_field-merge_adas (word i) (inr e) =
      subst (λ j. get_field (merge_adas inn old) (word j) ≡ merged_field inn old (word j)) (sym e)
        get_field-merge_adas_distance

  length-merge_adas : length (merge_adas inn old) ≡ 50
  unfolding merge_adas
  length-merge_adas =
      length-copy_loop adas_skip 50 0 50 inn (adas_words inn old) ∙ length-adas_words inn old ∙ size

rules-Follow : Follow 50 0 Adas.rules
rules-Follow = omega arith

pub rules-IsAdasField : {r : Rule} → In r Adas.rules → IsAdasField r.field
rules-IsAdasField m = All-In (λ r. IsAdasField r.field) m (ground arith)

-- A checked field of the ADAS parameters takes the value received, or keeps its own where the value is all
-- ones, and then has its check's fallback if that is out of range.
pub write_dev_para-adas :
    {r : Rule}
    → In r Adas.rules
    → (inn : Bytes) (s : Paras) → length s.adas_para ≡ 50
    → All IsByte inn
    → get_field (write_dev_para id_adas inn s).adas_para r.field
      ≡ corrected r (merged_field inn s.adas_para r.field)
unfolding write_dev_para adas_para_check
write_dev_para-adas {r} m inn s size bytes =
    let len = length-merge_adas inn s.adas_para size bytes in
    get_field-check_rules m (merge_adas inn s.adas_para) 0 (rw len rules-Follow)
    ∙ ap (corrected r)
        (get_field-merge_adas inn s.adas_para size bytes r.field (rules-IsAdasField m))

-- Whatever bytes are received, every checked field of the ADAS parameters, a block of 50 bytes, is
-- in its range afterwards.
pub write_dev_para-adas_bounds :
    {r : Rule}
    → In r Adas.rules
    → (inn : Bytes) (s : Paras) → length s.adas_para ≡ 50
    → All IsByte inn
    → let v = get_field (write_dev_para id_adas inn s).adas_para r.field in (r.lo ≤ v) × (v ≤ r.hi)
write_dev_para-adas_bounds {r} m inn s size bytes =
    rw (write_dev_para-adas m inn s size bytes) (
      corrected_bounds 50 r (merged_field inn s.adas_para r.field)
        (In-Follow m 50 0 rules-Follow).1)

abbrev IsDefault : Rule → Type 0
IsDefault r = (get_field adas_default r.field ≡ r.fallback) × (r.fallback ≢ limit r.field - 1)

rules-IsDefault : All IsDefault Adas.rules
unfolding adas_default get_field
rules-IsDefault = ground arith

adas_default-IsByte : All IsByte adas_default
unfolding adas_default
adas_default-IsByte = omega arith

merged_field_default :
    (r : Rule) (old : Bytes) → IsDefault r → merged_field adas_default old r.field ≡ r.fallback
merged_field_default r old (e, ne) = rw e (rw (eqb_ne r.fallback (limit r.field - 1) ne))

-- A factory reset gives every checked field the value that its check falls back to, whatever the
-- parameters were.
pub set_adas_para_setting_default-fallback :
    {r : Rule}
    → In r Adas.rules
    → (s : Paras) → length s.adas_para ≡ 50
    → get_field (set_adas_para_setting_default s).adas_para r.field ≡ r.fallback
unfolding set_adas_para_setting_default
set_adas_para_setting_default-fallback {r} m s size =
    write_dev_para-adas m adas_default s size adas_default-IsByte
    ∙ ap (corrected r) (merged_field_default r s.adas_para (All-In IsDefault m rules-IsDefault))
    ∙ corrected_fallback 50 r (In-Follow m 50 0 rules-Follow).1

-- A write keeps the size of the ADAS parameters.
pub length-write_dev_para :
    (inn : Bytes) (s : Paras)
    → length s.adas_para ≡ 50
    → length (write_dev_para id_adas inn s).adas_para ≡ 50
unfolding write_dev_para adas_para_check merge_adas
length-write_dev_para inn s size =
    length-check_rules Adas.rules (merge_adas inn s.adas_para)
    ∙ length-copy_loop adas_skip 50 0 50 inn (adas_words inn s.adas_para)
    ∙ length-adas_words inn s.adas_para
    ∙ size
