-- ===== src/Para/WriteDms.antt =====
-- What `write_dev_para` leaves in each field of the DMS parameters.
use sanbao_prot.Base.{
  ℕ, ◌+◌, ◌-◌, ◌<◌, ◌≡◌, ◌≢◌, refl, sym, ◌∙◌, ◌⊎◌, inl, inr, true, false, Bytes, length, get_or,
  IsByte, All, subst, eqb_ne, if◌then◌else◌, arith,
}
use sanbao_prot.Field.Laws.{In, All-In}
use sanbao_prot.Field.{Field, byte, word, get_field, limit, Rule}
use sanbao_prot.Para.Dms
use sanbao_prot.Para.Copy.{merged, dms_slot, get_or-copy_loop, dms_jumps}
use sanbao_prot.Para.Words.{
  merged_field, length-keep_word, get_or-keep_word, get_field-keep_word_self,
  get_field-keep_word_ne,
}
use sanbao_prot.Para.{Paras, keep_word, merge_dms, write_dev_para}
use sanbao_prot.Prot.{id_dms}

-- The fields: single bytes outside the 16-bit slots, and the slots.
abbrev pub IsDmsField : Field → Type 0
IsDmsField (byte i) = (i < 43) × (dms_slot i ≡ false)
IsDmsField (word i) = (i ≡ 3) ⊎ (i ≡ 5) ⊎ (i ≡ 21) ⊎ (i ≡ 23)

-- The first 1, 2, 3 and 4 of the 16-bit assignments.
abbrev words_a : Bytes → Bytes → Bytes
words_a inn old = keep_word (word 3) inn old

abbrev words_b : Bytes → Bytes → Bytes
words_b inn old = keep_word (word 5) inn (words_a inn old)

abbrev words_c : Bytes → Bytes → Bytes
words_c inn old = keep_word (word 21) inn (words_b inn old)

abbrev words_d : Bytes → Bytes → Bytes
words_d inn old = keep_word (word 23) inn (words_c inn old)

module _ (inn old : Bytes) (size : length old ≡ 43) (bytes : All IsByte inn) where
  size_a : length (words_a inn old) ≡ 43
  size_a = length-keep_word (word 3) inn old ∙ size

  size_b : length (words_b inn old) ≡ 43
  size_b = length-keep_word (word 5) inn (words_a inn old) ∙ size_a

  size_c : length (words_c inn old) ≡ 43
  size_c = length-keep_word (word 21) inn (words_b inn old) ∙ size_b

  size_d : length (words_d inn old) ≡ 43
  size_d = length-keep_word (word 23) inn (words_c inn old) ∙ size_c

  get_or-merge_dms :
      (k : ℕ)
      → k < 43
      → get_or (merge_dms inn old) k 0
        ≡ (if dms_slot k then get_or (words_d inn old) k 0 else merged inn (words_d inn old) k)
  unfolding merge_dms
  get_or-merge_dms k h =
      get_or-copy_loop dms_jumps 43 43 0 k inn (words_d inn old) (inl (omega arith)) (omega arith) h
        size_d
      ∙ ground arith

  get_or-words_d : (k : ℕ) → dms_slot k ≡ false → get_or (words_d inn old) k 0 ≡ get_or old k 0
  get_or-words_d k h =
      get_or-keep_word (word 23) inn (words_c inn old) k (ground arith)
      ∙ get_or-keep_word (word 21) inn (words_b inn old) k (ground arith)
      ∙ get_or-keep_word (word 5) inn (words_a inn old) k (ground arith)
      ∙ get_or-keep_word (word 3) inn old k (ground arith)

  get_field-merge_dms_byte :
      (i : ℕ)
      → i < 43
      → dms_slot i ≡ false
      → get_field (merge_dms inn old) (byte i) ≡ merged_field inn old (byte i)
  unfolding get_field
  get_field-merge_dms_byte i h free = get_or-merge_dms i h ∙ ground (arith, get_or-words_d i free)

  get_field-merge_dms_slot :
      (i : ℕ)
      → dms_slot i ≡ true
      → dms_slot (i + 1) ≡ true
      → i < 42
      → get_field (merge_dms inn old) (word i) ≡ get_field (words_d inn old) (word i)
  unfolding get_field
  get_field-merge_dms_slot i a b h =
      omega (arith, ground_cell i a (omega arith), ground_cell (i + 1) b (omega arith))
    where
      ground_cell :
          (k : ℕ)
          → dms_slot k ≡ true
          → k < 43
          → get_or (merge_dms inn old) k 0 ≡ get_or (words_d inn old) k 0
      ground_cell k s h = get_or-merge_dms k h ∙ ground arith

  abbrev Merges : ℕ → Type 0
  Merges i = get_field (merge_dms inn old) (word i) ≡ merged_field inn old (word i)

  merge_dms_time : Merges 3
  merge_dms_time =
      get_field-merge_dms_slot 3 refl refl (omega arith)
      ∙ get_field-keep_word_ne (word 23) (word 3) inn (words_c inn old) (inl (omega arith))
      ∙ get_field-keep_word_ne (word 21) (word 3) inn (words_b inn old) (inl (omega arith))
      ∙ get_field-keep_word_ne (word 5) (word 3) inn (words_a inn old) (inl (omega arith))
      ∙ get_field-keep_word_self 3 inn old (omega arith) bytes

  merge_dms_distance : Merges 5
  merge_dms_distance =
      get_field-merge_dms_slot 5 refl refl (omega arith)
      ∙ get_field-keep_word_ne (word 23) (word 5) inn (words_c inn old) (inl (omega arith))
      ∙ get_field-keep_word_ne (word 21) (word 5) inn (words_b inn old) (inl (omega arith))
      ∙ get_field-keep_word_self 5 inn (words_a inn old) (omega (arith, size_a)) bytes
      ∙ ground (arith, get_field-keep_word_ne (word 3) (word 5) inn old (inr (omega arith)))

  merge_dms_smoke : Merges 21
  merge_dms_smoke =
      get_field-merge_dms_slot 21 refl refl (omega arith)
      ∙ get_field-keep_word_ne (word 23) (word 21) inn (words_c inn old) (inl (omega arith))
      ∙ get_field-keep_word_self 21 inn (words_b inn old) (omega (arith, size_b)) bytes
      ∙ ground (
        arith,
        get_field-keep_word_ne (word 5) (word 21) inn (words_a inn old) (inr (omega arith)),
        get_field-keep_word_ne (word 3) (word 21) inn old (inr (omega arith)),
      )

  merge_dms_call : Merges 23
  merge_dms_call =
      get_field-merge_dms_slot 23 refl refl (omega arith)
      ∙ get_field-keep_word_self 23 inn (words_c inn old) (omega (arith, size_c)) bytes
      ∙ ground (
        arith,
        get_field-keep_word_ne (word 21) (word 23) inn (words_b inn old) (inr (omega arith)),
        get_field-keep_word_ne (word 5) (word 23) inn (words_a inn old) (inr (omega arith)),
        get_field-keep_word_ne (word 3) (word 23) inn old (inr (omega arith)),
      )

  get_field-merge_dms :
      (f : Field) → IsDmsField f → get_field (merge_dms inn old) f ≡ merged_field inn old f
  get_field-merge_dms (byte i) (h, free) = get_field-merge_dms_byte i h free
  get_field-merge_dms (word i) (inl e) = subst Merges (sym e) merge_dms_time
  get_field-merge_dms (word i) (inr (inl e)) = subst Merges (sym e) merge_dms_distance
  get_field-merge_dms (word i) (inr (inr (inl e))) = subst Merges (sym e) merge_dms_smoke
  get_field-merge_dms (word i) (inr (inr (inr e))) = subst Merges (sym e) merge_dms_call

-- A field of the DMS parameters takes the value received, or keeps its own where the value is all
-- ones.
pub write_dev_para-dms :
    (f : Field)
    → IsDmsField f
    → (inn : Bytes) (s : Paras) → length s.dms_para ≡ 43
    → All IsByte inn
    → get_field (write_dev_para id_dms inn s).dms_para f ≡ merged_field inn s.dms_para f
unfolding write_dev_para
write_dev_para-dms f i inn s size bytes = get_field-merge_dms inn s.dms_para size bytes f i

rules-IsDmsField : {r : Rule} → In r Dms.rules → IsDmsField r.field
rules-IsDmsField m = All-In (λ r. IsDmsField r.field) m (ground arith)

-- A value above the range of a field's rule is stored as it is, unless it is all ones.
pub write_dev_para-dms_unchecked :
    {r : Rule}
    → In r Dms.rules
    → (inn : Bytes) (s : Paras) → length s.dms_para ≡ 43
    → All IsByte inn
    → r.hi < get_field inn r.field
    → get_field inn r.field ≢ limit r.field - 1
    → r.hi < get_field (write_dev_para id_dms inn s).dms_para r.field
write_dev_para-dms_unchecked {r} m inn s size bytes over ne =
    rw (write_dev_para-dms r.field (rules-IsDmsField m) inn s size bytes, eqb_ne _ _ ne) over
