-- ===== src/Frame/Bounds.antt =====
-- How far the receiver writes into its buffer.
use sanbao_prot.Base.{
  ℕ, zero, suc, ◌+◌, ◌-◌, ◌≤◌, ◌<◌, ◌≡◌, ◌≢◌, refl, sym, ap, ◌∙◌, [], ◌∷◌, append-nil, Bytes,
  length, All, length-append, arith,
}
use sanbao_prot.Frame.Escape.{escape_byte, escape_bytes}
use sanbao_prot.Frame.Receive.{idle, holding, unescaple_msg_head}
use sanbao_prot.Frame.Stream.{prot_parse_quiet, prot_parse-escape_bytes}
use sanbao_prot.Frame.{Rx, put, unescaple_msg, clear_frame_flag, prot_parse}
use sanbao_prot.Prot.{prot_magic, prot_esc_char, slip_data_buf_size, data_buf_size}

length-put : (b : Bytes) (i v n : ℕ) → length b ≤ n → i < n → length (put b i v) ≤ n
length-put [] zero v n h k = omega arith
length-put [] (suc i) v zero h k = absurd (omega arith)
length-put [] (suc i) v (suc n) h k = omega (arith, length-put [] i v n (omega arith) (omega arith))
length-put (x ∷ b) zero v n h k = h
length-put (x ∷ b) (suc i) v zero h k = absurd (omega arith)
length-put (x ∷ b) (suc i) v (suc n) h k =
    omega (arith, length-put b i v n (omega arith) (omega arith))

-- No byte is written at or behind `msglen`, whatever arrives in whatever state.
pub unescaple_msg_within :
    (ch msglen : ℕ) (r : Rx)
    → length r.msg ≤ msglen
    → length (unescaple_msg ch msglen r).0.msg ≤ msglen
unfolding unescaple_msg clear_frame_flag
unescaple_msg_within ch msglen r h = ground (
  arith,
  length-put r.msg r.cnt prot_magic msglen h,
  length-put r.msg 0 prot_magic msglen h,
  length-put r.msg r.cnt ch msglen h,
  length-put r.msg (r.cnt - 1) prot_magic msglen h,
  length-put r.msg (r.cnt - 1) prot_esc_char msglen h,
)

abbrev pub IsPlain : ℕ → Type 0
IsPlain x = (x ≢ prot_magic) × (x ≢ prot_esc_char)

escape_bytes-IsPlain : (xs : Bytes) → All IsPlain xs → escape_bytes xs ≡ xs
unfolding escape_bytes escape_byte
escape_bytes-IsPlain [] h = refl
escape_bytes-IsPlain (x ∷ xs) (h, hs) = ground (arith, escape_bytes-IsPlain xs hs)

module _ {ℓ} {S : Type ℓ} (on_cmd : S → Bytes → ℕ → S × Bytes) where
  prot_parse-IsPlain :
      (xs old : Bytes) (s : S)
      → All IsPlain xs
      → length xs + 2 ≤ slip_data_buf_size
      → prot_parse on_cmd (prot_magic ∷ xs) (idle old) s ≡ (holding (prot_magic ∷ xs) old, s)
  prot_parse-IsPlain xs old s h room =
      prot_parse_quiet on_cmd prot_magic xs _ _ s (unescaple_msg_head old)
      ∙ ap (λ w. prot_parse on_cmd w (holding (prot_magic ∷ []) old) s)
          (sym (append-nil (escape_bytes xs) ∙ escape_bytes-IsPlain xs h))
      ∙ prot_parse-escape_bytes on_cmd xs (prot_magic ∷ []) [] old s (omega arith) (omega arith)
      ∙ unfold prot_parse in refl

  -- A head and then enough plain bytes: more cells are written than `rcvData` has.
  pub prot_parse_overflow :
      (xs old : Bytes) (s : S)
      → All IsPlain xs
      → data_buf_size ≤ length xs
      → length xs + 2 ≤ slip_data_buf_size
      → data_buf_size < length (prot_parse on_cmd (prot_magic ∷ xs) (idle old) s).0.msg
  prot_parse_overflow xs old s h big room =
      rw (prot_parse-IsPlain xs old s h room) (omega (arith, length-append xs _))
