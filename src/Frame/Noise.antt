-- ===== src/Frame/Noise.antt =====
-- Bytes outside frames, and frames that arrive damaged.
use sanbao_prot.Base.{
  ℕ, ◌+◌, ◌≤◌, ◌≡◌, ◌≢◌, refl, ◌∙◌, [], ◌∷◌, ◌++◌, Bytes, length, get_or, All, length-append,
  get_or-append_le, drop, eqb_ne, arith,
}
use sanbao_prot.Frame.Receive.{overlay, idle}
use sanbao_prot.Frame.Stream.{message, wire, calc_sum-append, prot_parse_quiet, prot_parse-wire}
use sanbao_prot.Frame.{unescaple_msg, check_frame, prot_parse, calc_sum}
use sanbao_prot.Prot.{prot_magic, slip_data_buf_size, data_buf_size}

-- A frame that fits in `rcvData`, whose checksum byte is not its checksum.
pub record IsDamaged (body : Bytes) : Type 0 where
  pub long : 5 ≤ length body
  pub short : length body + 2 ≤ data_buf_size
  pub sum : calc_sum (message body) (length (message body)) ≢ get_or (message body) 1 0

unescaple_msg_noise :
    (ch : ℕ) (old : Bytes)
    → ch ≢ prot_magic
    → unescaple_msg ch slip_data_buf_size (idle old) ≡ (idle old, 0)
unfolding unescaple_msg
unescaple_msg_noise ch old h = ground arith

module _ {ℓ} {S : Type ℓ} (on_cmd : S → Bytes → ℕ → S × Bytes) where
  pub prot_parse_noise :
      (noise rest old : Bytes) (s : S)
      → All (λ ch. ch ≢ prot_magic) noise
      → prot_parse on_cmd (noise ++ rest) (idle old) s ≡ prot_parse on_cmd rest (idle old) s
  prot_parse_noise [] rest old s h = refl
  prot_parse_noise (ch ∷ noise) rest old s (h, hs) =
      prot_parse_quiet on_cmd ch (noise ++ rest) (idle old) (idle old) s
        (unescaple_msg_noise ch old h)
      ∙ prot_parse_noise noise rest old s hs

  pub check_frame-IsDamaged :
      (body old : Bytes) (s : S)
      → IsDamaged body
      → check_frame on_cmd (idle (overlay (message body) old)) (length (message body)) s
        ≡ (idle (overlay (message body) old), s)
  unfolding check_frame
  check_frame-IsDamaged body old s h =
      let f = message body in
      let size = length-append body (prot_magic ∷ []) in
      rw (
        calc_sum-append f (drop (length f) old) (omega (arith, h.long)),
        get_or-append_le f (drop (length f) old) 1 0 (omega (arith, h.long)),
        eqb_ne (calc_sum f (length f)) (get_or f 1 0) h.sum,
      )

  -- Bytes outside a frame and a damaged frame reach no handler; the receiver is idle behind them.
  pub prot_parse_skips :
      (noise body rest old : Bytes) (s : S)
      → All (λ ch. ch ≢ prot_magic) noise
      → IsDamaged body
      → prot_parse on_cmd (noise ++ (wire body ++ rest)) (idle old) s
        ≡ prot_parse on_cmd rest (idle (overlay (message body) old)) s
  prot_parse_skips noise body rest old s h d =
      prot_parse_noise noise (wire body ++ rest) old s h
      ∙ prot_parse-wire on_cmd body rest old s d.long (omega (arith, d.short))
      ∙ rw (check_frame-IsDamaged body old s d)
