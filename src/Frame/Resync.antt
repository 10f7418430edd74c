-- ===== src/Frame/Resync.antt =====
-- A frame that was cut off: the statics of the receiver outlive a connection.
use sanbao_prot.Base.{
  ℕ, ◌+◌, ◌≡◌, ◌≢◌, refl, sym, ap, ◌∙◌, [], ◌∷◌, ◌++◌, append_assoc, Bytes, length, All, inl, inr,
  length-append, arith,
}
use sanbao_prot.Frame.Escape.{escape_byte, escape_bytes, escape_byte_cases}
use sanbao_prot.Frame.Noise.{IsDamaged, prot_parse_noise, check_frame-IsDamaged}
use sanbao_prot.Frame.Receive.{overlay, idle, holding, unescaple_msg_head}
use sanbao_prot.Frame.Stream.{message, wire, wire-eq, prot_parse_quiet, prot_parse-tail}
use sanbao_prot.Frame.{Rx, unescaple_msg, prot_parse}
use sanbao_prot.Prot.{prot_magic, slip_data_buf_size}

abbrev Plain : Bytes → Type 0
Plain b = All (λ ch. ch ≢ prot_magic) b

Plain-append : (a b : Bytes) → Plain a → Plain b → Plain (a ++ b)
Plain-append [] b pa pb = pb
Plain-append (x ∷ a) b (px, pa) pb = (px, Plain-append a b pa pb)

escape_byte-Plain : (x : ℕ) → Plain (escape_byte x)
escape_byte-Plain x = elim (escape_byte_cases x) [
  | inl (_, code) ↦ rw code (λ e. absurd (omega (arith, e)), (λ e. absurd (omega (arith, e)), tt))
  | inr (inl (_, code)) ↦
      rw code (λ e. absurd (omega (arith, e)), (λ e. absurd (omega (arith, e)), tt))
  | inr (inr (other, _, code)) ↦ rw code (other, tt)
]

escape_bytes-Plain : (xs : Bytes) → Plain (escape_bytes xs)
unfolding escape_bytes
escape_bytes-Plain [] = tt
escape_bytes-Plain (x ∷ xs) =
    Plain-append (escape_byte x) (escape_bytes xs) (escape_byte-Plain x) (escape_bytes-Plain xs)

-- A head right behind a head starts the frame again.
unescaple_msg_again :
    (old : Bytes)
    → unescaple_msg prot_magic slip_data_buf_size (holding (prot_magic ∷ []) old)
      ≡ (holding (prot_magic ∷ []) old, 0)
unfolding unescaple_msg
unescaple_msg_again old = refl

module _ {ℓ} {S : Type ℓ} (on_cmd : S → Bytes → ℕ → S × Bytes) where
  wire_start :
      (body rest : Bytes) (r : Rx) (s : S)
      → prot_parse on_cmd (wire body ++ rest) r s
        ≡ prot_parse on_cmd (prot_magic ∷ (escape_bytes body ++ prot_magic ∷ rest)) r s
  wire_start body rest r s =
      ap (λ w. prot_parse on_cmd w r s)
        (ap (λ w. w ++ rest) (wire-eq body)
          ∙ ap (◌∷◌ prot_magic) (append_assoc (escape_bytes body) (prot_magic ∷ []) rest))

  -- The receiver is in the middle of a frame, not of an escape, when the bytes of a new connection
  -- begin. Six bytes or more of the frame have come, fewer than 65536, and they have not the checksum
  -- of a frame: the head of the first frame passes for the tail of the old one,
  -- and the first frame is lost. The second one is received as on an idle receiver.
  pub prot_parse_resync :
      (cut lost next rest old : Bytes) (s : S)
      → IsDamaged cut
      → prot_parse on_cmd (wire lost ++ (wire next ++ rest)) (holding (prot_magic ∷ cut) old) s
        ≡ prot_parse on_cmd (wire next ++ rest) (idle (overlay (message cut) old)) s
  prot_parse_resync cut lost next rest old s d =
      let kept = overlay (message cut) old in
      let tail = escape_bytes next ++ prot_magic ∷ rest in
      let size : length (message cut) ≡ length (prot_magic ∷ cut) + 1 =
        omega (arith, length-append cut (prot_magic ∷ [])) in
      let dropped = check_frame-IsDamaged on_cmd cut old s d in
      wire_start lost (wire next ++ rest) _ s
      ∙ prot_parse-tail on_cmd (prot_magic ∷ cut)
          (escape_bytes lost ++ prot_magic ∷ (wire next ++ rest)) old s (omega (arith, d.long))
          (omega (arith, d.short))
      ∙ rw (sym size, dropped) refl
      ∙ prot_parse_noise on_cmd (escape_bytes lost) (prot_magic ∷ (wire next ++ rest)) kept s
          (escape_bytes-Plain lost)
      ∙ prot_parse_quiet on_cmd prot_magic _ _ _ s (unescaple_msg_head kept)
      ∙ wire_start next rest _ s
      ∙ prot_parse_quiet on_cmd prot_magic tail _ _ s (unescaple_msg_again kept)
      ∙ sym (
          wire_start next rest (idle kept) s
          ∙ prot_parse_quiet on_cmd prot_magic tail _ _ s (unescaple_msg_head kept))
