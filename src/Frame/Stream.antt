-- ===== src/Frame/Stream.antt =====
-- Whole frames through `prot_parse`.
use sanbao_prot.Base.{
  ℕ, ◌+◌, ◌-◌, ◌≤◌, ◌<◌, ◌≡◌, refl, ap, ◌∙◌, List, [], ◌∷◌, ◌++◌, append_assoc, append-nil, Bytes,
  length, get_or, drop, length-append, take-append_le, drop-append_le, get_or-append_le, All,
  length-drop, eqb_refl, lt→ltb, inl, inr, arith,
}
use sanbao_prot.Frame.Escape.{escape_byte, escape_byte_cases, escape_bytes, escaple_msg_lem}
use sanbao_prot.Frame.Receive.{
  overlay, idle, holding, unescaple_msg_head, unescaple_msg_plain, unescaple_msg_esc,
  unescaple_msg_two, unescaple_msg_one, unescaple_msg_tail,
}
use sanbao_prot.Frame.{
  Rx, unescaple_msg, check_frame, parse_byte, prot_parse, calc_sum, escaple_msg,
}
use sanbao_prot.Prot.{prot_magic, prot_esc_char, slip_data_buf_size, data_buf_size}

-- The message that has these bytes between head and tail.
abbrev pub message : Bytes → Bytes
message body = prot_magic ∷ (body ++ prot_magic ∷ [])

-- A message as `message_queue_send` seals it, which fits in the DATA_BUF_SIZE bytes of `rcvData`.
pub record IsSealed (body : Bytes) : Type 0 where
  pub long : 5 ≤ length body
  pub short : length body + 2 ≤ data_buf_size
  pub sum : calc_sum (message body) (length (message body)) ≡ get_or (message body) 1 0

-- What `sample_escaple_msg` puts on the wire.
abbrev pub wire : Bytes → Bytes
wire body = (escaple_msg (message body) (length body + 2)).0

-- The bytes of a stream of messages.
abbrev pub wires : List Bytes → Bytes
wires [] = []
wires (body ∷ bodies) = wire body ++ wires bodies

pub wire-eq : (body : Bytes) → wire body ≡ prot_magic ∷ (escape_bytes body ++ prot_magic ∷ [])
wire-eq body = ap (λ (e : Bytes × ℕ). e.0) (escaple_msg_lem prot_magic body prot_magic)

pub calc_sum-append :
    (f rest : Bytes) → 5 ≤ length f → calc_sum (f ++ rest) (length f) ≡ calc_sum f (length f)
unfolding calc_sum
calc_sum-append f rest h = rw (
  drop-append_le 4 f rest (omega arith),
  take-append_le (length f - 5) (drop 4 f) rest (omega (arith, length-drop 4 f)),
)

module _ {ℓ} {S : Type ℓ} (on_cmd : S → Bytes → ℕ → S × Bytes) where
  parse_byte_quiet :
      (ch : ℕ) (r r' : Rx) (s : S)
      → unescaple_msg ch slip_data_buf_size r ≡ (r', 0)
      → parse_byte on_cmd ch r s ≡ (r', s)
  unfolding parse_byte
  parse_byte_quiet ch r r' s h = rw h

  pub prot_parse_quiet :
      (ch : ℕ) (buf : Bytes) (r r' : Rx) (s : S)
      → unescaple_msg ch slip_data_buf_size r ≡ (r', 0)
      → prot_parse on_cmd (ch ∷ buf) r s ≡ prot_parse on_cmd buf r' s
  unfolding prot_parse
  prot_parse_quiet ch buf r r' s h = rw (parse_byte_quiet ch r r' s h)

  prot_parse-escape_byte :
      (x : ℕ) (p rest old : Bytes) (s : S)
      → 0 < length p
      → length p + 2 ≤ slip_data_buf_size
      → prot_parse on_cmd (escape_byte x ++ rest) (holding p old) s
        ≡ prot_parse on_cmd rest (holding (p ++ x ∷ []) old) s
  prot_parse-escape_byte x p rest old s pos room = elim (escape_byte_cases x) [
    | inl (e, code) ↦
        rw (code, e)
          (prot_parse_quiet prot_esc_char (2 ∷ rest) _ _ s (unescaple_msg_esc p old pos room)
            ∙ prot_parse_quiet 2 rest _ _ s (unescaple_msg_two p old pos room))
    | inr (inl (e, code)) ↦
        rw (code, e)
          (prot_parse_quiet prot_esc_char (1 ∷ rest) _ _ s (unescaple_msg_esc p old pos room)
            ∙ prot_parse_quiet 1 rest _ _ s (unescaple_msg_one p old pos room))
    | inr (inr (a, b, code)) ↦
        rw code (prot_parse_quiet x rest _ _ s (unescaple_msg_plain p old pos room x a b))
  ]

  pub prot_parse-escape_bytes :
      (xs p rest old : Bytes) (s : S)
      → 0 < length p
      → length p + length xs + 1 ≤ slip_data_buf_size
      → prot_parse on_cmd (escape_bytes xs ++ rest) (holding p old) s
        ≡ prot_parse on_cmd rest (holding (p ++ xs) old) s
  unfolding escape_bytes
  prot_parse-escape_bytes [] p rest old s pos room = rw (append-nil p)
  prot_parse-escape_bytes (x ∷ xs) p rest old s pos room =
      let size = length-append p (x ∷ []) in
      rw (append_assoc (escape_byte x) (escape_bytes xs) rest) (
        prot_parse-escape_byte x p (escape_bytes xs ++ rest) old s pos (omega arith)
        ∙ prot_parse-escape_bytes xs (p ++ x ∷ []) rest old s (omega arith) (omega arith)
        ∙ rw (append_assoc p (x ∷ []) xs))

  pub prot_parse-tail :
      (p rest old : Bytes) (s : S)
      → 6 ≤ length p
      → length p + 2 ≤ slip_data_buf_size
      → prot_parse on_cmd (prot_magic ∷ rest) (holding p old) s ≡ (
          let (r, s') =
            check_frame on_cmd (idle (overlay (p ++ prot_magic ∷ []) old)) (length p + 1) s in
          prot_parse on_cmd rest r s')
  unfolding prot_parse parse_byte
  prot_parse-tail p rest old s h room =
      rw (unescaple_msg_tail p old (omega arith) room h, lt→ltb 0 (length p + 1) (omega arith))

  -- The tail ends the frame: the checksum is compared, and the receiver is idle again.
  pub prot_parse-wire :
      (body rest old : Bytes) (s : S)
      → 5 ≤ length body
      → length body + 3 ≤ slip_data_buf_size
      → prot_parse on_cmd (wire body ++ rest) (idle old) s ≡ (
          let (r, s') =
            check_frame on_cmd (idle (overlay (message body) old)) (length (message body)) s in
          prot_parse on_cmd rest r s')
  prot_parse-wire body rest old s long short =
      let size : length (message body) ≡ length (prot_magic ∷ body) + 1 =
        omega (arith, length-append body (prot_magic ∷ [])) in
      ap (λ w. prot_parse on_cmd (w ++ rest) (idle old) s) (wire-eq body)
      ∙ rw (append_assoc (escape_bytes body) (prot_magic ∷ []) rest, size)
          (prot_parse_quiet prot_magic _ _ _ s (unescaple_msg_head old)
            ∙ prot_parse-escape_bytes body (prot_magic ∷ []) (prot_magic ∷ rest) old s (omega arith)
                (omega arith)
            ∙ prot_parse-tail (prot_magic ∷ body) rest old s (omega arith) (omega arith))

  check_frame-IsSealed :
      (body old : Bytes) (s : S)
      → IsSealed body
      → check_frame on_cmd (idle (overlay (message body) old)) (length (message body)) s ≡ (
          let (s', m) = on_cmd s (overlay (message body) old) (length (message body)) in
          (idle m, s'))
  unfolding check_frame
  check_frame-IsSealed body old s h =
      let f = message body in
      let size = length-append body (prot_magic ∷ []) in
      rw (
        calc_sum-append f (drop (length f) old) (omega (arith, h.long)),
        get_or-append_le f (drop (length f) old) 1 0 (omega (arith, h.long)),
        h.sum,
        eqb_refl (get_or f 1 0),
      )

  -- The frame after frame of a stream, each given to the handler over what the buffer held.
  unfoldable pub deliver : List Bytes → Bytes → S → Rx × S
  deliver [] old s = (idle old, s)
  deliver (body ∷ bodies) old s =
      let (s', m) = on_cmd s (overlay (message body) old) (length (message body)) in
      deliver bodies m s'

  -- The bytes of sealed frames of at most 65536 bytes, each escaped by the sender, give the handler
  -- exactly those frames, in order, and leave the receiver idle.
  pub prot_parse-wires :
      (bodies : List Bytes) (old : Bytes) (s : S)
      → All IsSealed bodies
      → prot_parse on_cmd (wires bodies) (idle old) s ≡ deliver bodies old s
  unfolding deliver prot_parse
  prot_parse-wires [] old s h = refl
  prot_parse-wires (body ∷ bodies) old s (sealed, others) =
      let (s', m) = on_cmd s (overlay (message body) old) (length (message body)) in
      prot_parse-wire body (wires bodies) old s sealed.long (omega (arith, sealed.short))
      ∙ rw (check_frame-IsSealed body old s sealed) (prot_parse-wires bodies m s' others)
