-- ===== src/Frame/Receive.antt =====
-- The receiver of frames, byte by byte, over any handler of commands.
use native.Mathlib.Numerals.{add-one}
use sanbao_prot.Base.{
  ℕ, suc, ◌+◌, ◌≤◌, ◌<◌, ◌≡◌, ◌≢◌, refl, ap, ◌∙◌, [], ◌∷◌, ◌++◌, append_assoc, true, false, Bytes,
  length, drop, drop-drop_one, length-append, arith,
}
use sanbao_prot.Frame.{Rx, put, clear_frame_flag, unescaple_msg}
use sanbao_prot.Prot.{prot_magic, prot_esc_char, slip_data_buf_size}

-- A frame written over the old contents of the buffer.
abbrev pub overlay : Bytes → Bytes → Bytes
overlay p old = p ++ drop (length p) old

pub put-mid : (p rest : Bytes) (v : ℕ) → put (p ++ rest) (length p) v ≡ p ++ v ∷ drop 1 rest
put-mid [] [] v = refl
put-mid [] (x ∷ rest) v = refl
put-mid (x ∷ p) rest v = ap (◌∷◌ x) (put-mid p rest v)

pub put-overlay :
    (p old : Bytes) (v : ℕ) → put (overlay p old) (length p) v ≡ overlay (p ++ v ∷ []) old
put-overlay p old v =
    put-mid p (drop (length p) old) v
    ∙ rw (
      drop-drop_one (length p) old,
      length-append p (v ∷ []),
      add-one (length p),
      append_assoc p (v ∷ []) (drop (suc (length p)) old),
    )

put-overlay_last :
    (p old : Bytes) (w v : ℕ)
    → put (overlay (p ++ w ∷ []) old) (length p) v ≡ overlay (p ++ v ∷ []) old
put-overlay_last p old w v = rw (
  append_assoc p (w ∷ []) (drop (length (p ++ w ∷ [])) old),
  put-mid p (w ∷ drop (length (p ++ w ∷ [])) old) v,
  length-append p (w ∷ []),
  length-append p (v ∷ []),
  append_assoc p (v ∷ []) (drop (length p + 1) old),
)

abbrev pub idle : Bytes → Rx
idle old = record { get_head = false; got_esc_char = false; cnt = 0; msg = old }

-- The receiver that has taken the bytes p of a frame.
abbrev pub holding : Bytes → Bytes → Rx
holding p old = record {
  get_head = true;
  got_esc_char = false;
  cnt = length p;
  msg = overlay p old;
}

abbrev pub escaping : Bytes → Bytes → Rx
escaping p old = record {
  get_head = true;
  got_esc_char = true;
  cnt = length p + 1;
  msg = overlay (p ++ prot_esc_char ∷ []) old;
}

pub unescaple_msg_head :
    (old : Bytes)
    → unescaple_msg prot_magic slip_data_buf_size (idle old) ≡ (holding (prot_magic ∷ []) old, 0)
unfolding unescaple_msg
unescaple_msg_head [] = refl
unescaple_msg_head (x ∷ old) = refl

module _ (p old : Bytes) (pos : 0 < length p) (room : length p + 2 ≤ slip_data_buf_size) where
  pub unescaple_msg_plain :
      (x : ℕ)
      → x ≢ prot_magic
      → x ≢ prot_esc_char
      → unescaple_msg x slip_data_buf_size (holding p old) ≡ (holding (p ++ x ∷ []) old, 0)
  unfolding unescaple_msg
  unescaple_msg_plain x a b = ground (arith, put-overlay p old x, length-append p (x ∷ []))

  pub unescaple_msg_esc :
      unescaple_msg prot_esc_char slip_data_buf_size (holding p old) ≡ (escaping p old, 0)
  unfolding unescaple_msg
  unescaple_msg_esc = ground (arith, put-overlay p old prot_esc_char)

  pub unescaple_msg_two :
      unescaple_msg 2 slip_data_buf_size (escaping p old) ≡ (holding (p ++ prot_magic ∷ []) old, 0)
  unfolding unescaple_msg
  unescaple_msg_two =
      ground
        (arith, put-overlay_last p old prot_esc_char prot_magic, length-append p (prot_magic ∷ []))

  pub unescaple_msg_one :
      unescaple_msg 1 slip_data_buf_size (escaping p old)
      ≡ (holding (p ++ prot_esc_char ∷ []) old, 0)
  unfolding unescaple_msg
  unescaple_msg_one = ground (
    arith,
    put-overlay_last p old prot_esc_char prot_esc_char,
    length-append p (prot_esc_char ∷ []),
  )

  pub unescaple_msg_tail :
      6 ≤ length p
      → unescaple_msg prot_magic slip_data_buf_size (holding p old)
        ≡ (idle (overlay (p ++ prot_magic ∷ []) old), length p + 1)
  unfolding unescaple_msg clear_frame_flag
  unescaple_msg_tail h = ground (arith, put-overlay p old prot_magic)
