-- ===== src/Frame/Escape.antt =====
-- What `sample_escaple_msg` computes.
use native.Mathlib.Numerals.{add-one}
use sanbao_prot.Base.{
  ℕ, ◌+◌, ◌-◌, ◌*◌, ◌≤◌, ◌≡◌, ◌≢◌, ◌⊎◌, refl, ap, ◌∙◌, [], ◌∷◌, ◌++◌, append_assoc, append-nil,
  Bytes, length, set, take_all, take_mid, drop_all, drop-append, length-append, get_or-mid, set-mid,
  set-mid_next, ◌==◌, if◌then◌else◌, arith,
}
use sanbao_prot.Frame.{Escaping, shift_right, escape_step, escape_loop, escaple_msg}
use sanbao_prot.Prot.{prot_magic, prot_esc_char}

-- The bytes that stand for one byte on the wire.
unfoldable pub escape_byte : ℕ → Bytes
escape_byte x =
    if prot_magic == x
    then prot_esc_char ∷ 2 ∷ []
    else if prot_esc_char == x
    then prot_esc_char ∷ 1 ∷ []
    else x ∷ []

unfoldable pub escape_bytes : Bytes → Bytes
escape_bytes [] = []
escape_bytes (x ∷ xs) = escape_byte x ++ escape_bytes xs

shift_right-mid :
    (done : Bytes) (x : ℕ) (ys : Bytes)
    → shift_right (done ++ x ∷ ys) (length done) (length (done ++ x ∷ ys)) ≡ done ++ x ∷ x ∷ ys
unfolding shift_right
shift_right-mid done x ys = rw (
  add-one (length done),
  take_mid done x ys,
  drop-append done (x ∷ ys),
  take_all (length (done ++ x ∷ ys) - length done) (x ∷ ys)
      (omega (arith, length-append done (x ∷ ys))),
  drop_all (length (done ++ x ∷ ys) + 1) (done ++ x ∷ ys) (omega arith),
  append-nil (x ∷ ys),
  append_assoc done (x ∷ []) (x ∷ ys),
)

-- The loop at the bytes ys, behind those that are done.
abbrev at : Bytes → Bytes → Escaping
at done ys = record { i = length done; escaped_len = length (done ++ ys); barray = done ++ ys }

insert-mid :
    (done : Bytes) (x a b : ℕ) (ys : Bytes)
    → set
        (set (shift_right (done ++ x ∷ ys) (length done) (length (done ++ x ∷ ys))) (length done) a)
        (length done + 1)
        b
      ≡ done ++ a ∷ b ∷ ys
insert-mid done x a b ys = rw (
  shift_right-mid done x ys,
  set-mid done x a (x ∷ ys),
  add-one (length done),
  set-mid_next done a x b ys,
)

escape_step-at :
    (done : Bytes) (x : ℕ) (ys : Bytes)
    → escape_step (at done (x ∷ ys)) ≡ at (done ++ escape_byte x) ys
unfolding escape_step escape_byte
escape_step-at done x ys = ground (
  arith,
  get_or-mid done x ys 0,
  insert-mid done x prot_esc_char 2 ys,
  insert-mid done x prot_esc_char 1 ys,
  append_assoc done (prot_esc_char ∷ 2 ∷ []) ys,
  append_assoc done (prot_esc_char ∷ 1 ∷ []) ys,
  append_assoc done (x ∷ []) ys,
  length-append done (x ∷ ys),
  length-append done (prot_esc_char ∷ 2 ∷ ys),
  length-append done (prot_esc_char ∷ 1 ∷ ys),
  length-append done (prot_esc_char ∷ 2 ∷ []),
  length-append done (prot_esc_char ∷ 1 ∷ []),
  length-append done (x ∷ []),
)

escape_loop-at :
    (rest done : Bytes) (t : ℕ)
    → escape_loop (length rest) (at done (rest ++ t ∷ [])) ≡ at (done ++ escape_bytes rest) (t ∷ [])
unfolding escape_loop escape_bytes
escape_loop-at [] done t = rw append-nil
escape_loop-at (x ∷ rest) done t =
    ap (escape_loop (length rest)) (escape_step-at done x (rest ++ t ∷ []))
    ∙ escape_loop-at rest (done ++ escape_byte x) t
    ∙ ap (λ d. at d (t ∷ [])) (append_assoc done (escape_byte x) (escape_bytes rest))

-- Escaping in place replaces each byte between head and tail by its code, and tells the new length.
pub escaple_msg_lem :
    (h : ℕ) (body : Bytes) (t : ℕ)
    → escaple_msg (h ∷ (body ++ t ∷ [])) (length body + 2)
      ≡ (h ∷ (escape_bytes body ++ t ∷ []), length (escape_bytes body) + 2)
unfolding escaple_msg
escaple_msg_lem h body t =
    let rounds : length body + 2 - 2 ≡ length body = omega arith in
    let size : length body + 2 ≡ length (h ∷ (body ++ t ∷ [])) =
      omega (arith, length-append body (t ∷ [])) in
    rw (rounds, size, escape_loop-at body (h ∷ []) t)
      (ground (arith, length-append (escape_bytes body) (t ∷ [])))

length-escape_byte : (x : ℕ) → length (escape_byte x) ≤ 2
unfolding escape_byte
length-escape_byte x = ground arith

pub length-escape_bytes : (body : Bytes) → length (escape_bytes body) ≤ 2 * length body
unfolding escape_bytes
length-escape_bytes [] = omega arith
length-escape_bytes (x ∷ xs) = omega (
  arith,
  length-append (escape_byte x) (escape_bytes xs),
  length-escape_byte x,
  length-escape_bytes xs,
)

pub escape_bytes-append :
    (xs ys : Bytes) → escape_bytes (xs ++ ys) ≡ escape_bytes xs ++ escape_bytes ys
unfolding escape_bytes
escape_bytes-append [] ys = refl
escape_bytes-append (x ∷ xs) ys =
    rw (escape_bytes-append xs ys, append_assoc (escape_byte x) (escape_bytes xs) (escape_bytes ys))

pub escape_byte_cases :
    (x : ℕ)
    → ((x ≡ prot_magic) × (escape_byte x ≡ prot_esc_char ∷ 2 ∷ []))
      ⊎ ((x ≡ prot_esc_char) × (escape_byte x ≡ prot_esc_char ∷ 1 ∷ []))
      ⊎ ((x ≢ prot_magic) × (x ≢ prot_esc_char) × (escape_byte x ≡ x ∷ []))
unfolding escape_byte
escape_byte_cases x = ground arith
