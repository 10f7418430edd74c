-- ===== src/Frame.antt =====
-- Framing in process.cpp: `sample_calc_sum`, `sample_escaple_msg`, `unescaple_msg`,
-- `clear_frame_flag` and `prot_parse`.
pub mod Escape
pub mod Receive
pub mod Stream
pub mod Noise
pub mod Resync
pub mod Bounds
use sanbao_prot.Base.{
  ℕ, zero, suc, ◌+◌, ◌-◌, ◌%◌, ◌^◌, Bool, true, false, not, ◌&&◌, List, [], ◌∷◌, ◌++◌, Bytes,
  length, get_or, set, take, drop, ltb, ◌==◌, if◌then◌else◌,
}
use sanbao_prot.Prot.{prot_magic, prot_esc_char, slip_data_buf_size}

-- `chksum += start[i]` over a uint32_t.
unfoldable pub sum_loop : ℕ → Bytes → ℕ
sum_loop chksum [] = chksum
sum_loop chksum (x ∷ xs) = sum_loop ((chksum + x) % 2 ^ 32) xs

-- Sums the `msg_len` bytes of a message from the vendor id (offset 4) up to the tail. A length
-- below 5 makes the source's bound negative, and the loop then makes no round.
unfoldable pub calc_sum : Bytes → ℕ → ℕ
unfolding sum_loop
calc_sum msg msg_len = sum_loop 0 (take (msg_len - 5) (drop 4 msg)) % 256

-- memmove(&b[i + 1], &b[i], len - i)
pub shift_right : Bytes → ℕ → ℕ → Bytes
shift_right b i len = take (i + 1) b ++ (take (len - i) (drop i b) ++ drop (len + 1) b)

pub record Escaping : Type 0 where
  pub i : ℕ
  pub escaped_len : ℕ
  pub barray : Bytes

-- One round of the loop, its `i++` and the `i++` of the `for` included.
pub escape_step : Escaping → Escaping
escape_step e =
    let b = e.barray in
    let moved = shift_right b e.i e.escaped_len in
    if prot_magic == get_or b e.i 0
    then record {
      i = e.i + 2;
      escaped_len = e.escaped_len + 1;
      barray = set (set moved e.i prot_esc_char) (e.i + 1) 2;
    }
    else if prot_esc_char == get_or b e.i 0
    then record {
      i = e.i + 2;
      escaped_len = e.escaped_len + 1;
      barray = set (set moved e.i prot_esc_char) (e.i + 1) 1;
    }
    else record e { i = e.i + 1 }

-- Each round shortens `escaped_len - 1 - i` by one, so that number counts the rounds.
pub escape_loop : ℕ → Escaping → Escaping
escape_loop zero e = e
escape_loop (suc rounds) e = escape_loop rounds (escape_step e)

-- The escaped message and `escaped_len`. `i` starts at 1 and the bound is `escaped_len - 1`.
pub escaple_msg : Bytes → ℕ → Bytes × ℕ
escaple_msg msg msg_len =
    let e = escape_loop (msg_len - 2) (record { i = 1; escaped_len = msg_len; barray = msg }) in
    (e.barray, e.escaped_len)

-- The statics `get_head`, `got_esc_char`, `cnt`, and the cells written from `rcvData` on. That block
-- has DATA_BUF_SIZE bytes, fewer than `prot_parse` lets a frame have: a list that is longer stands for
-- a write behind the block.
pub record Rx : Type 0 where
  pub get_head : Bool
  pub got_esc_char : Bool
  pub cnt : ℕ
  pub msg : Bytes

-- msg[i] = v. Writing at the end of the written cells makes the list longer.
abbrev pub put : Bytes → ℕ → ℕ → Bytes
put [] zero v = v ∷ []
put [] (suc i) v = 0 ∷ put [] i v
put (x ∷ xs) zero v = v ∷ xs
put (x ∷ xs) (suc i) v = x ∷ put xs i v

pub clear_frame_flag : Rx → Rx
clear_frame_flag r = record r { get_head = false; got_esc_char = false; cnt = 0 }

-- The state after one received byte, and the length of the frame that it ends, or 0.
pub unescaple_msg : ℕ → ℕ → Rx → Rx × ℕ
unfolding clear_frame_flag
unescaple_msg ch msglen r =
    if ltb msglen (r.cnt + 1)
    then (clear_frame_flag r, 0)
    else if not r.get_head
    then (if (ch == prot_magic) && (r.cnt == 0)
        then (record r { msg = put r.msg r.cnt prot_magic; cnt = r.cnt + 1; get_head = true }, 0)
        else (r, 0))
    else if (ch == prot_magic) && ltb 0 r.cnt
    then (if ltb r.cnt 6
        then (record r { msg = put r.msg 0 prot_magic; cnt = 1; get_head = true }, 0)
        else (
          clear_frame_flag (record r { msg = put r.msg r.cnt prot_magic; cnt = r.cnt + 1 }),
          r.cnt + 1,
        ))
    else if (ch == prot_esc_char) && not r.got_esc_char
    then (record r { got_esc_char = true; msg = put r.msg r.cnt ch; cnt = r.cnt + 1 }, 0)
    else if r.got_esc_char && ch == 2
    then (record r { msg = put r.msg (r.cnt - 1) prot_magic; got_esc_char = false }, 0)
    else if r.got_esc_char && ch == 1
    then (record r { msg = put r.msg (r.cnt - 1) prot_esc_char; got_esc_char = false }, 0)
    else (record r { msg = put r.msg r.cnt ch; cnt = r.cnt + 1; got_esc_char = false }, 0)

-- `prot_parse`, over a state `S` of the rest of the program and its handler of commands. The
-- handler is given the receive buffer and may write into it.
module _ {ℓ} {S : Type ℓ} (on_cmd : S → Bytes → ℕ → S × Bytes) where
  -- What follows `ret > 0`: the checksum stands at offset 1.
  pub check_frame : Rx → ℕ → S → Rx × S
  check_frame r framelen s =
      if calc_sum r.msg framelen == get_or r.msg 1 0
      then (let (s', m) = on_cmd s r.msg framelen in (record r { msg = m }, s'))
      else (r, s)

  pub parse_byte : ℕ → Rx → S → Rx × S
  unfolding check_frame
  parse_byte ch r s =
      let (r', ret) = unescaple_msg ch slip_data_buf_size r in
      if ltb 0 ret then check_frame r' ret s else (r', s)

  unfoldable pub prot_parse : Bytes → Rx → S → Rx × S
  prot_parse [] r s = (r, s)
  prot_parse (ch ∷ buf) r s = let (r', s') = parse_byte ch r s in prot_parse buf r' s'
