-- ===== src/Net.antt =====
-- What the program does with the results of `write` and `read`: `tcp_snd`, `Nwrite`, `Nread` and
-- `tcp_rcv` of net.cpp, `uart_snd` and `uart_rcv` of uart.cpp. The system calls are lists of their
-- results, each used by the next call; a list that is used up stands for a call that still blocks.
pub mod Sending
pub mod Receiving
pub mod Line
pub mod Socket
use sanbao_prot.Base.{
  ℕ, ◌+◌, ◌-◌, Bool, true, false, List, [], ◌∷◌, ◌++◌, Bytes, length, take, drop, ltb, ◌==◌,
  if◌then◌else◌,
}
use sanbao_prot.Frame.{Rx, prot_parse}

-- A `write` of the bytes that are left: so many of them are written, at least one; none is, and
-- `errno` still holds EINTR or EAGAIN from another call, or not; the call is to be tried again
-- (EINTR, EAGAIN, EWOULDBLOCK); or it failed.
pub data Write : Type 0 where
  wrote : ℕ → Write
  wrote_none : Bool → Write
  write_again write_failed : Write

-- A `read`: at least one byte, the end of the stream, a call to be tried again, or a failure.
pub data Read : Type 0 where
  got : Bytes → Read
  end_of_stream read_again read_failed : Read

-- A return value, negative ones without their sign.
pub data Ret : Type 0 where
  ret : ℕ → Ret
  minus : ℕ → Ret
  blocked : Ret

-- The bytes that were written, and the return value.
pub record Sent : Type 0 where
  pub wire : Bytes
  pub code : Ret

-- `rest` is the `len - offset` bytes at `&buf[offset]`.
unfoldable pub tcp_snd_loop : List Write → Bytes → Bytes → Sent
tcp_snd_loop calls [] wire = record { wire = wire; code = ret 0 }
tcp_snd_loop [] (b ∷ rest) wire = record { wire = wire; code = blocked }
tcp_snd_loop (wrote n ∷ calls) (b ∷ rest) wire =
    tcp_snd_loop calls (drop n (b ∷ rest)) (wire ++ take n (b ∷ rest))
tcp_snd_loop (wrote_none true ∷ calls) (b ∷ rest) wire = tcp_snd_loop calls (b ∷ rest) wire
tcp_snd_loop (wrote_none false ∷ calls) (b ∷ rest) wire = record { wire = wire; code = minus 1 }
tcp_snd_loop (write_again ∷ calls) (b ∷ rest) wire = tcp_snd_loop calls (b ∷ rest) wire
tcp_snd_loop (write_failed ∷ calls) (b ∷ rest) wire = record { wire = wire; code = minus 1 }

-- `is_open` is the test of the descriptor and the buffer.
unfoldable pub tcp_snd : Bool → List Write → Bytes → Sent
unfolding tcp_snd_loop
tcp_snd is_open calls buf =
    if is_open then tcp_snd_loop calls buf [] else record { wire = []; code = minus 1 }

-- The loop of `Nwrite` and of `uart_snd`; `rest` is the `nleft` bytes at `buf`.
unfoldable pub write_loop : List Write → ℕ → Bytes → Bytes → Sent
write_loop calls count [] wire = record { wire = wire; code = ret count }
write_loop [] count (b ∷ rest) wire = record { wire = wire; code = blocked }
write_loop (wrote n ∷ calls) count (b ∷ rest) wire =
    write_loop calls count (drop n (b ∷ rest)) (wire ++ take n (b ∷ rest))
write_loop (wrote_none _ ∷ calls) count (b ∷ rest) wire = record { wire = wire; code = minus 2 }
write_loop (write_again ∷ calls) count (b ∷ rest) wire = record {
  wire = wire;
  code = ret (count - length (b ∷ rest));
}
write_loop (write_failed ∷ calls) count (b ∷ rest) wire = record { wire = wire; code = minus 1 }

unfoldable pub nwrite : List Write → Bytes → Sent
unfolding write_loop
nwrite calls buf = write_loop calls (length buf) buf []

unfoldable pub uart_snd : List Write → Bytes → Sent
unfolding write_loop
uart_snd calls buf = write_loop calls (length buf) buf []

-- What was read into `buf`, and the return value.
pub record Filled : Type 0 where
  pub content : Bytes
  pub code : Ret

-- A `read` of at most `nleft` bytes.
unfoldable pub nread_loop : List Read → ℕ → Bytes → Filled
nread_loop [] nleft buf =
    if nleft == 0
    then record { content = buf; code = ret (length buf) }
    else record { content = buf; code = blocked }
nread_loop (r ∷ calls) nleft buf =
    let next =
      λ (b : Bytes). nread_loop calls (nleft - length (take nleft b)) (buf ++ take nleft b) in
    if nleft == 0 then record { content = buf; code = ret (length buf) } else (elim r [
      | got b ↦ next b
      | end_of_stream ↦ record { content = buf; code = ret (length buf) }
      | read_again ↦ record { content = buf; code = ret (length buf) }
      | read_failed ↦ record { content = buf; code = minus 1 }
    ])

unfoldable pub nread : List Read → ℕ → Filled
unfolding nread_loop
nread calls count = nread_loop calls count []

-- The result of `select`. It fails too when another thread has closed the descriptor.
pub data Select : Type 0 where
  readable timed_out interrupted select_failed : Select

-- The receiver, the rest of the state, and how often this thread has called `handle->close`; whether
-- the descriptor is open is not part of the state.
pub record Conn {ℓ} (S : Type ℓ) : Type ℓ where
  pub rx : Rx
  pub rest : S
  pub closes : ℕ

module _ {ℓ} {S : Type ℓ} (on_cmd : S → Bytes → ℕ → S × Bytes) where
  unfoldable pub parse_conn : Bytes → Conn S → Conn S
  parse_conn b k =
      let (rx', s') = prot_parse on_cmd b k.rx k.rest in record k { rx = rx'; rest = s' }

  unfoldable pub tcp_rcv : Select → Read → Conn S → Conn S × Ret
  unfolding parse_conn
  tcp_rcv select_failed r k = (k, minus 1)
  tcp_rcv timed_out r k = (k, ret 0)
  tcp_rcv interrupted r k = (k, ret 0)
  tcp_rcv readable (got b) k = (parse_conn b k, ret 0)
  tcp_rcv readable end_of_stream k = (record k { closes = k.closes + 1 }, minus 1)
  tcp_rcv readable read_again k = (k, ret 0)
  tcp_rcv readable read_failed k = (record k { closes = k.closes + 1 }, minus 1)

  unfoldable pub uart_rcv : Select → Read → Conn S → Conn S × Ret
  unfolding parse_conn
  uart_rcv select_failed r k = (k, minus 1)
  uart_rcv timed_out r k = (k, ret 0)
  uart_rcv interrupted r k = (k, ret 0)
  uart_rcv readable (got b) k = (parse_conn b k, ret 0)
  uart_rcv readable end_of_stream k = (k, ret 0)
  uart_rcv readable read_again k = (k, ret 0)
  uart_rcv readable read_failed k = (k, minus 1)

  -- The inner loop of `pthread_process_recv`: it is left when `rcv` gives a negative value.
  unfoldable pub recv_loop :
      (Select → Read → Conn S → Conn S × Ret) → List (Select × Read) → Conn S → Conn S × Ret
  recv_loop rcv [] k = (k, ret 0)
  recv_loop rcv ((s, r) ∷ events) k =
      let (k', code) = rcv s r k in
      let rest = recv_loop rcv events k' in elim code [ minus n ↦ (k', minus n) | _ ↦ rest ]
