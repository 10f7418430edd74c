-- ===== src/Net/Socket.antt =====
-- A socket, net.cpp: `socket_init`, `bond_net_device` and `socket_close`. The calls of the system
-- succeed or fail; the sizes of the buffers that are read back go to the log only.
use sanbao_prot.Base.{
  ℕ, ◌<◌, ◌≡◌, Bool, true, false, not, List, [], ◌∷◌, Bytes, Option, none, some, take, ltb, ◌==◌,
  if◌then◌else◌, arith,
}

-- The descriptor that `socket` gives, and whether `setsockopt` succeeds for the two buffers and for
-- the device.
pub record Answers : Type 0 where
  pub sock : Option ℕ
  pub rcvbuf : Bool
  pub sndbuf : Bool
  pub bind : Bool

-- `handle->fd`, the descriptors that are open, and the device that the latest socket is bound to.
pub record Sockets : Type 0 where
  pub fd : ℕ
  pub opened : List ℕ
  pub device : Option Bytes

-- `strncpy` of IFNAMSIZ bytes.
unfoldable pub bond_net_device : Bool → Bytes → Sockets → Sockets
bond_net_device ok device s = if ok then record s { device = some (take 16 device) } else s

-- The return value is negative when the second component is false.
unfoldable pub socket_init : Answers → Bytes → Sockets → Sockets × Bool
unfolding bond_net_device
socket_init a netdev_name s = elim a.sock [
  | none ↦ (s, false)
  | some n ↦
      (let t : Sockets = record { fd = n; opened = n ∷ s.opened; device = none } in
        if not a.rcvbuf
        then (t, false)
        else if not a.sndbuf
        then (t, false)
        else (bond_net_device a.bind netdev_name t, true))
]

abbrev pub remove : ℕ → List ℕ → List ℕ
remove fd [] = []
remove fd (n ∷ ns) = if n == fd then ns else n ∷ remove fd ns

unfoldable pub socket_close : Sockets → Sockets
socket_close s = if ltb 0 s.fd then record s { opened = remove s.fd s.opened } else s

-- Whichever of its options fails, a socket that was made is closed by `handle->close`, and no other
-- one is.
pub socket_init-socket_close :
    (a : Answers) (netdev_name : Bytes) (s : Sockets) (n : ℕ)
    → a.sock ≡ some n
    → 0 < n
    → (socket_close (socket_init a netdev_name s).0).opened ≡ s.opened
unfolding socket_init socket_close bond_net_device
socket_init-socket_close a netdev_name s n made up = rw made (ground arith)
