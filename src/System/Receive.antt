-- ===== src/System/Receive.antt =====
-- The receiving thread, `pthread_process_recv` of process.cpp with `try_connect` of net.cpp: sockets
-- that are made again and again, each with its attempts to connect and what it then receives.
pub mod Reconnect
use sanbao_prot.Base.{
  ℕ, ◌+◌, Bool, true, false, not, List, [], ◌∷◌, Bytes, Option, none, some, ◌>>=◌, if◌then◌else◌,
}
use sanbao_prot.Dispatch.{sample_on_cmd}
use sanbao_prot.Link.{Link, set_connect_status, do_stat_reset}
use sanbao_prot.Net.{Ret, ret, minus, blocked, Select, Read, Conn, tcp_rcv, recv_loop}
use sanbao_prot.Setting.{auto_send_work_status}
use sanbao_prot.Warn.Message.{WarnFrame}

-- A return of `try_connect`: no connection, none and `errno` is EBADF, or a connection.
pub data Connect : Type 0 where
  refused bad_fd connected : Connect

-- Whether `socket_init` succeeds, the attempts to connect, what the other threads have done to the
-- state by then, and what `select` and `read` give.
pub record Session : Type 0 where
  pub init : Bool
  pub connects : List Connect
  pub others : Link → Link
  pub events : List (Select × Read)

-- The loop over `on_connect`: it still tries, makes a new socket, or is connected.
pub data Trying : Type 0 where
  waits connect_again goes_on : Trying

unfoldable pub connect_loop : List Connect → Trying
connect_loop [] = waits
connect_loop (refused ∷ cs) = connect_loop cs
connect_loop (bad_fd ∷ cs) = connect_again
connect_loop (connected ∷ cs) = goes_on

-- Behind a connection: the reset, the status and the first message. none is the write to freed memory
-- that the reset can do.
unfoldable pub begin_connection : Link → Option Link
begin_connection l = do
  a ← do_stat_reset l.app
  some (record (set_connect_status true l) { app = auto_send_work_status a })

-- Whether the thread goes on or has ended.
pub data Thread : Type 0 where
  runs ends : Thread

-- The inner loop is left for a new socket when `rcv` fails.
unfoldable pub after_loop :
    Conn Link × Ret → (Conn Link → Option (Conn Link × Thread)) → Option (Conn Link × Thread)
after_loop (k, minus n) next = next k
after_loop (k, ret n) next = some (k, runs)
after_loop (k, blocked) next = some (k, runs)

module _ (f : WarnFrame) where
  -- `parse` hands a frame to the handler.
  abbrev pub on_cmd : Link → Bytes → ℕ → Link × Bytes
  on_cmd l msg len = let (a, msg') = sample_on_cmd f l.app msg len in (record l { app = a }, msg')

  abbrev pub receive : List (Select × Read) → Conn Link → Conn Link × Ret
  receive = recv_loop on_cmd (tcp_rcv on_cmd)

  -- When no socket can be made, `handle_distroy` closes it and the thread ends.
  unfoldable pub sessions : List Session → Conn Link → Option (Conn Link × Thread)
  unfolding connect_loop begin_connection after_loop
  sessions [] k = some (k, runs)
  sessions (s ∷ ss) k =
      if not s.init
      then some (record k { closes = k.closes + 1 }, ends)
      else (elim (connect_loop s.connects) [
        | waits ↦ some (k, runs)
        | connect_again ↦ sessions ss k
        | goes_on ↦ begin_connection (s.others k.rest) >>= λ l.
            after_loop (receive s.events (record k { rest = l })) (sessions ss)
      ])

  -- The reset in front of the first socket.
  unfoldable pub pthread_process_recv : List Session → Conn Link → Option (Conn Link × Thread)
  unfolding sessions
  pthread_process_recv ss k = do
    a ← do_stat_reset k.rest.app
    sessions ss (record k { rest = record k.rest { app = a } })
