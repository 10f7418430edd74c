-- ===== src/Net/Line.antt =====
-- The serial line, uart.cpp: `set_opt` and `uart_init`. The flags of a `termios` are named as the
-- code sets them; the calls of the system succeed or fail.
pub mod Asked
use sanbao_prot.Base.{
  ℕ, Bool, true, false, not, List, [], ◌∷◌, Option, none, some, ◌==◌, ◌||◌, if◌then◌else◌,
}

-- The members of `newtio` that are set; `csize` is the number of bits, 5 when CSIZE is clear.
pub record Termios : Type 0 where
  pub clocal : Bool
  pub cread : Bool
  pub csize : ℕ
  pub parenb : Bool
  pub parodd : Bool
  pub inpck : Bool
  pub istrip : Bool
  pub cstopb : Bool
  pub speed : ℕ

-- bzero
abbrev pub zero_termios : Termios
zero_termios = record {
  clocal = false;
  cread = false;
  csize = 5;
  parenb = false;
  parodd = false;
  inpck = false;
  istrip = false;
  cstopb = false;
  speed = 0;
}

unfoldable pub set_bits : ℕ → Termios → Termios
set_bits n t =
    if n == 7 then record t { csize = 7 } else if n == 8 then record t { csize = 8 } else t

-- The letters 'O', 'o', 'E', 'e', 'N' and 'n'.
unfoldable pub set_event : ℕ → Termios → Termios
set_event c t =
    if c == b'O' || c == b'o'
    then record t { parenb = true; parodd = true; inpck = true; istrip = true }
    else if c == b'E' || c == b'e'
    then record t { inpck = true; istrip = true; parenb = true; parodd = false }
    else if c == b'N' || c == b'n'
    then record t { parenb = false }
    else t

abbrev pub speeds : List ℕ
speeds = 2400 ∷ 4800 ∷ 9600 ∷ 19200 ∷ 38400 ∷ 115200 ∷ 230400 ∷ 460800 ∷ 921600 ∷ []

abbrev pub listed : ℕ → List ℕ → Bool
listed n [] = false
listed n (s ∷ ss) = s == n || listed n ss

unfoldable pub set_speed : ℕ → Termios → Termios
set_speed n t = record t { speed = if listed n speeds then n else 9600 }

unfoldable pub set_stop : ℕ → Termios → Termios
set_stop n t =
    if n == 1 then record t { cstopb = false } else if n == 2 then record t { cstopb = true } else t

-- What is set, and none when `tcgetattr` fails.
unfoldable pub set_opt : Bool → ℕ → ℕ → ℕ → ℕ → Option Termios
unfolding set_bits set_event set_speed set_stop
set_opt got nSpeed nBits nEvent nStop =
    if not got
    then none
    else some (
        set_stop nStop (
          set_speed nSpeed (
            set_event nEvent
              (set_bits nBits (record zero_termios { clocal = true; cread = true })))))

-- The results of `open`, `tcgetattr` and `tcsetattr`.
pub record Tty : Type 0 where
  pub opens : Bool
  pub gets : Bool
  pub sets : Bool

-- The descriptor: closed, open and the program's own, or open with nobody who could close it.
pub data Fd : Type 0 where
  no_fd kept lost : Fd

-- The descriptor, and the line as it is set, if the return value is 0.
unfoldable pub uart_init : Tty → ℕ → ℕ → ℕ → ℕ → Fd × Option Termios
unfolding set_opt
uart_init tty baudrate bits parity stopbit =
    if not tty.opens then (no_fd, none) else (elim (set_opt tty.gets baudrate bits parity stopbit) [
      | none ↦ (lost, none)
      | some t ↦ if tty.sets then (kept, some t) else (lost, none)
    ])
