-- ===== src/Net/Line/Asked.antt =====
-- The line that a configuration asks for.
use sanbao_prot.Base.{
  ℕ, ◌≡◌, refl, ap, Bool, true, false, some, ◌==◌, if◌then◌else◌, arith, inl, inr, ◌⊎◌,
}
use sanbao_prot.Net.Line.{
  Termios, zero_termios, set_bits, set_event, set_speed, set_stop, set_opt, speeds, listed,
}

pub data Parity : Type 0 where
  odd even no_parity : Parity

-- A line: its speed, the bits of a character, the parity and the number of stop bits.
pub record Line : Type 0 where
  pub speed : ℕ
  pub bits : ℕ
  pub parity : Parity
  pub stops : ℕ

abbrev pub letter : Bool → Parity → ℕ
letter true odd = b'O'
letter false odd = b'o'
letter true even = b'E'
letter false even = b'e'
letter true no_parity = b'N'
letter false no_parity = b'n'

-- What the flags mean to the driver.
abbrev pub line_of : Termios → Line
line_of t = record {
  speed = t.speed;
  bits = t.csize;
  parity = if t.parenb then (if t.parodd then odd else even) else no_parity;
  stops = if t.cstopb then 2 else 1;
}

set_bits-eq :
    (bits : ℕ) (t : Termios) → (bits ≡ 7) ⊎ (bits ≡ 8) → set_bits bits t ≡ record t { csize = bits }
unfolding set_bits
set_bits-eq bits t (inl e) = rw e refl
set_bits-eq bits t (inr e) = rw e refl

set_stop-eq :
    (stops : ℕ) (t : Termios)
    → (stops ≡ 1) ⊎ (stops ≡ 2)
    → set_stop stops t ≡ record t { cstopb = stops == 2 }
unfolding set_stop
set_stop-eq stops t (inl e) = rw e refl
set_stop-eq stops t (inr e) = rw e refl

abbrev is_some_parity : Parity → Bool
is_some_parity odd = true
is_some_parity even = true
is_some_parity no_parity = false

abbrev is_odd : Parity → Bool
is_odd odd = true
is_odd even = false
is_odd no_parity = false

-- On a line that has no parity yet.
set_event-letter :
    (upper : Bool) (p : Parity) (n : ℕ)
    → let t : Termios = record zero_termios { clocal = true; cread = true; csize = n } in
      set_event (letter upper p) t ≡ record t {
        parenb = is_some_parity p;
        parodd = is_odd p;
        inpck = is_some_parity p;
        istrip = is_some_parity p;
      }
unfolding set_event
set_event-letter true odd n = refl
set_event-letter false odd n = refl
set_event-letter true even n = refl
set_event-letter false even n = refl
set_event-letter true no_parity n = refl
set_event-letter false no_parity n = refl

abbrev configured : ℕ → ℕ → ℕ → Parity → Termios
configured speed bits stops p = record {
  clocal = true;
  cread = true;
  csize = bits;
  parenb = is_some_parity p;
  parodd = is_odd p;
  inpck = is_some_parity p;
  istrip = is_some_parity p;
  cstopb = stops == 2;
  speed = speed;
}

parity_of :
    (p : Parity) → (if is_some_parity p then (if is_odd p then odd else even) else no_parity) ≡ p
parity_of odd = refl
parity_of even = refl
parity_of no_parity = refl

stops_of : (stops : ℕ) → (stops ≡ 1) ⊎ (stops ≡ 2) → (if stops == 2 then 2 else 1) ≡ stops
stops_of stops h = ground arith

-- The line is set as the configuration asks: a speed of the table, 7 or 8 bits, a parity by its
-- letter, 1 or 2 stop bits. The receiver is on, and parity errors are looked for just with a parity.
pub set_opt-line_of :
    (speed bits stops : ℕ) (upper : Bool) (p : Parity)
    → listed speed speeds ≡ true
    → (bits ≡ 7) ⊎ (bits ≡ 8)
    → (stops ≡ 1) ⊎ (stops ≡ 2)
    → (t : Termios) × (set_opt true speed bits (letter upper p) stops ≡ some t)
      × (line_of t ≡ record { speed = speed; bits = bits; parity = p; stops = stops })
      × (t.cread ≡ true)
      × (t.inpck ≡ t.parenb)
unfolding set_opt set_speed
set_opt-line_of speed bits stops upper p known b s = (
  configured speed bits stops p,
  rw (set_bits-eq bits _ b, set_event-letter upper p bits, known) (ap some (set_stop-eq stops _ s)),
  rw (parity_of p, stops_of stops s) refl,
  refl,
  refl,
)
