-- ===== src/Prot/Dms.antt =====
-- The DMS warning codes of prot.h.
use sanbao_prot.Base.{ℕ}

abbrev pub fatigue : ℕ
fatigue = 0x01

abbrev pub calling : ℕ
calling = 0x02

abbrev pub smoking : ℕ
smoking = 0x03

abbrev pub distract : ℕ
distract = 0x04

abbrev pub abnormal : ℕ
abnormal = 0x05

abbrev pub snapshot : ℕ
snapshot = 0x10

abbrev pub driver_change : ℕ
driver_change = 0x11
