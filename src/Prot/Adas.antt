-- ===== src/Prot/Adas.antt =====
-- The SB_WARN_TYPE codes of prot.h.
use sanbao_prot.Base.{ℕ}

abbrev pub fcw : ℕ
fcw = 0x1

abbrev pub ldw : ℕ
ldw = 0x2

abbrev pub hw : ℕ
hw = 0x3

abbrev pub pcw : ℕ
pcw = 0x4

abbrev pub flc : ℕ
flc = 0x5

abbrev pub tsrw : ℕ
tsrw = 0x6

abbrev pub tsr : ℕ
tsr = 0x10

abbrev pub snap : ℕ
snap = 0x11
