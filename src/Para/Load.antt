-- ===== src/Para/Load.antt =====
-- The ADAS parameters behind `read_local_adas_para_file`.
use sanbao_prot.Base.{
  ◌≤◌, ◌≡◌, true, Bytes, none, some, All, IsByte, All-take, length, take, arith, ltb_of_le,
}
use sanbao_prot.Field.Laws.{In}
use sanbao_prot.Field.{Rule, get_field}
use sanbao_prot.Para.Adas
use sanbao_prot.Para.WriteAdas.{write_dev_para-adas_bounds, length-write_dev_para}
use sanbao_prot.Para.{
  Paras, ParaFile, adas_default, set_adas_para_setting_default, load_para, create_para, read_local,
  read_local_adas_para_file,
}

-- A file of ADAS parameters that can be made, or one with the bytes of a whole block.
pub data Usable (f : ParaFile) : Type 0 where
  to_create : f.content ≡ none → f.writable ≡ true → Usable f
  whole : (c : Bytes) → f.content ≡ some c → 50 ≤ length c → All IsByte c → Usable f

-- A whole block whose checked fields are in range.
abbrev pub IsBlock : Bytes → Type 0
IsBlock para =
    (length para ≡ 50)
    × ((r : Rule)
        → In r Adas.rules
        → (r.lo ≤ get_field para r.field) × (get_field para r.field ≤ r.hi))

default-IsByte : All IsByte adas_default
unfolding adas_default
default-IsByte = omega arith

default-IsBlock :
    (s : Paras) → length s.adas_para ≡ 50 → IsBlock (set_adas_para_setting_default s).adas_para
unfolding set_adas_para_setting_default
default-IsBlock s size = (
  length-write_dev_para adas_default s size,
  λ r m. write_dev_para-adas_bounds m adas_default s size default-IsByte,
)

pub read_local_adas_para_file-IsBlock :
    (s : Paras) (f : ParaFile)
    → length s.adas_para ≡ 50
    → Usable f
    → IsBlock (read_local_adas_para_file s f).0.adas_para
unfolding read_local_adas_para_file read_local create_para load_para
read_local_adas_para_file-IsBlock s f size (to_create missing can) =
    rw (missing, can) (default-IsBlock s size)
read_local_adas_para_file-IsBlock s f size (whole c content long bytes) =
    rw (content, ltb_of_le (length c) 50 long)
      (
        length-write_dev_para (take 50 c) s size,
        λ r m. write_dev_para-adas_bounds m (take 50 c) s size (All-take IsByte 50 c bytes),
      )
