-- ===== src/Para.antt =====
-- Device parameters, para.cpp: `read_dev_para`, `write_dev_para`, the checks, the defaults and the
-- parameter files (with `write_file` of rb_rw.cpp). The structures are the bytes that the program
-- copies, stores and sends; `para_lock` makes a read and a write one step each.
pub mod Adas
pub mod Dms
pub mod Copy
pub mod Words
pub mod WriteAdas
pub mod WriteDms
pub mod Files
pub mod Load
use sanbao_prot.Base.{
  ℕ, zero, suc, ◌+◌, Bool, true, false, not, List, [], ◌∷◌, Option, none, some, Bytes, length,
  get_or, set, take, replicate, ltb, ◌==◌, if◌then◌else◌,
}
use sanbao_prot.Field.{Field, get_field, set_field, check_rules}
use sanbao_prot.Prot.{Device, adas, dms, id_adas, id_dms}

-- The statics `adas_para` and `dms_para`.
pub record Paras : Type 0 where
  pub adas_para : Bytes
  pub dms_para : Bytes

unfoldable pub adas_para_check : Bytes → Bytes
adas_para_check = check_rules Adas.rules

-- Nothing in the program calls this one.
unfoldable pub dms_para_check : Bytes → Bytes
dms_para_check = check_rules Dms.rules

-- What stands at `para` behind the call; another type leaves it as it was.
unfoldable pub read_dev_para : ℕ → Paras → Bytes → Bytes
read_dev_para para_type s para =
    if para_type == id_adas then s.adas_para else if para_type == id_dms then s.dms_para else para

-- `if (in->f != 0xFFFF) out->f = in->f;`
unfoldable pub keep_word : Field → Bytes → Bytes → Bytes
keep_word f inn out = if get_field inn f == 0xFFFF then out else set_field out f (get_field inn f)

unfoldable pub copy_byte : Bytes → ℕ → Bytes → Bytes
copy_byte in8 i out8 = if get_or in8 i 0 == 0xFF then out8 else set out8 i (get_or in8 i 0)

-- The bodies' jumps over the 16-bit fields: `if(i==3) i+=4;`, and for DMS `if(i==21) i+=4;`.
abbrev pub adas_skip : ℕ → ℕ
adas_skip i = if i == 3 then i + 4 else i

abbrev pub dms_skip : ℕ → ℕ
dms_skip i = let j = adas_skip i in if j == 21 then j + 4 else j

-- The byte loop from index i on. A round goes up by one at least, so `size` rounds are enough.
pub copy_loop : (ℕ → ℕ) → ℕ → ℕ → ℕ → Bytes → Bytes → Bytes
copy_loop skip zero i size in8 out8 = out8
copy_loop skip (suc rounds) i size in8 out8 =
    let j = skip i in
    let rest = copy_loop skip rounds (j + 1) size in8 (copy_byte in8 j out8) in
    if ltb i size then rest else out8

unfoldable pub merge_adas : Bytes → Bytes → Bytes
merge_adas para old = copy_loop adas_skip Adas.size 0 Adas.size para (
    keep_word Adas.auto_photo_distance_period para (keep_word Adas.auto_photo_time_period para old))

unfoldable pub merge_dms : Bytes → Bytes → Bytes
merge_dms para old = copy_loop dms_skip Dms.size 0 Dms.size para (
    keep_word Dms.call_time_interval_threshold para (
      keep_word Dms.smoke_time_interval_threshold para (
        keep_word Dms.auto_photo_distance_period para
          (keep_word Dms.auto_photo_time_period para old))))

unfoldable pub write_dev_para : ℕ → Bytes → Paras → Paras
write_dev_para para_type para s =
    if para_type == id_adas
    then record s { adas_para = adas_para_check (merge_adas para s.adas_para) }
    else if para_type == id_dms
    then record s { dms_para = merge_dms para s.dms_para }
    else s

pub assign : List (Field × ℕ) → Bytes → Bytes
assign [] p = p
assign ((f, v) ∷ fs) p = assign fs (set_field p f v)

-- The local `para` of the two functions below, with every byte assigned.
unfoldable pub adas_default : Bytes
unfolding assign set_field
adas_default = assign Adas.defaults (replicate Adas.size 0)

unfoldable pub dms_default : Bytes
unfolding assign set_field
dms_default = assign Dms.defaults (replicate Dms.size 0)

unfoldable pub set_adas_para_setting_default : Paras → Paras
set_adas_para_setting_default = write_dev_para id_adas adas_default

unfoldable pub set_dms_para_setting_default : Paras → Paras
set_dms_para_setting_default = write_dev_para id_dms dms_default

-- A parameter file: its contents, if it can be opened for reading, whether it can be opened for
-- writing, and how many bytes a write to it gets through.
pub record ParaFile : Type 0 where
  pub content : Option Bytes
  pub writable : Bool
  pub space : ℕ

-- `write_file`: 0, 1 (cannot be opened) or 2 (too few bytes written). Opening empties the file.
unfoldable pub write_file : Bytes → ParaFile → ParaFile × ℕ
write_file bytes f =
    if not f.writable
    then (f, 1)
    else if ltb f.space (length bytes)
    then (record f { content = some (take f.space bytes) }, 2)
    else (record f { content = some bytes }, 0)

unfoldable pub write_local_adas_para_file : Paras → ParaFile → ParaFile × ℕ
write_local_adas_para_file s f = write_file (read_dev_para id_adas s []) f

unfoldable pub write_local_dms_para_file : Paras → ParaFile → ParaFile × ℕ
write_local_dms_para_file s f = write_file (read_dev_para id_dms s []) f

-- What `fread` finds in a file that is there.
pub load_para : ℕ → ℕ → Bytes → Paras → Paras × ℕ
load_para para_type size content s =
    if ltb (length content) size
    then (s, 2)
    else (write_dev_para para_type (take size content) s, 0)

pub create_para :
    (Paras → Paras) → (Paras → ParaFile → ParaFile × ℕ) → Paras → ParaFile → Paras × ParaFile × ℕ
create_para set_default write_local s f =
    if not f.writable
    then (s, f, 1)
    else (set_default s, (write_local (set_default s) (record f { content = some [] })).0, 0)

pub read_local :
    (Paras → Paras)
    → (Paras → ParaFile → ParaFile × ℕ)
    → ℕ
    → ℕ
    → Option Bytes
    → Paras
    → ParaFile
    → Paras × ParaFile × ℕ
unfolding load_para create_para
read_local set_default write_local para_type size none s f = create_para set_default write_local s f
read_local set_default write_local para_type size (some content) s f =
    let (s', ret) = load_para para_type size content s in (s', f, ret)

unfoldable pub read_local_adas_para_file : Paras → ParaFile → Paras × ParaFile × ℕ
unfolding read_local
read_local_adas_para_file s f =
    read_local set_adas_para_setting_default write_local_adas_para_file id_adas Adas.size f.content
      s f

unfoldable pub read_local_dms_para_file : Paras → ParaFile → Paras × ParaFile × ℕ
unfolding read_local
read_local_dms_para_file s f =
    read_local set_dms_para_setting_default write_local_dms_para_file id_dms Dms.size f.content s f
