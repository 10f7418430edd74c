-- ===== src/Para/Files.antt =====
-- Parameter files: what is written is read back.
use sanbao_prot.Base.{
  ℕ, ◌-◌, ◌≤◌, ◌<◌, ◌≡◌, ◌≢◌, refl, ap, ◌∙◌, true, [], none, some, Bytes, length, take_all, IsByte,
  All, eqb_ne, ltb_of_le, arith,
}
use sanbao_prot.Field.Laws.{corrected, corrected_in_range, In, All-In}
use sanbao_prot.Field.{Field, get_field, limit, Rule}
use sanbao_prot.Para.Adas
use sanbao_prot.Para.Words.{merged_field}
use sanbao_prot.Para.WriteAdas.{
  write_dev_para-adas, length-write_dev_para, set_adas_para_setting_default-fallback,
}
use sanbao_prot.Para.WriteDms.{write_dev_para-dms, IsDmsField}
use sanbao_prot.Para.{
  Paras, ParaFile, read_dev_para, write_dev_para, write_file, write_local_adas_para_file,
  write_local_dms_para_file, load_para, create_para, read_local, read_local_adas_para_file,
  read_local_dms_para_file, set_adas_para_setting_default, adas_default,
}
use sanbao_prot.Prot.{id_adas, id_dms}

-- What a write to a file with room leaves.
abbrev pub full : Bytes → ParaFile → ParaFile
full bytes f = record f { content = some bytes }

write_file-full :
    (bytes : Bytes) (f : ParaFile)
    → f.writable ≡ true
    → length bytes ≤ f.space
    → write_file bytes f ≡ (full bytes f, 0)
unfolding write_file
write_file-full bytes f w room = rw (w, ltb_of_le f.space (length bytes) room) refl

pub write_local_adas-full :
    (s : Paras) (f : ParaFile)
    → f.writable ≡ true
    → length s.adas_para ≤ f.space
    → write_local_adas_para_file s f ≡ (full s.adas_para f, 0)
unfolding write_local_adas_para_file read_dev_para
write_local_adas-full s f w room = write_file-full s.adas_para f w room

load_para-full :
    (para_type size : ℕ) (bytes : Bytes) (s : Paras)
    → length bytes ≡ size
    → load_para para_type size bytes s ≡ (write_dev_para para_type bytes s, 0)
unfolding load_para
load_para-full para_type size bytes s same =
    rw (ltb_of_le (length bytes) size (omega arith), take_all size bytes (omega arith)) refl

rules_below : All (λ (r : Rule). r.hi < limit r.field - 1) Adas.rules
rules_below = omega arith

-- ADAS parameters that are written to a file with room and read back, into any state: both report
-- success, and every checked field that is in its range has its value again.
pub read_local-write_local_adas :
    {r : Rule}
    → In r Adas.rules
    → (s t : Paras) (f : ParaFile) → length s.adas_para ≡ 50
    → length t.adas_para ≡ 50
    → All IsByte s.adas_para
    → f.writable ≡ true
    → 50 ≤ f.space
    → r.lo ≤ get_field s.adas_para r.field
    → get_field s.adas_para r.field ≤ r.hi
    → let (g, wrote) = write_local_adas_para_file s f in
      let (t', _, ret) = read_local_adas_para_file t g in
      (wrote ≡ 0) × (ret ≡ 0) × (get_field t'.adas_para r.field ≡ get_field s.adas_para r.field)
unfolding write_local_adas_para_file read_dev_para read_local_adas_para_file read_local
read_local-write_local_adas {r} m s t f size old bytes w room lo hi =
    let v = get_field s.adas_para r.field in
    let kept : merged_field s.adas_para t.adas_para r.field ≡ v =
      let below = All-In (λ (q : Rule). q.hi < limit q.field - 1) m rules_below in
      let ne : v ≢ limit r.field - 1 = λ e. omega (arith, e, below, hi) in
      rw (eqb_ne _ _ ne) refl in
    rw
      (
        write_file-full s.adas_para f w (omega (arith, size)),
        load_para-full id_adas 50 s.adas_para t size,
      )
      (
        refl,
        refl,
        write_dev_para-adas m s.adas_para t old bytes
            ∙ ap (corrected r) kept
            ∙ corrected_in_range r v lo hi,
      )

-- DMS parameters that are written to a file with room and read back, into any state: both report
-- success, and every field that is not all ones has its value again.
pub read_local-write_local_dms :
    (i : Field)
    → IsDmsField i
    → (s t : Paras) (f : ParaFile) → length s.dms_para ≡ 43
    → length t.dms_para ≡ 43
    → All IsByte s.dms_para
    → f.writable ≡ true
    → 43 ≤ f.space
    → get_field s.dms_para i ≢ limit i - 1
    → let (g, wrote) = write_local_dms_para_file s f in
      let (t', _, ret) = read_local_dms_para_file t g in
      (wrote ≡ 0) × (ret ≡ 0) × (get_field t'.dms_para i ≡ get_field s.dms_para i)
unfolding write_local_dms_para_file read_dev_para read_local_dms_para_file read_local
read_local-write_local_dms i is s t f size old bytes w room ne =
    rw
      (
        write_file-full s.dms_para f w (omega (arith, size)),
        load_para-full id_dms 43 s.dms_para t size,
      )
      (refl, refl, write_dev_para-dms i is s.dms_para t old bytes ∙ rw (eqb_ne _ _ ne) refl)

-- Where there is no file yet and one can be made with room for the parameters, the start gives every
-- checked field its default, and the file holds the parameters.
pub read_local_adas_para_file-first :
    {r : Rule}
    → In r Adas.rules
    → (s : Paras) (f : ParaFile) → length s.adas_para ≡ 50
    → f.content ≡ none
    → f.writable ≡ true
    → 50 ≤ f.space
    → let (s', f', ret) = read_local_adas_para_file s f in
      (get_field s'.adas_para r.field ≡ r.fallback) × (f'.content ≡ some s'.adas_para) × (ret ≡ 0)
unfolding read_local_adas_para_file read_local create_para write_local_adas_para_file read_dev_para
read_local_adas_para_file-first {r} m s f size no_file w room =
    let s' = set_adas_para_setting_default s in
    let g : ParaFile = record { content = some []; writable = true; space = f.space } in
    let size' : length s'.adas_para ≡ 50 =
      unfold set_adas_para_setting_default in length-write_dev_para adas_default s size in
    let fits : length s'.adas_para ≤ f.space = omega (arith, size') in
    rw (no_file, w, write_file-full s'.adas_para g refl fits)
      (set_adas_para_setting_default-fallback m s size, refl, refl)
