-- ===== src/Start/Ids.antt =====
-- The ids of media after a start.
use sanbao_prot.App.{App, Disk}
use sanbao_prot.Base.{
  ℕ, ◌+◌, ◌^◌, ◌≤◌, ◌<◌, ◌≡◌, refl, sym, ap, ◌∙◌, subst, false, List, [], ◌∷◌, Bytes, All, Option,
  none, some, ◌⊎◌, inl, inr, arith, ◌==◌, if_both, All-map,
}
use sanbao_prot.Files.Names.{get_file_id-mmid_to_filename}
use sanbao_prot.Files.Order.{max_loop_ge}
use sanbao_prot.Files.{
  Entry, larger, mmid_to_filename, get_file_id, max_loop, getmm_file_num_max, rm_mm_files,
}
use sanbao_prot.Prot.{Device, adas, dms}
use sanbao_prot.Serial.Laws.{next_mm_ids_above}
use sanbao_prot.Serial.{next_mm_ids}
use sanbao_prot.Start.{Mallocs, read_local_para, start_ids, global_var_init}

-- A file with the name of an id is in the directory.
abbrev pub Listed : List Entry → ℕ → Type 0
Listed [] id = ⊥
Listed (e ∷ es) id = ((e.is_dir ≡ false) × (e.d_name ≡ mmid_to_filename id)) ⊎ Listed es id

-- The directory lists every media file there is.
abbrev pub Lists : List Entry → Disk → Type 0
Lists es d = (id : ℕ) → id < 2 ^ 32 → (d id ≡ none) ⊎ Listed es id

larger-false_ge : (x m : ℕ) → x ≤ larger false x m
larger-false_ge x m = ground arith

up_to : {a b c : ℕ} → a ≤ b → b ≤ c → a ≤ c
up_to h k = omega arith

max_loop-Listed : (es : List Entry) (id m : ℕ) → id < 2 ^ 32 → Listed es id → id ≤ max_loop es m
unfolding max_loop
max_loop-Listed [] id m small h = absurd h
max_loop-Listed (e ∷ es) id m small (inr h) = max_loop-Listed es id _ small h
max_loop-Listed (e ∷ es) id m small (inl (file, name)) =
    let own : get_file_id e.d_name ≡ id =
      ap get_file_id name ∙ get_file_id-mmid_to_filename id small in
    rw (file, own) (up_to (larger-false_ge id m) (max_loop_ge es (larger false id m)))

read_local_para-disk : (d : Device) (a : App) → (read_local_para d a).disk ≡ a.disk
unfolding read_local_para
read_local_para-disk adas a = refl
read_local_para-disk dms a = refl

-- An id above the largest is not listed.
above-none :
    (es : List Entry) (d : Disk) (id : ℕ)
    → Lists es d
    → getmm_file_num_max (some es) < id
    → id < 2 ^ 32
    → d id ≡ none
unfolding getmm_file_num_max
above-none es d id lists above small = elim (lists id small) [
  | inl free ↦ free
  | inr listed ↦ absurd (omega (arith, max_loop-Listed es id 0 small listed))
]

abbrev Fresh : ℕ → App → Type 0
Fresh num a = a.ids.mm_id + num < 2 ^ 32 → All (λ id. a.disk id ≡ none) (next_mm_ids num a.ids).1

start_ids-Fresh :
    (es : List Entry) (a : App) (num : ℕ) → Lists es a.disk → Fresh num (start_ids (some es) a)
unfolding start_ids rm_mm_files
start_ids-Fresh es a num lists =
    if_both (Fresh num) (getmm_file_num_max (some es) == 0xFFFFFFFF)
      (λ small. All-map (λ id h. refl) _ (next_mm_ids_above num _ small))
      (λ small.
        All-map (λ id h. above-none es a.disk id lists h.0 h.1) _ (next_mm_ids_above num _ small))

-- When the directory that is opened lists every media file there is: the ids that are given to media
-- after the start, before they wrap, are those of no file, so that a new photo or video overwrites
-- none of an earlier run. That is also so when there is no id behind the last one, since the files
-- are then deleted.
pub global_var_init-fresh :
    (es : List Entry) (log : Option Bytes) (m : Mallocs) (a : App) (num : ℕ)
    → Lists es a.disk
    → (global_var_init (some es) log m a).app.ids.mm_id + num < 2 ^ 32
    → let b = (global_var_init (some es) log m a).app in
      All (λ id. b.disk id ≡ none) (next_mm_ids num b.ids).1
unfolding global_var_init
global_var_init-fresh es log m a num lists small =
    start_ids-Fresh es (read_local_para a.dev a) num
      (subst (Lists es) (sym (read_local_para-disk a.dev a)) lists) small
