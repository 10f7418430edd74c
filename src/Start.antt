-- ===== src/Start.antt =====
-- The start of the program, process.cpp: `prot_init_pre` and `handle_distroy`, which get and free the
-- buffers of the connection, and `global_var_init`.
pub mod Buffers
pub mod Ids
use sanbao_prot.App.{App}
use sanbao_prot.Base.{
  ℕ, ◌+◌, ◌*◌, ◌-◌, ◌^◌, Bool, true, false, not, ◌>>=◌, Bytes, Option, none, some, length, ltb,
  ◌==◌, if◌then◌else◌,
}
use sanbao_prot.Files.{Directory, getmm_file_num_max, rm_mm_files}
use sanbao_prot.Para.{Paras, ParaFile, read_local_adas_para_file, read_local_dms_para_file}
use sanbao_prot.Prot.{Device, adas, dms}
use sanbao_prot.Transfer.{file_size}

-- A pointer to a block of its own: NULL, to memory that is there, or to memory that was freed.
pub data Pointer : Type 0 where
  null live freed : Pointer

-- none when memory is freed twice.
unfoldable pub free : Pointer → Option Pointer
free null = some null
free live = some freed
free freed = none

abbrev pub malloc : Bool → Pointer
malloc true = live
malloc false = null

-- The members of `prot_handle` with memory of their own, NULL when the program starts.
pub record Handle : Type 0 where
  pub rcv_data_s : Pointer
  pub rcv_data : Pointer
  pub snd_data_s : Pointer

abbrev pub no_buffers : Handle
no_buffers = record { rcv_data_s = null; rcv_data = null; snd_data_s = null }

-- The results of the three calls of `malloc`, of which the later ones need not come about.
pub record Mallocs : Type 0 where
  pub rcv_data_s : Bool
  pub rcv_data : Bool
  pub snd_data_s : Bool

-- The -1 of a failure is false. The pointers that are freed in between are live.
unfoldable pub prot_init_pre : Mallocs → Handle → Handle × Bool
prot_init_pre m h =
    if not m.rcv_data_s
    then (record h { rcv_data_s = null }, false)
    else if not m.rcv_data
    then (record h { rcv_data_s = freed; rcv_data = null }, false)
    else if not m.snd_data_s
    then (record { rcv_data_s = freed; rcv_data = freed; snd_data_s = null }, false)
    else (record { rcv_data_s = live; rcv_data = live; snd_data_s = live }, true)

-- `free` of what is not NULL, in the code's order, behind `handle->close`; none when memory is freed
-- twice.
unfoldable pub handle_distroy : Handle → Option Handle
unfolding free
handle_distroy h = do
  p ← free h.rcv_data_s
  q ← free h.rcv_data
  r ← free h.snd_data_s
  some (record { rcv_data_s = p; rcv_data = q; snd_data_s = r })

-- The parameters from their file, in the build of the device.
unfoldable pub read_local_para : Device → App → App
read_local_para adas a =
    let (paras, file, _) = read_local_adas_para_file a.paras a.adas_file in
    record a { paras = paras; adas_file = file }
read_local_para dms a =
    let (paras, file, _) = read_local_dms_para_file a.paras a.dms_file in
    record a { paras = paras; dms_file = file }

-- `s_mm_id`, and the files when there is no id left.
unfoldable pub start_ids : Directory → App → App
unfolding getmm_file_num_max rm_mm_files
start_ids dir a =
    let s_mm_id = getmm_file_num_max dir in
    if s_mm_id == 0xFFFFFFFF
    then record a { ids = record a.ids { mm_id = 0 }; disk = rm_mm_files a.disk }
    else record a { ids = record a.ids { mm_id = s_mm_id } }

-- LOG_SIZE_1G, of which the name says more.
abbrev pub log_size_1g : ℕ
log_size_1g = 100 * 1024 * 1024

-- Whether `data_log_init` is told to empty the log, from what the log holds.
unfoldable pub empties_log : Option Bytes → Bool
empties_log none = false
empties_log (some log) = ltb log_size_1g (file_size log)

pub record Boot : Type 0 where
  pub app : App
  pub handle : Handle
  pub log_emptied : Bool

-- The directory of media as `opendir` finds it, the log, and the calls of `malloc`. `media_filepath_init`
-- makes a directory, and gives 0 in every case. The function returns 0 in every case, too: the results
-- of `read_local_adas_para_file`, `read_local_dms_para_file` and `prot_init_pre` are not looked at.
unfoldable pub global_var_init : Directory → Option Bytes → Mallocs → App → Boot
unfolding read_local_para start_ids empties_log prot_init_pre
global_var_init dir log m a = record {
  app = start_ids dir (read_local_para a.dev a);
  handle = (prot_init_pre m no_buffers).0;
  log_emptied = empties_log log;
}
