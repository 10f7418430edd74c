-- ===== src/Tests/Starts.antt =====
-- The start of the program, and the files that it finds.
use sanbao_prot.Base.{
  pos, ◌⊎◌, ℕ, ◌≡◌, refl, true, false, List, [], ◌∷◌, Bytes, All, none, inl, inr, arith, codes,
  ◌==◌, if◌then◌else◌, some, Option, Bool-cases, sym, ap, length, replicate,
}
use sanbao_prot.Config.Init.{f, configure}
use sanbao_prot.Config.Json.{Value}
use sanbao_prot.Config.Layout.{encode, Fits}
use sanbao_prot.Config.Read.{configure-encode}
use sanbao_prot.Config.{Settings, zero_settings}
use sanbao_prot.Files.Names.{get_file_id-mmid_to_filename}
use sanbao_prot.Files.Order.{swap, Below, IsId, getmm_file_num_max-largest}
use sanbao_prot.Files.{
  Entry, mmid_to_filename, get_file_id, getmm_file_num_max, max_loop, strtol, to_u32, rm_mm_files,
}
use sanbao_prot.Prot.{adas}
use sanbao_prot.Serial.{next_mm_ids}
use sanbao_prot.Start.Ids.{Lists, global_var_init-fresh}
use sanbao_prot.Start.{Mallocs, global_var_init, start_ids}
use sanbao_prot.Tests.Sample.{app_of}

get_file_id-mmid_to_filename_example : get_file_id (codes "4294967295") ≡ 4294967295
unfolding mmid_to_filename
get_file_id-mmid_to_filename_example = get_file_id-mmid_to_filename 4294967295 (omega arith)

abbrev photo : ℕ → Entry
photo id = record { d_name = mmid_to_filename id; is_dir = false; st_size = 9 }

getmm_file_num_max-largest_example :
    let es = photo 7 ∷ photo 4 ∷ [] in
    let m = getmm_file_num_max (some es) in
    (getmm_file_num_max (some (photo 4 ∷ photo 7 ∷ [])) ≡ m) × Below m es × ((m ≡ 0) ⊎ IsId m es)
getmm_file_num_max-largest_example =
    getmm_file_num_max-largest (photo 7 ∷ photo 4 ∷ []) (photo 4 ∷ photo 7 ∷ [])
      (swap (photo 7) (photo 4) [])

-- A directory with the file 5, as in the sample, and one with a larger id.
abbrev listing : List Entry
listing = photo 9 ∷ photo 5 ∷ []

listing-Lists : Lists listing (app_of adas).disk
listing-Lists id small = elim (Bool-cases (id == 5)) [
  | inl it ↦
      let five : id ≡ 5 = ground arith in inr (inr (inl (refl, ap mmid_to_filename (sym five))))
  | inr other ↦ inl (rw other refl)
]

abbrev memory : Mallocs
memory = record { rcv_data_s = true; rcv_data = true; snd_data_s = true }

first_id : (global_var_init (some listing) none memory (app_of adas)).app.ids.mm_id ≡ 9
unfolding global_var_init start_ids rm_mm_files getmm_file_num_max max_loop get_file_id strtol
    to_u32 mmid_to_filename
first_id = refl

global_var_init-fresh_example :
    let b = (global_var_init (some listing) none memory (app_of adas)).app in
    All (λ id. b.disk id ≡ none) (next_mm_ids 3 b.ids).1
global_var_init-fresh_example =
    global_var_init-fresh listing none memory (app_of adas) 3 listing-Lists
      (omega (arith, first_id))

-- The settings of a short file.
abbrev settings : Settings
settings = record zero_settings {
  serverip = codes "10.0.0.1";
  serverport = 8888;
  baudrate = pos 115200;
  bits = pos 8;
  stopbit = pos 1;
  parity = codes "NONE";
  alert_time_filter = 10;
}

settings-Fits : (rates : List ℕ) → Fits (record settings { bit_rates = rates })
settings-Fits rates = record {
  serverip = omega arith;
  serverport = omega arith;
  clientip = omega arith;
  clientport = omega arith;
  netdev_name = omega arith;
  tty_name = omega arith;
  baudrate = omega arith;
  parity = omega arith;
  bits = omega arith;
  stopbit = omega arith;
  jpeg_coder_fps = omega arith;
  alert_time_filter = omega arith;
  record_period = omega arith;
  check_heart_period = omega arith;
}

-- A parser that knows one text.
abbrev parser : Bytes → Option Value
parser s = if length s == 2 then some (encode settings) else none

configure-encode_example :
    configure parser (f (some (codes "{}")) ∷ [])
    ≡ some (record settings { using_para_file = true })
configure-encode_example =
    configure-encode parser (codes "{}") settings (settings-Fits (replicate 13 0)) refl
      (omega arith) (omega arith) (omega arith) refl

-- Seven rates for each of the two.
abbrev many : Settings
many = record settings { bit_rates = replicate 14 800 }
