-- ===== src/Files.antt =====
-- The names of media files and the directory that holds them, process.cpp: `mmid_to_filename`,
-- `getFileId`, `getmmFileNumMax`, `getmmFileSize`, `find_local_image_name`, `clear_old_media`; and
-- rb_rw.cpp: `get_mm_type`, `parse_filename`, `traverse_directory`, `read_local_file_to_list`. A name
-- is its bytes behind the path and in front of the NUL.
pub mod Names
pub mod Order
pub mod Listing
use sanbao_prot.App.{Disk}
use sanbao_prot.Base.{
  ℕ, zero, suc, ◌+◌, ◌-◌, ◌*◌, ◌/◌, ◌%◌, ◌^◌, Bool, true, false, not, List, [], ◌∷◌, ◌++◌, Bytes,
  Option, none, some, get_or, length, take, replicate, set, ltb, leb, ◌==◌, ◌&&◌, ◌||◌,
  if◌then◌else◌, same_bytes,
}
use sanbao_prot.Prot.{mm_photo, mm_audio, mm_video}
use sanbao_prot.Resource.{MmInfo, insert_mm_resouce}

-- The last `k` decimal digits.
abbrev pub digits : ℕ → ℕ → Bytes
digits zero n = []
digits (suc k) n = digits k (n / 10) ++ (48 + n % 10) ∷ []

-- `%010u`: a number of 32 bits has ten digits at most.
unfoldable pub mmid_to_filename : ℕ → Bytes
mmid_to_filename id = digits 10 id

-- `isspace`
abbrev pub is_space : ℕ → Bool
is_space c = c == 32 || (leb 9 c && leb c 13)

abbrev pub is_digit : ℕ → Bool
is_digit c = leb 48 c && leb c 57

-- What `strtol` gives: the sign, and the size of the number, without a bound.
abbrev pub read_digits : Bytes → ℕ → ℕ
read_digits [] n = n
read_digits (c ∷ s) n =
    let rest = read_digits s (n * 10 + (c - 48)) in if is_digit c then rest else n

abbrev pub read_signed : Bytes → Bool × ℕ
read_signed [] = (false, 0)
read_signed (c ∷ s) =
    if c == 45
    then (true, read_digits s 0)
    else if c == 43
    then (false, read_digits s 0)
    else (false, read_digits (c ∷ s) 0)

abbrev pub skip_spaces : Bytes → Bytes
skip_spaces [] = []
skip_spaces (c ∷ s) = if is_space c then skip_spaces s else c ∷ s

-- `strtol(s, NULL, 10)` with a `long` of 64 bits: a number out of range is the one at the end.
unfoldable pub strtol : Bytes → Bool × ℕ
strtol s =
    let (negative, n) = read_signed (skip_spaces s) in
    let most = if negative then 2 ^ 63 else 2 ^ 63 - 1 in (negative, if ltb most n then most else n)

-- A `long` in a `uint32_t`.
unfoldable pub to_u32 : Bool × ℕ → ℕ
to_u32 (negative, n) = if negative then (2 ^ 32 - n % 2 ^ 32) % 2 ^ 32 else n % 2 ^ 32

unfoldable pub get_file_id : Bytes → ℕ
unfolding strtol to_u32
get_file_id filename = to_u32 (strtol filename)

-- An entry that `readdir` gives, with what `lstat` tells of it.
pub record Entry : Type 0 where
  pub d_name : Bytes
  pub is_dir : Bool
  pub st_size : ℕ

-- A directory, the entries in the order of `readdir`; none when `opendir` fails.
abbrev pub Directory : Type 0
Directory = Option (List Entry)

-- A round of the loop: directories are passed over.
abbrev pub larger : Bool → ℕ → ℕ → ℕ
larger is_dir tmpid maxid = if is_dir then maxid else if ltb tmpid maxid then maxid else tmpid

unfoldable pub max_loop : List Entry → ℕ → ℕ
unfolding get_file_id
max_loop [] maxid = maxid
max_loop (e ∷ es) maxid = max_loop es (larger e.is_dir (get_file_id e.d_name) maxid)

-- The -1 of the failure is a `uint32_t`.
unfoldable pub getmm_file_num_max : Directory → ℕ
unfolding max_loop
getmm_file_num_max none = 2 ^ 32 - 1
getmm_file_num_max (some es) = max_loop es 0

unfoldable pub size_loop : List Entry → ℕ → ℕ
size_loop [] sum = sum
size_loop (e ∷ es) sum = size_loop es (if e.is_dir then sum else (sum + e.st_size) % 2 ^ 64)

unfoldable pub getmm_file_size : Directory → ℕ
unfolding size_loop
getmm_file_size none = 2 ^ 64 - 1
getmm_file_size (some es) = size_loop es 0

-- `rm` of the files in the directory.
unfoldable pub rm_mm_files : Disk → Disk
rm_mm_files d = λ id. none

-- MM_SIZE_LIMIT_2G
unfoldable pub check_mm_size : Directory → Disk → Disk
unfolding rm_mm_files getmm_file_size
check_mm_size dir d = if ltb 0x80000000 (getmm_file_size dir) then rm_mm_files d else d

-- The static `s_last_id` and the files.
unfoldable pub clear_old_media : ℕ → ℕ → Disk → ℕ × Disk
clear_old_media id last d = (id, λ j. if leb last j && ltb j id then none else d j)

-- `strncmp` with the whole of a word without a NUL; a name goes on with NULs behind its end.
abbrev pub starts : Bytes → Bytes → Bool
starts word s = same_bytes (take (length word) (s ++ replicate (length word) 0)) word

-- "jpg", "wav" and "mp4"
unfoldable pub get_mm_type : Bytes → Option ℕ
get_mm_type file_type =
    if starts (106 ∷ 112 ∷ 103 ∷ []) file_type
    then some mm_photo
    else if starts (119 ∷ 97 ∷ 118 ∷ []) file_type
    then some mm_audio
    else if starts (109 ∷ 112 ∷ 52 ∷ []) file_type
    then some mm_video
    else none

-- The arrays that `pos` writes to, of 32 bytes each, and how far it is in the current one. A later
-- point starts `file_type` again: what was there behind the new end stays.
pub record Parts : Type 0 where
  pub mm_id : Bytes
  pub file_type : Bytes
  pub in_type : Bool
  pub j : ℕ

-- `pos[j++] = c`; none behind the end of the array.
unfoldable pub put_char : ℕ → Parts → Option Parts
put_char c p =
    if leb 32 p.j
    then none
    else if p.in_type
    then some (record p { file_type = set p.file_type p.j c; j = p.j + 1 })
    else some (record p { mm_id = set p.mm_id p.j c; j = p.j + 1 })

unfoldable pub parts_loop : Bytes → Parts → Option Parts
unfolding put_char
parts_loop [] p = some p
parts_loop (c ∷ s) p =
    if c == 46
    then parts_loop s (record p { in_type = true; j = 0 })
    else (elim (put_char c p) [ none ↦ none | some p' ↦ parts_loop s p' ])

abbrev pub no_parts : Parts
no_parts = record { mm_id = replicate 32 0; file_type = replicate 32 0; in_type = false; j = 0 }

-- The node of a name's parts, if its type is known.
unfoldable pub insert_parts : List MmInfo → Parts → List MmInfo
unfolding get_mm_type get_file_id
insert_parts ms p = elim (get_mm_type p.file_type) [
  | none ↦ ms
  | some type ↦ insert_mm_resouce (record { mm_id = get_file_id p.mm_id; mm_type = type }) ms
]

-- none when a name is too long for its array.
unfoldable pub insert_parsed : List MmInfo → Option Parts → Option (List MmInfo)
unfolding insert_parts
insert_parsed ms none = none
insert_parsed ms (some p) = some (insert_parts ms p)

unfoldable pub parse_filename : Bytes → List MmInfo → Option (List MmInfo)
unfolding parts_loop insert_parsed
parse_filename filename ms = insert_parsed ms (parts_loop filename no_parts)

unfoldable pub traverse_directory : List Entry → List MmInfo → Option (List MmInfo)
unfolding parse_filename
traverse_directory [] ms = some ms
traverse_directory (e ∷ es) ms =
    if starts (46 ∷ []) e.d_name
    then traverse_directory es ms
    else (elim (parse_filename e.d_name ms) [ none ↦ none | some ms' ↦ traverse_directory es ms' ])

-- The return value is -1 just when the directory cannot be opened.
unfoldable pub read_local_file_to_list : Directory → List MmInfo → Option (List MmInfo)
unfolding traverse_directory
read_local_file_to_list none ms = some ms
read_local_file_to_list (some es) ms = traverse_directory es ms
