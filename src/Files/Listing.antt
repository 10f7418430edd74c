-- ===== src/Files/Listing.antt =====
-- What `read_local_file_to_list` makes of the files that the program itself has named.
use sanbao_prot.Base.{
  ℕ, zero, suc, ◌+◌, ◌/◌, ◌%◌, ◌≤◌, ◌≡◌, refl, sym, subst, ap, ◌∙◌, true, false, List, [], ◌∷◌,
  ◌++◌, Bytes, All, some, arith, length, length-append, set, leb, ◌==◌, same_bytes,
}
use sanbao_prot.Files.{
  digits, mmid_to_filename, is_digit, Entry, Parts, put_char, parts_loop, get_mm_type, insert_parts,
  insert_parsed, no_parts, parse_filename, traverse_directory, read_local_file_to_list, starts,
}
use sanbao_prot.Resource.{MmInfo}

abbrev Digits : Bytes → Type 0
Digits s = All (λ c. is_digit c ≡ true) s

append-Digits : (s t : Bytes) → Digits s → Digits t → Digits (s ++ t)
append-Digits [] t h k = k
append-Digits (c ∷ s) t (d, h) k = (d, append-Digits s t h k)

digits-Digits : (k n : ℕ) → Digits (digits k n)
digits-Digits zero n = tt
digits-Digits (suc k) n =
    append-Digits (digits k (n / 10)) _ (digits-Digits k (n / 10)) (ground arith, tt)

length-digits : (k n : ℕ) → length (digits k n) ≡ k
length-digits zero n = refl
length-digits (suc k) n =
    length-append (digits k (n / 10)) ((48 + n % 10) ∷ []) ∙ omega (arith, length-digits k (n / 10))

-- Digits all go to `mm_id`.
parts_loop-Digits :
    (s : Bytes) (p : Parts)
    → Digits s
    → p.in_type ≡ false
    → p.j + length s ≤ 32
    → (p' : Parts) × (parts_loop s p ≡ some p') × (p'.file_type ≡ p.file_type)
unfolding parts_loop put_char
parts_loop-Digits [] p h plain short = (p, refl, refl)
parts_loop-Digits (c ∷ s) p (d, h) plain short =
    let p1 : Parts = record p { mm_id = set p.mm_id p.j c; in_type = false; j = p.j + 1 } in
    let (p', e, same) = parts_loop-Digits s p1 h refl (omega arith) in
    let no_point : (c == 46) ≡ false = ground arith in
    let room : leb 32 p.j ≡ false = ground arith in (p', rw (no_point, room, plain) e, same)

no_type : (ms : List MmInfo) (p : Parts) → p.file_type ≡ no_parts.file_type → insert_parts ms p ≡ ms
unfolding insert_parts get_mm_type same_bytes
no_type ms p e = subst (λ t. insert_parts ms (record p { file_type = t }) ≡ ms) (sym e) refl

parse_filename-Digits :
    (s : Bytes) (ms : List MmInfo) → Digits s → length s ≤ 32 → parse_filename s ms ≡ some ms
unfolding parse_filename insert_parsed
parse_filename-Digits s ms h short =
    let (p', e, same) = parts_loop-Digits s no_parts h refl (omega arith) in
    ap (insert_parsed ms) e ∙ ap some (no_type ms p' same)

not_hidden : (s : Bytes) → Digits s → starts (46 ∷ []) s ≡ false
unfolding same_bytes
not_hidden [] h = refl
not_hidden (c ∷ s) (d, h) = ground arith

abbrev pub own_files : List ℕ → List Entry
own_files [] = []
own_files (id ∷ ids) =
    record { d_name = mmid_to_filename id; is_dir = false; st_size = 0 } ∷ own_files ids

-- The media files that the program has named leave the list of media resources as it was: their
-- names have no type.
pub read_local_file_to_list-own_files :
    (ids : List ℕ) (ms : List MmInfo) → read_local_file_to_list (some (own_files ids)) ms ≡ some ms
unfolding read_local_file_to_list traverse_directory mmid_to_filename
read_local_file_to_list-own_files [] ms = refl
read_local_file_to_list-own_files (id ∷ ids) ms =
    let name = digits 10 id in
    let h = digits-Digits 10 id in
    let short : length name ≤ 32 = omega (arith, length-digits 10 id) in
    rw (not_hidden name h, parse_filename-Digits name ms h short)
      (read_local_file_to_list-own_files ids ms)
