-- ===== src/Files/Order.antt =====
-- What `getmmFileNumMax` finds in the directory.
use sanbao_prot.Base.{
  Bool, true, false, ℕ, ◌≡◌, ◌≤◌, ◌⊎◌, inl, inr, refl, sym, ap, ◌∙◌, List, [], ◌∷◌, some, arith,
}
use sanbao_prot.Files.{Entry, larger, get_file_id, max_loop, getmm_file_num_max}

pub data Reordered : List Entry → List Entry → Type 0 where
  same : (es : List Entry) → Reordered es es
  keep : (e : Entry) {es es' : List Entry} → Reordered es es' → Reordered (e ∷ es) (e ∷ es')
  swap : (a b : Entry) (es : List Entry) → Reordered (a ∷ b ∷ es) (b ∷ a ∷ es)
  next : {es es' es'' : List Entry} → Reordered es es' → Reordered es' es'' → Reordered es es''

larger_comm : (d d' : Bool) (x y m : ℕ) → larger d x (larger d' y m) ≡ larger d' y (larger d x m)
larger_comm d d' x y m = ground arith

max_loop-Reordered :
    {es es' : List Entry} → Reordered es es' → (m : ℕ) → max_loop es m ≡ max_loop es' m
unfolding max_loop
max_loop-Reordered (same es) m = refl
max_loop-Reordered (keep e r) m = max_loop-Reordered r (larger e.is_dir (get_file_id e.d_name) m)
max_loop-Reordered (swap a b es) m =
    ap (max_loop es) (larger_comm b.is_dir a.is_dir (get_file_id b.d_name) (get_file_id a.d_name) m)
max_loop-Reordered (next r r') m = max_loop-Reordered r m ∙ max_loop-Reordered r' m

-- No file of the directory has an id above `m`; directories do not count.
abbrev pub Below : ℕ → List Entry → Type 0
Below m [] = Unit
Below m (e ∷ es) = ((e.is_dir ≡ true) ⊎ (get_file_id e.d_name ≤ m)) × Below m es

-- `m` is the id of a file of the directory.
abbrev pub IsId : ℕ → List Entry → Type 0
IsId m [] = ⊥
IsId m (e ∷ es) = ((e.is_dir ≡ false) × (get_file_id e.d_name ≡ m)) ⊎ IsId m es

pub larger_ge : (d : Bool) (x m : ℕ) → m ≤ larger d x m
larger_ge d x m = ground arith

-- The new maximum covers the entry, and is the old one or the entry's id.
larger-covers : (d : Bool) (x m : ℕ) → (d ≡ true) ⊎ (x ≤ larger d x m)
larger-covers true x m = inl refl
larger-covers false x m = inr (ground arith)

larger-from : (d : Bool) (x m : ℕ) → ((d ≡ false) × (x ≡ larger d x m)) ⊎ (larger d x m ≡ m)
larger-from true x m = inr refl
larger-from false x m = ground arith

pub max_loop_ge : (es : List Entry) (m : ℕ) → m ≤ max_loop es m
unfolding max_loop
max_loop_ge [] m = omega arith
max_loop_ge (e ∷ es) m =
    let x = get_file_id e.d_name in
    omega (arith, larger_ge e.is_dir x m, max_loop_ge es (larger e.is_dir x m))

max_loop-Below : (es : List Entry) (m : ℕ) → Below (max_loop es m) es
unfolding max_loop
max_loop-Below [] m = tt
max_loop-Below (e ∷ es) m =
    let x = get_file_id e.d_name in
    let n = larger e.is_dir x m in
    (
      elim (larger-covers e.is_dir x m) [
        | inl dir ↦ inl dir
        | inr le ↦ inr (omega (arith, le, max_loop_ge es n))
      ],
      max_loop-Below es n,
    )

max_loop-IsId : (es : List Entry) (m : ℕ) → (max_loop es m ≡ m) ⊎ IsId (max_loop es m) es
unfolding max_loop
max_loop-IsId [] m = inl refl
max_loop-IsId (e ∷ es) m =
    let x = get_file_id e.d_name in
    let n = larger e.is_dir x m in
    elim (max_loop-IsId es n) [
      | inr later ↦ inr (inr later)
      | inl kept ↦ elim (larger-from e.is_dir x m) [
        | inl (file, it) ↦ inr (inl (file, it ∙ sym kept))
        | inr old ↦ inl (kept ∙ old)
      ]
    ]

-- In whatever order `readdir` gives the entries of a directory, `getmmFileNumMax` finds the same: no
-- file has a larger id, and a file has that id, or the result is 0. Entries that are directories do
-- not count.
pub getmm_file_num_max-largest :
    (es es' : List Entry)
    → Reordered es es'
    → let m = getmm_file_num_max (some es) in
      (getmm_file_num_max (some es') ≡ m) × Below m es × ((m ≡ 0) ⊎ IsId m es)
unfolding getmm_file_num_max
getmm_file_num_max-largest es es' r =
    (sym (max_loop-Reordered r 0), max_loop-Below es 0, max_loop-IsId es 0)
