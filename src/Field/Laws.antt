-- ===== src/Field/Laws.antt =====
-- Reading behind a write, and what a table of checks does to each of its fields.
use native.Mathlib.Nat.{le_trans}
use sanbao_prot.Base.{
  ℕ, ◌+◌, ◌/◌, ◌%◌, ◌≤◌, ◌<◌, ◌≡◌, ◌⊎◌, inl, inr, refl, ap, ◌∙◌, List, [], ◌∷◌, ◌||◌, Bytes, length,
  get_or, set, length-set, ltb, if◌then◌else◌, arith, All, get_or-set_self, get_or-set_ne,
}
use sanbao_prot.Field.{
  Field, byte, word, get_field, set_field, start, end, limit, Rule, check_rule, check_rules,
}

pub length-set_field : (p : Bytes) (f : Field) (v : ℕ) → length (set_field p f v) ≡ length p
unfolding set_field
length-set_field p (byte i) v = length-set p i (v % 256)
length-set_field p (word i) v =
    length-set (set p i (v % 256)) (i + 1) (v / 256 % 256) ∙ length-set p i (v % 256)

length-check_rule : (p : Bytes) (r : Rule) → length (check_rule p r) ≡ length p
unfolding check_rule
length-check_rule p r = ground (arith, length-set_field p r.field r.fallback)

pub length-check_rules : (rs : List Rule) (p : Bytes) → length (check_rules rs p) ≡ length p
unfolding check_rules
length-check_rules [] p = refl
length-check_rules (r ∷ rs) p = length-check_rules rs (check_rule p r) ∙ length-check_rule p r

pub get_field-set_field_self :
    (p : Bytes) (f : Field) (v : ℕ)
    → end f ≤ length p
    → v < limit f
    → get_field (set_field p f v) f ≡ v
unfolding get_field set_field
get_field-set_field_self p (byte i) v h k =
    omega (arith, get_or-set_self p i (v % 256) 0 (omega arith))
get_field-set_field_self p (word i) v h k = omega (
  arith,
  get_or-set_ne (set p i (v % 256)) (i + 1) i (v / 256 % 256) 0 (omega arith),
  get_or-set_self p i (v % 256) 0 (omega arith),
  get_or-set_self (set p i (v % 256)) (i + 1) (v / 256 % 256) 0
      (omega (arith, length-set p i (v % 256))),
)

-- A write to a field leaves the cells outside it.
pub get_or-set_field :
    (p : Bytes) (f : Field) (v k : ℕ)
    → (k < start f) ⊎ (end f ≤ k)
    → get_or (set_field p f v) k 0 ≡ get_or p k 0
unfolding set_field
get_or-set_field p (byte i) v k h = get_or-set_ne p i k (v % 256) 0 (omega arith)
get_or-set_field p (word i) v k h =
    get_or-set_ne (set p i (v % 256)) (i + 1) k (v / 256 % 256) 0 (omega arith)
    ∙ get_or-set_ne p i k (v % 256) 0 (omega arith)

get_or-check_rule :
    (p : Bytes) (r : Rule) (k : ℕ)
    → (k < start r.field) ⊎ (end r.field ≤ k)
    → get_or (check_rule p r) k 0 ≡ get_or p k 0
unfolding check_rule
get_or-check_rule p r k h = ground (arith, get_or-set_field p r.field r.fallback k h)

-- What the check leaves in the field.
pub corrected : Rule → ℕ → ℕ
corrected r v = if ltb v r.lo || ltb r.hi v then r.fallback else v

-- The rule's own fallback passes its check and fits the field, and the field lies in the block.
pub record IsRule (size : ℕ) (r : Rule) : Type 0 where
  pub above : r.lo ≤ r.fallback
  pub below : r.fallback ≤ r.hi
  pub representable : r.hi < limit r.field
  pub inside : end r.field ≤ size

pub corrected_in_range : (r : Rule) (v : ℕ) → r.lo ≤ v → v ≤ r.hi → corrected r v ≡ v
unfolding corrected
corrected_in_range r v lo hi = ground arith

pub corrected_bounds :
    (size : ℕ) (r : Rule) (v : ℕ) → IsRule size r → (r.lo ≤ corrected r v) × (corrected r v ≤ r.hi)
unfolding corrected
corrected_bounds size r v h = ground arith

get_field-check_rule :
    (p : Bytes) (r : Rule)
    → IsRule (length p) r
    → get_field (check_rule p r) r.field ≡ corrected r (get_field p r.field)
unfolding check_rule corrected
get_field-check_rule p r h = ground (
  arith,
  get_field-set_field_self p r.field r.fallback h.inside (omega (arith, h.below, h.representable)),
)

-- The fields of a table follow one another, from the offset `at` on.
abbrev pub Follow : ℕ → ℕ → List Rule → Type 0
Follow size at [] = Unit {0}
Follow size at (r ∷ rs) = (at ≤ start r.field) × IsRule size r × Follow size (end r.field) rs

pub data In {ℓ} {A : Type ℓ} (a : A) : List A → Type ℓ where
  here : {xs : List A} → In a (a ∷ xs)
  there : {x : A} {xs : List A} → In a xs → In a (x ∷ xs)

start-le-end : (f : Field) → start f ≤ end f
start-le-end (byte i) = omega arith
start-le-end (word i) = omega arith

pub In-Follow :
    {r : Rule} {rs : List Rule}
    → In r rs
    → (size at : ℕ) → Follow size at rs
    → (at ≤ start r.field) × IsRule size r
In-Follow here size at (a, i, f) = (a, i)
In-Follow (there {x} m) size at (a, i, f) =
    let (b, j) = In-Follow m size (end x.field) f in
    let wide = start-le-end x.field in (le_trans a (le_trans wide b), j)

-- Cells in front of a table stay as they are.
get_or-check_rules :
    (rs : List Rule) (p : Bytes) (size at k : ℕ)
    → Follow size at rs
    → k < at
    → get_or (check_rules rs p) k 0 ≡ get_or p k 0
unfolding check_rules
get_or-check_rules [] p size at k f h = refl
get_or-check_rules (r ∷ rs) p size at k (a, i, f) h =
    get_or-check_rules rs (check_rule p r) size (end r.field) k f
      (omega (arith, start-le-end r.field))
    ∙ get_or-check_rule p r k (inl (omega arith))

pub get_field-ext :
    (p q : Bytes) (f : Field)
    → ((k : ℕ) → start f ≤ k → k < end f → get_or p k 0 ≡ get_or q k 0)
    → get_field p f ≡ get_field q f
unfolding get_field
get_field-ext p q (byte i) h = h i (omega arith) (omega arith)
get_field-ext p q (word i) h =
    omega (arith, h i (omega arith) (omega arith), h (i + 1) (omega arith) (omega arith))

-- Every field of a table ends as its own check corrects it; no other check touches it.
pub get_field-check_rules :
    {r : Rule} {rs : List Rule}
    → In r rs
    → (p : Bytes) (at : ℕ) → Follow (length p) at rs
    → get_field (check_rules rs p) r.field ≡ corrected r (get_field p r.field)
unfolding check_rules
get_field-check_rules {r} (here {xs = rs}) p at (a, i, f) =
    get_field-ext (check_rules rs (check_rule p r)) (check_rule p r) r.field
      (λ k lo hi. get_or-check_rules rs (check_rule p r) (length p) (end r.field) k f hi)
    ∙ get_field-check_rule p r i
get_field-check_rules {r} (there {x} {xs = rs} m) p at (a, i, f) =
    let size = length-check_rule p x in
    get_field-check_rules m (check_rule p x) (end x.field) (rw size f)
    ∙ ap (corrected r) (
        get_field-ext (check_rule p x) p r.field
          (λ k lo hi. get_or-check_rule p x k (inr (le_trans (In-Follow m (length p) _ f).0 lo))))

-- So after the checks every field of the table is in its range.
pub check_rules_bounds :
    {r : Rule} {rs : List Rule}
    → In r rs
    → (p : Bytes) (at : ℕ) → Follow (length p) at rs
    → (r.lo ≤ get_field (check_rules rs p) r.field) × (get_field (check_rules rs p) r.field ≤ r.hi)
check_rules_bounds {r} m p at f =
    rw (get_field-check_rules m p at f)
      (corrected_bounds (length p) r (get_field p r.field) (In-Follow m (length p) at f).1)

pub All-In {ℓ κ} : {A : Type ℓ} (P : A → Type κ) {a : A} {xs : List A} → In a xs → All P xs → P a
All-In P here (h, hs) = h
All-In P (there m) (h, hs) = All-In P m hs

pub corrected_fallback : (size : ℕ) (r : Rule) → IsRule size r → corrected r r.fallback ≡ r.fallback
unfolding corrected
corrected_fallback size r h = ground arith
