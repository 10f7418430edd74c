-- ===== src/Transfer/Chunks.antt =====
-- What the packets of a file hold together.
use sanbao_prot.Base.{
  ℕ, zero, suc, ◌+◌, ◌*◌, ◌^◌, ◌≤◌, ◌<◌, ◌≡◌, refl, sym, ap, ◌∙◌, [], ◌∷◌, ◌++◌, Bytes, length,
  take, drop, take_all, length-take, length-drop, arith,
}
use sanbao_prot.Prot.{image_size_per_packet}
use sanbao_prot.Transfer.{chunk, file_size, packets}

take_nil : (n : ℕ) → take {A = ℕ} n [] ≡ []
take_nil zero = refl
take_nil (suc n) = refl

drop_nil : (n : ℕ) → drop {A = ℕ} n [] ≡ []
drop_nil zero = refl
drop_nil (suc n) = refl

take_add : (a b : ℕ) (xs : Bytes) → take a xs ++ take b (drop a xs) ≡ take (a + b) xs
take_add zero b xs = ap (λ i. take i xs) (omega arith)
take_add (suc a) b [] = take_nil b ∙ sym (take_nil (suc a + b))
take_add (suc a) b (x ∷ xs) =
    let sum : suc (a + b) ≡ suc a + b = omega arith in
    ap (◌∷◌ x) (take_add a b xs) ∙ ap (λ i. take i (x ∷ xs)) sum

drop_add : (a b : ℕ) (xs : Bytes) → drop b (drop a xs) ≡ drop (a + b) xs
drop_add zero b xs = ap (λ i. drop i xs) (omega arith)
drop_add (suc a) b [] = drop_nil b ∙ sym (drop_nil (suc a + b))
drop_add (suc a) b (x ∷ xs) =
    let sum : suc (a + b) ≡ suc a + b = omega arith in
    drop_add a b xs ∙ ap (λ i. drop i (x ∷ xs)) sum

-- The data of n packets from number k on.
abbrev pub joined : Bytes → ℕ → ℕ → Bytes
joined content k zero = []
joined content k (suc n) = chunk content k ++ joined content (k + 1) n

joined-take :
    (content : Bytes) (n k : ℕ)
    → joined content k n
      ≡ take (n * image_size_per_packet) (drop (k * image_size_per_packet) content)
unfolding chunk
joined-take content zero k = refl
joined-take content (suc n) k =
    let size = image_size_per_packet in
    let rest = drop (k * size) content in
    let here : drop ((k + 1) * size) content ≡ drop size rest =
      ap (λ i. drop i content) (omega arith) ∙ sym (drop_add (k * size) size content) in
    ap (take size rest ++◌) (joined-take content n (k + 1) ∙ ap (take (n * size)) here)
    ∙ take_add size (n * size) rest
    ∙ ap (λ i. take i rest) (omega arith)

file_size_le : (content : Bytes) → file_size content ≤ length content
unfolding file_size
file_size_le content = ground arith

-- The size of a file that an `int` holds.
pub file_size_small :
    (content : Bytes) → length content < 2 ^ 31 → file_size content ≡ length content
unfolding file_size
file_size_small content h = ground arith

-- The packets of a file that is 64 KiB or more below 2 GiB hold the whole of it, in order.
pub joined-packets :
    (content : Bytes)
    → length content + image_size_per_packet ≤ 2 ^ 31
    → joined content 0 (packets content) ≡ content
unfolding packets
joined-packets content h =
    let enough : length content ≤ packets content * image_size_per_packet =
      omega (arith, file_size_small content (omega arith)) in
    joined-take content (packets content) 0
    ∙ take_all (packets content * image_size_per_packet) content enough

-- A packet within the number of packets has data in it.
pub chunk_data : (content : Bytes) (k : ℕ) → k < packets content → 0 < length (chunk content k)
unfolding chunk packets
chunk_data content k h =
    let size = image_size_per_packet in
    omega (
      arith,
      file_size_le content,
      length-take size (drop (k * size) content),
      length-drop (k * size) content,
    )
