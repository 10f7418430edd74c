-- ===== src/Upgrade/Sums.antt =====
-- The sum of an upgrade file's packets, and what the last packet decides by it.
use sanbao_prot.Base.{
  ℕ, ◌+◌, ◌-◌, ◌%◌, ◌^◌, ◌<◌, ◌≡◌, ◌≢◌, refl, sym, ◌∙◌, subst, List, [], ◌∷◌, ◌++◌, Bytes, length,
  arith, eqb_ne, ◌==◌, if◌then◌else◌,
}
use sanbao_prot.App.{Upgrade}
use sanbao_prot.Upgrade.{get_sum, first_packet, data_packet, last_packet, trans_packet}

pub get_sum_small : (xs : Bytes) → get_sum xs < 2 ^ 32
unfolding get_sum
get_sum_small [] = omega arith
get_sum_small (x ∷ xs) = omega arith

get_sum-append : (xs ys : Bytes) → get_sum (xs ++ ys) ≡ (get_sum xs + get_sum ys) % 2 ^ 32
unfolding get_sum
get_sum-append [] ys = omega (arith, get_sum_small ys)
get_sum-append (x ∷ xs) ys = omega (arith, get_sum-append xs ys)

-- The packets' data, one behind the other.
abbrev pub joined : List Bytes → Bytes
joined [] = []
joined (p ∷ ps) = p ++ joined ps

-- Packets from number k on, none of them the last of `num`.
abbrev pub feed : ℕ → ℕ → List Bytes → Upgrade → Upgrade
feed num k [] u = u
feed num k (p ∷ ps) u = feed num (k + 1) ps (trans_packet num k 0 p u).0

-- A whole file: packet 0 with the announced sum, then the data in order.
abbrev pub upload : ℕ → List Bytes → Bytes → Upgrade → Upgrade × ℕ
upload sum parts last u =
    let num = length parts + 2 in
    trans_packet num (length parts + 1) 0 last (feed num 1 parts (trans_packet num 0 sum [] u).0)

pub data_step :
    (num k : ℕ) (p : Bytes) (u : Upgrade)
    → 0 < k
    → k + 1 < num
    → (trans_packet num k 0 p u).0 ≡ data_packet p (record u { packet_num = num; packet_index = k })
unfolding trans_packet
data_step num k p u pos h = ground arith

-- What data packets do to the sums, whether or not the file can be written.
record Summed (bytes : Bytes) (u r : Upgrade) : Type 0 where
  sum_new : r.sum_new ≡ (u.sum_new + get_sum bytes) % 2 ^ 32
  sum : r.sum ≡ u.sum
  runs : r.runs ≡ u.runs

data_packet-Summed : (p : Bytes) (u : Upgrade) → Summed p u (data_packet p u)
unfolding data_packet
data_packet-Summed p u = record { sum_new = ground arith; sum = ground arith; runs = ground arith }

feed-Summed :
    (num k : ℕ) (parts : List Bytes) (u : Upgrade)
    → u.sum_new < 2 ^ 32
    → 0 < k
    → k + length parts < num
    → Summed (joined parts) u (feed num k parts u)
unfolding get_sum
feed-Summed num k [] u small pos h = record { sum_new = omega arith; sum = refl; runs = refl }
feed-Summed num k (p ∷ ps) u small pos h =
    let v = record u { packet_num = num; packet_index = k } in
    let one = data_packet-Summed p v in
    let small' : (data_packet p v).sum_new < 2 ^ 32 = omega (arith, one.sum_new) in
    let rest = feed-Summed num (k + 1) ps (data_packet p v) small' (omega arith) (omega arith) in
    subst (λ w. Summed (p ++ joined ps) u (feed num (k + 1) ps w))
      (sym (data_step num k p u pos (omega arith)))
      (record {
        sum_new = omega (arith, one.sum_new, rest.sum_new, get_sum-append p (joined ps));
        sum = rest.sum ∙ one.sum;
        runs = rest.runs ∙ one.runs;
      })

-- Whether the script runs behind data that leaves this sum.
abbrev pub verdict : ℕ → ℕ → ℕ
verdict sum_new sum = if sum_new == sum then 1 else 0

pub last_step :
    (num k : ℕ) (p : Bytes) (u : Upgrade)
    → 0 < k
    → k + 1 ≡ num
    → trans_packet num k 0 p u
      ≡ last_packet (data_packet p (record u { packet_num = num; packet_index = k }))
unfolding trans_packet
last_step num k p u pos h = ground arith

pub last_packet-verdict :
    (u : Upgrade)
    → ((last_packet u).0.runs ≡ u.runs + verdict u.sum_new u.sum)
      × ((last_packet u).1 ≡ 1 - verdict u.sum_new u.sum)
      × ((last_packet u).0.content ≡ u.content)
      × ((last_packet u).0.sum_new ≡ u.sum_new)
unfolding last_packet
last_packet-verdict u = (ground arith, ground arith, ground arith, ground arith)

pub verdict_eq : {x y s t : ℕ} → x ≡ y → s ≡ t → verdict x s ≡ verdict y t
verdict_eq e f = rw (e, f) refl

-- What the last packet does, from the state in front of it.
record Ended (bytes : Bytes) (u : Upgrade) (out : Upgrade × ℕ) : Type 0 where
  sum_new : out.0.sum_new ≡ (u.sum_new + get_sum bytes) % 2 ^ 32
  runs : out.0.runs ≡ u.runs + verdict ((u.sum_new + get_sum bytes) % 2 ^ 32) u.sum
  result : out.1 ≡ 1 - verdict ((u.sum_new + get_sum bytes) % 2 ^ 32) u.sum

last_packet-Ended :
    (num k : ℕ) (p : Bytes) (u : Upgrade)
    → 0 < k
    → k + 1 ≡ num
    → Ended p u (trans_packet num k 0 p u)
last_packet-Ended num k p u pos h =
    let v = record u { packet_num = num; packet_index = k } in
    let one = data_packet-Summed p v in
    let (runs, result, content, sum_new) = last_packet-verdict (data_packet p v) in
    let same = verdict_eq one.sum_new one.sum in
    subst (Ended p u) (sym (last_step num k p u pos h)) (record {
      sum_new = sum_new ∙ one.sum_new;
      runs = omega (arith, runs, one.runs, same);
      result = omega (arith, result, same);
    })

-- Whatever the state before, an upload compares the announced sum with the sum of all data since
-- the program started; the script runs just if the two agree, and the answer says whether it did.
pub upload-verdict :
    (sum : ℕ) (parts : List Bytes) (last : Bytes) (u : Upgrade)
    → u.sum_new < 2 ^ 32
    → let total = (u.sum_new + get_sum (joined parts ++ last)) % 2 ^ 32 in
      let (r, result) = upload sum parts last u in
      (r.runs ≡ u.runs + verdict total sum) × (result ≡ 1 - verdict total sum) × (r.sum_new ≡ total)
unfolding trans_packet first_packet
upload-verdict sum parts last u small =
    let num = length parts + 2 in
    let v = (trans_packet num 0 sum [] u).0 in
    let fed = feed-Summed num 1 parts v small (omega arith) (omega arith) in
    let w = feed num 1 parts v in
    let end = last_packet-Ended num (length parts + 1) last w (omega arith) (omega arith) in
    let total : (w.sum_new + get_sum last) % 2 ^ 32
        ≡ (u.sum_new + get_sum (joined parts ++ last)) % 2 ^ 32 =
      omega (arith, fed.sum_new, get_sum-append (joined parts) last) in
    let same = verdict_eq total fed.sum in
    (omega (arith, end.runs, fed.runs, same), omega (arith, end.result, same), end.sum_new ∙ total)

-- A second upload fails: behind a file whose sum is not 0, a file with the right sum is answered
-- with 1 and the script does not run, since the sum of the first file is still counted.
pub upload_again :
    (sum : ℕ) (parts parts' : List Bytes) (last last' : Bytes) (u : Upgrade)
    → u.sum_new ≡ 0
    → get_sum (joined parts ++ last) ≢ 0
    → let r = (upload sum parts last u).0 in
      let (r', result) = upload (get_sum (joined parts' ++ last')) parts' last' r in
      (r'.runs ≡ r.runs) × (result ≡ 1)
upload_again sum parts parts' last last' u fresh some_sum =
    let file = joined parts' ++ last' in
    let r = (upload sum parts last u).0 in
    let (_, _, left) = upload-verdict sum parts last u (omega arith) in
    let small = get_sum_small (joined parts ++ last) in
    let (runs, result, _) = upload-verdict (get_sum file) parts' last' r (omega (arith, left)) in
    let differ : (r.sum_new + get_sum file) % 2 ^ 32 ≢ get_sum file =
      λ e. omega (arith, left, e, small, get_sum_small file, some_sum) in
    let no : verdict ((r.sum_new + get_sum file) % 2 ^ 32) (get_sum file) ≡ 0 =
      rw (eqb_ne _ _ differ) refl in
    (omega (arith, runs, no), omega (arith, result, no))
