-- ===== src/Upgrade/Install.antt =====
-- An upgrade file from its packet 0 to its last packet.
use sanbao_prot.Base.{
  ℕ, suc, ◌+◌, ◌-◌, ◌%◌, ◌^◌, ◌<◌, ◌≡◌, refl, sym, ap, ◌∙◌, subst, true, List, [], ◌∷◌, ◌++◌,
  append_assoc, append-nil, Bytes, length, length-append, take_all, drop_all, arith,
}
use sanbao_prot.App.{Upgrade}
use sanbao_prot.Upgrade.Sums.{
  get_sum_small, joined, feed, upload, data_step, verdict, last_step, last_packet-verdict,
  verdict_eq, upload-verdict,
}
use sanbao_prot.Upgrade.{get_sum, write_at, first_packet, data_packet, trans_packet}

write_at_end : (bytes content : Bytes) → write_at (length content) bytes content ≡ content ++ bytes
unfolding write_at
write_at_end [] content = sym (append-nil content)
write_at_end (b ∷ bytes) content =
    let none_between : length content - length content ≡ 0 = omega arith in
    rw
      (
        none_between,
        take_all (length content) content (omega arith),
        drop_all (length content + suc (length bytes)) content (omega arith),
        append-nil bytes,
      )
      refl

-- What data packets do to a file that can be written and of which `offset` is the end.
record Grown (bytes : Bytes) (u r : Upgrade) : Type 0 where
  content : r.content ≡ u.content ++ bytes
  offset : r.offset ≡ length r.content
  writable : r.writable ≡ true

data_packet-Grown :
    (p : Bytes) (u : Upgrade)
    → u.writable ≡ true
    → u.offset ≡ length u.content
    → length u.content + length p < 2 ^ 32
    → Grown p u (data_packet p u)
unfolding data_packet
data_packet-Grown p u w at_end fits =
    rw (w, at_end, write_at_end p u.content)
      (record {
        content = refl;
        offset = omega (arith, length-append u.content p);
        writable = refl;
      })

feed-Grown :
    (num k : ℕ) (parts : List Bytes) (u : Upgrade)
    → u.writable ≡ true
    → u.offset ≡ length u.content
    → length u.content + length (joined parts) < 2 ^ 32
    → 0 < k
    → k + length parts < num
    → Grown (joined parts) u (feed num k parts u)
feed-Grown num k [] u w at_end fits pos h = record {
  content = sym (append-nil u.content);
  offset = at_end;
  writable = w;
}
feed-Grown num k (p ∷ ps) u w at_end fits pos h =
    let v = record u { packet_num = num; packet_index = k } in
    let size = length-append p (joined ps) in
    let one = data_packet-Grown p v w at_end (omega (arith, size)) in
    let fits' : length (data_packet p v).content + length (joined ps) < 2 ^ 32 =
      omega (arith, ap length one.content, length-append u.content p, size) in
    let rest =
      feed-Grown num (k + 1) ps (data_packet p v) one.writable one.offset fits' (omega arith)
        (omega arith) in
    subst (λ x. Grown (p ++ joined ps) u (feed num (k + 1) ps x))
      (sym (data_step num k p u pos (omega arith)))
      (record {
        content =
            rest.content ∙ ap (◌++ joined ps) one.content ∙ append_assoc u.content p (joined ps);
        offset = rest.offset;
        writable = rest.writable;
      })

-- The first upload since the program started, its packets in order, of less than 4 GiB into a file
-- that can be written: the file then holds the packets' data in order, and the script runs, answer 0, just if the
-- announced sum is that of the data.
pub upload-installs :
    (sum : ℕ) (parts : List Bytes) (last : Bytes) (u : Upgrade)
    → u.sum_new ≡ 0
    → u.offset ≡ 0
    → u.writable ≡ true
    → length (joined parts ++ last) < 2 ^ 32
    → let done = verdict (get_sum (joined parts ++ last)) sum in
      let (r, result) = upload sum parts last u in
      (r.content ≡ joined parts ++ last) × (r.runs ≡ u.runs + done) × (result ≡ 1 - done)
unfolding trans_packet first_packet
upload-installs sum parts last u fresh start w fits =
    let num = length parts + 2 in
    let k = length parts + 1 in
    let v = (trans_packet num 0 sum [] u).0 in
    let size = length-append (joined parts) last in
    let fed = feed-Grown num 1 parts v w start (omega (arith, size)) (omega arith) (omega arith) in
    let x = record (feed num 1 parts v) { packet_num = num; packet_index = k } in
    let one =
      data_packet-Grown last x fed.writable fed.offset
        (omega (arith, ap length fed.content, size)) in
    let (_, _, content, _) = last_packet-verdict (data_packet last x) in
    let end = last_step num k last (feed num 1 parts v) (omega arith) (omega arith) in
    let (runs, result, _) = upload-verdict sum parts last u (omega arith) in
    let total : (u.sum_new + get_sum (joined parts ++ last)) % 2 ^ 32
        ≡ get_sum (joined parts ++ last) =
      omega (arith, get_sum_small (joined parts ++ last)) in
    let same = verdict_eq {s = sum} total refl in
    (
      ap (λ (o : Upgrade × ℕ). o.0.content) end ∙ content ∙ one.content ∙ ap (◌++ last) fed.content,
      omega (arith, runs, same),
      omega (arith, result, same),
    )
