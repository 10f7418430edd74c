-- ===== src/Setting/Write.antt =====
-- A request that sets the ADAS parameters, from its bytes to the fields that are stored.
use sanbao_prot.App.{App}
use sanbao_prot.Base.{
  ℕ, ◌+◌, ◌-◌, ◌≤◌, ◌<◌, ◌≡◌, ◌≢◌, refl, sym, ap, ◌∙◌, true, ◌==◌, subst, eqb_ne, inl, inr, some,
  Bytes, IsByte, All, length, get_or, take, drop, length-take, length-drop, arith,
}
use sanbao_prot.Field.Laws.{corrected, corrected_in_range, In, All-In}
use sanbao_prot.Field.{Field, byte, word, Rule, get_field, limit}
use sanbao_prot.Para.Adas
use sanbao_prot.Para.Files.{full, write_local_adas-full}
use sanbao_prot.Para.{Paras, write_dev_para}
use sanbao_prot.Para.Words.{merged_field}
use sanbao_prot.Para.WriteAdas.{
  IsAdasField, write_dev_para-adas, rules-IsAdasField, length-write_dev_para,
}
use sanbao_prot.Prot.{id_adas, read_be16}
use sanbao_prot.Setting.{swap_word, swap_adas, store_adas, store_para}
use sanbao_prot.Setting.Swap.{
  get_or-take, get_or-drop, All-take, All-drop, swap_word-IsByte, sent, get_field-swap_adas,
}

-- The payload of the request.
abbrev pub payload : Bytes → Bytes
payload msg = take 50 (drop 8 msg)

get_or-payload : (msg : Bytes) (i : ℕ) → i < 50 → get_or (payload msg) i 0 ≡ get_or msg (8 + i) 0
get_or-payload msg i h = get_or-take 50 i (drop 8 msg) h ∙ get_or-drop 8 i msg

sent-payload : (msg : Bytes) (f : Field) → IsAdasField f → sent (payload msg) 0 f ≡ sent msg 8 f
unfolding read_be16
sent-payload msg (byte i) (h, free) =
    ap (λ k. get_or (payload msg) k 0) (omega arith) ∙ get_or-payload msg i h
sent-payload msg (word i) (inl e) =
    let three : read_be16 (payload msg) 3 ≡ read_be16 msg 11 =
      omega (arith, get_or-payload msg 3 (omega arith), get_or-payload msg 4 (omega arith)) in
    subst (λ k. sent (payload msg) 0 (word k) ≡ sent msg 8 (word k)) (sym e) three
sent-payload msg (word i) (inr e) =
    let five : read_be16 (payload msg) 5 ≡ read_be16 msg 13 =
      omega (arith, get_or-payload msg 5 (omega arith), get_or-payload msg 6 (omega arith)) in
    subst (λ k. sent (payload msg) 0 (word k) ≡ sent msg 8 (word k)) (sym e) five

-- What the request asks to be merged.
abbrev received : Bytes → Bytes
received msg = swap_adas (payload msg)

received-IsByte : (msg : Bytes) → All IsByte msg → All IsByte (received msg)
unfolding swap_adas
received-IsByte msg h =
    swap_word-IsByte 5 (swap_word 3 (payload msg))
      (swap_word-IsByte 3 (payload msg) (All-take 50 (drop 8 msg) (All-drop 8 msg h)))

length-payload : (msg : Bytes) → 58 ≤ length msg → length (payload msg) ≡ 50
length-payload msg h = omega (arith, length-take 50 (drop 8 msg), length-drop 8 msg)

rules_below : All (λ (r : Rule). r.hi < limit r.field - 1) Adas.rules
rules_below = omega arith

-- The parameters behind the merge.
stored_field :
    {r : Rule}
    → In r Adas.rules
    → (msg : Bytes) (s : Paras) → 58 ≤ length msg
    → All IsByte msg
    → length s.adas_para ≡ 50
    → r.lo ≤ sent msg 8 r.field
    → sent msg 8 r.field ≤ r.hi
    → get_field (write_dev_para id_adas (received msg) s).adas_para r.field ≡ sent msg 8 r.field
stored_field {r} m msg s whole bytes size lo hi =
    let v = sent msg 8 r.field in
    let is = rules-IsAdasField m in
    let value : get_field (received msg) r.field ≡ v =
      get_field-swap_adas (payload msg) r.field (length-payload msg whole) is
      ∙ sent-payload msg r.field is in
    let ne : v ≢ limit r.field - 1 =
      λ e. omega (arith, e, hi, All-In (λ (q : Rule). q.hi < limit q.field - 1) m rules_below) in
    let kept : merged_field (received msg) s.adas_para r.field ≡ v =
      rw (value, eqb_ne _ _ ne) refl in
    write_dev_para-adas m (received msg) s size (received-IsByte msg bytes)
    ∙ ap (corrected r) kept
    ∙ corrected_in_range r v lo hi

store_para-adas_eq :
    (msg : Bytes) (a : App)
    → get_or msg 6 0 ≡ id_adas
    → store_para msg 59 a ≡ (let (b, ret) = store_adas (received msg) a in (b, ret == 0))
unfolding store_para
store_para-adas_eq msg a id = rw id refl

store_adas-room :
    (inn : Bytes) (a : App)
    → length a.paras.adas_para ≡ 50
    → a.adas_file.writable ≡ true
    → 50 ≤ a.adas_file.space
    → let s = write_dev_para id_adas inn a.paras in
      store_adas inn a ≡ (record a { paras = s; adas_file = full s.adas_para a.adas_file }, 0)
unfolding store_adas
store_adas-room inn a size w room =
    let s = write_dev_para id_adas inn a.paras in
    rw
      (write_local_adas-full s a.adas_file w
        (omega (arith, length-write_dev_para inn a.paras size)))
      refl

-- A whole request to set the ADAS parameters, with room in their file, succeeds: the file then
-- holds the parameters in use, and each checked field that was sent in its range has the value
-- that was sent.
pub store_para-adas :
    {r : Rule}
    → In r Adas.rules
    → (msg : Bytes) (a : App) → get_or msg 6 0 ≡ id_adas
    → 58 ≤ length msg
    → All IsByte msg
    → length a.paras.adas_para ≡ 50
    → a.adas_file.writable ≡ true
    → 50 ≤ a.adas_file.space
    → r.lo ≤ sent msg 8 r.field
    → sent msg 8 r.field ≤ r.hi
    → let (b, done) = store_para msg 59 a in
      (done ≡ true)
      × (b.adas_file.content ≡ some b.paras.adas_para)
      × (get_field b.paras.adas_para r.field ≡ sent msg 8 r.field)
store_para-adas {r} m msg a id whole bytes size w room lo hi =
    let s = write_dev_para id_adas (received msg) a.paras in
    rw (store_para-adas_eq msg a id, store_adas-room (received msg) a size w room)
      (refl, refl, stored_field m msg a.paras whole bytes size lo hi)
