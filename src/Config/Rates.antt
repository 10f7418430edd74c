-- ===== src/Config/Rates.antt =====
-- The arrays of bit rates in a configuration.
use sanbao_prot.Base.{
  ℕ, suc, ◌+◌, ◌^◌, ◌≤◌, ◌<◌, ◌≡◌, refl, sym, ap, ◌∙◌, List, [], ◌∷◌, ◌++◌, append_assoc,
  append-nil, All-take, All-drop, All, some, true, arith, length, length-append, set, set-mid, take,
  drop, take-append-drop, ltb, length-take, length-drop,
}
use sanbao_prot.Config.Json.{get_int}
use sanbao_prot.Config.{rate_loop}
use sanbao_prot.Config.Layout.{items}

pub small : {n m : ℕ} → n < m → ltb n m ≡ true
small h = ground arith

below : (n k : ℕ) → n + suc k ≤ 13 → ltb n 13 ≡ true
below n k h = ground arith

-- The rates are written one behind the other.
rate_loop-items :
    (ns pre old post : List ℕ)
    → length old ≡ length ns
    → length pre + length ns ≤ 13
    → All (λ n. n < 2 ^ 31) ns
    → rate_loop (items ns) (length pre) (pre ++ (old ++ post)) ≡ some (pre ++ (ns ++ post))
unfolding rate_loop get_int
rate_loop-items [] pre [] post same room h = refl
rate_loop-items [] pre (o ∷ old) post same room h = absurd (omega (arith, same))
rate_loop-items (n ∷ ns) pre [] post same room h = absurd (omega (arith, same))
rate_loop-items (n ∷ ns) pre (o ∷ old) post same room (p, h) =
    let pre' = pre ++ n ∷ [] in
    let before : length pre' ≡ suc (length pre) = length-append pre (n ∷ []) ∙ omega arith in
    let rest = rate_loop-items ns pre' old post (omega (arith, same)) (omega (arith, before)) h in
    let there : set (pre ++ o ∷ (old ++ post)) (length pre) n ≡ pre' ++ (old ++ post) =
      set-mid pre o n (old ++ post) ∙ sym (append_assoc pre (n ∷ []) (old ++ post)) in
    rw (small p, below (length pre) (length ns) room)
      (ap (rate_loop (items ns) (suc (length pre))) there
        ∙ ap (λ i. rate_loop (items ns) i (pre' ++ (old ++ post))) (sym before)
        ∙ rest
        ∙ ap some (append_assoc pre (n ∷ []) (ns ++ post)))

-- The rates of ADAS, over those of 13 words.
pub adas_rates :
    (ns old : List ℕ)
    → 7 ≤ length ns
    → length old ≡ 13
    → All (λ n. n < 2 ^ 31) ns
    → rate_loop (items (take 7 ns)) 0 old ≡ some (take 7 ns ++ drop 7 old)
adas_rates ns old enough o13 h =
    let n7 : length (take 7 ns) ≡ 7 = length-take 7 ns ∙ omega (arith, enough) in
    let o7 : length (take 7 old) ≡ 7 = length-take 7 old ∙ omega (arith, o13) in
    ap (rate_loop (items (take 7 ns)) 0) (sym (take-append-drop 7 old))
    ∙ rate_loop-items (take 7 ns) [] (take 7 old) (drop 7 old) (o7 ∙ sym n7) (omega (arith, n7))
        (All-take _ 7 ns h)

pub dms_rates :
    (ns old : List ℕ)
    → length ns ≡ 13
    → length old ≡ 13
    → All (λ n. n < 2 ^ 31) ns
    → rate_loop (items (drop 7 ns)) 7 (take 7 ns ++ drop 7 old) ≡ some ns
dms_rates ns old n13 o13 h =
    let first = take 7 ns in
    let n7 : length first ≡ 7 = length-take 7 ns ∙ omega (arith, n13) in
    let n6 : length (drop 7 ns) ≡ 6 = length-drop 7 ns ∙ omega (arith, n13) in
    let o6 : length (drop 7 old) ≡ 6 = length-drop 7 old ∙ omega (arith, o13) in
    ap (λ l. rate_loop (items (drop 7 ns)) 7 (first ++ l)) (sym (append-nil (drop 7 old)))
    ∙ ap (λ i. rate_loop (items (drop 7 ns)) i (first ++ (drop 7 old ++ []))) (sym n7)
    ∙ rate_loop-items (drop 7 ns) first (drop 7 old) [] (o6 ∙ sym n6) (omega (arith, n7, n6))
        (All-drop _ 7 ns h)
    ∙ ap (λ l. some (first ++ l)) (append-nil (drop 7 ns))
    ∙ ap some (take-append-drop 7 ns)
