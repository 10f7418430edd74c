-- ===== src/Net/Sending.antt =====
-- Whether a message is written whole.
use sanbao_prot.Base.{
  ℕ, ◌+◌, ◌-◌, ◌≤◌, ◌<◌, ◌≡◌, refl, ap, ◌∙◌, subst, Bool, true, false, List, [], ◌∷◌, ◌++◌,
  append_assoc, append-nil, Bytes, All, length, take, drop, take-append-drop, length-drop, arith,
}
use sanbao_prot.Net.{
  Write, wrote, wrote_none, write_again, write_failed, Ret, ret, minus, blocked, Sent, tcp_snd,
  tcp_snd_loop, uart_snd, write_loop,
}

-- The bytes that the calls write if they are given that many.
abbrev pub total : List Write → ℕ
total [] = 0
total (wrote n ∷ calls) = n + total calls
total (_ ∷ calls) = total calls

-- The call writes something, or is to be tried again.
abbrev pub GoesOn : Write → Type 0
GoesOn (wrote n) = 1 ≤ n
GoesOn (wrote_none try_again) = try_again ≡ true
GoesOn write_again = Unit
GoesOn write_failed = ⊥

-- A call writes the first of the bytes that are left, and the rest stays.
one_call : (n : ℕ) (rest wire : Bytes) → (wire ++ take n rest) ++ drop n rest ≡ wire ++ rest
one_call n rest wire =
    append_assoc wire (take n rest) (drop n rest) ∙ ap (◌++◌ wire) (take-append-drop n rest)

tcp_snd_loop-whole :
    (calls : List Write) (rest wire : Bytes)
    → All GoesOn calls
    → length rest ≤ total calls
    → tcp_snd_loop calls rest wire ≡ record { wire = wire ++ rest; code = ret 0 }
unfolding tcp_snd_loop
tcp_snd_loop-whole calls [] wire ok enough = rw (append-nil wire) refl
tcp_snd_loop-whole [] (b ∷ rest) wire ok enough = absurd (omega arith)
tcp_snd_loop-whole (wrote n ∷ calls) (b ∷ rest) wire (_, ok) enough =
    tcp_snd_loop-whole calls (drop n (b ∷ rest)) (wire ++ take n (b ∷ rest)) ok
      (omega (arith, length-drop n (b ∷ rest)))
    ∙ ap (λ w. record { wire = w; code = ret 0 }) (one_call n (b ∷ rest) wire)
tcp_snd_loop-whole (wrote_none true ∷ calls) (b ∷ rest) wire (again, ok) enough =
    tcp_snd_loop-whole calls (b ∷ rest) wire ok enough
tcp_snd_loop-whole (wrote_none false ∷ calls) (b ∷ rest) wire (again, ok) enough =
    absurd (ground (arith, again))
tcp_snd_loop-whole (write_again ∷ calls) (b ∷ rest) wire (_, ok) enough =
    tcp_snd_loop-whole calls (b ∷ rest) wire ok enough
tcp_snd_loop-whole (write_failed ∷ calls) (b ∷ rest) wire (bad, ok) enough = absurd bad

-- However the system splits the calls and however often it asks to try again: when the calls do not
-- fail and take as many bytes as the message has, `tcp_snd` returns 0 with the whole message written.
pub tcp_snd-whole :
    (calls : List Write) (buf : Bytes)
    → All GoesOn calls
    → length buf ≤ total calls
    → tcp_snd true calls buf ≡ record { wire = buf; code = ret 0 }
unfolding tcp_snd
tcp_snd-whole calls buf ok enough = tcp_snd_loop-whole calls buf [] ok enough

-- Some of the message was written from its start on, and all of it where 0 is returned.
abbrev pub IsPrefix : Bytes → Sent → Type 0
IsPrefix whole s = (missing : Bytes) × (s.wire ++ missing ≡ whole) × (s.code ≡ ret 0 → missing ≡ [])

stopped :
    (wire rest : Bytes) (c : Ret)
    → (c ≡ ret 0 → ⊥)
    → IsPrefix (wire ++ rest) (record { wire = wire; code = c })
stopped wire rest c bad = (rest, refl, λ e. absurd (bad e))

not_ret : Ret → Bool
not_ret (ret n) = false
not_ret (minus n) = true
not_ret blocked = true

not_ret_sound : (c : Ret) → not_ret c ≡ true → c ≡ ret 0 → ⊥
unfolding not_ret
not_ret_sound c h e = let f : not_ret c ≡ false = ap not_ret e in ground (arith, h, f)

tcp_snd_loop-IsPrefix :
    (calls : List Write) (rest wire : Bytes)
    → IsPrefix (wire ++ rest) (tcp_snd_loop calls rest wire)
unfolding tcp_snd_loop not_ret
tcp_snd_loop-IsPrefix calls [] wire = ([], refl, λ e. refl)
tcp_snd_loop-IsPrefix [] (b ∷ rest) wire =
    stopped wire (b ∷ rest) blocked (not_ret_sound blocked refl)
tcp_snd_loop-IsPrefix (wrote n ∷ calls) (b ∷ rest) wire =
    subst (λ w. IsPrefix w (tcp_snd_loop calls (drop n (b ∷ rest)) (wire ++ take n (b ∷ rest))))
      (one_call n (b ∷ rest) wire)
      (tcp_snd_loop-IsPrefix calls (drop n (b ∷ rest)) (wire ++ take n (b ∷ rest)))
tcp_snd_loop-IsPrefix (wrote_none true ∷ calls) (b ∷ rest) wire =
    tcp_snd_loop-IsPrefix calls (b ∷ rest) wire
tcp_snd_loop-IsPrefix (wrote_none false ∷ calls) (b ∷ rest) wire =
    stopped wire (b ∷ rest) (minus 1) (not_ret_sound (minus 1) refl)
tcp_snd_loop-IsPrefix (write_again ∷ calls) (b ∷ rest) wire =
    tcp_snd_loop-IsPrefix calls (b ∷ rest) wire
tcp_snd_loop-IsPrefix (write_failed ∷ calls) (b ∷ rest) wire =
    stopped wire (b ∷ rest) (minus 1) (not_ret_sound (minus 1) refl)

-- Whatever the calls do, what `tcp_snd` wrote is the start of the message, in order and without
-- repetition, and the whole of it if 0 is returned.
pub tcp_snd-IsPrefix :
    (is_open : Bool) (calls : List Write) (buf : Bytes) → IsPrefix buf (tcp_snd is_open calls buf)
unfolding tcp_snd not_ret
tcp_snd-IsPrefix true calls buf = tcp_snd_loop-IsPrefix calls buf []
tcp_snd-IsPrefix false calls buf = stopped [] buf (minus 1) (not_ret_sound (minus 1) refl)

write_loop-stops :
    (calls : List Write) (count : ℕ) (rest wire : Bytes)
    → 0 < length rest
    → write_loop (write_again ∷ calls) count rest wire
      ≡ record { wire = wire; code = ret (count - length rest) }
unfolding write_loop
write_loop-stops calls count [] wire some_left = absurd (omega arith)
write_loop-stops calls count (b ∷ rest) wire some_left = refl

-- The serial port gives a message up where the socket goes on: when the driver takes the first `n`
-- bytes and then asks to try again, `uart_snd` returns `n` with the rest of the message unwritten,
-- while `tcp_snd` writes the whole of it if the calls behind take the rest.
pub uart_snd-gives_up :
    (n : ℕ) (calls : List Write) (buf : Bytes)
    → 0 < n
    → n < length buf
    → All GoesOn calls
    → length buf ≤ n + total calls
    → let tries = wrote n ∷ write_again ∷ calls in
      (uart_snd tries buf ≡ record { wire = take n buf; code = ret n })
      × (tcp_snd true tries buf ≡ record { wire = buf; code = ret 0 })
unfolding uart_snd write_loop
uart_snd-gives_up n calls [] pos short ok enough = absurd (omega arith)
uart_snd-gives_up n calls (b ∷ rest) pos short ok enough =
    let left = length-drop n (b ∷ rest) in
    let so_far : length (b ∷ rest) - length (drop n (b ∷ rest)) ≡ n = omega arith in
    (
      write_loop-stops calls (length (b ∷ rest)) (drop n (b ∷ rest)) (take n (b ∷ rest))
            (omega arith)
          ∙ ap (λ c. record { wire = take n (b ∷ rest); code = ret c }) so_far,
      tcp_snd-whole (wrote n ∷ write_again ∷ calls) (b ∷ rest) (pos, (tt, ok)) enough,
    )
