-- ===== src/Queue/Laws.antt =====
-- The queue as a bounded FIFO.
use sanbao_prot.Base.{
  ℕ, zero, suc, sym, ap, subst, ◌+◌, ◌≤◌, ◌<◌, ◌≡◌, refl, Bool, true, false, List, [], ◌∷◌, ◌++◌,
  Option, none, some, Bytes, length, take_all, length-append, ◌==◌, if◌then◌else◌, arith, eqb_ne,
  Option-cases, inl, inr,
}
use sanbao_prot.Prot.{ptr_queue_buf_size}
use sanbao_prot.Queue.{
  Node, Ptr, Popped, empty, block, Ret, ok, fail, popped, push_node, take_out, fill_out,
  ptr_queue_push, ptr_queue_pop, ptr_queue_buf_cnt, clear_loop, clear_round, clear_queue,
  pull_mm_queue, pulled, null, freed,
}

-- The bounded FIFO that the queue stands for: whole messages, refused when 16 are waiting.
abbrev pub enqueue : List Bytes → Bytes → List Bytes × Ret
enqueue w b = if length w == ptr_queue_buf_cnt then (w, fail) else (w ++ b ∷ [], ok)

-- A node that carries the whole of a message, of a size that fits a queue buffer.
pub record Carries (n : Node) (b : Bytes) : Type 0 where
  pub content : n.buf ≡ some b
  pub len_is : n.len ≡ length b
  pub fits : length b ≤ ptr_queue_buf_size

pub data Holds : List Node → List Bytes → Type 0 where
  nil : Holds [] []
  cons :
      {n : Node} {b : Bytes} {q : List Node} {w : List Bytes}
      → Carries n b
      → Holds q w
      → Holds (n ∷ q) (b ∷ w)

length-Holds : {q : List Node} {w : List Bytes} → Holds q w → length q ≡ length w
length-Holds nil = refl
length-Holds (cons c h) = omega (arith, length-Holds h)

Holds-append :
    {q : List Node} {w : List Bytes} {n : Node} {b : Bytes}
    → Holds q w
    → Carries n b
    → Holds (q ++ n ∷ []) (w ++ b ∷ [])
Holds-append nil c = cons c nil
Holds-append (cons d h) c = cons d (Holds-append h c)

-- Pushing is the FIFO's `enqueue`, result included, when both `malloc`s succeed.
pub ptr_queue_push-Holds :
    {q : List Node} {w : List Bytes} (n : Node) (b : Bytes)
    → Holds q w
    → Carries n b
    → Holds (ptr_queue_push q n true true).0 (enqueue w b).0
      × ((ptr_queue_push q n true true).1 ≡ (enqueue w b).1)
unfolding ptr_queue_push push_node
ptr_queue_push-Holds {q} {w} n b h c =
    let n' = record n { buf = some b } in
    ground (arith, length-Holds h, take_all n.len b, Holds-append h c, c.content, c.len_is, c.fits)

pub ptr_queue_push_room :
    {q : List Node} {w : List Bytes} (n : Node) (b : Bytes)
    → Holds q w
    → length w < ptr_queue_buf_cnt
    → Carries n b
    → Holds (ptr_queue_push q n true true).0 (w ++ b ∷ [])
ptr_queue_push_room {w = w} n b h room c =
    rw (eqb_ne (length w) ptr_queue_buf_cnt (omega arith)) at ((ptr_queue_push-Holds n b h c).0)

pub ptr_queue_pop_front :
    (old msg : Bytes) (n : Node) (rest : List Node)
    → Carries n msg
    → ptr_queue_pop (n ∷ rest) (block old) ptr_queue_buf_size
      ≡ popped (record n { len = length msg }) (block msg) rest
unfolding ptr_queue_pop take_out fill_out
ptr_queue_pop_front old msg n rest c =
    ground (arith, take_all n.len msg, c.content, c.len_is, c.fits)

-- A pop into a buffer of full size takes the oldest message, whole.
pub ptr_queue_pop-Holds :
    {q : List Node} {b : Bytes} {w : List Bytes} (old : Bytes)
    → Holds q (b ∷ w)
    → (n : Node) × (rest : List Node) × (ptr_queue_pop q (block old) ptr_queue_buf_size
        ≡ popped n (block b) rest)
      × (n.len ≡ length b)
      × Holds rest w
unfolding ptr_queue_pop take_out fill_out
ptr_queue_pop-Holds old (cons {n} {b} {q} c h) =
    (n, q, ground (arith, take_all n.len b, c.content, c.len_is, c.fits), c.len_is, h)

length-push_node :
    (q : List Node) (n : Node) (o : Option Bytes) (malloc_buf : Bool)
    → length (push_node q n o malloc_buf).0 ≤ length q + 1
unfolding push_node
length-push_node q n none m = omega (arith, length-append q (record n { len = 0; buf = none } ∷ []))
length-push_node q n (some b) false = omega arith
length-push_node q n (some b) true =
    omega (arith, length-append q ((push_node [] n (some b) true).0))

-- The queue never holds more than 16 nodes, whatever is pushed and whether or not memory is found.
pub ptr_queue_push-bounded :
    (q : List Node) (n : Node) (malloc_header malloc_buf : Bool)
    → length q ≤ ptr_queue_buf_cnt
    → length (ptr_queue_push q n malloc_header malloc_buf).0 ≤ ptr_queue_buf_cnt
unfolding ptr_queue_push
ptr_queue_push-bounded q n a b h = ground (arith, length-push_node q n n.buf b)

pub length-ptr_queue_push :
    (q : List Node) (n : Node) (malloc_header malloc_buf : Bool)
    → length (ptr_queue_push q n malloc_header malloc_buf).0 ≤ length q + 1
unfolding ptr_queue_push
length-ptr_queue_push q n a b = ground (arith, length-push_node q n n.buf b)

-- A pop takes the first node or nothing.
pub data Pops : List Node → Popped → Type 0 where
  nothing : Pops [] empty
  first : {n m : Node} {p : Ptr} {q : List Node} → Pops (n ∷ q) (popped m p q)

pub ptr_queue_pop-Pops :
    (q : List Node) (old : Bytes) (len : ℕ) → Pops q (ptr_queue_pop q (block old) len)
unfolding ptr_queue_pop take_out fill_out
ptr_queue_pop-Pops [] old len = nothing
ptr_queue_pop-Pops (n ∷ q) old len = elim (Option-cases n.buf) [
  | inl none_there ↦ rw none_there first
  | inr (b, there) ↦ rw there first
]

pub length-pull_mm_queue : (q : List Node) → length (pull_mm_queue q).1 ≤ length q
unfolding pull_mm_queue pulled ptr_queue_pop take_out fill_out
length-pull_mm_queue [] = omega arith
length-pull_mm_queue (n ∷ q) = elim (Option-cases n.buf) [
  | inl none_there ↦ rw none_there (omega arith)
  | inr (b, there) ↦ rw there (omega arith)
]

some_inj : (q r : List Node) → some q ≡ some r → q ≡ r
some_inj q r e = ap (λ (o : Option (List Node)). elim o [ some p ↦ p | none ↦ q ]) e

not_some : (r : List Node) → none ≡ some r → ⊥
not_some r e =
    let differ : false ≡ true =
      ap (λ (o : Option (List Node)). elim o [ some p ↦ true | none ↦ false ]) e in
    ground (arith, differ)

-- A pop that takes a node leaves fewer.
abbrev left_by : Popped → List Node
left_by (popped m p rest) = rest
left_by p = []

length-take_out :
    (n : Node) (content : Option Bytes) (q : List Node) (buf : Ptr) (len : ℕ)
    → length (left_by (take_out n content q buf len)) ≤ length (n ∷ q)
unfolding take_out fill_out
length-take_out n none q buf len = omega arith
length-take_out n (some b) q null len = omega arith
length-take_out n (some b) q freed len = omega arith
length-take_out n (some b) q (block _) len = omega arith

length-left_by :
    (q : List Node) (buf : Ptr) (len : ℕ) → length (left_by (ptr_queue_pop q buf len)) ≤ length q
unfolding ptr_queue_pop
length-left_by [] buf len = omega arith
length-left_by (n ∷ q) buf len = length-take_out n n.buf q buf len

pub length-popped :
    (q : List Node) (buf : Ptr) (len : ℕ) (n : Node) (left : Ptr) (rest : List Node)
    → ptr_queue_pop q buf len ≡ popped n left rest
    → length rest ≤ length q
length-popped q buf len n left rest e =
    subst (λ p. length (left_by p) ≤ length q) e (length-left_by q buf len)

-- The rounds that are left leave nothing.
abbrev Empties : (List Node → Ptr → ℕ → Option (List Node)) → Type 0
Empties again =
    (q : List Node) (buf : Ptr) (len : ℕ) (r : List Node) → again q buf len ≡ some r → r ≡ []

clear_round-Empties :
    (again : List Node → Ptr → ℕ → Option (List Node)) (o : Option Bytes) (n : Node) (q : List Node)
    (buf : Ptr) (len : ℕ) (r : List Node)
    → Empties again
    → clear_round again (n ∷ q) (take_out n o q buf len) ≡ some r
    → r ≡ []
unfolding clear_round take_out fill_out
clear_round-Empties again none n q buf len r k h = k q null n.len r h
clear_round-Empties again (some b) n q null len r k h = k q freed n.len r h
clear_round-Empties again (some b) n q freed len r k h = absurd (not_some r h)
clear_round-Empties again (some b) n q (block x) len r k h = k q _ _ r h

-- Whatever a clearing leaves, without a write to freed memory, is empty.
clear_loop-Empties : (rounds : ℕ) → Empties (clear_loop rounds)
unfolding clear_loop clear_round ptr_queue_pop
clear_loop-Empties zero [] buf len r h = sym (some_inj [] r h)
clear_loop-Empties (suc rounds) [] buf len r h = sym (some_inj [] r h)
clear_loop-Empties zero (n ∷ q) buf len r h =
    clear_round-Empties (λ _ _ _. none) n.buf n q buf len r (λ _ _ _ r' e. absurd (not_some r' e)) h
clear_loop-Empties (suc rounds) (n ∷ q) buf len r h =
    clear_round-Empties (clear_loop rounds) n.buf n q buf len r (clear_loop-Empties rounds) h

pub clear_queue-empties : (q r : List Node) → clear_queue q ≡ some r → r ≡ []
unfolding clear_queue
clear_queue-empties q r = clear_loop-Empties (length q) q null ptr_queue_buf_size r
