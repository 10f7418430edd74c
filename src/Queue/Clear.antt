-- ===== src/Queue/Clear.antt =====
-- What `clear_queue` does to a queue of messages.
use sanbao_prot.Base.{◌≡◌, List, [], ◌∷◌, none, some, Bytes, arith}
use sanbao_prot.Queue.{Node, ptr_queue_pop, clear_queue, take_out}
use sanbao_prot.Queue.Laws.{Holds, Carries, cons}

-- One waiting message is thrown away.
clear_queue_one : {n : Node} {b : Bytes} → Carries n b → clear_queue (n ∷ []) ≡ some []
unfolding clear_queue ptr_queue_pop
clear_queue_one {n} c = rw (c.content, take_out)

-- Whenever two messages or more are waiting, the second one is written through the pointer that the
-- first left in `header.buf`, to a block that is freed by then.
pub clear_queue_wild :
    {q : List Node} {a b : Bytes} {w : List Bytes} → Holds q (a ∷ b ∷ w) → clear_queue q ≡ none
unfolding clear_queue ptr_queue_pop
clear_queue_wild (cons {n} c (cons {n = m} d h)) = ground (arith, c.content, d.content)
