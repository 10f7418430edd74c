-- ===== src/Queue.antt =====
-- The bounded queue of common.cpp (`ptr_queue_push`, `ptr_queue_pop`), and its uses in process.cpp:
-- `push_mm_queue`, `pull_mm_queue` and `clear_queue`. Each body runs under the queue's lock, so a
-- call is one step. Whether `malloc` succeeds is an argument.
pub mod Laws
pub mod Clear
use sanbao_prot.Base.{
  ℕ, zero, suc, ◌+◌, Bool, true, false, not, List, [], ◌∷◌, ◌++◌, Option, none, some, Bytes, length,
  take, ltb, ◌==◌, if◌then◌else◌,
}
use sanbao_prot.Prot.{ptr_queue_buf_size}

-- PTR_QUEUE_BUF_CNT
abbrev pub ptr_queue_buf_cnt : ℕ
ptr_queue_buf_cnt = 16

pub data AckStatus : Type 0 where
  ack_ready ack_waiting no_need_ack : AckStatus

-- The fields of `SendStatus` that the program sets.
pub record SendStatus : Type 0 where
  pub cmd : ℕ
  pub index : ℕ
  pub ack_status : AckStatus
  pub send_repeat : ℕ

pub record InfoForStore : Type 0 where
  pub get_another_camera_video : ℕ
  pub warn_type : ℕ
  pub photo_enable : ℕ
  pub sound_enable : ℕ
  pub video_enable : ℕ
  pub video_time : ℕ
  pub photo_time_period : ℕ
  pub photo_num : ℕ
  pub photo_id : List ℕ
  pub video_id : List ℕ

-- A node in a queue. `buf` is the block that it owns, if it has one.
pub record Node : Type 0 where
  pub pkg : SendStatus
  pub mm : InfoForStore
  pub len : ℕ
  pub buf : Option Bytes

-- The pointer `out->buf` of a caller: NULL, a block with its contents, or a block that was freed.
pub data Ptr : Type 0 where
  null : Ptr
  block : Bytes → Ptr
  freed : Ptr

-- The return values 0 and -1.
pub data Ret : Type 0 where
  ok fail : Ret

-- The part of `ptr_queue_push` behind the first `malloc`.
pub push_node : List Node → Node → Option Bytes → Bool → List Node × Ret
push_node q n none malloc_buf = (q ++ record n { len = 0; buf = none } ∷ [], ok)
push_node q n (some b) malloc_buf =
    let len = if ltb ptr_queue_buf_size n.len then ptr_queue_buf_size else n.len in
    if not malloc_buf
    then (q, fail)
    else (q ++ record n { len = len; buf = some (take len b) } ∷ [], ok)

unfoldable pub ptr_queue_push : List Node → Node → Bool → Bool → List Node × Ret
unfolding push_node
ptr_queue_push q n malloc_header malloc_buf =
    if length q == ptr_queue_buf_cnt
    then (q, fail)
    else if not malloc_header
    then (q, fail)
    else push_node q n n.buf malloc_buf

-- What a call of `ptr_queue_pop` does: nothing to take (-1), `*out` filled in from the node with
-- `out->buf` as given, or a write through a pointer to freed memory.
pub data Popped : Type 0 where
  empty : Popped
  popped : Node → Ptr → List Node → Popped
  wild_write : Popped

-- The node `n` at the front carries the data `b`. A caller that passes no buffer is left with the
-- node's own pointer, and that block is freed at once.
pub fill_out : Node → Bytes → List Node → Ptr → ℕ → Popped
fill_out n b rest null out_len = popped n freed rest
fill_out n b rest freed out_len = wild_write
fill_out n b rest (block _) out_len =
    let node_len = if ltb ptr_queue_buf_size n.len then ptr_queue_buf_size else n.len in
    let len = if ltb out_len node_len then out_len else node_len in
    popped (record n { len = len }) (block (take len b)) rest

pub take_out : Node → Option Bytes → List Node → Ptr → ℕ → Popped
unfolding fill_out
take_out n none rest out_buf out_len = popped n null rest
take_out n (some b) rest out_buf out_len = fill_out n b rest out_buf out_len

unfoldable pub ptr_queue_pop : List Node → Ptr → ℕ → Popped
unfolding take_out
ptr_queue_pop [] out_buf out_len = empty
ptr_queue_pop (n ∷ rest) out_buf out_len = take_out n n.buf rest out_buf out_len

-- The fields of the stack variable `header` that the caller does not set; nothing reads them.
abbrev pub blank_pkg : SendStatus
blank_pkg = record { cmd = 0; index = 0; ack_status = ack_ready; send_repeat = 0 }

unfoldable pub push_mm_queue : List Node → InfoForStore → Bool → List Node
push_mm_queue q mm malloc_header =
    (ptr_queue_push q (record { pkg = blank_pkg; mm = mm; len = 0; buf = none }) malloc_header
      true).0

pub pulled : List Node → Popped → Option InfoForStore × List Node
pulled q empty = (none, q)
pulled q (popped n _ rest) = (some n.mm, rest)
pulled q wild_write = (none, q)

unfoldable pub pull_mm_queue : List Node → Option InfoForStore × List Node
unfolding pulled
pull_mm_queue q = pulled q (ptr_queue_pop q null 0)

-- `clear_queue`: the loop pops into one `header`, whose `buf` and `len` each round leaves behind.
-- `none` is a write through a freed pointer. A round takes a node, so `length q` rounds empty it.
pub clear_round :
    (List Node → Ptr → ℕ → Option (List Node)) → List Node → Popped → Option (List Node)
clear_round again q empty = some q
clear_round again q (popped n buf rest) = again rest buf n.len
clear_round again q wild_write = none

pub clear_loop : ℕ → List Node → Ptr → ℕ → Option (List Node)
unfolding clear_round
clear_loop zero q buf len = clear_round (λ _ _ _. none) q (ptr_queue_pop q buf len)
clear_loop (suc rounds) q buf len = clear_round (clear_loop rounds) q (ptr_queue_pop q buf len)

unfoldable pub clear_queue : List Node → Option (List Node)
unfolding clear_loop
clear_queue q = clear_loop (length q) q null ptr_queue_buf_size
