-- ===== src/Tests/Queues.antt =====
-- The queues, the counters and the list of resources.
use sanbao_prot.Base.{ℕ, ◌+◌, ◌≡◌, refl, List, [], ◌∷◌, ◌++◌, none, Bytes, arith}
use sanbao_prot.Prot.Cmd
use sanbao_prot.Prot.{adas, ptr_queue_buf_size}
use sanbao_prot.Queue.Clear.{clear_queue_wild}
use sanbao_prot.Queue.Laws.{Carries, Holds, nil, cons, ptr_queue_pop-Holds}
use sanbao_prot.Queue.{Node, block, popped, ptr_queue_pop, clear_queue}
use sanbao_prot.Resource.{MmInfo}
use sanbao_prot.Send.Laws.{frame_of, message_queue_send-Holds}
use sanbao_prot.Send.{message_queue_send}
use sanbao_prot.Tests.Sample.{memory, sender, node}

node-Carries : (x y : ℕ) → Carries (node x y) (x ∷ y ∷ [])
node-Carries x y = record { content = refl; len_is = refl; fits = omega arith }

abbrev q : List Node
q = node 1 2 ∷ node 3 4 ∷ []

abbrev w : List Bytes
w = (1 ∷ 2 ∷ []) ∷ (3 ∷ 4 ∷ []) ∷ []

q-Holds : Holds q w
q-Holds = cons (node-Carries 1 2) (cons (node-Carries 3 4) nil)

ptr_queue_pop-Holds_example :
    (n : Node) × (rest : List Node) × (ptr_queue_pop q (block []) ptr_queue_buf_size
      ≡ popped n (block (1 ∷ 2 ∷ [])) rest)
    × (n.len ≡ 2)
    × Holds rest ((3 ∷ 4 ∷ []) ∷ [])
ptr_queue_pop-Holds_example = ptr_queue_pop-Holds [] q-Holds

clear_queue_wild_example : clear_queue q ≡ none
clear_queue_wild_example = clear_queue_wild q-Holds

message_queue_send-Holds_example :
    let (s', frame) = message_queue_send adas Cmd.query (7 ∷ []) memory sender in
    Holds s'.send_q ([] ++ frame_of adas Cmd.query (7 ∷ []) sender ∷ [])
    × (frame ≡ frame_of adas Cmd.query (7 ∷ []) sender)
    × (s'.send_data ≡ 0 + 1)
message_queue_send-Holds_example =
    message_queue_send-Holds adas Cmd.query (7 ∷ []) sender nil (omega arith) (omega arith)

abbrev resources : List MmInfo
resources = record { mm_id = 1; mm_type = 0 } ∷ record { mm_id = 2; mm_type = 2 } ∷ []
