-- ===== src/System/Boot.antt =====
-- The state that the threads start with, and what they do to it.
use sanbao_prot.App.{App}
use sanbao_prot.Base.{◌≡◌, refl, Bool, false, [], Bytes, Option, length, if_both, arith, ◌==◌}
use sanbao_prot.Files.{Directory, getmm_file_num_max, rm_mm_files}
use sanbao_prot.Link.{Link}
use sanbao_prot.Para.Load.{Usable, read_local_adas_para_file-IsBlock}
use sanbao_prot.Prot.{adas}
use sanbao_prot.Start.{Boot, Mallocs, read_local_para, start_ids, global_var_init}
use sanbao_prot.System.Reach.{Reaches, Stays, Posted, Reaches-IsSound}
use sanbao_prot.System.{IsSound}

start_ids-IsSound :
    (dir : Directory) (up : Bool) (a : App) → IsSound up a → IsSound up (start_ids dir a)
unfolding start_ids rm_mm_files
start_ids-IsSound dir up a h =
    let same : (b : App)
        → b.sender ≡ a.sender
        → b.image_queue ≡ a.image_queue
        → b.paras ≡ a.paras
        → IsSound up b =
      λ b e1 e2 e3. record {
        messages = rw e1 h.messages;
        posts = rw e1 h.posts;
        orders = rw e2 h.orders;
        size = rw e3 h.size;
        ranges = rw e3 h.ranges;
      } in
    if_both (IsSound up) (getmm_file_num_max dir == 0xFFFFFFFF) (same _ refl refl refl)
      (same _ refl refl refl)

-- The state of the threads behind `global_var_init`: no connection yet.
abbrev pub first_link : Boot → Link
first_link b = record { app = b.app; connect_status = false; sent = []; closes = 0 }

-- The ADAS program from its start on, with empty queues and a file of parameters that is whole or can
-- be made: whatever the directory of media holds, and whatever the threads then do, with the calls in
-- any order, both queues are bounded and the parameters are a whole block with every checked field in
-- its range. Behind any state on the way in which no message waits without a post while the connection
-- is on, none does until a connection is turned on again.
pub global_var_init-IsSound :
    (dir : Directory) (log : Option Bytes) (m : Mallocs) (a : App) (k l : Link)
    → a.dev ≡ adas
    → a.sender.send_q ≡ []
    → a.image_queue ≡ []
    → length a.paras.adas_para ≡ 50
    → Usable a.adas_file
    → Reaches (first_link (global_var_init dir log m a)) k
    → Posted k
    → Stays k l
    → IsSound l.connect_status l.app
unfolding global_var_init read_local_para
global_var_init-IsSound dir log m a k l dev quiet idle size usable way posted stays =
    let block = read_local_adas_para_file-IsBlock a.paras a.adas_file size usable in
    let read : IsSound false (read_local_para a.dev a) = rw dev (record {
      messages = rw quiet (omega arith);
      posts = λ up. rw quiet (omega arith);
      orders = rw idle (omega arith);
      size = block.0;
      ranges = block.1;
    }) in
    Reaches-IsSound way stays (start_ids-IsSound dir false (read_local_para a.dev a) read) posted
