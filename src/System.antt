-- ===== src/System.antt =====
-- The threads together: what holds of the shared state whatever they do, in any order.
pub mod Sending
pub mod Handlers
pub mod Alerts
pub mod Reports
pub mod Rounds
pub mod Steps
pub mod Reach
pub mod Receive
pub mod Boot
use sanbao_prot.App.{App}
use sanbao_prot.Base.{ℕ, ◌≤◌, ◌≡◌, Bool, true, Bytes, length}
use sanbao_prot.Field.Laws.{In}
use sanbao_prot.Field.{Rule, get_field}
use sanbao_prot.Para.Adas
use sanbao_prot.Queue.{ptr_queue_buf_cnt}

-- Every checked field of the ADAS parameters is in its range.
abbrev pub InRange : Bytes → Type 0
InRange para =
    (r : Rule) → In r Adas.rules → (r.lo ≤ get_field para r.field) × (get_field para r.field ≤ r.hi)

-- The queues keep their bound, every waiting message has its post while the connection is `up`, and
-- the ADAS parameters are a whole block with its fields in range.
pub record IsSound (up : Bool) (a : App) : Type 0 where
  pub messages : length a.sender.send_q ≤ ptr_queue_buf_cnt
  pub posts : up ≡ true → length a.sender.send_q ≤ a.sender.send_data
  pub orders : length a.image_queue ≤ ptr_queue_buf_cnt
  pub size : length a.paras.adas_para ≡ 50
  pub ranges : InRange a.paras.adas_para

-- A change of the shared state that keeps it sound.
abbrev pub Keeps : (App → App) → Type 0
Keeps f = (up : Bool) (a : App) → IsSound up a → IsSound up (f a)
