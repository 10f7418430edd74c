-- ===== src/Tests/Systems.antt =====
-- The threads together.
use sanbao_prot.Base.{
  true, [], ◌∷◌, Bytes, IsByte, All, arith, ◌≡◌, refl, Option, none, some, false,
}
use sanbao_prot.Dispatch.{sample_on_cmd}
use sanbao_prot.Link.Package.{Attempt, send_round}
use sanbao_prot.Frame.Receive.{idle}
use sanbao_prot.Link.{Link, set_connect_status, tcp_socket_close, do_stat_reset, with_queue}
use sanbao_prot.Net.Receiving.{stream}
use sanbao_prot.Net.{got, read_again, readable, timed_out, Conn, parse_conn}
use sanbao_prot.Prot.{adas}
use sanbao_prot.Queue.{clear_queue, ptr_queue_pop}
use sanbao_prot.System.Receive.Reconnect.{closed_fd, one_more, none_yet, sessions-reconnect}
use sanbao_prot.System.Receive.{
  Session, refused, bad_fd, connected, connect_loop, connect_again, begin_connection, sessions,
  on_cmd, runs,
}
use sanbao_prot.Para.Load.{to_create}
use sanbao_prot.Start.{Boot, global_var_init}
use sanbao_prot.System.Boot.{first_link, global_var_init-IsSound}
use sanbao_prot.System.Reach.{
  Reaches, Stays, Posted, here, step, turning_on, start, next, command, sending, closing,
  Reaches-IsSound,
}
use sanbao_prot.System.Rounds.{Fair, posted_again}
use sanbao_prot.System.{IsSound}
use sanbao_prot.Tests.Sample.{app_of, frame, link, good_paras, good_paras-size, good_paras-InRange}

abbrev before : Link
before = record link { app = record link.app { paras = good_paras } }

before-IsSound : IsSound true before.app
before-IsSound = record {
  messages = omega arith;
  posts = λ up. omega arith;
  orders = omega arith;
  size = good_paras-size;
  ranges = good_paras-InRange;
}

-- A query for the device.
abbrev query : Bytes
query = 0x7E ∷ 0 ∷ 0 ∷ 1 ∷ 0 ∷ 0 ∷ 0x64 ∷ 0x2F ∷ 0x7E ∷ []

query-IsByte : All IsByte query
query-IsByte = omega arith

abbrev alone : Attempt
alone = record { others = λ a. a; wakes = [] }

alone-Fair : Fair alone
alone-Fair = record { before = λ up a h. h; during = tt }

-- The connection is closed and made again, with its message and the post for it.
abbrev again : Link
again = set_connect_status true (tcp_socket_close before)

again-Reaches : Reaches before again
again-Reaches = turning_on (next start (closing before))

again-Posted : Posted again
unfolding set_connect_status tcp_socket_close
again-Posted up = omega arith

abbrev asked : Link
asked = record again { app = (sample_on_cmd frame again.app query 9).0 }

abbrev sent : Link
sent = send_round [] (λ i. alone) asked

way : Stays again sent
way =
    step (step here (command frame query 9 again query-IsByte))
      (sending [] (λ i. alone) asked (λ i. alone-Fair))

Reaches-IsSound_example : IsSound sent.connect_status sent.app
Reaches-IsSound_example =
    Reaches-IsSound again-Reaches way (posted_again true before.app before-IsSound) again-Posted

-- A connection that is made at the second attempt, and brings a byte that is no frame.
abbrev session : Session
session = record {
  init = true;
  connects = refused ∷ connected ∷ [];
  others = λ l. l;
  events = (timed_out, read_again) ∷ (readable, got (5 ∷ [])) ∷ [];
}

-- A session whose descriptor is closed in the meantime.
abbrev closed : Session
closed = record session { connects = bad_fd ∷ [] }

abbrev conn : Conn Link
conn = record {
  rx = idle [];
  rest = record link { app = app_of adas; connect_status = false };
  closes = 0;
}

abbrev app_of_begun : Option Link → Link
app_of_begun none = link
app_of_begun (some l) = l

abbrev begun : Link
begun = app_of_begun (begin_connection conn.rest)

begin_connection-begun : begin_connection conn.rest ≡ some begun
unfolding begin_connection do_stat_reset with_queue clear_queue ptr_queue_pop
begin_connection-begun = refl

closed-loses : connect_loop closed.connects ≡ connect_again
unfolding connect_loop
closed-loses = refl

sessions-reconnect_example :
    (begun.connect_status ≡ true)
    × (sessions frame (closed ∷ session ∷ []) conn
        ≡ some (
          parse_conn (on_cmd frame) (stream session.events) (record conn { rest = begun }),
          runs,
        ))
sessions-reconnect_example =
    sessions-reconnect frame (closed ∷ []) session conn conn begun 1 []
      (one_more (closed_fd closed conn refl closed-loses) (none_yet conn)) refl refl
      begin_connection-begun (tt, (tt, tt))

-- The program is started without a file of parameters, and is then asked for its state.
abbrev boot : Boot
boot =
    global_var_init none none (record { rcv_data_s = true; rcv_data = true; snd_data_s = true })
      (app_of adas)

abbrev answered : Link
answered = record (first_link boot) { app = (sample_on_cmd frame boot.app query 9).0 }

answered-Stays : Stays (first_link boot) answered
answered-Stays = step here (command frame query 9 (first_link boot) query-IsByte)

nothing_on : Posted (first_link boot)
nothing_on on = absurd (ground (arith, on))

global_var_init-IsSound_example : IsSound false answered.app
global_var_init-IsSound_example =
    global_var_init-IsSound none none
      (record { rcv_data_s = true; rcv_data = true; snd_data_s = true }) (app_of adas)
      (first_link boot) answered refl refl refl refl (to_create refl refl) start nothing_on
      answered-Stays
