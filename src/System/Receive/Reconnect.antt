-- ===== src/System/Receive/Reconnect.antt =====
-- The receiving thread outlives lost connections.
use sanbao_prot.Base.{
  ℕ, zero, suc, ◌≡◌, refl, ap, sym, Bool, Option-cases, inl, inr, ◌∙◌, true, List, [], ◌∷◌, ◌++◌,
  All, Option, none, some, replicate,
}
use sanbao_prot.Link.{Link, set_connect_status, do_stat_reset}
use sanbao_prot.Net.Receiving.{GoesOn, stream, recv_loop-stream}
use sanbao_prot.Net.{minus, Conn, parse_conn}
use sanbao_prot.System.Receive.{
  Connect, refused, connected, Session, connect_again, goes_on, connect_loop, begin_connection,
  runs, after_loop, on_cmd, receive, sessions,
}
use sanbao_prot.Warn.Message.{WarnFrame}

module _ (f : WarnFrame) where
  -- A session that ends with a new socket: its descriptor turns out to be closed, or its connection
  -- is lost.
  pub data Loses : Session → Conn Link → Conn Link → Type 0 where
    closed_fd :
        (s : Session) (k : Conn Link)
        → s.init ≡ true
        → connect_loop s.connects ≡ connect_again
        → Loses s k k
    lost :
        (s : Session) (k k' : Conn Link) (l : Link) (n : ℕ)
        → s.init ≡ true
        → connect_loop s.connects ≡ goes_on
        → begin_connection (s.others k.rest) ≡ some l
        → receive f s.events (record k { rest = l }) ≡ (k', minus n)
        → Loses s k k'

  pub data AllLose : List Session → Conn Link → Conn Link → Type 0 where
    none_yet : (k : Conn Link) → AllLose [] k k
    one_more :
        {s : Session} {ss : List Session} {k k' k'' : Conn Link}
        → Loses s k k'
        → AllLose ss k' k''
        → AllLose (s ∷ ss) k k''

  sessions-Loses :
      {s : Session} {k k' : Conn Link} (ss : List Session)
      → Loses s k k'
      → sessions f (s ∷ ss) k ≡ sessions f ss k'
  unfolding sessions after_loop
  sessions-Loses ss (closed_fd s k init try) = rw (init, try) refl
  sessions-Loses ss (lost s k k' l n init try begun over) =
      rw (init, try, begun) (ap (λ r. after_loop r (sessions f ss)) over)

  sessions-AllLose :
      {ss : List Session} {k k' : Conn Link} (rest : List Session)
      → AllLose ss k k'
      → sessions f (ss ++ rest) k ≡ sessions f rest k'
  sessions-AllLose rest (none_yet k) = refl
  sessions-AllLose rest (one_more {ss} h hs) =
      sessions-Loses (ss ++ rest) h ∙ sessions-AllLose rest hs

connect_loop-refused :
    (n : ℕ) (cs : List Connect) → connect_loop (replicate n refused ++ connected ∷ cs) ≡ goes_on
unfolding connect_loop
connect_loop-refused zero cs = refl
connect_loop-refused (suc n) cs = connect_loop-refused n cs

abbrev status_of : Option Link → Bool
status_of none = true
status_of (some l) = l.connect_status

status_of-begin : (l : Link) → status_of (begin_connection l) ≡ true
unfolding begin_connection set_connect_status
status_of-begin l = elim (Option-cases (do_stat_reset l.app)) [
  | inl wild ↦ rw wild refl
  | inr (a, reset) ↦ rw reset refl
]

-- After any sessions that were lost, and any number of refused attempts: when a connection comes
-- about, its reset succeeds, and no wait or read on it fails, the receiver parses the whole stream
-- that it gives, from the state that the connection began with, its status on, and goes on.
pub sessions-reconnect :
    (f : WarnFrame) (ss : List Session) (s : Session) (k k' : Conn Link) (l : Link) (n : ℕ)
    (cs : List Connect)
    → AllLose f ss k k'
    → s.init ≡ true
    → s.connects ≡ replicate n refused ++ connected ∷ cs
    → begin_connection (s.others k'.rest) ≡ some l
    → All GoesOn s.events
    → (l.connect_status ≡ true)
      × (sessions f (ss ++ s ∷ []) k
          ≡ some (parse_conn (on_cmd f) (stream s.events) (record k' { rest = l }), runs))
unfolding sessions after_loop
sessions-reconnect f ss s k k' l n cs lose init connects begun goes =
    let accepted : connect_loop s.connects ≡ goes_on =
      ap connect_loop connects ∙ connect_loop-refused n cs in
    (
      sym (ap status_of begun) ∙ status_of-begin (s.others k'.rest),
      sessions-AllLose f (s ∷ []) lose
          ∙ rw (init, accepted, begun)
              (ap (λ r. after_loop r (λ x. some (x, runs)))
                (recv_loop-stream (on_cmd f) s.events (record k' { rest = l }) goes)),
    )
