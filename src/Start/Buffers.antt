-- ===== src/Start/Buffers.antt =====
-- The buffers of the connection when memory runs out.
use sanbao_prot.Base.{◌≡◌, Bool, true, false, not, ◌&&◌, ◌||◌, Option, none, some, arith}
use sanbao_prot.Start.{
  Pointer, null, live, freed, Handle, Mallocs, no_buffers, prot_init_pre, free, handle_distroy,
}

abbrev pub is_live : Pointer → Bool
is_live null = false
is_live live = true
is_live freed = false

abbrev pub holds_memory : Handle → Bool
holds_memory h = is_live h.rcv_data_s || is_live h.rcv_data || is_live h.snd_data_s

abbrev pub frees_twice : Option Handle → Bool
frees_twice none = true
frees_twice (some h) = false

-- `prot_init_pre` keeps memory just when it succeeds: when a `malloc` fails, what it got before is
-- freed. But it leaves the pointers to what it freed: when the first `malloc` succeeds and a later
-- one fails, the `handle_distroy` at the end of the receiving thread frees memory twice, and only then.
pub prot_init_pre-handle_distroy :
    (m : Mallocs)
    → let (h, ok) = prot_init_pre m no_buffers in
      (holds_memory h ≡ ok)
      × (frees_twice (handle_distroy h) ≡ (m.rcv_data_s && not (m.rcv_data && m.snd_data_s)))
unfolding prot_init_pre handle_distroy free
prot_init_pre-handle_distroy m = ground arith
