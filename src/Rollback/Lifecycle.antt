-- ===== src/Rollback/Lifecycle.antt =====
-- platform/rollback.c, the session: PortRbInit, PortRbShutdown.
use katam_port.Base.{
  ℕ, ◌+◌, ◌*◌, Bool, true, false, none, some, [], ltb, u32, if◌then◌else◌, ℤ, pos, negsuc,
}
use katam_port.Rollback.State.{
  Timeline, Session, Stats, Heap, live, rb_players, max_frames, timeline_chunk,
}
use katam_port.Rollback.Timeline.{timeline_reserve}

abbrev pub no_stats : Stats
no_stats = record {
  stat_frame = 0;
  stat_confirmed = 0;
  rollbacks = 0;
  resim_frames = 0;
  deepest = 0;
  late_drops = 0;
  predictions = 0;
  mispredictions = 0;
}

abbrev pub no_timeline : Timeline
no_timeline = record { keys = λ _. 0; known = λ _. false; cap = 0; len = 0 }

unfoldable pub shutdown : Session → Session
shutdown s = record s {
  ring = λ _. [];
  tl = no_timeline;
  active = false;
  catch_up = live;
  events = [];
}

-- if (x < 1) x = 1; if (x > hi) x = hi;
abbrev pub clamp : ℕ → ℤ → ℕ
clamp hi (negsuc _) = 1
clamp hi (pos x) = if ltb x 1 then 1 else if ltb hi x then hi else x

-- Peers take slots one for one to begin with.
abbrev pub first_map : ℕ → ℕ → ℕ
first_map players i = if ltb i players then i else 0xff

-- The session after the assignments, before TimelineReserve.
abbrev pub opened : ℕ → ℕ → ℕ → ℕ → Session → Session
opened bytes depth players now s = record s {
  snap_bytes = bytes;
  ring_valid = λ _. false;
  stats = no_stats;
  depth = depth;
  players = players;
  frame = now;
  confirmed = now;
  catch_up = live;
  events = [];
  active = true;
  slot_peer = first_map players;
  slots_in_play = rb_players;
}

-- PortRbInit(depth, players): `bytes` is MapBytes() + HostBytes(), `now` is PortFrameNumber().
unfoldable pub init : Heap → ℕ → ℕ → ℤ → ℤ → Session → Bool × Session
init heap bytes now depth players s =
    let d = clamp max_frames depth in
    let p = clamp rb_players players in
    let fresh = shutdown s in
    if heap.grant_ring (bytes * d)
    then elim (timeline_reserve heap no_timeline (u32 (now + timeline_chunk))) [
      | none ↦ (false, shutdown (opened bytes d p now fresh))
      | some tl ↦ (true, record (opened bytes d p now fresh) { tl = record tl { len = now } })
    ]
    else (false, record fresh { snap_bytes = bytes })
