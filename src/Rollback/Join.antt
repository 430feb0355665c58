-- ===== src/Rollback/Join.antt =====
-- platform/rollback.c, replay and joining: PortRbReplayTo, PortRbDescribeSession, PortRbJoin.
-- PortRbVacantSlot stands with the events.
pub mod Seat
pub mod Host
use katam_port.Base.{
  ℕ, zero, suc, ◌+◌, Bool, true, false, ◌&&◌, Option, none, some, List, ltb, leb, u32,
  if◌then◌else◌, ℤ, pos, negsuc,
}
use katam_port.Rollback.State.{Session, Heap, rb_players, resimulating, is_negative}
use katam_port.Rollback.Events.{assign_slot}
use katam_port.Rollback.Log.Encode.{encode_log}
use katam_port.Rollback.Log.Decode.{decode_log}

unfoldable pub replay_to : ℕ → Session → Bool × Session
replay_to to s =
    if s.active && leb s.frame to
    then (true, record s { catch_up_to = to; catch_up = resimulating; render = false })
    else (false, s)

-- struct PortRbSessionInfo
pub record SessionInfo : Type 0 where
  pub frame : ℕ
  pub log_bytes : ℕ
  pub slots_in_play : ℕ
  pub vacant : ℕ
  pub slot_peer : ℕ → ℕ

-- The loop over the slots from `i` on, with `n` left.
unfoldable pub count_vacant : Session → ℕ → ℕ → ℕ
count_vacant s i zero = 0
count_vacant s i (suc n) =
    let rest = count_vacant s (i + 1) n in
    if ltb i s.slots_in_play && is_negative (s.slot_peer i) then rest + 1 else rest

-- `none` is the failure, which leaves `*out` all zero.
unfoldable pub describe_session : Session → Option SessionInfo
describe_session s =
    if s.active
    then some (record {
      frame = s.frame;
      log_bytes = (encode_log 0 s).0;
      slots_in_play = s.slots_in_play;
      vacant = count_vacant s 0 rb_players;
      slot_peer = s.slot_peer;
    })
    else none

-- `slot < 0 || slot >= PORT_RB_PLAYERS`, and the same of the peer.
abbrev pub is_seat : ℤ → Bool
is_seat (negsuc _) = false
is_seat (pos n) = ltb n rb_players

-- The frame past the rollback window at which the joiner's slot changes hands.
abbrev pub join_frame : ℕ → Session → ℕ
join_frame frames s = u32 (frames + s.depth + 8)

-- The log is decoded into `s`: the slot is scheduled, and the replay started.
unfoldable pub take_seat : ℕ → ℤ → ℤ → Session → Option ℕ × Session
take_seat frames slot peer s =
    let (done, t) = assign_slot (join_frame frames s) slot peer s in
    if done
    then (let (started, u) = replay_to frames t in (if started then some frames else none, u))
    else (none, t)

-- `none` is -1.
unfoldable pub join : Heap → List ℕ → ℤ → ℤ → Session → Option ℕ × Session
join heap log slot peer s =
    if s.active && (is_seat slot && is_seat peer)
    then (let (r, t) = decode_log heap log s in
        elim r [ none ↦ (none, t) | some frames ↦ take_seat frames slot peer t ])
    else (none, s)
