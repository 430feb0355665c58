-- ===== src/Rollback/Input.antt =====
-- platform/rollback.c, inputs: PortRbSetLocalInput, PortRbConfirmInput.
pub mod Correction
pub mod Covering
pub mod Cells
use katam_port.Base.{
  ℕ, ◌+◌, ◌%◌, Bool, true, ◌&&◌, none, some, ltb, leb, ◌==◌, u32, if◌then◌else◌, update, ℤ, pos,
  negsuc,
}
use katam_port.Rollback.State.{
  Timeline, Session, Heap, CatchUp, live, requested, rb_players, keys_mod, cell,
}
use katam_port.Rollback.Timeline.{timeline_reserve}

-- keys[i] = v; known[i] = 1;
abbrev pub write_known : Timeline → ℕ → ℕ → Timeline
write_known tl i v = record tl { keys = update tl.keys i v; known = update tl.known i true }

-- if (frame >= len) len = frame + 1;
abbrev pub extend : Timeline → ℕ → Timeline
extend tl frame = record tl { len = if ltb frame tl.len then tl.len else u32 (frame + 1) }

-- PortRbSetLocalInput, with SelfId() as `self`.
unfoldable pub set_local_input : Heap → ℕ → ℕ → Session → Session
set_local_input heap self keys s =
    if s.active
    then elim (timeline_reserve heap s.tl s.frame) [
      | none ↦ s
      | some tl ↦ record s {
        tl = extend (write_known tl (cell s.frame self) (keys % keys_mod)) s.frame;
      }
    ]
    else s

abbrev pub count_late : Session → Session
count_late s = record s { stats = record (s.stats) { late_drops = u32 (s.stats.late_drops + 1) } }

abbrev pub count_mispredicted : Session → Session
count_mispredicted s = record s {
  stats = record (s.stats) { mispredictions = u32 (s.stats.mispredictions + 1) };
}

-- The ring holds the snapshot of `frame`.
abbrev pub in_ring : Session → ℕ → Bool
in_ring s frame = s.ring_valid (frame % s.depth) && (s.ring_frame (frame % s.depth) == frame)

-- if (!sCatchUp || frame < sCatchUpTo)
abbrev pub may_request : CatchUp → ℕ → ℕ → Bool
may_request live frame to = true
may_request _ frame to = ltb frame to

abbrev pub request : Session → ℕ → Session
request s frame =
    if may_request s.catch_up frame s.catch_up_to
    then record s { catch_up = requested; catch_up_to = frame }
    else s

-- A frame that was simulated on the prediction `predicted`, now in `s` with the real input.
unfoldable pub correct : ℕ → ℕ → ℕ → Session → Session
correct predicted keys frame s =
    if predicted == keys
    then s
    else if in_ring s frame
    then request (count_mispredicted s) frame
    else count_late (count_mispredicted s)

-- The frame's cell exists: a repeated confirmation is reported and dropped, a past frame is
-- corrected, a later one is stored.
unfoldable pub store : ℕ → ℕ → ℕ → Session → Session
store player frame keys s =
    if s.tl.known (cell frame player)
    then s
    else if ltb frame s.frame
    then correct (s.tl.keys (cell frame player)) keys frame
        (record s { tl = write_known s.tl (cell frame player) keys })
    else record s { tl = extend (write_known s.tl (cell frame player) keys) frame }

-- Older than the ring: (sFrame >= sDepth && frame + sDepth <= sFrame).
abbrev pub too_late : Session → ℕ → Bool
too_late s frame = leb s.depth s.frame && leb (u32 (frame + s.depth)) s.frame

unfoldable pub confirm_input : Heap → ℤ → ℕ → ℕ → Session → Session
confirm_input heap (negsuc _) frame keys s = s
confirm_input heap (pos player) frame keys s =
    if s.active && ltb player rb_players
    then if too_late s frame then count_late s else elim (timeline_reserve heap s.tl frame) [
      | none ↦ s
      | some tl ↦ store player frame (keys % keys_mod) (record s { tl = tl })
    ]
    else s
