-- ===== src/Rollback/Tests.antt =====
-- platform/rollback.c on concrete sessions: what the tests share.
mod Play
mod Inputs
mod Seats
mod Snapshots
mod Logs
use katam_port.Base.{
  ◌+◌, ℕ, suc, ◌≡◌, refl, ◌∙◌, true, false, List, [], ◌∷◌, length, get_or, replicate, ℤ, pos,
}
use katam_port.Rollback.State.{Timeline, Session, Stats, Heap, live, requested}
use katam_port.Rollback.Lifecycle.{no_stats, no_timeline, init}
use katam_port.Rollback.Machine.{Machine}
use katam_port.Rollback.Snapshot.Gba.{set_at, length-set_at}

-- An allocator that grants everything.
abbrev pub generous : Heap
generous = record { grant_timeline = λ _. true; grant_ring = λ _. true }

-- The statics before the first session.
abbrev pub blank : Session
blank = record {
  active = false;
  depth = 0;
  players = 2;
  snap_bytes = 0;
  ring = λ _. [];
  ring_frame = λ _. 0;
  ring_valid = λ _. false;
  frame = 0;
  confirmed = 0;
  catch_up = live;
  catch_up_to = 0;
  stats = no_stats;
  tl = no_timeline;
  events = [];
  slot_peer = λ _. 0;
  slots_in_play = 0;
  render = true;
}

-- A session of two players that keeps four snapshots.
abbrev pub fresh : Session
fresh = (init generous 14 0 (pos 4) (pos 2) blank).1

-- A machine of nineteen cells: held, pressed, released and AI keys of four slots, the number of
-- players, the host's keys, and a clock that the game advances.
abbrev pub toy : Machine
toy = record {
  Mem = List ℕ;
  IsMem = λ m. length m ≡ 19;
  save = λ m. m;
  load = λ src m. src;
  held = λ m slot. get_or m slot 0;
  ai_input = λ m slot. get_or m (slot + 12) 0;
  set_held = λ slot v m. set_at m slot v;
  set_pressed = λ slot v m. set_at m (slot + 4) v;
  set_released = λ slot v m. set_at m (slot + 8) v;
  set_player_count = λ n m. set_at m 16 n;
  apply_keys = λ keys m. set_at m 17 keys;
  run = λ m. set_at m 18 (get_or m 18 0 + 1);
  load-save = λ m m' _ _. refl;
  set_held-IsMem = λ slot v m h. length-set_at m slot v ∙ h;
  set_pressed-IsMem = λ slot v m h. length-set_at m (slot + 4) v ∙ h;
  set_released-IsMem = λ slot v m h. length-set_at m (slot + 8) v ∙ h;
  set_player_count-IsMem = λ n m h. length-set_at m 16 n ∙ h;
  apply_keys-IsMem = λ keys m h. length-set_at m 17 keys ∙ h;
  run-IsMem = λ m h. length-set_at m 18 (get_or m 18 0 + 1) ∙ h;
}

abbrev pub cells : List ℕ
cells = replicate 19 0
