-- ===== src/Rollback/Invariant.antt =====
-- platform/rollback.c: what holds of a session between two calls.
pub mod Inputs
pub mod Hook
pub mod Frame
pub mod Open
use katam_port.Base.{ℕ, ◌+◌, ◌^◌, ◌%◌, ◌≤◌, ◌<◌, ◌≡◌, Bool, true, ◌⊎◌, length}
use katam_port.Rollback.State.{
  Timeline, Session, CatchUp, requested, rb_players, max_frames, max_events, cell,
}
use katam_port.Rollback.Timeline.Reserve.{IsTimeline}
use katam_port.Rollback.Input.{in_ring}
use katam_port.Rollback.Events.Order.{IsSorted}
use katam_port.Rollback.Events.Seats.{OneSeat, AreScheduled}

-- The invariant of an active session that was opened at the frame `start`.
pub record IsSession (start : ℕ) (s : Session) : Type 0 where
  pub timeline : IsTimeline s.tl
  pub deep : 1 ≤ s.depth
  pub not_too_deep : s.depth ≤ max_frames
  pub some_players : 1 ≤ s.players
  pub few_players : s.players ≤ rb_players
  -- A snapshot stands in the slot of its frame.
  pub ring_slots : (i : ℕ) → s.ring_valid i ≡ true → s.ring_frame i % s.depth ≡ i
  pub ring_early : (i : ℕ) → s.ring_valid i ≡ true → s.ring_frame i < 2 ^ 30
  -- A rollback that is asked for has its snapshot.
  pub can_roll_back : s.catch_up ≡ requested → in_ring s s.catch_up_to ≡ true
  -- Every player's input is known on each confirmed frame.
  pub known_below :
      (f p : ℕ) → start ≤ f → f < s.confirmed → p < s.players → s.tl.known (cell f p) ≡ true
  pub in_order : IsSorted s.events
  pub well_formed : AreScheduled s.events
  pub few_events : length s.events ≤ max_events
  pub one_seat : OneSeat s.slot_peer
  pub some_slots : 1 ≤ s.slots_in_play
  pub few_slots : s.slots_in_play ≤ rb_players
