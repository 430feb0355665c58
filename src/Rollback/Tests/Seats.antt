-- ===== src/Rollback/Tests/Seats.antt =====
-- platform/rollback.c on concrete sessions: the events, the slots and the joiner.
use katam_port.Base.{
  ℕ, ◌++◌, ◌≡◌, ◌==◌, ◌&&◌, if◌then◌else◌, refl, List, [], ◌∷◌, pos, arith, length, ltb,
}
use katam_port.Rollback.State.{Session, Event, max_events, ev_slot, ev_players, slot_ai, rb_players}
use katam_port.Rollback.Lifecycle.{init}
use katam_port.Rollback.Timeline.{timeline_reserve}
use katam_port.Rollback.Events.{schedule_event, apply_events, is_scheduled_event, vacant_slot}
use katam_port.Rollback.Events.Order.{IsSorted, at_frame, schedule_event_lem}
use katam_port.Rollback.Events.Seats.{OneSeat, apply_events-OneSeat}
use katam_port.Rollback.Invariant.Open.{init-IsSession}
use katam_port.Rollback.Join.{SessionInfo, count_vacant}
use katam_port.Rollback.Join.Seat.{Offers, vacant_slot-Offers}
use katam_port.Rollback.Log.Encode.{encode_log}
use katam_port.Rollback.Tests.{generous, blank, fresh}

-- Peer 0 takes slot 3 at frame 12, and the AI slot 1.
abbrev moves : List Event
moves =
    record { at = 12; kind = ev_slot; a = 3; b = 0 }
    ∷ record { at = 12; kind = ev_slot; a = 1; b = slot_ai }
    ∷ []

abbrev later : Event
later = record { at = 12; kind = ev_players; a = 3; b = 0 }

abbrev busy : Session
busy = record fresh { events = moves }

schedule_event_lem_example :
    let (done, s') = schedule_event later busy in
    (done ≡ (busy.active && ltb (length busy.events) max_events && is_scheduled_event later))
    × IsSorted s'.events
    × ((f : ℕ)
        → at_frame f s'.events ≡ (
            if done && (later.at == f)
            then at_frame f busy.events ++ (later ∷ [])
            else at_frame f busy.events))
schedule_event_lem_example = schedule_event_lem later busy ((omega arith, tt), (tt, tt))

apply_events-OneSeat_example : OneSeat (apply_events 12 moves fresh).slot_peer
unfolding init timeline_reserve
apply_events-OneSeat_example =
    apply_events-OneSeat 12 moves fresh (refl, (refl, tt))
      ((init-IsSession generous 14 0 (pos 4) (pos 2) blank (omega arith) refl).0.one_seat)

vacant_slot-Offers_example : Offers fresh (vacant_slot fresh)
unfolding init timeline_reserve
vacant_slot-Offers_example = vacant_slot-Offers fresh refl (omega arith)

-- Every slot in play has its peer.
abbrev crowded : Session
crowded = record fresh { slots_in_play = 2 }

abbrev crowded_info : SessionInfo
crowded_info = record {
  frame = crowded.frame;
  log_bytes = (encode_log 0 crowded).0;
  slots_in_play = 2;
  vacant = count_vacant crowded 0 rb_players;
  slot_peer = crowded.slot_peer;
}
