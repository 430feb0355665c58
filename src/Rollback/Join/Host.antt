-- ===== src/Rollback/Join/Host.antt =====
-- platform/rollback.c: PortRbJoin with the log that PortRbEncodeLog writes.
use katam_port.Base.{ℕ}
use katam_port.Rollback.State.{Timeline, Event, ev_slot}

abbrev seat_event : ℕ → ℕ → ℕ → Event
seat_event f slot peer = record { at = f; kind = ev_slot; a = slot; b = peer }
