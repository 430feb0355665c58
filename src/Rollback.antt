-- ===== src/Rollback.antt =====
-- platform/rollback.c: deterministic rollback, snapshots, and the join and leave timeline.
pub mod State
pub mod Timeline
pub mod Lifecycle
pub mod Input
pub mod Events
pub mod Machine
pub mod Snapshot
pub mod Frame
pub mod Log
pub mod Join
pub mod Invariant
pub mod World
mod Tests
