-- ===== src/Rollback/World/Reached.antt =====
-- platform/rollback.c: the invariant of a session over every sequence of calls.
use katam_port.Base.{ℕ, ◌^◌, ◌<◌, ◌≡◌, true, ℤ}
use katam_port.Rollback.State.{Timeline, Session, Heap}
use katam_port.Rollback.Machine.{Machine}
use katam_port.Rollback.Lifecycle.{init}
use katam_port.Rollback.Invariant.Open.{init-IsSession, init-empty}
use katam_port.Rollback.World.{World}
use katam_port.Rollback.World.Backed.{IsWorld}

module _ (m : Machine) where
  -- The world in which PortRbInit has just opened a session.
  abbrev pub first : Session → m.Mem → World m
  first s mem = record { session = s; mem = mem; last = λ _. mem }

  pub init-IsWorld :
      (heap : Heap) (bytes now : ℕ) (depth players : ℤ) (s : Session) (mem : m.Mem)
      → now < 2 ^ 29
      → m.IsMem mem
      → let (done, s') = init heap bytes now depth players s in
        done ≡ true → IsWorld m now (first s' mem)
  init-IsWorld heap bytes now depth players s mem lt ok done =
      let empty = init-empty heap bytes now depth players s done in
      record {
        session = (init-IsSession heap bytes now depth players s lt done).0;
        mem = ok;
        ring = record { snapshots = λ i v. cc (empty i, v); sizes = λ i v. cc (empty i, v) };
      }
