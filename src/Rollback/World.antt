-- ===== src/Rollback/World.antt =====
-- platform/rollback.c between a call of PortRbInit and the shutdown: the calls in any order, and the
-- game from one frame hook to the next. `last` remembers, for every frame, the memory that the hook
-- left when it ran that frame last; the code keeps nothing of the kind.
pub mod Ring
pub mod Backed
pub mod Reached
use katam_port.Base.{ℕ, ◌^◌, ◌<◌, ◌≡◌, true, Option, none, some, if◌then◌else◌, update, ℤ}
use katam_port.Rollback.State.{Session, Event, Heap, rb_players}
use katam_port.Rollback.Timeline.{timeline_reserve, input_at}
use katam_port.Rollback.Input.{set_local_input, confirm_input}
use katam_port.Rollback.Events.{schedule_event, assign_slot}
use katam_port.Rollback.Machine.{Machine}
use katam_port.Rollback.Frame.{roll_back, catch_up_done, frame_hook}

pub record World (m : Machine) : Type 0 where
  pub session : Session
  pub mem : m.Mem
  pub last : ℕ → m.Mem

module _ (m : Machine) (heap : Heap) where
  -- The session that the hook would run, after a rollback.
  abbrev pub resumed : World m → Session
  resumed w = catch_up_done (roll_back m w.session w.mem).0

  -- The hook has run the frame of `resumed w`, unless there was no memory for the timeline.
  unfoldable pub remember : World m → m.Mem → ℕ → m.Mem
  remember w mem = elim (timeline_reserve heap (resumed w).tl (resumed w).frame) [
    | none ↦ w.last
    | some _ ↦ update w.last (resumed w).frame mem
  ]

  abbrev pub hooked : ℕ → World m → World m
  hooked self w =
      let r = frame_hook m heap self w.session w.mem in
      record { session = r.0; mem = r.1; last = remember w r.1 }

  abbrev pub with_session : World m → Session → World m
  with_session w s = record w { session = s }

  -- A call of the engine, in a session that is active and whose frame counter is far from wrapping.
  pub data Step : World m → World m → Type 0 where
    local_input :
        (self keys : ℕ) {w : World m}
        → self < rb_players
        → Step w (with_session w (set_local_input heap self keys w.session))
    confirm :
        (player : ℤ) (frame keys : ℕ) {w : World m}
        → frame < 2 ^ 30
        → Step w (with_session w (confirm_input heap player frame keys w.session))
    schedule : (e : Event) {w : World m} → Step w (with_session w (schedule_event e w.session).1)
    assign :
        (frame : ℕ) (slot peer : ℤ) {w : World m}
        → Step w (with_session w (assign_slot frame slot peer w.session).1)
    hook : (self : ℕ) {w : World m} → Step w (hooked self w)
    game : {w : World m} → Step w (record w { mem = m.run w.mem })

  pub data Steps : World m → World m → Type 0 where
    no_call : {w : World m} → Steps w w
    after :
        {u v w : World m}
        → Steps u v
        → v.session.active ≡ true
        → v.session.frame < 2 ^ 30
        → Step v w
        → Steps u w
