-- ===== src/Rollback/Tests/Play.antt =====
-- platform/rollback.c on concrete sessions: the invariant of a session, and the rollbacks.
use katam_port.Base.{◌≡◌, refl, true, pos, arith}
use katam_port.Rollback.Lifecycle.{init}
use katam_port.Rollback.Timeline.{timeline_reserve}
use katam_port.Rollback.Input.{confirm_input}
use katam_port.Rollback.Frame.{frame_hook}
use katam_port.Rollback.Invariant.{IsSession}
use katam_port.Rollback.Invariant.Frame.{frame_hook-IsSession}
use katam_port.Rollback.Invariant.Open.{init-IsSession}
use katam_port.Rollback.World.{World, hooked, with_session}
use katam_port.Rollback.World.Reached.{first}
use katam_port.Rollback.Tests.{generous, blank, fresh, toy, cells}

opens : (init generous 14 0 (pos 4) (pos 2) blank).0 ≡ true
unfolding init timeline_reserve
opens = refl

init-IsSession_example : IsSession 0 fresh × (fresh.active ≡ true) × (fresh.frame ≡ 0)
init-IsSession_example = init-IsSession generous 14 0 (pos 4) (pos 2) blank (omega arith) opens

-- The engine runs frame 0 on the prediction that peer 1 holds nothing, and peer 1 turns out to have
-- held the key 1.
abbrev world0 : World toy
world0 = first toy fresh cells

abbrev world1 : World toy
world1 = hooked toy generous 0 world0

abbrev world2 : World toy
world2 = record world1 { mem = toy.run world1.mem }

abbrev world3 : World toy
world3 = with_session toy generous world2 (confirm_input generous (pos 1) 0 1 world2.session)

valid : IsSession 0 fresh
valid = (init-IsSession generous 14 0 (pos 4) (pos 2) blank (omega arith) opens).0

frame_hook-IsSession_example : IsSession 0 (frame_hook toy generous 0 fresh cells).0
unfolding init timeline_reserve
frame_hook-IsSession_example = frame_hook-IsSession toy generous 0 0 fresh cells (omega arith) valid
