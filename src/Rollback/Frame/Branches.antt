-- ===== src/Rollback/Frame/Branches.antt =====
-- platform/rollback.c: the branches of PortRbFrame, as equations.
use katam_port.Base.{ℕ, ◌%◌, ◌≡◌, ◌≢◌, true, false, none, some, arith}
use katam_port.Rollback.State.{Timeline, Session, Heap, requested}
use katam_port.Rollback.Timeline.{timeline_reserve}
use katam_port.Rollback.Machine.{Machine}
use katam_port.Rollback.Frame.{rewound, roll_back, catch_up_done, simulate, frame_hook}

module _ (m : Machine) where
  open m use {Mem}

  pub roll_back-requested :
      (s : Session) (mem : Mem)
      → s.catch_up ≡ requested
      → roll_back m s mem ≡ (rewound s, m.load (s.ring (s.catch_up_to % s.depth)) mem)
  unfolding roll_back
  roll_back-requested s mem e = ground arith

  pub roll_back-other :
      (s : Session) (mem : Mem) → s.catch_up ≢ requested → roll_back m s mem ≡ (s, mem)
  unfolding roll_back
  roll_back-other s mem ne = ground arith

  pub frame_hook-off :
      (heap : Heap) (self : ℕ) (s : Session) (mem : Mem)
      → s.active ≡ false
      → frame_hook m heap self s mem ≡ (s, mem)
  unfolding frame_hook
  frame_hook-off heap self s mem off = ground arith

  pub frame_hook-full :
      (heap : Heap) (self : ℕ) (s : Session) (mem : Mem)
      → s.active ≡ true
      → let (s1, mem1) = roll_back m s mem in
        let s2 = catch_up_done s1 in
        timeline_reserve heap s2.tl s2.frame ≡ none → frame_hook m heap self s mem ≡ (s2, mem1)
  unfolding frame_hook
  frame_hook-full heap self s mem on e = ground arith

  pub frame_hook-runs :
      (heap : Heap) (self : ℕ) (s : Session) (mem : Mem) {tl : Timeline}
      → s.active ≡ true
      → let (s1, mem1) = roll_back m s mem in
        let s2 = catch_up_done s1 in
        timeline_reserve heap s2.tl s2.frame ≡ some tl
        → frame_hook m heap self s mem ≡ simulate m self (record s2 { tl = tl }) mem1
  unfolding frame_hook
  frame_hook-runs heap self s mem on e = ground arith
