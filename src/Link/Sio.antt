-- ===== src/Link/Sio.antt =====
-- platform/sio.c: the serial port in multi-play mode.
pub mod Slots
use katam_port.Base.{
  ℕ, zero, suc, ◌+◌, ◌%◌, ◌≡◌, refl, Bool, true, false, not, ◌&&◌, Option, none, some, ℤ, ltb, ◌==◌,
  u32, if◌then◌else◌, update,
}
use katam_port.Link.Lobby.{mp_players}
use katam_port.Link.Registry.{Link, Transport, Registry, attach, poll_once, exchange_word}

-- SIOCNT by its fields: bits 0-1, SI, SD, the slot, the error bit, the start bit, bits 8-11, the mode
-- in bits 12-13, and bits 14-15.
pub record Siocnt : Type 0 where
  pub baud : ℕ
  pub si : Bool
  pub sd : Bool
  pub id : ℕ
  pub error : Bool
  pub start : Bool
  pub middle : ℕ
  pub mode : ℕ
  pub top : ℕ

-- SIO_MULTI_MODE, 0x2000
abbrev pub multi_mode : ℕ
multi_mode = 2

-- PORT_SIO_SLOTS
abbrev pub sio_slots : ℕ
sio_slots = 16

-- SIOCNT, SIOMLT_SEND and SIOMULTI0 to 3
pub record Regs : Type 0 where
  pub cnt : Siocnt
  pub send : ℕ
  pub multi : ℕ → ℕ

-- RefreshStatus
abbrev pub refresh_status : Link → Siocnt → Siocnt
refresh_status link cnt = record cnt {
  si = link.up && not (link.self_id == 0);
  sd = link.up;
  id = if link.up then link.self_id % 4 else 0;
  error = link.error;
}

-- Armed
abbrev pub is_armed : Link → Regs → Bool
is_armed link r = if link.self_id == 0 then r.cnt.start else true

-- The registers as the serial interrupt finds them: a unit reads its own word in its own slot.
abbrev pub latched : Link → (ℕ → ℕ) → Regs → Regs
latched link recv r = record r {
  multi = if ltb link.self_id mp_players then update recv link.self_id r.send else recv;
  cnt = record (r.cnt) { start = false };
}

module _ (t : Transport) where
  -- The statics, the registers, and what the game keeps.
  pub record Sio (Game : Type 0) : Type 0 where
    pub regs : Regs
    pub game : Game
    pub mp : Registry t
    pub transfers : ℕ
    pub stalls : ℕ
    pub ever_up : Bool

  -- PortSioReset
  abbrev pub sio_reset : {Game : Type 0} → Sio Game → Sio Game
  sio_reset s = record s { transfers = 0; stalls = 0; ever_up = false }

  -- PortMpAttach of platform/mp.c, which resets the port where it succeeds.
  unfoldable pub attach_link : {Game : Type 0} → Option t.State → ℤ → Sio Game → Bool × Sio Game
  attach_link state players s =
      let (done, mp) = attach t state players s.mp in
      (done, if done then sio_reset (record s { mp = mp }) else record s { mp = mp })

  -- `interrupt` is the game's serial handler, through PortDispatchInterrupt.
  module _ {Game : Type 0} (interrupt : Regs × Game → Regs × Game) where
    abbrev pub stalled : Registry t → Sio Game → Sio Game
    stalled mp s = record s { mp = mp; stalls = u32 (s.stalls + 1) }

    abbrev pub landed : Link → (ℕ → ℕ) → Registry t → Sio Game → Sio Game
    landed link recv mp s =
        let r = interrupt (latched link recv s.regs, s.game) in
        record s { regs = r.0; game = r.1; mp = mp; transfers = u32 (s.transfers + 1) }

    -- RunTransfer
    unfoldable pub run_transfer : Link → Sio Game → Bool × Sio Game
    run_transfer link s =
        let r = exchange_word t s.regs.send (λ _. 0xFFFF) s.mp in
        if r.0.0 then (true, landed link r.0.1 r.1 s) else (false, stalled r.1 s)

    -- The loop of PortSioFrame, with `n` slots left.
    unfoldable pub run_slots : ℕ → Link → Sio Game → Sio Game
    run_slots zero link s = s
    run_slots (suc n) link s = elim (is_armed link s.regs) [
      | false ↦ s
      | true ↦ elim (run_transfer link s).0 [
        | false ↦ (run_transfer link s).1
        | true ↦ run_slots n link (run_transfer link s).1
      ]
    ]

    abbrev pub refreshed : Sio Game → Sio Game
    refreshed s = record s { regs = record (s.regs) { cnt = refresh_status s.mp.link s.regs.cnt } }

    abbrev pub polled : Sio Game → Sio Game
    polled s = record s { mp = poll_once t s.mp }

    abbrev pub run_up : Sio Game → Sio Game
    run_up s =
        if s.mp.link.up then run_slots sio_slots s.mp.link (record s { ever_up = true }) else s

    -- PortSioFrame
    unfoldable pub sio_frame : Sio Game → Sio Game
    sio_frame s = elim s.mp.transport [
      | none ↦ s
      | some _ ↦
          if (polled s).regs.cnt.mode == multi_mode then run_up (refreshed (polled s)) else polled s
    ]
