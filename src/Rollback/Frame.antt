-- ===== src/Rollback/Frame.antt =====
-- platform/rollback.c, the frame hook: ApplySlotInputs and PortRbFrame.
pub mod Branches
use katam_port.Base.{
  ℕ, zero, suc, ◌+◌, ◌%◌, true, false, ◌&&◌, none, some, ltb, leb, ◌==◌, u32, sub32, and_not,
  if◌then◌else◌, update,
}
use katam_port.Rollback.State.{
  Session, Heap, live, resimulating, requested, rb_players, keys_mod, cell, is_negative,
}
use katam_port.Rollback.Timeline.{timeline_reserve, predict_for, advance_confirmed}
use katam_port.Rollback.Input.{extend}
use katam_port.Rollback.Events.{apply_events_for}
use katam_port.Rollback.Machine.{Machine}

-- `if (!known[i]) { keys[i] = PredictFor(p, frame); if (p != self) predictions++; }`
unfoldable pub fill_player : ℕ → ℕ → ℕ → Session → Session
fill_player self frame p s = if s.tl.known (cell frame p) then s else record s {
  tl = record (s.tl) { keys = update s.tl.keys (cell frame p) (predict_for s.tl p frame) };
  stats = record (s.stats) {
    predictions = if p == self then s.stats.predictions else u32 (s.stats.predictions + 1);
  };
}

-- The loop over the players from 0 to n - 1.
unfoldable pub fill_players : ℕ → ℕ → ℕ → Session → Session
fill_players self frame zero s = s
fill_players self frame (suc n) s = fill_player self frame n (fill_players self frame n s)

-- The rollback that was asked for while the last frame ran.
abbrev pub rewound : Session → Session
rewound s = record s {
  frame = s.ring_frame (s.catch_up_to % s.depth);
  stats = record (s.stats) {
    rollbacks = u32 (s.stats.rollbacks + 1);
    resim_frames = u32 (s.stats.resim_frames + sub32 s.frame s.catch_up_to);
    deepest =
        if ltb s.stats.deepest (sub32 s.frame s.catch_up_to)
        then sub32 s.frame s.catch_up_to
        else s.stats.deepest;
  };
  catch_up = resimulating;
  render = false;
}

unfoldable pub catch_up_done : Session → Session
catch_up_done s = elim s.catch_up [
  | resimulating ↦
      if leb s.catch_up_to s.frame && leb (sub32 s.tl.len 1) s.frame
      then record s { catch_up = live; render = true }
      else s
  | _ ↦ s
]

-- From ApplyEventsFor to `sFrame++`, on a timeline that has the frame.
abbrev pub with_inputs : ℕ → Session → Session
with_inputs self s =
    let t = fill_players self s.frame s.players (apply_events_for s.frame s) in
    record t { tl = extend t.tl s.frame }

abbrev pub counted : Session → Session
counted t = record t {
  confirmed = advance_confirmed t;
  stats = record (t.stats) { stat_frame = t.frame; stat_confirmed = advance_confirmed t };
  frame = u32 (t.frame + 1);
}

module _ (m : Machine) where
  open m use {Mem, save, load, held, ai_input, set_held, set_pressed, set_released}
  open m use {set_player_count, apply_keys}

  -- The buttons of a slot: its peer's on the timeline, or what the AI wrote.
  abbrev pub slot_keys : Session → ℕ → ℕ → Mem → ℕ
  slot_keys s frame slot mem =
      if is_negative (s.slot_peer slot)
      then ai_input mem slot
      else s.tl.keys (cell frame (s.slot_peer slot)) % keys_mod

  abbrev pub write_slot : ℕ → ℕ → ℕ → Mem → Mem
  write_slot slot prev now mem =
      set_released slot (and_not prev now)
        (set_pressed slot (and_not now prev) (set_held slot now mem))

  unfoldable pub apply_slot : Session → ℕ → ℕ → Mem → Mem
  apply_slot s frame slot mem =
      if leb s.slots_in_play slot
      then mem
      else write_slot slot (held mem slot) (slot_keys s frame slot mem) mem

  -- The loop over the slots from 0 to n - 1.
  unfoldable pub apply_slots : Session → ℕ → ℕ → Mem → Mem
  apply_slots s frame zero mem = mem
  apply_slots s frame (suc n) mem = apply_slot s frame n (apply_slots s frame n mem)

  unfoldable pub apply_slot_inputs : Session → ℕ → Mem → Mem
  apply_slot_inputs s frame mem =
      apply_slots s frame rb_players (set_player_count s.slots_in_play mem)

  unfoldable pub roll_back : Session → Mem → Session × Mem
  roll_back s mem = elim s.catch_up [
    | requested ↦ (rewound s, load (s.ring (s.catch_up_to % s.depth)) mem)
    | _ ↦ (s, mem)
  ]

  abbrev pub frame_mem : ℕ → Session → Mem → Mem
  frame_mem self t mem =
      apply_slot_inputs t t.frame (apply_keys (t.tl.keys (cell t.frame self)) mem)

  abbrev pub saved : Session → Mem → Session
  saved t mem = record t {
    ring = update t.ring (t.frame % t.depth) (save mem);
    ring_frame = update t.ring_frame (t.frame % t.depth) t.frame;
    ring_valid = update t.ring_valid (t.frame % t.depth) true;
  }

  unfoldable pub simulate : ℕ → Session → Mem → Session × Mem
  simulate self s mem =
      let t = with_inputs self s in
      let mem' = frame_mem self t mem in (counted (saved t mem'), mem')

  -- PortRbFrame, with SelfId() as `self`.
  unfoldable pub frame_hook : Heap → ℕ → Session → Mem → Session × Mem
  frame_hook heap self s mem =
      if s.active
      then (let (s1, mem1) = roll_back s mem in
          let s2 = catch_up_done s1 in
          elim (timeline_reserve heap s2.tl s2.frame) [
            | none ↦ (s2, mem1)
            | some tl ↦ simulate self (record s2 { tl = tl }) mem1
          ])
      else (s, mem)
