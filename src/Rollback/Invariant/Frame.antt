-- ===== src/Rollback/Invariant/Frame.antt =====
-- platform/rollback.c: PortRbFrame keeps the invariant.
use katam_port.Base.{
  ℕ, ◌%◌, ◌^◌, ◌≤◌, ◌<◌, ◌≡◌, ◌≢◌, refl, sym, subst, Bool, true, Option-cases, Bool-cases, inl, inr,
  arith, ◌⊎◌, ℕ_discrete, dec_lt,
}
use katam_port.Rollback.State.{Session, Heap, Stats, cell, live, requested, resimulating, CatchUp}
use katam_port.Rollback.Timeline.{timeline_reserve, advance_confirmed}
use katam_port.Rollback.Timeline.Reserve.{timeline_reserve-Reserved}
use katam_port.Rollback.Timeline.Predict.{advance_confirmed-Advanced, all_known_sound}
use katam_port.Rollback.Events.{apply_events_for}
use katam_port.Rollback.Machine.{Machine}
use katam_port.Rollback.Frame.{
  fill_players, roll_back, catch_up_done, with_inputs, saved, counted, simulate, frame_hook,
}
use katam_port.Rollback.Invariant.{IsSession}
use katam_port.Rollback.Frame.Branches.{
  roll_back-requested, roll_back-other, frame_hook-off, frame_hook-full, frame_hook-runs,
}
use katam_port.Rollback.Invariant.Inputs.{with_timeline, extend-IsTimeline, Reserved-IsSession}
use katam_port.Rollback.Invariant.Hook.{Ready, apply_events-Ready, fill_players-Ready}

with_inputs-Ready :
    (self start : ℕ) (s : Session)
    → Ready start s.frame s
    → Ready start s.frame (with_inputs self s)
with_inputs-Ready self start s r = record {
  session =
      with_timeline start _ _ filled.session
        (extend-IsTimeline _ s.frame filled.session.timeline filled.room) (λ i k. k);
  settled = filled.settled;
  early = filled.early;
  room = filled.room;
}
  where
    mapped : Ready start s.frame (apply_events_for s.frame s)
    mapped =
        unfold apply_events_for in
        apply_events-Ready start s.frame s.frame s.events s r.session.well_formed r

    filled : Ready start s.frame (fill_players self s.frame s.players (apply_events_for s.frame s))
    filled = fill_players-Ready self start s.frame s.players _ r.session.few_players mapped

pub CatchUp-cases : (c : CatchUp) → (c ≡ requested) ⊎ (c ≢ requested)
CatchUp-cases live = inr (cc)
CatchUp-cases resimulating = inr (cc)
CatchUp-cases requested = inl refl

-- Another frame, other counters, and no rollback outstanding.
with_mode :
    (start : ℕ) (s : Session) (f : ℕ) (c : CatchUp) (st : Stats) (r : Bool)
    → IsSession start s
    → c ≢ requested
    → IsSession start (record s { frame = f; catch_up = c; stats = st; render = r })
with_mode start s f c st r v ne = record {
  timeline = v.timeline;
  deep = v.deep;
  not_too_deep = v.not_too_deep;
  some_players = v.some_players;
  few_players = v.few_players;
  ring_slots = v.ring_slots;
  ring_early = v.ring_early;
  can_roll_back = λ e. absurd (ne e);
  known_below = v.known_below;
  in_order = v.in_order;
  well_formed = v.well_formed;
  few_events = v.few_events;
  one_seat = v.one_seat;
  some_slots = v.some_slots;
  few_slots = v.few_slots;
}

-- The picture is given back, or nothing changes.
pub catch_up_done-cases :
    (s : Session)
    → (catch_up_done s ≡ s) ⊎ (catch_up_done s ≡ record s { catch_up = live; render = true })
unfolding catch_up_done
catch_up_done-cases s = ground arith

catch_up_done-IsSession :
    (start : ℕ) (s : Session)
    → IsSession start s
    → s.catch_up ≢ requested
    → s.frame < 2 ^ 30
    → IsSession start (catch_up_done s)
      × ((catch_up_done s).catch_up ≢ requested)
      × ((catch_up_done s).frame < 2 ^ 30)
catch_up_done-IsSession start s v ne lt = elim (catch_up_done-cases s) [
  | inl e ↦ rw e (v, ne, lt)
  | inr e ↦ rw e (with_mode start s s.frame live s.stats true v (λ c. cc), λ c. cc, lt)
]

module _ (m : Machine) where
  open m use {Mem}

  ring_slot :
      (t : Session) (mem : Mem) (i : ℕ)
      → ((i : ℕ) → t.ring_valid i ≡ true → t.ring_frame i % t.depth ≡ i)
      → (saved m t mem).ring_valid i ≡ true
      → (saved m t mem).ring_frame i % t.depth ≡ i
  ring_slot t mem i h v = elim (ℕ_discrete (t.frame % t.depth) i) [
    | yes e ↦ ground arith
    | no ne ↦ ground (arith, h i)
  ]

  ring_early :
      (t : Session) (mem : Mem) (i : ℕ)
      → t.frame < 2 ^ 30
      → ((i : ℕ) → t.ring_valid i ≡ true → t.ring_frame i < 2 ^ 30)
      → (saved m t mem).ring_valid i ≡ true
      → (saved m t mem).ring_frame i < 2 ^ 30
  ring_early t mem i early h v = elim (ℕ_discrete (t.frame % t.depth) i) [
    | yes e ↦ ground arith
    | no ne ↦ ground (arith, h i)
  ]

  known_before :
      (start : ℕ) (t : Session) (f p : ℕ)
      → IsSession start t
      → start ≤ f
      → f < advance_confirmed t
      → p < t.players
      → t.tl.known (cell f p) ≡ true
  known_before start t f p v lo hi hp = elim (dec_lt f t.confirmed) [
    | yes old ↦ v.known_below f p lo old hp
    | no new ↦
        all_known_sound t.tl f t.players
          ((advance_confirmed-Advanced t).complete f (omega arith) hi) p hp
  ]

  -- The snapshot goes into the slot of its frame.
  saved-IsSession :
      (start : ℕ) (t : Session) (mem : Mem)
      → IsSession start t
      → t.catch_up ≢ requested
      → t.frame < 2 ^ 30
      → IsSession start (saved m t mem)
  saved-IsSession start t mem v ne early = record {
    timeline = v.timeline;
    deep = v.deep;
    not_too_deep = v.not_too_deep;
    some_players = v.some_players;
    few_players = v.few_players;
    ring_slots = λ i. ring_slot t mem i v.ring_slots;
    ring_early = λ i. ring_early t mem i early v.ring_early;
    can_roll_back = λ e. absurd (ne e);
    known_below = v.known_below;
    in_order = v.in_order;
    well_formed = v.well_formed;
    few_events = v.few_events;
    one_seat = v.one_seat;
    some_slots = v.some_slots;
    few_slots = v.few_slots;
  }

  counted-IsSession : (start : ℕ) (t : Session) → IsSession start t → IsSession start (counted t)
  counted-IsSession start t v = record {
    timeline = v.timeline;
    deep = v.deep;
    not_too_deep = v.not_too_deep;
    some_players = v.some_players;
    few_players = v.few_players;
    ring_slots = v.ring_slots;
    ring_early = v.ring_early;
    can_roll_back = v.can_roll_back;
    known_below = λ f p lo hi hp. known_before start t f p v lo hi hp;
    in_order = v.in_order;
    well_formed = v.well_formed;
    few_events = v.few_events;
    one_seat = v.one_seat;
    some_slots = v.some_slots;
    few_slots = v.few_slots;
  }

  simulate-IsSession :
      (self start : ℕ) (s : Session) (mem : Mem)
      → Ready start s.frame s
      → IsSession start (simulate m self s mem).0
  unfolding simulate
  simulate-IsSession self start s mem r =
      let t = with_inputs-Ready self start s r in
      counted-IsSession start _ (saved-IsSession start _ _ t.session t.settled t.early)

  roll_back-IsSession :
      (start : ℕ) (s : Session) (mem : Mem)
      → s.frame < 2 ^ 30
      → IsSession start s
      → let s' = (roll_back m s mem).0 in
        IsSession start s' × (s'.catch_up ≢ requested) × (s'.frame < 2 ^ 30)
  roll_back-IsSession start s mem lt v = elim (CatchUp-cases s.catch_up) [
    | inl e ↦
        rw (roll_back-requested m s mem e)
          (with_mode start s _ _ _ _ v (λ c. cc), λ c. cc, snapshot_early e)
    | inr ne ↦ rw (roll_back-other m s mem ne) (v, ne, lt)
  ]
    where
      snapshot_early : s.catch_up ≡ requested → s.ring_frame (s.catch_up_to % s.depth) < 2 ^ 30
      snapshot_early e =
          let here = v.can_roll_back e in v.ring_early (s.catch_up_to % s.depth) (ground arith)

  pub caught_up :
      (start : ℕ) (s : Session) (mem : Mem)
      → s.frame < 2 ^ 30
      → IsSession start s
      → let s' = catch_up_done (roll_back m s mem).0 in
        IsSession start s' × (s'.catch_up ≢ requested) × (s'.frame < 2 ^ 30)
  caught_up start s mem lt v =
      let r = roll_back-IsSession start s mem lt v in
      catch_up_done-IsSession start (roll_back m s mem).0 r.0 r.1 r.2

  -- PortRbFrame, with the frame counter below 2 ^ 30, keeps the invariant: where it rolls back, where
  -- it catches up, where there is no memory for the timeline, and where it runs a frame.
  pub frame_hook-IsSession :
      (heap : Heap) (self start : ℕ) (s : Session) (mem : Mem)
      → s.frame < 2 ^ 30
      → IsSession start s
      → IsSession start (frame_hook m heap self s mem).0
  frame_hook-IsSession heap self start s mem lt v = elim (Bool-cases s.active) [
    | inr off ↦ subst (λ r. IsSession start r.0) (sym (frame_hook-off m heap self s mem off)) v
    | inl on ↦ elim (Option-cases (timeline_reserve heap s2.tl s2.frame)) [
      | inl e ↦
          subst (λ r. IsSession start r.0) (sym (frame_hook-full m heap self s mem on e)) ready.0
      | inr (tl, e) ↦
          let r = timeline_reserve-Reserved heap s2.tl s2.frame ready.0.timeline ready.2 e in
          subst (λ r. IsSession start r.0) (sym (frame_hook-runs m heap self s mem on e))
            (simulate-IsSession self start _ _ (record {
              session = Reserved-IsSession start s2.frame s2 tl ready.0 r;
              settled = ready.1;
              early = ready.2;
              room = r.room;
            }))
    ]
  ]
    where
      s2 : Session
      s2 = catch_up_done (roll_back m s mem).0

      ready : IsSession start s2 × (s2.catch_up ≢ requested) × (s2.frame < 2 ^ 30)
      ready = caught_up start s mem lt v
