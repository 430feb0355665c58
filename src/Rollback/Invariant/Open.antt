-- ===== src/Rollback/Invariant/Open.antt =====
-- platform/rollback.c: PortRbInit establishes the invariant, and PortRbScheduleEvent, PortRbAssignSlot
-- and PortRbReplayTo keep it.
use katam_port.Base.{
  ℕ, ◌+◌, ◌*◌, ◌^◌, ◌≤◌, ◌<◌, ◌≡◌, refl, true, false, ◌&&◌, none, some, Option-cases, Bool-cases,
  inl, inr, ltb, arith, ℤ, pos, negsuc, length, u32,
}
use katam_port.Rollback.State.{
  Timeline, Session, Event, Heap, rb_players, max_frames, timeline_chunk, max_events,
}
use katam_port.Rollback.Timeline.{timeline_reserve}
use katam_port.Rollback.Timeline.Reserve.{IsTimeline, timeline_reserve-Reserved}
use katam_port.Rollback.Lifecycle.{clamp, no_timeline, shutdown, opened, first_map, init}
use katam_port.Rollback.Events.{schedule_event, is_scheduled_event, assign_slot}
use katam_port.Rollback.Events.Order.{
  insert_event-IsSorted, length-insert_event, insert_event-All_of,
}
use katam_port.Rollback.Events.Seats.{OneSeat}
use katam_port.Rollback.Invariant.{IsSession}

clamp_bounds : (hi : ℕ) (x : ℤ) → 1 ≤ hi → (1 ≤ clamp hi x) × (clamp hi x ≤ hi)
clamp_bounds hi (negsuc _) h = omega arith
clamp_bounds hi (pos x) h = ground arith

first_map-OneSeat : (n : ℕ) → n ≤ rb_players → OneSeat (first_map n)
first_map-OneSeat n h i j hi hj ng e = ground arith

no_timeline-IsTimeline : IsTimeline no_timeline
no_timeline-IsTimeline = record {
  masked = λ i. omega arith;
  clean_keys = λ i b. refl;
  clean_known = λ i b. refl;
  fits = omega arith;
  small = omega arith;
}

opened-IsSession :
    (bytes d p now : ℕ) (s : Session) (tl : Timeline)
    → (1 ≤ d) × (d ≤ max_frames)
    → (1 ≤ p) × (p ≤ rb_players)
    → IsTimeline tl
    → now ≤ tl.cap
    → IsSession now (record (opened bytes d p now s) { tl = record tl { len = now } })
opened-IsSession bytes d p now s tl hd hp t room = record {
  timeline = record {
    masked = t.masked;
    clean_keys = t.clean_keys;
    clean_known = t.clean_known;
    fits = room;
    small = t.small;
  };
  deep = hd.0;
  not_too_deep = hd.1;
  some_players = hp.0;
  few_players = hp.1;
  ring_slots = λ i e. cc;
  ring_early = λ i e. cc;
  can_roll_back = λ e. cc;
  known_below = λ f q lo hi hq. absurd (omega arith);
  in_order = tt;
  well_formed = tt;
  few_events = omega arith;
  one_seat = first_map-OneSeat p hp.1;
  some_slots = omega arith;
  few_slots = omega arith;
}

module _ (heap : Heap) (bytes now : ℕ) (depth players : ℤ) (s : Session) where
  abbrev d : ℕ
  d = clamp max_frames depth

  abbrev p : ℕ
  p = clamp rb_players players

  init-no_ring :
      heap.grant_ring (bytes * d) ≡ false → (init heap bytes now depth players s).0 ≡ false
  unfolding init
  init-no_ring n = ground arith

  init-no_timeline :
      timeline_reserve heap no_timeline (u32 (now + timeline_chunk)) ≡ none
      → (init heap bytes now depth players s).0 ≡ false
  unfolding init
  init-no_timeline n = ground arith

  init-opens :
      {tl : Timeline}
      → heap.grant_ring (bytes * d) ≡ true
      → timeline_reserve heap no_timeline (u32 (now + timeline_chunk)) ≡ some tl
      → init heap bytes now depth players s
        ≡ (true, record (opened bytes d p now (shutdown s)) { tl = record tl { len = now } })
  unfolding init
  init-opens r t = rw (r, t, init) refl

-- A session that PortRbInit opens, whatever depth and players it is asked for, at a host's frame below
-- 2 ^ 29, has the invariant from that frame on, is active, and is at that frame.
pub init-IsSession :
    (heap : Heap) (bytes now : ℕ) (depth players : ℤ) (s : Session)
    → now < 2 ^ 29
    → (init heap bytes now depth players s).0 ≡ true
    → let s' = (init heap bytes now depth players s).1 in
      IsSession now s' × (s'.active ≡ true) × (s'.frame ≡ now)
init-IsSession heap bytes now depth players s lt done =
    elim (Bool-cases (heap.grant_ring (bytes * clamp max_frames depth))) [
      | inr n ↦ cc (done, init-no_ring heap bytes now depth players s n)
      | inl ring ↦
          elim (Option-cases (timeline_reserve heap no_timeline (u32 (now + timeline_chunk)))) [
            | inl n ↦ cc (done, init-no_timeline heap bytes now depth players s n)
            | inr (tl, e) ↦
                let r =
                  timeline_reserve-Reserved heap no_timeline (u32 (now + timeline_chunk))
                    no_timeline-IsTimeline (omega arith) e in
                rw (init-opens heap bytes now depth players s ring e) (
                  opened-IsSession bytes _ _ now (shutdown s) tl
                      (clamp_bounds max_frames depth (omega arith))
                      (clamp_bounds rb_players players (omega arith)) r.valid
                      (omega (arith, r.room)),
                  refl,
                  refl,
                )
          ]
    ]

-- The ring of a session that PortRbInit opens is empty.
pub init-empty :
    (heap : Heap) (bytes now : ℕ) (depth players : ℤ) (s : Session)
    → (init heap bytes now depth players s).0 ≡ true
    → (i : ℕ) → (init heap bytes now depth players s).1.ring_valid i ≡ false
init-empty heap bytes now depth players s done i =
    elim (Bool-cases (heap.grant_ring (bytes * clamp max_frames depth))) [
      | inr n ↦ cc (done, init-no_ring heap bytes now depth players s n)
      | inl ring ↦
          elim (Option-cases (timeline_reserve heap no_timeline (u32 (now + timeline_chunk)))) [
            | inl n ↦ cc (done, init-no_timeline heap bytes now depth players s n)
            | inr (tl, e) ↦ rw (init-opens heap bytes now depth players s ring e) refl
          ]
    ]

-- PortRbScheduleEvent keeps the invariant.
pub schedule_event-IsSession :
    (e : Event) (start : ℕ) (s : Session)
    → IsSession start s
    → IsSession start (schedule_event e s).1
unfolding schedule_event
schedule_event-IsSession e start s v =
    elim (Bool-cases (s.active && ltb (length s.events) max_events && is_scheduled_event e)) [
      | inr n ↦ rw (n, schedule_event) v
      | inl t ↦
          rw (t, schedule_event)
            (record {
              timeline = v.timeline;
              deep = v.deep;
              not_too_deep = v.not_too_deep;
              some_players = v.some_players;
              few_players = v.few_players;
              ring_slots = v.ring_slots;
              ring_early = v.ring_early;
              can_roll_back = v.can_roll_back;
              known_below = v.known_below;
              in_order = insert_event-IsSorted e s.events v.in_order;
              well_formed =
                  insert_event-All_of (λ x. is_scheduled_event x ≡ true) e s.events (ground arith)
                    v.well_formed;
              few_events = ground (arith, length-insert_event e s.events);
              one_seat = v.one_seat;
              some_slots = v.some_slots;
              few_slots = v.few_slots;
            })
    ]

pub assign_slot-IsSession :
    (frame : ℕ) (slot peer : ℤ) (start : ℕ) (s : Session)
    → IsSession start s
    → IsSession start (assign_slot frame slot peer s).1
unfolding assign_slot
assign_slot-IsSession frame (negsuc _) peer start s v = v
assign_slot-IsSession frame (pos slot) peer start s v = elim (Bool-cases (ltb slot rb_players)) [
  | inl t ↦ rw (t, assign_slot) (schedule_event-IsSession _ start s v)
  | inr n ↦ rw (n, assign_slot) v
]
