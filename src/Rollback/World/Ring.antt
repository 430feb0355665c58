-- ===== src/Rollback/World/Ring.antt =====
-- platform/rollback.c: only the frame hook writes the ring of snapshots.
use katam_port.Base.{
  ℕ, zero, suc, ◌%◌, ◌≡◌, refl, sym, ◌∙◌, subst, ◌&&◌, Option-cases, Bool-cases, inl, inr, ltb,
  ◌==◌, ℤ, pos, negsuc, List, [], ◌∷◌, length,
}
use katam_port.Rollback.State.{Session, Event, Heap, rb_players, keys_mod, cell, max_events}
use katam_port.Rollback.Timeline.{timeline_reserve}
use katam_port.Rollback.Input.{
  set_local_input, in_ring, may_request, correct, store, too_late, confirm_input,
}
use katam_port.Rollback.Events.{
  apply_event, apply_events, apply_events_for, schedule_event, assign_slot, is_scheduled_event,
}
use katam_port.Rollback.Frame.{fill_player, fill_players, with_inputs}
use katam_port.Rollback.Invariant.Hook.{apply_event-eq}

-- The snapshots of `t` are those of `s`.
pub record HasRing (s t : Session) : Type 0 where
  pub depth : t.depth ≡ s.depth
  pub ring : t.ring ≡ s.ring
  pub ring_frame : t.ring_frame ≡ s.ring_frame
  pub ring_valid : t.ring_valid ≡ s.ring_valid

abbrev same : (s : Session) → HasRing s s
same s = record { depth = refl; ring = refl; ring_frame = refl; ring_valid = refl }

pub then-HasRing : {s t u : Session} → HasRing s t → HasRing t u → HasRing s u
then-HasRing a b = record {
  depth = b.depth ∙ a.depth;
  ring = b.ring ∙ a.ring;
  ring_frame = b.ring_frame ∙ a.ring_frame;
  ring_valid = b.ring_valid ∙ a.ring_valid;
}

correct-HasRing :
    (predicted keys frame : ℕ) (s : Session) → HasRing s (correct predicted keys frame s)
unfolding correct
correct-HasRing predicted keys frame s = elim (Bool-cases (predicted == keys)) [
  | inl e ↦ rw (e, correct) (same s)
  | inr other ↦ elim (Bool-cases (in_ring s frame)) [
    | inr lost ↦
        rw (other, lost, correct)
          (record { depth = refl; ring = refl; ring_frame = refl; ring_valid = refl })
    | inl here ↦ elim (Bool-cases (may_request s.catch_up frame s.catch_up_to)) [
      | inl may ↦
          rw (other, here, may, correct)
            (record { depth = refl; ring = refl; ring_frame = refl; ring_valid = refl })
      | inr wait ↦
          rw (other, here, wait, correct)
            (record { depth = refl; ring = refl; ring_frame = refl; ring_valid = refl })
    ]
  ]
]

store-HasRing : (player frame keys : ℕ) (s : Session) → HasRing s (store player frame keys s)
unfolding store
store-HasRing player frame keys s = elim (Bool-cases (s.tl.known (cell frame player))) [
  | inl twice ↦ rw (twice, store) (same s)
  | inr new ↦ elim (Bool-cases (ltb frame s.frame)) [
    | inl past ↦
        rw (new, past, store)
          (then-HasRing (record { depth = refl; ring = refl; ring_frame = refl; ring_valid = refl })
            (correct-HasRing (s.tl.keys (cell frame player)) keys frame _))
    | inr ahead ↦
        rw (new, ahead, store)
          (record { depth = refl; ring = refl; ring_frame = refl; ring_valid = refl })
  ]
]

pub confirm_input-HasRing :
    (heap : Heap) (player : ℤ) (frame keys : ℕ) (s : Session)
    → HasRing s (confirm_input heap player frame keys s)
unfolding confirm_input
confirm_input-HasRing heap (negsuc _) frame keys s = same s
confirm_input-HasRing heap (pos player) frame keys s =
    elim (Bool-cases (s.active && ltb player rb_players)) [
      | inr off ↦ rw (off, confirm_input) (same s)
      | inl on ↦ elim (Bool-cases (too_late s frame)) [
        | inl late ↦
            rw (on, late, confirm_input)
              (record { depth = refl; ring = refl; ring_frame = refl; ring_valid = refl })
        | inr fresh ↦ elim (Option-cases (timeline_reserve heap s.tl frame)) [
          | inl e ↦ rw (on, fresh, e, confirm_input) (same s)
          | inr (tl, e) ↦
              rw (on, fresh, e, confirm_input)
                (then-HasRing
                  (record { depth = refl; ring = refl; ring_frame = refl; ring_valid = refl })
                  (store-HasRing player frame (keys % keys_mod) (record s { tl = tl })))
        ]
      ]
    ]

pub set_local_input-HasRing :
    (heap : Heap) (self keys : ℕ) (s : Session) → HasRing s (set_local_input heap self keys s)
unfolding set_local_input
set_local_input-HasRing heap self keys s = elim (Bool-cases s.active) [
  | inr off ↦ simp (off, set_local_input) (same s)
  | inl on ↦ elim (Option-cases (timeline_reserve heap s.tl s.frame)) [
    | inl e ↦ simp (on, e, set_local_input) (same s)
    | inr (tl, e) ↦
        simp (on, e, set_local_input)
          (record { depth = refl; ring = refl; ring_frame = refl; ring_valid = refl })
  ]
]

pub schedule_event-HasRing : (e : Event) (s : Session) → HasRing s (schedule_event e s).1
unfolding schedule_event
schedule_event-HasRing e s =
    elim (Bool-cases (s.active && ltb (length s.events) max_events && is_scheduled_event e)) [
      | inl ok ↦
          rw (ok, schedule_event)
            (record { depth = refl; ring = refl; ring_frame = refl; ring_valid = refl })
      | inr bad ↦ rw (bad, schedule_event) (same s)
    ]

pub assign_slot-HasRing :
    (frame : ℕ) (slot peer : ℤ) (s : Session) → HasRing s (assign_slot frame slot peer s).1
unfolding assign_slot
assign_slot-HasRing frame (negsuc _) peer s = same s
assign_slot-HasRing frame (pos slot) peer s = elim (Bool-cases (ltb slot rb_players)) [
  | inl e ↦ rw (e, assign_slot) (schedule_event-HasRing _ s)
  | inr e ↦ rw (e, assign_slot) (same s)
]

-- The same snapshots at the same frame.
pub record IsBeside (s t : Session) : Type 0 where
  pub snapshots : HasRing s t
  pub frame : t.frame ≡ s.frame

then-IsBeside : {s t u : Session} → IsBeside s t → IsBeside t u → IsBeside s u
then-IsBeside a b = record {
  snapshots = then-HasRing a.snapshots b.snapshots;
  frame = b.frame ∙ a.frame;
}

apply_event-IsBeside : (e : Event) (s : Session) → IsBeside s (apply_event e s)
apply_event-IsBeside e s = subst (IsBeside s) (sym (apply_event-eq e s)) (record {
  snapshots = record { depth = refl; ring = refl; ring_frame = refl; ring_valid = refl };
  frame = refl;
})

apply_events-IsBeside : (f : ℕ) (es : List Event) (s : Session) → IsBeside s (apply_events f es s)
unfolding apply_events
apply_events-IsBeside f [] s = record { snapshots = same s; frame = refl }
apply_events-IsBeside f (e ∷ es) s = elim (Bool-cases (e.at == f)) [
  | inl t ↦
      rw (t, apply_events)
        (then-IsBeside (apply_event-IsBeside e s) (apply_events-IsBeside f es (apply_event e s)))
  | inr n ↦ rw (n, apply_events) (apply_events-IsBeside f es s)
]

fill_player-IsBeside : (self f p : ℕ) (s : Session) → IsBeside s (fill_player self f p s)
unfolding fill_player
fill_player-IsBeside self f p s = elim (Bool-cases (s.tl.known (cell f p))) [
  | inl k ↦ rw (k, fill_player) (record { snapshots = same s; frame = refl })
  | inr n ↦
      rw (n, fill_player)
        (record {
          snapshots = record { depth = refl; ring = refl; ring_frame = refl; ring_valid = refl };
          frame = refl;
        })
]

fill_players-IsBeside : (self f n : ℕ) (s : Session) → IsBeside s (fill_players self f n s)
unfolding fill_players
fill_players-IsBeside self f zero s = record { snapshots = same s; frame = refl }
fill_players-IsBeside self f (suc n) s =
    then-IsBeside (fill_players-IsBeside self f n s) (fill_player-IsBeside self f n _)

pub with_inputs-IsBeside : (self : ℕ) (s : Session) → IsBeside s (with_inputs self s)
with_inputs-IsBeside self s =
    let all =
      then-IsBeside (mapped s)
        (fill_players-IsBeside self s.frame s.players (apply_events_for s.frame s)) in
    record {
      snapshots = record {
        depth = all.snapshots.depth;
        ring = all.snapshots.ring;
        ring_frame = all.snapshots.ring_frame;
        ring_valid = all.snapshots.ring_valid;
      };
      frame = all.frame;
    }
  where
    mapped : (s : Session) → IsBeside s (apply_events_for s.frame s)
    mapped s = unfold apply_events_for in apply_events-IsBeside s.frame s.events s
