-- ===== src/Rollback/Invariant/Inputs.antt =====
-- platform/rollback.c: PortRbSetLocalInput, PortRbConfirmInput and PortRbInputAt keep the invariant.
use katam_port.Base.{
  ℕ, ◌*◌, ◌%◌, ◌^◌, ◌<◌, ◌≡◌, sym, ◌∙◌, subst, true, ◌&&◌, some, Option-cases, Bool-cases, inl, inr,
  ltb, ◌==◌, arith, ℤ, pos, negsuc,
}
use katam_port.Rollback.State.{
  Timeline, Session, Heap, rb_players, keys_mod, cell, live, requested, resimulating, CatchUp,
}
use katam_port.Rollback.Timeline.{timeline_reserve}
use katam_port.Rollback.Timeline.Reserve.{IsTimeline, Reserved, timeline_reserve-Reserved}
use katam_port.Rollback.Input.{
  write_known, extend, set_local_input, in_ring, may_request, correct, store, too_late,
  confirm_input,
}
use katam_port.Rollback.Invariant.{IsSession}

-- A write inside the arrays, of ten bits.
pub write_known-IsTimeline :
    (tl : Timeline) (i v : ℕ)
    → IsTimeline tl
    → i < tl.cap * rb_players
    → v < keys_mod
    → IsTimeline (write_known tl i v)
write_known-IsTimeline tl i v t hi hv = record {
  masked = λ j. ground (arith, t.masked j);
  clean_keys = λ j b. ground (arith, t.clean_keys j b);
  clean_known = λ j b. ground (arith, t.clean_known j b);
  fits = t.fits;
  small = t.small;
}

pub extend-IsTimeline :
    (tl : Timeline) (f : ℕ) → IsTimeline tl → f < tl.cap → IsTimeline (extend tl f)
extend-IsTimeline tl f t h = record {
  masked = t.masked;
  clean_keys = t.clean_keys;
  clean_known = t.clean_known;
  fits = ground (arith, t.fits, t.small);
  small = t.small;
}

-- Another timeline that knows what this one knew.
pub with_timeline :
    (start : ℕ) (s : Session) (tl : Timeline)
    → IsSession start s
    → IsTimeline tl
    → ((i : ℕ) → s.tl.known i ≡ true → tl.known i ≡ true)
    → IsSession start (record s { tl = tl })
with_timeline start s tl v t more = record {
  timeline = t;
  deep = v.deep;
  not_too_deep = v.not_too_deep;
  some_players = v.some_players;
  few_players = v.few_players;
  ring_slots = v.ring_slots;
  ring_early = v.ring_early;
  can_roll_back = v.can_roll_back;
  known_below = λ f p lo hi hp. more (cell f p) (v.known_below f p lo hi hp);
  in_order = v.in_order;
  well_formed = v.well_formed;
  few_events = v.few_events;
  one_seat = v.one_seat;
  some_slots = v.some_slots;
  few_slots = v.few_slots;
}

-- Other counters, and a rollback asked for to a frame in the ring.
pub with_request :
    (start : ℕ) (s : Session) (c : CatchUp) (to : ℕ) (st : katam_port.Rollback.State.Stats)
    → IsSession start s
    → (c ≡ requested → in_ring s to ≡ true)
    → IsSession start (record s { catch_up = c; catch_up_to = to; stats = st })
with_request start s c to st v can = record {
  timeline = v.timeline;
  deep = v.deep;
  not_too_deep = v.not_too_deep;
  some_players = v.some_players;
  few_players = v.few_players;
  ring_slots = v.ring_slots;
  ring_early = v.ring_early;
  can_roll_back = can;
  known_below = v.known_below;
  in_order = v.in_order;
  well_formed = v.well_formed;
  few_events = v.few_events;
  one_seat = v.one_seat;
  some_slots = v.some_slots;
  few_slots = v.few_slots;
}

pub Reserved-IsSession :
    (start frame : ℕ) (s : Session) (tl : Timeline)
    → IsSession start s
    → Reserved s.tl frame tl
    → IsSession start (record s { tl = tl })
Reserved-IsSession start frame s tl v r =
    with_timeline start s tl v r.valid (λ i k. r.same_known i ∙ k)

write_known_more :
    (tl : Timeline) (i v j : ℕ) → tl.known j ≡ true → (write_known tl i v).known j ≡ true
write_known_more tl i v j h = ground arith

pub written-IsTimeline :
    (tl : Timeline) (f p v : ℕ)
    → IsTimeline tl
    → f < tl.cap
    → p < rb_players
    → v < keys_mod
    → IsTimeline (extend (write_known tl (cell f p) v) f)
written-IsTimeline tl f p v t hf hp hv =
    extend-IsTimeline (write_known tl (cell f p) v) f
      (write_known-IsTimeline tl (cell f p) v t (omega (arith, t.small)) hv) hf

set_local_input-eq :
    (heap : Heap) (self keys : ℕ) (s : Session) {tl : Timeline}
    → s.active ≡ true
    → timeline_reserve heap s.tl s.frame ≡ some tl
    → set_local_input heap self keys s
      ≡ record s { tl = extend (write_known tl (cell s.frame self) (keys % keys_mod)) s.frame }
unfolding set_local_input
set_local_input-eq heap self keys s on e = ground arith

-- PortRbSetLocalInput, for a player of the link and a frame counter below 2 ^ 30, keeps the invariant.
pub set_local_input-IsSession :
    (heap : Heap) (self keys start : ℕ) (s : Session)
    → self < rb_players
    → s.frame < 2 ^ 30
    → IsSession start s
    → IsSession start (set_local_input heap self keys s)
unfolding set_local_input
set_local_input-IsSession heap self keys start s hs hf v = elim (Bool-cases s.active) [
  | inr off ↦ simp (off, set_local_input) v
  | inl on ↦ elim (Option-cases (timeline_reserve heap s.tl s.frame)) [
    | inl e ↦ simp (on, e, set_local_input) v
    | inr (tl, e) ↦
        let r = timeline_reserve-Reserved heap s.tl s.frame v.timeline hf e in
        subst (IsSession start) (sym (set_local_input-eq heap self keys s on e)) (
          with_timeline start s _ v
            (written-IsTimeline tl s.frame self (keys % keys_mod) r.valid r.room hs (omega arith))
            (λ i k.
              write_known_more tl (cell s.frame self) (keys % keys_mod) i (r.same_known i ∙ k)))
  ]
]

-- Corrections ask for a rollback only to a frame whose snapshot stands in the ring.
correct-IsSession :
    (predicted keys frame start : ℕ) (s : Session)
    → IsSession start s
    → IsSession start (correct predicted keys frame s)
unfolding correct
correct-IsSession predicted keys frame start s v = elim (Bool-cases (predicted == keys)) [
  | inl same ↦ rw (same, correct) v
  | inr other ↦ elim (Bool-cases (in_ring s frame)) [
    | inr lost ↦
        rw (other, lost, correct)
          (with_request start s s.catch_up s.catch_up_to _ v v.can_roll_back)
    | inl here ↦ elim (Bool-cases (may_request s.catch_up frame s.catch_up_to)) [
      | inl may ↦
          rw (other, here, may, correct) (with_request start s requested frame _ v (λ e. here))
      | inr wait ↦
          rw (other, here, wait, correct)
            (with_request start s s.catch_up s.catch_up_to _ v v.can_roll_back)
    ]
  ]
]

store-IsSession :
    (player frame keys start : ℕ) (s : Session)
    → player < rb_players
    → frame < s.tl.cap
    → keys < keys_mod
    → IsSession start s
    → IsSession start (store player frame keys s)
unfolding store
store-IsSession player frame keys start s hp hf hk v =
    elim (Bool-cases (s.tl.known (cell frame player))) [
      | inl twice ↦ rw (twice, store) v
      | inr new ↦ elim (Bool-cases (ltb frame s.frame)) [
        | inl past ↦
            rw (new, past, store)
              (correct-IsSession (s.tl.keys (cell frame player)) keys frame start _ (
                with_timeline start s _ v
                  (write_known-IsTimeline s.tl (cell frame player) keys v.timeline
                    (omega (arith, v.timeline.small)) hk)
                  (λ i k. write_known_more s.tl (cell frame player) keys i k)))
        | inr ahead ↦
            rw (new, ahead, store)
              (with_timeline start s _ v
                (written-IsTimeline s.tl frame player keys v.timeline hf hp hk)
                (λ i k. write_known_more s.tl (cell frame player) keys i k))
      ]
    ]

-- PortRbConfirmInput, for a frame below 2 ^ 30 and any player and keys, keeps the invariant.
pub confirm_input-IsSession :
    (heap : Heap) (player : ℤ) (frame keys start : ℕ) (s : Session)
    → frame < 2 ^ 30
    → IsSession start s
    → IsSession start (confirm_input heap player frame keys s)
unfolding confirm_input
confirm_input-IsSession heap (negsuc _) frame keys start s hf v = v
confirm_input-IsSession heap (pos player) frame keys start s hf v =
    elim (Bool-cases (s.active && ltb player rb_players)) [
      | inr off ↦ rw (off, confirm_input) v
      | inl on ↦ elim (Bool-cases (too_late s frame)) [
        | inl late ↦
            rw (on, late, confirm_input)
              (with_request start s s.catch_up s.catch_up_to _ v v.can_roll_back)
        | inr fresh ↦ elim (Option-cases (timeline_reserve heap s.tl frame)) [
          | inl e ↦ rw (on, fresh, e, confirm_input) v
          | inr (tl, e) ↦
              let r = timeline_reserve-Reserved heap s.tl frame v.timeline hf e in
              rw (on, fresh, e, confirm_input)
                (store-IsSession player frame (keys % keys_mod) start _ (ground arith) r.room
                  (omega arith) (Reserved-IsSession start frame s tl v r))
        ]
      ]
    ]
