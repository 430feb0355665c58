-- ===== src/Rollback/Invariant/Hook.antt =====
-- platform/rollback.c: PortRbFrame keeps the invariant.
use katam_port.Base.{
  ℕ, zero, suc, ◌*◌, ◌^◌, ◌≤◌, ◌<◌, ◌≡◌, ◌≢◌, refl, sym, subst, true, Bool-cases, inl, inr, ◌==◌,
  arith, update, List, [], ◌∷◌,
}
use katam_port.Rollback.State.{
  Timeline, Session, Event, rb_players, keys_mod, cell, requested, ev_players, ev_slot,
}
use katam_port.Rollback.Timeline.{predict_for}
use katam_port.Rollback.Timeline.Reserve.{IsTimeline}
use katam_port.Rollback.Events.{apply_event, apply_events, is_scheduled_event}
use katam_port.Rollback.Events.Seats.{AreScheduled, apply_event-OneSeat, OneSeat}
use katam_port.Rollback.Frame.{fill_player, fill_players}
use katam_port.Rollback.Invariant.{IsSession}
use katam_port.Rollback.Invariant.Inputs.{with_timeline, with_request}

-- A session that is about to run `frame`: no rollback is outstanding, and the timeline has the frame.
pub record Ready (start frame : ℕ) (s : Session) : Type 0 where
  pub session : IsSession start s
  pub settled : s.catch_up ≢ requested
  pub early : s.frame < 2 ^ 30
  pub room : frame < s.tl.cap

with_map :
    (start : ℕ) (s : Session) (m : ℕ → ℕ) (n : ℕ)
    → IsSession start s
    → OneSeat m
    → 1 ≤ n
    → n ≤ rb_players
    → IsSession start (record s { slot_peer = m; slots_in_play = n })
with_map start s m n v one lo hi = record {
  timeline = v.timeline;
  deep = v.deep;
  not_too_deep = v.not_too_deep;
  some_players = v.some_players;
  few_players = v.few_players;
  ring_slots = v.ring_slots;
  ring_early = v.ring_early;
  can_roll_back = v.can_roll_back;
  known_below = v.known_below;
  in_order = v.in_order;
  well_formed = v.well_formed;
  few_events = v.few_events;
  one_seat = one;
  some_slots = lo;
  few_slots = hi;
}

-- An event changes the map of the slots, and nothing else.
pub apply_event-eq :
    (e : Event) (s : Session)
    → apply_event e s ≡ record s {
      slot_peer = (apply_event e s).slot_peer;
      slots_in_play = (apply_event e s).slots_in_play;
    }
unfolding apply_event
apply_event-eq e s = elim (Bool-cases (e.kind == ev_players)) [
  | inl t ↦ rw (t, apply_event) refl
  | inr n ↦ elim (Bool-cases (e.kind == ev_slot)) [
    | inl t ↦ rw (n, t, apply_event) refl
    | inr n' ↦ rw (n, n', apply_event) refl
  ]
]

apply_event-slots :
    (e : Event) (s : Session)
    → is_scheduled_event e ≡ true
    → 1 ≤ s.slots_in_play
    → s.slots_in_play ≤ rb_players
    → (1 ≤ (apply_event e s).slots_in_play) × ((apply_event e s).slots_in_play ≤ rb_players)
unfolding apply_event
apply_event-slots e s ok lo hi = ground arith

apply_event-Ready :
    (start f : ℕ) (e : Event) (s : Session)
    → is_scheduled_event e ≡ true
    → Ready start f s
    → Ready start f (apply_event e s)
apply_event-Ready start f e s ok r =
    let slots = apply_event-slots e s ok r.session.some_slots r.session.few_slots in
    subst (Ready start f) (sym (apply_event-eq e s)) (record {
      session =
          with_map start s (apply_event e s).slot_peer (apply_event e s).slots_in_play r.session
            (apply_event-OneSeat e s ok r.session.one_seat) slots.0 slots.1;
      settled = r.settled;
      early = r.early;
      room = r.room;
    })

pub apply_events-Ready :
    (start f g : ℕ) (es : List Event) (s : Session)
    → AreScheduled es
    → Ready start f s
    → Ready start f (apply_events g es s)
unfolding apply_events
apply_events-Ready start f g [] s ok r = r
apply_events-Ready start f g (e ∷ es) s ok r = elim (Bool-cases (e.at == g)) [
  | inl t ↦
      rw (t, apply_events)
        (apply_events-Ready start f g es (apply_event e s) ok.1
          (apply_event-Ready start f e s ok.0 r))
  | inr n ↦ rw (n, apply_events) (apply_events-Ready start f g es s ok.1 r)
]

predict_for-lt : (tl : Timeline) (p f : ℕ) → IsTimeline tl → predict_for tl p f < keys_mod
unfolding predict_for
predict_for-lt tl p zero t = omega arith
predict_for-lt tl p (suc f) t = ground (arith, t.masked (cell f p), predict_for-lt tl p f t)

-- A key written inside the arrays.
set_key-IsTimeline :
    (tl : Timeline) (i v : ℕ)
    → IsTimeline tl
    → i < tl.cap * rb_players
    → v < keys_mod
    → IsTimeline (record tl { keys = update tl.keys i v })
set_key-IsTimeline tl i v t hi hv = record {
  masked = λ j. ground (arith, t.masked j);
  clean_keys = λ j b. ground (arith, t.clean_keys j b);
  clean_known = t.clean_known;
  fits = t.fits;
  small = t.small;
}

fill_player-Ready :
    (self start f p : ℕ) (s : Session)
    → p < rb_players
    → Ready start f s
    → Ready start f (fill_player self f p s)
unfolding fill_player
fill_player-Ready self start f p s hp r = elim (Bool-cases (s.tl.known (cell f p))) [
  | inl k ↦ rw (k, fill_player) r
  | inr n ↦
      let t = r.session.timeline in
      let tl' =
        set_key-IsTimeline s.tl (cell f p) (predict_for s.tl p f) t (omega (arith, t.small, r.room))
          (predict_for-lt s.tl p f t) in
      rw (n, fill_player)
        (record {
          session =
              with_request start _ s.catch_up s.catch_up_to _
                (with_timeline start s _ r.session tl' (λ i k. k)) r.session.can_roll_back;
          settled = r.settled;
          early = r.early;
          room = r.room;
        })
]

pub fill_players-Ready :
    (self start f n : ℕ) (s : Session)
    → n ≤ rb_players
    → Ready start f s
    → Ready start f (fill_players self f n s)
unfolding fill_players
fill_players-Ready self start f zero s h r = r
fill_players-Ready self start f (suc n) s h r =
    fill_player-Ready self start f n _ (omega arith)
      (fill_players-Ready self start f n s (omega arith) r)
