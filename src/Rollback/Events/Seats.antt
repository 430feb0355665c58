-- ===== src/Rollback/Events/Seats.antt =====
-- platform/rollback.c: ApplyEventsFor never lets a peer hold two slots.
use katam_port.Base.{
  ℕ, zero, suc, ◌+◌, ◌≤◌, ◌<◌, ◌≡◌, ◌≢◌, true, false, ◌==◌, List, [], ◌∷◌, none, some, Option,
  Option-cases, arith, Bool-cases, inl, inr, All, u8, update, ℕ_discrete,
}
use katam_port.Rollback.State.{
  Session, Event, rb_players, is_negative, ev_players, ev_slot, slot_ai,
}
use katam_port.Rollback.Events.{
  find_slot, peer_slot, vacate, take_slot, is_scheduled_event, apply_event, apply_events,
}

-- Of the four slots, no two have the same peer.
abbrev pub OneSeat : (ℕ → ℕ) → Type 0
OneSeat m =
    (i j : ℕ) → i < rb_players → j < rb_players → is_negative (m i) ≡ false → m i ≡ m j → i ≡ j

find_slot-some :
    (m : ℕ → ℕ) (p i n : ℕ) {k : ℕ} → find_slot m p i n ≡ some k → (k < i + n) × (m k ≡ u8 p)
unfolding find_slot
find_slot-some m p i zero h = cc
find_slot-some m p i (suc n) {k} h = ground (arith, find_slot-some m p (i + 1) n {k = k})

find_slot-none :
    (m : ℕ → ℕ) (p i n : ℕ) → find_slot m p i n ≡ none → (k : ℕ) → i ≤ k → k < i + n → m k ≢ u8 p
unfolding find_slot
find_slot-none m p i zero h k lo hi = absurd (omega arith)
find_slot-none m p i (suc n) h k lo hi = elim (ℕ_discrete k i) [
  | yes e ↦ rw e (ground arith)
  | no ne ↦ find_slot-none m p (i + 1) n (ground arith) k (omega arith) (omega arith)
]

-- A seat given up to the AI leaves the others distinct.
vacant-OneSeat : (m : ℕ → ℕ) (slot : ℕ) → OneSeat m → OneSeat (update m slot 0xff)
vacant-OneSeat m slot h i j hi hj ng e = ground (arith, h i j hi hj)

-- A seat given to a peer that no other slot has.
seated-OneSeat :
    (m : ℕ → ℕ) (slot p : ℕ)
    → OneSeat m
    → ((k : ℕ) → k < rb_players → k ≢ slot → m k ≢ p)
    → OneSeat (update m slot p)
seated-OneSeat m slot p h free i j hi hj ng e = ground (arith, h i j hi hj, free i hi, free j hj)

-- Once its old seat is vacated, the peer has none but the slot that it takes.
vacate-free :
    (m : ℕ → ℕ) (slot p : ℕ)
    → OneSeat m
    → p < 128
    → (k : ℕ) → k < rb_players
    → k ≢ slot
    → vacate (peer_slot m p) slot m k ≢ u8 p
unfolding vacate peer_slot
vacate-free m slot p h hp k hk ne = elim (Option-cases (find_slot m p 0 rb_players)) [
  | inl e ↦ rw e (find_slot-none m p 0 rb_players e k (omega arith) (omega arith))
  | inr (old, e) ↦
      let found = find_slot-some m p 0 rb_players e in
      rw e (λ same. ground (arith, found, h k old hk (omega (arith, found))))
]

vacate-OneSeat : (o : Option ℕ) (slot : ℕ) (m : ℕ → ℕ) → OneSeat m → OneSeat (vacate o slot m)
unfolding vacate
vacate-OneSeat none slot m h = h
vacate-OneSeat (some old) slot m h = elim (Bool-cases (old == slot)) [
  | inl e ↦ rw e h
  | inr n ↦ rw n (vacant-OneSeat m old h)
]

pub take_slot-OneSeat :
    (slot p : ℕ) (m : ℕ → ℕ) → (p ≢ slot_ai → p < 128) → OneSeat m → OneSeat (take_slot slot p m)
unfolding take_slot
take_slot-OneSeat slot p m hp h = elim (Bool-cases (p == slot_ai)) [
  | inl e ↦ rw e (vacant-OneSeat m slot h)
  | inr n ↦ rw n (
      seated-OneSeat (vacate (peer_slot m p) slot m) slot (u8 p)
        (vacate-OneSeat (peer_slot m p) slot m h) (vacate-free m slot p h (hp (ground arith))))
]

abbrev pub AreScheduled : List Event → Type 0
AreScheduled = All (λ e. is_scheduled_event e ≡ true)

pub apply_event-OneSeat :
    (e : Event) (s : Session)
    → is_scheduled_event e ≡ true
    → OneSeat s.slot_peer
    → OneSeat (apply_event e s).slot_peer
unfolding apply_event
apply_event-OneSeat e s ok h = elim (Bool-cases (e.kind == ev_players)) [
  | inl t ↦ rw (t, apply_event) h
  | inr n ↦ elim (Bool-cases (e.kind == ev_slot)) [
    | inl t ↦ rw (n, t, apply_event) (take_slot-OneSeat e.a e.b s.slot_peer (λ ne. ground arith) h)
    | inr n' ↦ rw (n, n', apply_event) h
  ]
]

-- Applying the events of a frame, of events that PortRbScheduleEvent accepts, to a map in which no
-- peer has two slots leaves no peer with two slots.
pub apply_events-OneSeat :
    (f : ℕ) (es : List Event) (s : Session)
    → AreScheduled es
    → OneSeat s.slot_peer
    → OneSeat (apply_events f es s).slot_peer
unfolding apply_events
apply_events-OneSeat f [] s ok h = h
apply_events-OneSeat f (e ∷ es) s ok h = elim (Bool-cases (e.at == f)) [
  | inl t ↦
      rw (t, apply_events)
        (apply_events-OneSeat f es (apply_event e s) ok.1 (apply_event-OneSeat e s ok.0 h))
  | inr n ↦ rw (n, apply_events) (apply_events-OneSeat f es s ok.1 h)
]
