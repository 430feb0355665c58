-- ===== src/Rollback/Events/Order.antt =====
-- platform/rollback.c: PortRbScheduleEvent keeps the events in the order of their frames, and those
-- of one frame in the order in which they were scheduled.
use katam_port.Base.{
  ℕ, ◌+◌, ◌≤◌, ◌<◌, ◌≡◌, refl, true, false, ltb, ◌==◌, ◌&&◌, List, [], ◌∷◌, ◌++◌, arith, Bool-cases,
  inl, inr, length, All, if◌then◌else◌,
}
use katam_port.Rollback.State.{Session, Event, max_events}
use katam_port.Rollback.Events.{
  all_later, insert_event, schedule_event, is_scheduled_event, apply_event, apply_events,
}

-- In the order of their frames.
abbrev pub IsSorted : List Event → Type 0
IsSorted [] = Unit
IsSorted (x ∷ xs) = All (λ y. x.at ≤ y.at) xs × IsSorted xs

-- The events of one frame, in order.
unfoldable pub at_frame : ℕ → List Event → List Event
at_frame f [] = []
at_frame f (x ∷ xs) = if x.at == f then x ∷ at_frame f xs else at_frame f xs

all_later-All : (e : Event) (xs : List Event) → all_later e xs ≡ true → All (λ y. e.at ≤ y.at) xs
unfolding all_later
all_later-All e [] h = tt
all_later-All e (x ∷ xs) h = (ground arith, all_later-All e xs (ground arith))

all_later-at_frame :
    (e : Event) (xs : List Event) (f : ℕ) → f ≤ e.at → all_later e xs ≡ true → at_frame f xs ≡ []
unfolding all_later at_frame
all_later-at_frame e [] f le h = refl
all_later-at_frame e (x ∷ xs) f le h = ground (arith, all_later-at_frame e xs f le)

-- An event that is before the first of a sorted list is before all of it.
all_later_of_first :
    (e x : Event) (xs : List Event)
    → e.at < x.at
    → All (λ y. x.at ≤ y.at) xs
    → all_later e xs ≡ true
unfolding all_later
all_later_of_first e x [] lt h = refl
all_later_of_first e x (y ∷ ys) lt h = ground (arith, all_later_of_first e x ys lt h.1)

-- What holds of the new event and of the old ones holds of them together.
pub insert_event-All_of :
    (P : Event → Type 0) (e : Event) (xs : List Event) → P e → All P xs → All P (insert_event e xs)
unfolding insert_event
insert_event-All_of P e [] h hs = (h, tt)
insert_event-All_of P e (x ∷ xs) h hs = elim (Bool-cases (all_later e (x ∷ xs))) [
  | inl t ↦ rw t (h, hs)
  | inr f ↦ rw f (hs.0, insert_event-All_of P e xs h hs.1)
]

not_before :
    (e x : Event) (xs : List Event)
    → all_later e (x ∷ xs) ≡ false
    → All (λ y. x.at ≤ y.at) xs
    → x.at ≤ e.at
unfolding all_later
not_before e x xs f h = ground (arith, all_later_of_first e x xs)

pub insert_event-IsSorted :
    (e : Event) (xs : List Event) → IsSorted xs → IsSorted (insert_event e xs)
unfolding insert_event
insert_event-IsSorted e [] h = (tt, tt)
insert_event-IsSorted e (x ∷ xs) h = elim (Bool-cases (all_later e (x ∷ xs))) [
  | inl t ↦ rw t (all_later-All e (x ∷ xs) t, h)
  | inr f ↦ rw f (
    insert_event-All_of (λ y. x.at ≤ y.at) e xs (not_before e x xs f h.0) h.0,
    insert_event-IsSorted e xs h.1,
  )
]

-- The new event comes behind those of its frame, and no other frame's change.
pub at_frame-insert_event :
    (f : ℕ) (e : Event) (xs : List Event)
    → IsSorted xs
    → at_frame f (insert_event e xs)
      ≡ (if e.at == f then at_frame f xs ++ (e ∷ []) else at_frame f xs)
unfolding insert_event at_frame
at_frame-insert_event f e [] h = ground arith
at_frame-insert_event f e (x ∷ xs) h = elim (Bool-cases (all_later e (x ∷ xs))) [
  | inl t ↦ rw t (ground (arith, all_later-at_frame e (x ∷ xs) f))
  | inr n ↦ rw n (ground (arith, at_frame-insert_event f e xs h.1))
]

pub length-insert_event : (e : Event) (xs : List Event) → length (insert_event e xs) ≡ length xs + 1
unfolding insert_event
length-insert_event e [] = omega arith
length-insert_event e (x ∷ xs) = ground (arith, length-insert_event e xs)

-- PortRbScheduleEvent, on a sorted list, succeeds exactly on a well-formed event in an active session
-- with room. The list stays sorted, and the event comes behind those of the same frame.
pub schedule_event_lem :
    (e : Event) (s : Session)
    → IsSorted s.events
    → let (done, s') = schedule_event e s in
      (done ≡ (s.active && ltb (length s.events) max_events && is_scheduled_event e))
      × IsSorted s'.events
      × ((f : ℕ)
          → at_frame f s'.events ≡ (
              if done && (e.at == f) then at_frame f s.events ++ (e ∷ []) else at_frame f s.events))
unfolding schedule_event
schedule_event_lem e s h =
    elim (Bool-cases (s.active && ltb (length s.events) max_events && is_scheduled_event e)) [
      | inl t ↦
          rw t (refl, insert_event-IsSorted e s.events h, λ f. at_frame-insert_event f e s.events h)
      | inr n ↦ rw n (refl, h, λ f. refl)
    ]

-- The frame hook applies the events of the frame, in order.
pub apply_events-at_frame :
    (f : ℕ) (es : List Event) (s : Session) → apply_events f es s ≡ apply_events f (at_frame f es) s
unfolding apply_events at_frame
apply_events-at_frame f [] s = refl
apply_events-at_frame f (e ∷ es) s =
    ground (arith, apply_events-at_frame f es (apply_event e s), apply_events-at_frame f es s)
