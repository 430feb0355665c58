-- ===== src/Rollback/Events.antt =====
-- platform/rollback.c, the event timeline and the peer-to-slot map: PortRbSuggestEventFrame,
-- PortRbScheduleEvent, PortRbAssignSlot, PortRbSlotPeer, PortRbPeerSlot, ApplyEventsFor,
-- PortRbVacantSlot.
pub mod Order
pub mod Seats
use katam_port.Base.{
  ℕ, zero, suc, ◌+◌, Bool, true, false, ◌&&◌, ◌||◌, Option, none, some, List, [], ◌∷◌, ltb, leb,
  ◌==◌, u8, u32, if◌then◌else◌, length, update, ℤ, pos, negsuc,
}
use katam_port.Rollback.State.{
  Session, Event, rb_players, max_events, ev_players, ev_slot, slot_ai, is_negative,
}

unfoldable pub suggest_event_frame : Session → ℕ
suggest_event_frame s = u32 (s.frame + s.depth + 8)

-- The checks of PortRbScheduleEvent on an event's fields.
abbrev pub is_scheduled_event : Event → Bool
is_scheduled_event e =
    if e.kind == ev_players
    then leb 1 e.a && leb e.a rb_players
    else if e.kind == ev_slot
    then ltb e.a rb_players && (e.b == slot_ai || ltb e.b rb_players)
    else true

-- Every event of the list is later than `e`.
unfoldable pub all_later : Event → List Event → Bool
all_later e [] = true
all_later e (x ∷ xs) = ltb e.at x.at && all_later e xs

-- `for (i = n; i > 0 && events[i - 1].frame > frame; i--) events[i] = events[i - 1];` moves up the
-- longest end of the array that is all later than the new event, which goes before it.
unfoldable pub insert_event : Event → List Event → List Event
insert_event e [] = e ∷ []
insert_event e (x ∷ xs) = if all_later e (x ∷ xs) then e ∷ x ∷ xs else x ∷ insert_event e xs

unfoldable pub schedule_event : Event → Session → Bool × Session
schedule_event e s =
    if s.active && ltb (length s.events) max_events && is_scheduled_event e
    then (true, record s { events = insert_event e s.events })
    else (false, s)

-- (u8)peer, or PORT_RB_SLOT_AI for a negative one.
abbrev pub seat_of : ℤ → ℕ
seat_of (negsuc _) = slot_ai
seat_of (pos peer) = u8 peer

unfoldable pub assign_slot : ℕ → ℤ → ℤ → Session → Bool × Session
assign_slot frame (negsuc _) peer s = (false, s)
assign_slot frame (pos slot) peer s =
    if ltb slot rb_players
    then schedule_event (record { at = frame; kind = ev_slot; a = slot; b = seat_of peer }) s
    else (false, s)

-- The peer of a slot as an s8, -1 where the slot is AI-driven or is none.
unfoldable pub slot_peer_at : Session → ℤ → ℕ
slot_peer_at s (negsuc _) = 0xff
slot_peer_at s (pos slot) = if ltb slot rb_players then s.slot_peer slot else 0xff

-- `for (i ...) if (sSlotPeer[i] == (s8)peer) return i;`, with `n` slots left from `i` on.
unfoldable pub find_slot : (ℕ → ℕ) → ℕ → ℕ → ℕ → Option ℕ
find_slot slot_peer peer i zero = none
find_slot slot_peer peer i (suc n) =
    let rest = find_slot slot_peer peer (i + 1) n in if slot_peer i == u8 peer then some i else rest

-- `none` is -1.
unfoldable pub peer_slot : (ℕ → ℕ) → ℕ → Option ℕ
peer_slot slot_peer peer = find_slot slot_peer peer 0 rb_players

-- A peer's old slot goes to the AI, unless it is the slot that the peer takes.
unfoldable pub vacate : Option ℕ → ℕ → (ℕ → ℕ) → ℕ → ℕ
vacate none slot slot_peer = slot_peer
vacate (some old) slot slot_peer = if old == slot then slot_peer else update slot_peer old 0xff

unfoldable pub take_slot : ℕ → ℕ → (ℕ → ℕ) → ℕ → ℕ
take_slot slot peer slot_peer =
    if peer == slot_ai
    then update slot_peer slot 0xff
    else update (vacate (peer_slot slot_peer peer) slot slot_peer) slot (u8 peer)

-- The switch of ApplyEventsFor.
unfoldable pub apply_event : Event → Session → Session
apply_event e s =
    if e.kind == ev_players
    then record s { slots_in_play = e.a }
    else if e.kind == ev_slot
    then record s { slot_peer = take_slot e.a e.b s.slot_peer }
    else s

unfoldable pub apply_events : ℕ → List Event → Session → Session
apply_events frame [] s = s
apply_events frame (e ∷ es) s = apply_events frame es (if e.at == frame then apply_event e s else s)

unfoldable pub apply_events_for : ℕ → Session → Session
apply_events_for frame s = apply_events frame s.events s

-- The lowest of the slots in play that no peer holds, with `n` slots left from `i` on.
unfoldable pub find_vacant : Session → ℕ → ℕ → Option ℕ
find_vacant s i zero = none
find_vacant s i (suc n) =
    let rest = find_vacant s (i + 1) n in
    if ltb i s.slots_in_play then if is_negative (s.slot_peer i) then some i else rest else none

unfoldable pub vacant_slot : Session → Option ℕ
vacant_slot s = if s.active then find_vacant s 0 rb_players else none
