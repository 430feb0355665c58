-- ===== src/Rollback/Timeline.antt =====
-- platform/rollback.c, the input timeline: TimelineReserve, PredictFor, PortRbInputAt,
-- AdvanceConfirmed.
pub mod Reserve
pub mod Predict
use katam_port.Base.{
  ℕ, zero, suc, ◌+◌, ◌-◌, ◌*◌, ◌/◌, Bool, true, false, ◌&&◌, Option, none, some, ltb, leb, u32,
  if◌then◌else◌, ℤ, pos, negsuc,
}
use katam_port.Rollback.State.{Timeline, Session, Heap, rb_players, timeline_chunk, cell}

-- The capacity that TimelineReserve asks for, in frames.
abbrev pub wanted : ℕ → ℕ
wanted frame = u32 ((frame / timeline_chunk + 1) * timeline_chunk)

-- memset of the new part of an array to zero: indices cap * 4 up to want * 4.
abbrev pub clear_from {ℓ} : {A : Type ℓ} → ℕ → ℕ → A → (ℕ → A) → ℕ → A
clear_from cap want v f i = if leb (cap * rb_players) i && ltb i (want * rb_players) then v else f i

abbrev pub grow : Timeline → ℕ → Timeline
grow tl want = record tl {
  keys = clear_from tl.cap want 0 tl.keys;
  known = clear_from tl.cap want false tl.known;
  cap = want;
}

-- `none` is the failure that returns 0; what the caller can see of the timeline has not changed.
unfoldable pub timeline_reserve : Heap → Timeline → ℕ → Option Timeline
timeline_reserve heap tl frame =
    if ltb frame tl.cap
    then some tl
    else if heap.grant_timeline (wanted frame)
    then some (grow tl (wanted frame))
    else none

-- Assume that a player keeps holding what they last held: the loop down from `frame`.
unfoldable pub predict_for : Timeline → ℕ → ℕ → ℕ
predict_for tl player zero = 0
predict_for tl player (suc f) =
    if ltb f tl.len && tl.known (cell f player)
    then tl.keys (cell f player)
    else predict_for tl player f

-- The result, and the session with the timeline that the call may have grown.
unfoldable pub input_at : Heap → ℤ → ℕ → Session → ℕ × Session
input_at heap (negsuc _) frame s = (0, s)
input_at heap (pos player) frame s =
    if s.active && ltb player rb_players
    then elim (timeline_reserve heap s.tl frame) [
      | none ↦ (0, s)
      | some tl ↦ (
        if tl.known (cell frame player)
            then tl.keys (cell frame player)
            else predict_for tl player frame,
        record s { tl = tl },
      )
    ]
    else (0, s)

-- The inner loop of AdvanceConfirmed: every player from 0 to n - 1 is known on the frame.
unfoldable pub all_known : Timeline → ℕ → ℕ → Bool
all_known tl frame zero = true
all_known tl frame (suc n) = all_known tl frame n && tl.known (cell frame n)

-- `while (sConfirmed < sTl.len)`, on the rounds that are left.
unfoldable pub advance : Timeline → ℕ → ℕ → ℕ → ℕ
advance tl players zero confirmed = confirmed
advance tl players (suc n) confirmed = elim (all_known tl confirmed players) [
  | true ↦ advance tl players n (confirmed + 1)
  | false ↦ confirmed
]

unfoldable pub advance_confirmed : Session → ℕ
advance_confirmed s = advance s.tl s.players (s.tl.len - s.confirmed) s.confirmed
