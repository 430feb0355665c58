-- ===== src/Rollback/Input/Correction.antt =====
-- platform/rollback.c: what PortRbConfirmInput stores, and the rollback that it asks for.
use katam_port.Base.{
  ℕ, ◌^◌, ◌≤◌, ◌<◌, ◌≡◌, ◌≢◌, refl, true, false, Bool-cases, inl, inr, ltb, ◌==◌, arith, ◌⊎◌,
  update_ne,
}
use katam_port.Rollback.State.{
  Timeline, Session, rb_players, cell, live, requested, resimulating, CatchUp,
}
use katam_port.Rollback.Timeline.Reserve.{IsTimeline}
use katam_port.Rollback.Input.{
  write_known, count_mispredicted, in_ring, may_request, request, correct, store,
}

-- A session in which the keys `past` are to be simulated again from the frame `f`, at the latest.
abbrev pub IsAsked : ℕ → Session → Type 0
IsAsked f s = (s.catch_up ≡ requested) × (s.catch_up_to ≤ f)

CatchUp-cases : (c : CatchUp) → (c ≡ live) ⊎ (c ≡ resimulating) ⊎ (c ≡ requested)
CatchUp-cases live = inl refl
CatchUp-cases resimulating = inr (inl refl)
CatchUp-cases requested = inr (inr refl)

-- A request for `frame` asks for a rollback no later than it, unless one is being run.
pub request-IsAsked :
    (frame : ℕ) (s : Session) → s.catch_up ≢ resimulating → IsAsked frame (request s frame)
request-IsAsked frame s quiet = elim (CatchUp-cases s.catch_up) [
  | inl e ↦ rw e (refl, omega arith)
  | inr (inl e) ↦ absurd (quiet e)
  | inr (inr e) ↦ elim (Bool-cases (ltb frame s.catch_up_to)) [
    | inl b ↦ rw (e, b) (refl, omega arith)
    | inr b ↦ rw (e, b) (refl, ground arith)
  ]
]

pub request-stays : (frame f : ℕ) (s : Session) → IsAsked f s → IsAsked f (request s frame)
request-stays frame f s (e, le) = elim (Bool-cases (ltb frame s.catch_up_to)) [
  | inl b ↦ rw (e, b) (refl, ground arith)
  | inr b ↦ rw (e, b) (refl, le)
]

-- The two sessions are at one frame, with one ring.
pub record IsBeside (s0 s : Session) : Type 0 where
  pub frame : s.frame ≡ s0.frame
  pub ring : (f : ℕ) → in_ring s f ≡ in_ring s0 f

-- Every frame that `s0` has simulated on other keys than `s` holds, and whose snapshot it has, will
-- be simulated again.
pub record Covers (s0 s : Session) : Type 0 where
  pub beside : IsBeside s0 s
  pub valid : IsTimeline s.tl
  pub settled : s.catch_up ≢ resimulating
  pub covered :
      (f p : ℕ)
      → f < s0.frame
      → f < 2 ^ 30
      → p < rb_players
      → in_ring s0 f ≡ true
      → s.tl.keys (cell f p) ≢ s0.tl.keys (cell f p)
      → IsAsked f s

request-settled :
    (frame : ℕ) (s : Session)
    → s.catch_up ≢ resimulating
    → (request s frame).catch_up ≢ resimulating
request-settled frame s ne = λ e. cc ((request-IsAsked frame s ne).0, e)

pub correct-IsBeside :
    (predicted keys frame : ℕ) (s0 s : Session)
    → IsBeside s0 s
    → IsBeside s0 (correct predicted keys frame s)
unfolding correct
correct-IsBeside predicted keys frame s0 s v = elim (Bool-cases (predicted == keys)) [
  | inl same ↦ rw (same, correct) v
  | inr other ↦ elim (Bool-cases (in_ring s frame)) [
    | inr lost ↦ rw (other, lost, correct) (record { frame = v.frame; ring = v.ring })
    | inl here ↦ elim (Bool-cases (may_request s.catch_up frame s.catch_up_to)) [
      | inl may ↦ rw (other, here, may, correct) (record { frame = v.frame; ring = v.ring })
      | inr wait ↦ rw (other, here, wait, correct) (record { frame = v.frame; ring = v.ring })
    ]
  ]
]

pub correct-same :
    (predicted keys frame : ℕ) (s : Session)
    → (predicted == keys) ≡ true
    → correct predicted keys frame s ≡ s
unfolding correct
correct-same predicted keys frame s same = rw (same, correct) refl

pub correct-tl :
    (predicted keys frame : ℕ) (s : Session) → (correct predicted keys frame s).tl ≡ s.tl
unfolding correct
correct-tl predicted keys frame s = elim (Bool-cases (predicted == keys)) [
  | inl same ↦ rw (same, correct) refl
  | inr other ↦ elim (Bool-cases (in_ring s frame)) [
    | inr lost ↦ rw (other, lost, correct) refl
    | inl here ↦ elim (Bool-cases (may_request s.catch_up frame s.catch_up_to)) [
      | inl may ↦ rw (other, here, may, correct) refl
      | inr wait ↦ rw (other, here, wait, correct) refl
    ]
  ]
]

pub correct-asks :
    (predicted keys frame : ℕ) (s : Session)
    → (predicted == keys) ≡ false
    → in_ring s frame ≡ true
    → s.catch_up ≢ resimulating
    → IsAsked frame (correct predicted keys frame s)
unfolding correct
correct-asks predicted keys frame s other here ne =
    rw (other, here, correct) (request-IsAsked frame (count_mispredicted s) ne)

pub correct-stays :
    (predicted keys frame f : ℕ) (s : Session)
    → IsAsked f s
    → IsAsked f (correct predicted keys frame s)
unfolding correct
correct-stays predicted keys frame f s a = elim (Bool-cases (predicted == keys)) [
  | inl same ↦ rw (same, correct) a
  | inr other ↦ elim (Bool-cases (in_ring s frame)) [
    | inr lost ↦ rw (other, lost, correct) a
    | inl here ↦ rw (other, here, correct) (request-stays frame f (count_mispredicted s) a)
  ]
]

pub correct-settled :
    (predicted keys frame : ℕ) (s : Session)
    → s.catch_up ≢ resimulating
    → (correct predicted keys frame s).catch_up ≢ resimulating
unfolding correct
correct-settled predicted keys frame s ne = elim (Bool-cases (predicted == keys)) [
  | inl same ↦ rw (same, correct) ne
  | inr other ↦ elim (Bool-cases (in_ring s frame)) [
    | inr lost ↦ rw (other, lost, correct) ne
    | inl here ↦ rw (other, here, correct) (request-settled frame (count_mispredicted s) ne)
  ]
]

-- Writing the cell of `frame` and `player` changes no other cell.
pub other_cell :
    (tl : Timeline) (f p frame player v : ℕ)
    → f < 2 ^ 30
    → frame < 2 ^ 30
    → p < rb_players
    → player < rb_players
    → ¬ ((f ≡ frame) × (p ≡ player))
    → (write_known tl (cell frame player) v).keys (cell f p) ≡ tl.keys (cell f p)
other_cell tl f p frame player v hf hg hp hq ne =
    update_ne tl.keys (cell frame player) (cell f p) v (λ e. ne (omega arith, omega arith))

pub store-IsBeside :
    (player frame keys : ℕ) (s0 s : Session)
    → IsBeside s0 s
    → IsBeside s0 (store player frame keys s)
unfolding store
store-IsBeside player frame keys s0 s v = elim (Bool-cases (s.tl.known (cell frame player))) [
  | inl twice ↦ rw (twice, store) v
  | inr new ↦ elim (Bool-cases (ltb frame s.frame)) [
    | inl past ↦
        rw (new, past, store)
          (correct-IsBeside (s.tl.keys (cell frame player)) keys frame s0 _
            (record { frame = v.frame; ring = v.ring }))
    | inr ahead ↦ rw (new, ahead, store) (record { frame = v.frame; ring = v.ring })
  ]
]
