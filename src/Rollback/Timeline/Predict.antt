-- ===== src/Rollback/Timeline/Predict.antt =====
-- platform/rollback.c: what PredictFor and AdvanceConfirmed find on the timeline.
use katam_port.Base.{
  ℕ, zero, suc, ◌+◌, ◌-◌, ◌≤◌, ◌<◌, ◌≡◌, refl, true, false, ltb, arith, Bool-cases, inl, inr, ◌&&◌,
  ℕ_discrete, subst, sym,
}
use katam_port.Rollback.State.{Timeline, Session, cell}
use katam_port.Rollback.Timeline.{predict_for, all_known, advance, advance_confirmed}

-- The player's input of a frame has been recorded.
abbrev pub IsHeld : Timeline → ℕ → ℕ → Type 0
IsHeld tl player f = (f < tl.len) × (tl.known (cell f player) ≡ true)

-- The prediction of `frame`: the input of the last recorded frame before it, or none.
pub data Predicts (tl : Timeline) (player frame : ℕ) : ℕ → Type 0 where
  last :
      (k : ℕ)
      → k < frame
      → IsHeld tl player k
      → ((j : ℕ) → k < j → j < frame → ¬ IsHeld tl player j)
      → Predicts tl player frame (tl.keys (cell k player))
  nothing : ((j : ℕ) → j < frame → ¬ IsHeld tl player j) → Predicts tl player frame 0

later_frame :
    {tl : Timeline} {player f v : ℕ}
    → ¬ IsHeld tl player f
    → Predicts tl player f v
    → Predicts tl player (suc f) v
later_frame {tl} {player} {f} n (last k lt here gap) = last k (omega arith) here after
  where
    after : (j : ℕ) → k < j → j < suc f → ¬ IsHeld tl player j
    after j lo hi = elim (ℕ_discrete j f) [
      | yes e ↦ subst (λ x. ¬ IsHeld tl player x) (sym e) n
      | no ne ↦ gap j lo (omega arith)
    ]
later_frame {tl} {player} {f} n (nothing gap) = nothing before
  where
    before : (j : ℕ) → j < suc f → ¬ IsHeld tl player j
    before j hi = elim (ℕ_discrete j f) [
      | yes e ↦ subst (λ x. ¬ IsHeld tl player x) (sym e) n
      | no ne ↦ gap j (omega arith)
    ]

-- PredictFor gives what the player held on the last frame before `frame` that is known of them, and
-- no keys if there is none.
pub predict_for-Predicts :
    (tl : Timeline) (player frame : ℕ) → Predicts tl player frame (predict_for tl player frame)
unfolding predict_for
predict_for-Predicts tl player zero = nothing (λ j h. absurd (omega arith))
predict_for-Predicts tl player (suc f) =
    elim (Bool-cases (ltb f tl.len && tl.known (cell f player))) [
      | inl t ↦ rw t (last f (omega arith) (ground arith) (λ j lo hi. absurd (omega arith)))
      | inr n ↦ rw n (later_frame (λ h. ground arith) (predict_for-Predicts tl player f))
    ]

-- Every player below `n` is known on the frame.
pub all_known_sound :
    (tl : Timeline) (frame n : ℕ)
    → all_known tl frame n ≡ true
    → (p : ℕ) → p < n
    → tl.known (cell frame p) ≡ true
unfolding all_known
all_known_sound tl frame zero h p lt = absurd (omega arith)
all_known_sound tl frame (suc n) h p lt = elim (ℕ_discrete p n) [
  | yes e ↦ rw e (ground arith)
  | no ne ↦ all_known_sound tl frame n (ground arith) p (omega arith)
]

-- What the loop of AdvanceConfirmed has done when it stops.
pub record Advanced (tl : Timeline) (players from to : ℕ) : Type 0 where
  pub forward : from ≤ to
  pub within : from ≤ tl.len → to ≤ tl.len
  pub complete : (f : ℕ) → from ≤ f → f < to → all_known tl f players ≡ true
  pub stopped : to < tl.len → all_known tl to players ≡ false

next_round :
    {tl : Timeline} {players from to : ℕ}
    → all_known tl from players ≡ true
    → Advanced tl players (from + 1) to
    → from < tl.len
    → Advanced tl players from to
next_round {tl} {players} {from} {to} t a lt = record {
  forward = omega (arith, a.forward);
  within = λ h. a.within (omega arith);
  complete = complete;
  stopped = a.stopped;
}
  where
    complete : (f : ℕ) → from ≤ f → f < to → all_known tl f players ≡ true
    complete f lo hi = elim (ℕ_discrete f from) [
      | yes e ↦ rw e t
      | no ne ↦ a.complete f (omega arith) hi
    ]

advance-Advanced :
    (tl : Timeline) (players n from : ℕ)
    → n ≡ tl.len - from
    → Advanced tl players from (advance tl players n from)
unfolding advance
advance-Advanced tl players zero from e = record {
  forward = omega arith;
  within = λ h. h;
  complete = λ f lo hi. absurd (omega arith);
  stopped = λ h. absurd (omega arith);
}
advance-Advanced tl players (suc n) from e = elim (Bool-cases (all_known tl from players)) [
  | inr stop ↦
      rw (stop, advance)
        (record {
          forward = omega arith;
          within = λ h. h;
          complete = λ f lo hi. absurd (omega arith);
          stopped = λ h. stop;
        })
  | inl t ↦
      rw (t, advance)
        (next_round t (advance-Advanced tl players n (from + 1) (omega arith)) (omega arith))
]

-- AdvanceConfirmed goes forward, not past the timeline where it did not start past it, over frames
-- that have every player's input, and stops in the timeline only at one that has not.
pub advance_confirmed-Advanced :
    (s : Session) → Advanced s.tl s.players s.confirmed (advance_confirmed s)
unfolding advance_confirmed
advance_confirmed-Advanced s =
    advance-Advanced s.tl s.players (s.tl.len - s.confirmed) s.confirmed refl
