-- ===== src/Mixer/Patterns.antt =====
-- platform/m4a_mixer.c, ply_patt and ply_pend: a call of a pattern returns.
use katam_port.Base.{ℕ, suc, ◌+◌, ◌<◌, ◌≡◌, refl, sym, ◌∙◌, ap, subst, false, arith, get_or}
use katam_port.Mixer.{Store}
use katam_port.Mixer.Commands.{Header, ply_goto, ply_patt, ply_pend, fine, handle, jump_table}
use katam_port.Mixer.Stack.{SamePatterns, is_pattern, KeepsPatterns, handle-SamePatterns}

-- A run of the commands of a track whose calls of patterns return: every other command of the table,
-- and a call with room in the stack, a run, and the end of the pattern.
module _ (h : Header) (fuel t : ℕ) where
  pub data Balanced : Store → Store → Type 0 where
    stop : (s r : Store) → s ≡ r → Balanced s r
    next :
        (i : ℕ) (s r : Store)
        → is_pattern (get_or jump_table i fine) ≡ false
        → Balanced (handle h fuel (get_or jump_table i fine) t s) r
        → Balanced s r
    call :
        (s m r : Store)
        → (s.tracks t).pattern_level < 3
        → Balanced (ply_patt fuel t s) m
        → Balanced (ply_pend t m) r
        → Balanced s r

-- The level is the same and so is the stack below it.
pub record SameBelow (t : ℕ) (s r : Store) : Type 0 where
  pub level : (r.tracks t).pattern_level ≡ (s.tracks t).pattern_level
  pub below :
      (j : ℕ)
      → j < (s.tracks t).pattern_level
      → (r.tracks t).pattern_stack j ≡ (s.tracks t).pattern_stack j

SameBelow-trans : (t : ℕ) (s m r : Store) → SameBelow t s m → SameBelow t m r → SameBelow t s r
SameBelow-trans t s m r p q = record {
  level = q.level ∙ p.level;
  below = λ j lt. q.below j (subst (λ n. j < n) (sym p.level) lt) ∙ p.below j lt;
}

SamePatterns→below : (t : ℕ) (s r : Store) → SamePatterns t s r → SameBelow t s r
SamePatterns→below t s r p = record {
  level = p.same_level;
  below = λ j lt. ap (λ (f : ℕ → ℕ). f j) p.same_stack;
}

module _ (fuel t : ℕ) (s : Store) (room : (s.tracks t).pattern_level < 3) where
  ply_patt-level : ((ply_patt fuel t s).tracks t).pattern_level ≡ suc (s.tracks t).pattern_level
  unfolding ply_patt ply_goto
  ply_patt-level = ground arith

  ply_patt-slot :
      ((ply_patt fuel t s).tracks t).pattern_stack (s.tracks t).pattern_level
      ≡ (s.tracks t).cmd_ptr + 4
  unfolding ply_patt ply_goto
  ply_patt-slot = ground arith

  ply_patt-below :
      (j : ℕ)
      → j < (s.tracks t).pattern_level
      → ((ply_patt fuel t s).tracks t).pattern_stack j ≡ (s.tracks t).pattern_stack j
  unfolding ply_patt ply_goto
  ply_patt-below j lt = ground arith

module _ (t l : ℕ) (m : Store) (called : (m.tracks t).pattern_level ≡ suc l) where
  ply_pend-level : ((ply_pend t m).tracks t).pattern_level ≡ l
  unfolding ply_pend
  ply_pend-level = ground arith

  ply_pend-position : ((ply_pend t m).tracks t).cmd_ptr ≡ (m.tracks t).pattern_stack l
  unfolding ply_pend
  ply_pend-position = rw called (ground arith)

ply_pend-stack :
    (t : ℕ) (m : Store) → ((ply_pend t m).tracks t).pattern_stack ≡ (m.tracks t).pattern_stack
unfolding ply_pend
ply_pend-stack t m = ground arith

module _ (fuel t : ℕ) (s m : Store) (room : (s.tracks t).pattern_level < 3)
    (run : SameBelow t (ply_patt fuel t s) m) where
  inner_level : (m.tracks t).pattern_level ≡ suc (s.tracks t).pattern_level
  inner_level = run.level ∙ ply_patt-level fuel t s room

  inner_stack :
      (j : ℕ)
      → j < suc (s.tracks t).pattern_level
      → (m.tracks t).pattern_stack j ≡ ((ply_patt fuel t s).tracks t).pattern_stack j
  inner_stack j lt = run.below j (subst (λ n. j < n) (sym (ply_patt-level fuel t s room)) lt)

  pattern-SameBelow : SameBelow t s (ply_pend t m)
  pattern-SameBelow = record {
    level = ply_pend-level t (s.tracks t).pattern_level m inner_level;
    below = λ j lt.
        ap (λ (f : ℕ → ℕ). f j) (ply_pend-stack t m)
        ∙ inner_stack j (omega (arith, lt))
        ∙ ply_patt-below fuel t s room j lt;
  }

  pattern-returns : ((ply_pend t m).tracks t).cmd_ptr ≡ (s.tracks t).cmd_ptr + 4
  pattern-returns =
      ply_pend-position t (s.tracks t).pattern_level m inner_level
      ∙ inner_stack (s.tracks t).pattern_level (omega arith)
      ∙ ply_patt-slot fuel t s room

Balanced-SameBelow :
    (h : Header) (fuel t : ℕ)
    → KeepsPatterns h.clear_mod_m
    → (s r : Store) → Balanced h fuel t s r
    → SameBelow t s r
Balanced-SameBelow h fuel t keeps _ _ (stop s r e) =
    subst (SameBelow t s) e (record { level = refl; below = λ j lt. refl })
Balanced-SameBelow h fuel t keeps _ _ (next i s r plain run) =
    let c = get_or jump_table i fine in
    SameBelow-trans t s (handle h fuel c t s) r
      (SamePatterns→below t s (handle h fuel c t s) (handle-SamePatterns h keeps t s fuel c plain))
      (Balanced-SameBelow h fuel t keeps (handle h fuel c t s) r run)
Balanced-SameBelow h fuel t keeps _ _ (call s m r room body run) =
    SameBelow-trans t s (ply_pend t m) r
      (pattern-SameBelow fuel t s m room
        (Balanced-SameBelow h fuel t keeps (ply_patt fuel t s) m body))
      (Balanced-SameBelow h fuel t keeps (ply_pend t m) r run)

-- A call of a pattern with fewer than three calls open, then any run of the other commands of the table
-- in which calls with room return, then the end of the pattern: the track goes on behind the address of
-- the call, at the same level, with the same positions to return to below it. It is assumed that
-- ClearModM leaves the pattern stack alone.
pub ply_pend-ply_patt :
    (h : Header) (fuel t : ℕ) (s m : Store)
    → KeepsPatterns h.clear_mod_m
    → (s.tracks t).pattern_level < 3
    → Balanced h fuel t (ply_patt fuel t s) m
    → (((ply_pend t m).tracks t).cmd_ptr ≡ (s.tracks t).cmd_ptr + 4) × SameBelow t s (ply_pend t m)
ply_pend-ply_patt h fuel t s m keeps room body =
    let run = Balanced-SameBelow h fuel t keeps (ply_patt fuel t s) m body in
    (pattern-returns fuel t s m room run, pattern-SameBelow fuel t s m room run)
