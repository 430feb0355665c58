-- ===== src/Dma/BlockMove.antt =====
-- What the block moves of the port promise, of platform/dma.c and platform/bios.c alike, and that the
-- copy loop of RunTransfer keeps it.
use katam_port.Base.{
  ℕ, zero, suc, ◌+◌, ◌≤◌, ◌<◌, ◌≡◌, ◌≢◌, sym, ◌∙◌, ap, ◌⊎◌, inl, inr, refl, Bool, false, ◌||◌,
  arith, is_inside, ℕ_discrete,
}
use katam_port.Dma.{Extent, Cursor, ctrl_fixed, span_of, move_units}
use katam_port.Dma.Span.{place, Shown}
use katam_port.Dma.Units.{move_units-copies, move_units-outside}

-- Is `a` a byte of one of the first `n` units?
unfoldable pub is_covered : (ℕ → ℕ) → ℕ → ℕ → ℕ → Bool
is_covered at unit zero a = false
is_covered at unit (suc n) a = is_inside (at n) unit a || is_covered at unit n a

-- A block move of `n` units from the addresses `from` to the addresses `to`: each unit holds what its
-- source held, and the bytes of no unit stay, but for those that `other` names.
pub record IsBlockMove (from to : ℕ → ℕ) (unit n : ℕ) (other : ℕ → Bool) (before after : ℕ → ℕ)
    : Type 0 where
  pub copied :
      (j b : ℕ)
      → j < n
      → b < unit
      → other (to j + b) ≡ false
      → after (to j + b) ≡ before (from j + b)
  pub kept : (a : ℕ) → is_covered to unit n a ≡ false → other a ≡ false → after a ≡ before a

abbrev pub Apart : Extent → Extent → Type 0
Apart a b = (a.base + a.size ≤ b.base) ⊎ (b.base + b.size ≤ a.base)

||-false : (a b : Bool) → (a || b) ≡ false → (a ≡ false) × (b ≡ false)
||-false a b h = ground arith

is_covered-outside :
    (at : ℕ → ℕ) (unit n a : ℕ)
    → is_covered at unit n a ≡ false
    → (j : ℕ) → j < n
    → is_inside (at j) unit a ≡ false
unfolding is_covered
is_covered-outside at unit zero a out j lt = absurd (omega arith)
is_covered-outside at unit (suc n) a out j lt = elim (ℕ_discrete j n) [
  | yes e ↦ rw e (||-false _ _ out).0
  | no ne ↦ is_covered-outside at unit n a (||-false _ _ out).1 j (omega arith)
]

Apart-outside :
    (a b : Extent) (p q unit k : ℕ)
    → Apart a b
    → a.base ≤ p
    → p + unit ≤ a.base + a.size
    → b.base ≤ q
    → q + unit ≤ b.base + b.size
    → k < unit
    → is_inside q unit (p + k) ≡ false
Apart-outside a b p q unit k (inl h) lo hi lo' hi' lt = ground arith
Apart-outside a b p q unit k (inr h) lo hi lo' hi' lt = ground arith

units_apart :
    (p q unit k : ℕ) → (p + unit ≤ q) ⊎ (q + unit ≤ p) → k < unit → is_inside q unit (p + k) ≡ false
units_apart p q unit k (inl h) lt = ground arith
units_apart p q unit k (inr h) lt = ground arith

-- A run between spans that stay in the address space and apart, with a destination that moves.
module _ (src_mode dest_mode unit s d n : ℕ) (source : Shown src_mode unit s n)
    (dest : Shown dest_mode unit d n) (moving : dest_mode ≢ ctrl_fixed)
    (apart : Apart (span_of s src_mode unit n) (span_of d dest_mode unit n)) (mem : ℕ → ℕ) where
  abbrev start : Cursor
  start = record { from = s; to = d; mem = mem }

  move_units-copied :
      (j b : ℕ)
      → j < n
      → b < unit
      → (move_units src_mode dest_mode unit n start).mem (place dest_mode unit d j + b)
        ≡ mem (place src_mode unit s j + b)
  move_units-copied j b lt lb =
      ap (λ a. (move_units src_mode dest_mode unit n start).mem (a + b))
        (sym (dest.is_reached j lt))
      ∙ move_units-copies src_mode dest_mode unit n start
          (λ k l b' lk ll lb'.
            rw (source.is_reached k lk, dest.is_reached l ll)
              (Apart-outside (span_of s src_mode unit n) (span_of d dest_mode unit n) _ _ _ b' apart
                (source.starts k lk) (source.ends k lk) (dest.starts l ll) (dest.ends l ll) lb'))
          (λ k l b' lk ll ne lb'.
            rw (dest.is_reached k lk, dest.is_reached l ll)
              (units_apart _ _ _ b' (dest.distinct k l lk ll ne moving) lb'))
          j b lt lb
      ∙ ap (λ a. mem (a + b)) (source.is_reached j lt)

  pub move_units-IsBlockMove :
      IsBlockMove
        (place src_mode unit s)
        (place dest_mode unit d)
        unit
        n
        (λ _. false)
        mem
        (move_units src_mode dest_mode unit n start).mem
  move_units-IsBlockMove = record {
    copied = λ j b lt lb _. move_units-copied j b lt lb;
    kept = λ a out _. move_units-outside src_mode dest_mode unit n start a (λ j lt.
        rw (dest.is_reached j lt) (is_covered-outside (place dest_mode unit d) unit n a out j lt));
  }

-- What is done to the bytes of `other` afterwards does not matter.
pub IsBlockMove-then :
    {from to : ℕ → ℕ} {unit n : ℕ} {other : ℕ → Bool} {before middle after : ℕ → ℕ}
    → IsBlockMove from to unit n (λ _. false) before middle
    → ((a : ℕ) → other a ≡ false → after a ≡ middle a)
    → IsBlockMove from to unit n other before after
IsBlockMove-then {to = to} h same = record {
  copied = λ j b lt lb out. same (to j + b) out ∙ h.copied j b lt lb refl;
  kept = λ a out display. same a display ∙ h.kept a out refl;
}
