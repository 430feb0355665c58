-- ===== src/Dma/Units.antt =====
-- platform/dma.c, the copy loop of RunTransfer: which bytes it writes, and what it puts there.
use katam_port.Base.{
  ℕ, zero, suc, ◌+◌, ◌<◌, ◌≡◌, ◌≢◌, refl, ◌∙◌, false, is_inside, copy-outside, copy-inside, arith,
}
use katam_port.Dma.{Cursor, step_addr, move_unit, move_units}
use katam_port.Dma.Span.{reached}

module _ (src_mode dest_mode unit : ℕ) where
  -- A byte that no unit is put over stays.
  pub move_units-outside :
      (n : ℕ) (c : Cursor) (a : ℕ)
      → ((j : ℕ) → j < n → is_inside (reached dest_mode unit c.to j) unit a ≡ false)
      → (move_units src_mode dest_mode unit n c).mem a ≡ c.mem a
  unfolding move_units
  move_units-outside zero c a out = refl
  move_units-outside (suc n) c a out =
      move_units-outside n (move_unit src_mode dest_mode unit c) a
        (λ j lt. unfold reached in out (suc j) (omega arith))
      ∙ copy-outside c.from c.to unit c.mem a (unfold reached in out zero (omega arith))

  -- Every unit holds what its source held, where no unit is put over a source or over another unit.
  pub move_units-copies :
      (n : ℕ) (c : Cursor)
      → ((i j b : ℕ)
          → i < n
          → j < n
          → b < unit
          → is_inside (reached dest_mode unit c.to j) unit (reached src_mode unit c.from i + b)
            ≡ false)
      → ((i j b : ℕ)
          → i < n
          → j < n
          → i ≢ j
          → b < unit
          → is_inside (reached dest_mode unit c.to j) unit (reached dest_mode unit c.to i + b)
            ≡ false)
      → (j b : ℕ) → j < n
      → b < unit
      → (move_units src_mode dest_mode unit n c).mem (reached dest_mode unit c.to j + b)
        ≡ c.mem (reached src_mode unit c.from j + b)
  unfolding move_units reached
  move_units-copies zero c apart distinct j b lt lb = absurd (omega arith)
  move_units-copies (suc n) c apart distinct zero b lt lb =
      move_units-outside n (move_unit src_mode dest_mode unit c) (c.to + b)
        (λ k lk. distinct zero (suc k) b (omega arith) (omega arith) (λ e. cc e) lb)
      ∙ copy-inside c.from c.to unit c.mem b lb
  move_units-copies (suc n) c apart distinct (suc j) b lt lb =
      move_units-copies n (move_unit src_mode dest_mode unit c)
        (λ i k b'. λ li lk lb'. apart (suc i) (suc k) b' (omega arith) (omega arith) lb')
        (λ i k b'. λ li lk ne lb'.
          distinct (suc i) (suc k) b' (omega arith) (omega arith) (λ e. ne (omega arith)) lb')
        j b (omega arith) lb
      ∙ copy-outside c.from c.to unit c.mem
          (reached src_mode unit (step_addr src_mode unit c.from) j + b)
          (apart (suc j) zero b (omega arith) (omega arith) lb)
