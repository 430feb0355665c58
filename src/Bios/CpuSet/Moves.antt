-- ===== src/Bios/CpuSet/Moves.antt =====
-- platform/bios.c, CpuSet and CpuFastSet keep the promise of a block move.
use katam_port.Base.{
  times_suc, ℕ, zero, suc, ◌+◌, ◌*◌, ◌^◌, ◌≤◌, ◌<◌, ◌≡◌, refl, sym, ◌∙◌, ap, subst, inl, inr, Bool,
  false, Bool-cases, ap₂, arith, u32, if◌then◌else◌, copy,
}
use katam_port.Console.{Board, Console, vblank_consume}
use katam_port.Dma.{aligned, ctrl_inc, ctrl_fixed, span_of, move_units, step_addr}
use katam_port.Dma.Span.{place, Moves, span_of-Shown}
use katam_port.Dma.BlockMove.{Apart, IsBlockMove, move_units-IsBlockMove}
use katam_port.Bios.CpuSet.{Controls, set_units, fast_count, cpu_fast_set}

-- The source's control mode, in the words of a DMA channel.
abbrev pub source_mode : Bool → ℕ
source_mode fixed = if fixed then ctrl_fixed else ctrl_inc

module _ (fixed : Bool) (unit s d : ℕ) where
  abbrev source_at : ℕ → ℕ
  source_at i = if fixed then s else u32 (s + i * unit)

  step-source : (i : ℕ) → step_addr (source_mode fixed) unit (source_at i) ≡ source_at (i + 1)
  unfolding step_addr
  step-source i = elim (Bool-cases fixed) [
    | inl e ↦ rw e refl
    | inr e ↦ rw e (omega (arith, times_suc i unit, times_add_one i))
  ]
    where
      times_add_one : (k : ℕ) → (k + 1) * unit ≡ suc k * unit
      times_add_one k = ap (λ m. m * unit) (let e : k + 1 ≡ suc k = omega arith in e)

  step-dest : (i : ℕ) → step_addr ctrl_inc unit (u32 (d + i * unit)) ≡ u32 (d + (i + 1) * unit)
  unfolding step_addr
  step-dest i =
      omega (arith, times_suc i unit, ap (λ m. m * unit) (let e : i + 1 ≡ suc i = omega arith in e))

  -- The indexed loop is the loop of a DMA channel with a rising destination.
  set_units-move_units :
      (n i : ℕ) (mem : ℕ → ℕ)
      → set_units fixed unit s d i n mem
        ≡ (move_units
            (source_mode fixed)
            ctrl_inc
            unit
            n
            (record { from = source_at i; to = u32 (d + i * unit); mem = mem })).mem
  unfolding set_units move_units
  set_units-move_units zero i mem = refl
  set_units-move_units (suc n) i mem =
      set_units-move_units n (i + 1) (copy (source_at i) (u32 (d + i * unit)) unit mem)
      ∙ ap₂
          (λ p q.
            (move_units (source_mode fixed) ctrl_inc unit n (record {
              from = p;
              to = q;
              mem = copy (source_at i) (u32 (d + i * unit)) unit mem;
            })).mem)
          (sym (step-source i)) (sym (step-dest i))

  -- A block of at most 2 ^ 24 bytes, with both spans in the address space and apart.
  module _ (n : ℕ) (some_unit : 0 < n) (small : n * unit ≤ 2 ^ 24) (s_fits : s < 2 ^ 32)
      (d_fits : d < 2 ^ 32)
      (source_in : (span_of s (source_mode fixed) unit n).base
          + (span_of s (source_mode fixed) unit n).size
        < 2 ^ 32)
      (dest_in : (span_of d ctrl_inc unit n).base + (span_of d ctrl_inc unit n).size < 2 ^ 32)
      (apart : Apart (span_of s (source_mode fixed) unit n) (span_of d ctrl_inc unit n)) where
    pub set_units-IsBlockMove :
        (mem : ℕ → ℕ)
        → IsBlockMove
            (place (source_mode fixed) unit s)
            (place ctrl_inc unit d)
            unit
            n
            (λ _. false)
            mem
            (set_units fixed unit s d 0 n mem)
    set_units-IsBlockMove mem =
        subst
          (IsBlockMove (place (source_mode fixed) unit s) (place ctrl_inc unit d) unit n
            (λ _. false) mem)
          (sym (set_units-move_units n 0 mem ∙ starts))
          (move_units-IsBlockMove (source_mode fixed) ctrl_inc unit s d n
            (span_of-Shown unit s n small some_unit s_fits (source_mode fixed) modes source_in)
            (span_of-Shown unit d n small some_unit d_fits ctrl_inc (inl (inl refl)) dest_in)
            (λ e. absurd (omega (arith, e))) apart mem)
      where
        modes : Moves (source_mode fixed)
        modes = elim (Bool-cases fixed) [
          | inl e ↦ rw e (inr (inr refl))
          | inr e ↦ rw e (inl (inl refl))
        ]

        first : source_at 0 ≡ s
        first = elim (Bool-cases fixed) [ inl e ↦ rw e refl | inr e ↦ rw e (omega arith) ]

        starts :
            (move_units
              (source_mode fixed)
              ctrl_inc
              unit
              n
              (record { from = source_at 0; to = u32 (d + 0 * unit); mem = mem })).mem
            ≡ (move_units
                (source_mode fixed)
                ctrl_inc
                unit
                n
                (record { from = s; to = d; mem = mem })).mem
        starts =
            ap₂
              (λ p q.
                (move_units (source_mode fixed) ctrl_inc unit n
                  (record { from = p; to = q; mem = mem })).mem)
              first (let e : u32 (d + 0 * unit) ≡ d = omega arith in e)

-- The blocks are not empty, stay in the address space, and do not overlap.
pub record AreBlocks (fixed : Bool) (unit s d n : ℕ) : Type 0 where
  pub some_unit : 0 < n
  pub source_in :
      (span_of s (source_mode fixed) unit n).base + (span_of s (source_mode fixed) unit n).size
      < 2 ^ 32
  pub dest_in : (span_of d ctrl_inc unit n).base + (span_of d ctrl_inc unit n).size < 2 ^ 32
  pub apart : Apart (span_of s (source_mode fixed) unit n) (span_of d ctrl_inc unit n)

module _ (board : Board) (bits : Controls) (src dest control : ℕ) (c : Console) where
  -- So is CpuFastSet, of words, with the count rounded up to eight.
  pub cpu_fast_set-IsBlockMove :
      src < 2 ^ 32
      → dest < 2 ^ 32
      → AreBlocks
          (bits.is_fast_fixed control)
          4
          (aligned 4 src)
          (aligned 4 dest)
          (fast_count control)
      → IsBlockMove
          (place (source_mode (bits.is_fast_fixed control)) 4 (aligned 4 src))
          (place ctrl_inc 4 (aligned 4 dest))
          4
          (fast_count control)
          (λ _. false)
          (vblank_consume board (u32 (fast_count control * 4)) c).mem
          (cpu_fast_set board bits src dest control c).mem
  unfolding cpu_fast_set
  cpu_fast_set-IsBlockMove p q h =
      set_units-IsBlockMove (bits.is_fast_fixed control) 4 (aligned 4 src) (aligned 4 dest)
        (fast_count control) h.some_unit (omega arith) (omega arith) (omega arith) h.source_in
        h.dest_in h.apart (vblank_consume board (u32 (fast_count control * 4)) c).mem
