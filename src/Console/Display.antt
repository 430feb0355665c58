-- ===== src/Console/Display.antt =====
-- platform/main.c, PortVBlankConsume and PortVBlankEnd: what they leave alone.
use katam_port.Base.{
  ℕ, ◌≡◌, refl, ◌∙◌, Bool, false, not, ◌||◌, Bool-cases, inl, inr, leb, arith, is_inside, read16,
  write16-outside,
}
use katam_port.Console.{Board, Console, vblank_end, vblank_consume}

module _ (board : Board) where
  -- The bytes of DISPSTAT and VCOUNT.
  abbrev pub is_display : ℕ → Bool
  is_display a = is_inside board.dispstat 2 a || is_inside board.vcount 2 a

  vblank_end-mem :
      (c : Console) (a : ℕ) → is_display a ≡ false → (vblank_end board c).mem a ≡ c.mem a
  unfolding vblank_end
  vblank_end-mem c a out =
      write16-outside board.vcount 0 _ a (ground arith)
      ∙ write16-outside board.dispstat (board.without_vblank (read16 c.mem board.dispstat)) c.mem a
          (ground arith)

  pub vblank_consume-mem :
      (bytes : ℕ) (c : Console) (a : ℕ)
      → is_display a ≡ false
      → (vblank_consume board bytes c).mem a ≡ c.mem a
  vblank_consume-mem bytes c a out =
      elim (Bool-cases (not (board.is_vblank (read16 c.mem board.dispstat)))) [
        | inl e ↦ unfold vblank_consume in rw e refl
        | inr e ↦ elim (Bool-cases (leb c.budget bytes)) [
          | inl spent ↦ unfold vblank_consume in rw (e, spent) (vblank_end-mem c a out)
          | inr left ↦ unfold vblank_consume in rw (e, left) refl
        ]
      ]
