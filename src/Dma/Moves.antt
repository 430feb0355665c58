-- ===== src/Dma/Moves.antt =====
-- platform/dma.c, RunTransfer: what is at the destination afterwards.
use katam_port.Base.{ℕ, ◌<◌, ◌≡◌, ◌≢◌, refl, true, arith}
use katam_port.Console.{Board, Console}
use katam_port.Console.Display.{is_display}
use katam_port.Dma.{
  Channel, Dma, ctrl_fixed, src_ctrl, dest_ctrl, range_ok, unit_of, src_start, dest_start, src_span,
  dest_span, run_transfer,
}
use katam_port.Dma.Span.{place}
use katam_port.Dma.Transfer.{IsChannel, src-Shown, dest-Shown, run-mem}
use katam_port.Dma.BlockMove.{Apart, IsBlockMove, IsBlockMove-then, move_units-IsBlockMove}

module _ (board : Board) (i : ℕ) (d : Dma) (c : Console) where
  abbrev ch : Channel
  ch = d.channels i

  -- A transfer whose two spans RangeOk accepts and which do not overlap, with a destination that
  -- moves, is the block move from the units' places at the source to those at the destination, up to
  -- the bytes of the two display registers, whatever the control modes and the width.
  pub run_transfer-IsBlockMove :
      IsChannel ch
      → 0 < ch.count
      → range_ok board (src_span board ch) ≡ true
      → range_ok board (dest_span board ch) ≡ true
      → dest_ctrl ch.flags ≢ ctrl_fixed
      → Apart (src_span board ch) (dest_span board ch)
      → IsBlockMove
          (place (src_ctrl ch.flags) (unit_of board ch) (src_start board ch))
          (place (dest_ctrl ch.flags) (unit_of board ch) (dest_start board ch))
          (unit_of board ch)
          ch.count
          (is_display board)
          c.mem
          (run_transfer board i (d, c)).1.mem
  run_transfer-IsBlockMove v busy src_ok dest_ok moving apart =
      IsBlockMove-then
        (move_units-IsBlockMove (src_ctrl ch.flags) (dest_ctrl ch.flags) (unit_of board ch)
          (src_start board ch) (dest_start board ch) ch.count (src-Shown board ch v busy src_ok)
          (dest-Shown board ch v busy dest_ok) moving apart c.mem)
        (λ a display. run-mem board i d c a (ground arith) (rw (src_ok, dest_ok) refl) display)
