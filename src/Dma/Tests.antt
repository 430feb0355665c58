-- ===== src/Dma/Tests.antt =====
-- platform/dma.c on a console with the map's registers and no host data.
use katam_port.Base.{
  ◌%◌, ◌≡◌, refl, true, false, List, [], ◌∷◌, arith, pos, negsuc, is_inside, read16, write16, inl,
}
use katam_port.Console.{Console, vblank_consume, vblank_end}
use katam_port.Console.Gba.{board}
use katam_port.Console.Display.{is_display}
use katam_port.Dma.{
  Channel, Dma, src_span, dest_span, range_ok, is_decoded, span_of, step_addr, move_units,
  run_transfer, bad_counts, dma_set, dma_stop, run_timing, refuse,
}
use katam_port.Dma.Span.{place}
use katam_port.Dma.Transfer.{IsChannel, run_transfer-confined}
use katam_port.Dma.BlockMove.{IsBlockMove}
use katam_port.Dma.Moves.{run_transfer-IsBlockMove}
use katam_port.Dma.Counts.{Call, set, stop, vblank, perform_all, IsDma, perform_all-IsDma}

abbrev console : Console
console = record { mem = λ a. a % 251; budget = 100; keys_down = 0; frame_count = 0 }

-- Two halfwords downwards from 0x02000013 to 0x02000100 and up: the source is aligned to 0x02000012.
abbrev ready : Channel
ready = record {
  src = 0x02000013;
  dest = 0x02000100;
  src_reload = 0x02000013;
  dest_reload = 0x02000100;
  count = 2;
  flags = 0x8080;
  armed = true;
}

abbrev idle : Channel
idle = record {
  src = 0;
  dest = 0;
  src_reload = 0;
  dest_reload = 0;
  count = 0;
  flags = 0;
  armed = false;
}

abbrev dma : Dma
dma = record { channels = λ _. ready; transfers = 0; bad = 0; bad_by_shape = λ _. 0 }

abbrev empty : Dma
empty = record { channels = λ _. idle; transfers = 0; bad = 0; bad_by_shape = λ _. 0 }

ready-IsChannel : IsChannel ready
ready-IsChannel = omega arith

idle-IsChannel : IsChannel idle
idle-IsChannel = omega arith

src_ok : range_ok board (src_span board ready) ≡ true
unfolding range_ok is_decoded span_of
src_ok = refl

dest_ok : range_ok board (dest_span board ready) ≡ true
unfolding range_ok is_decoded span_of
dest_ok = refl

byte_after : (run_transfer board 3 (dma, console)).1.mem 0x02000102 ≡ 0x02000010 % 251
unfolding run_transfer range_ok is_decoded span_of move_units step_addr vblank_consume vblank_end
    read16 write16
byte_after = refl

run_transfer-confined_example :
    (range_ok board (src_span board ready) ≡ true)
    × (range_ok board (dest_span board ready) ≡ true)
    × (is_inside (dest_span board ready).base (dest_span board ready).size 0x02000102 ≡ true)
run_transfer-confined_example =
    run_transfer-confined board 3 dma console ready-IsChannel 0x02000102 refl
      (λ e. absurd (omega (arith, e, byte_after)))

run_transfer-IsBlockMove_example :
    IsBlockMove
      (place 1 2 0x02000012)
      (place 0 2 0x02000100)
      2
      2
      (is_display board)
      console.mem
      (run_transfer board 3 (dma, console)).1.mem
run_transfer-IsBlockMove_example =
    run_transfer-IsBlockMove board 3 dma console ready-IsChannel (omega arith) src_ok dest_ok
      (λ e. absurd (omega (arith, e))) (unfold span_of in inl (omega arith))

-- A transfer from an address that nothing decodes, then a good one, an armed one and a VBlank.
abbrev calls : List Call
calls =
    set (pos 3) 0x10000000 0x02000000 0x80000004
    ∷ set (pos 3) 0x02000000 0x02000100 0x84000004
    ∷ set (pos 0) 0x02000000 0x10000000 0x92000004
    ∷ vblank
    ∷ set (negsuc 0) 0 0 0
    ∷ stop (pos 0)
    ∷ []

empty-IsDma : IsDma empty
empty-IsDma = record { sound = λ i. idle-IsChannel; no_good_one = refl; adds_up = refl }

perform_all-IsDma_example : IsDma (perform_all board calls (empty, console)).0
perform_all-IsDma_example = perform_all-IsDma board calls (empty, console) (omega arith) empty-IsDma

reported : bad_counts (perform_all board calls (empty, console)).0 ≡ (2, 1, 1, 0)
unfolding perform_all dma_set dma_stop run_timing run_transfer range_ok is_decoded span_of
    move_units step_addr refuse bad_counts vblank_consume vblank_end read16 write16
reported = refl
