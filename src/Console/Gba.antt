-- ===== src/Console/Gba.antt =====
-- platform/main.c and platform/dma.c with the console's own registers and bits, on a host that has no
-- BIOS region and no data of its own: a concrete Board for the tests.
use katam_port.Base.{ℕ, ◌-◌, ◌*◌, ◌/◌, ◌%◌, ◌^◌, Bool, false, ◌==◌}
use katam_port.Console.{Board}

abbrev pub bit : ℕ → ℕ → Bool
bit k v = v / 2 ^ k % 2 == 1

abbrev pub board : Board
board = record {
  dispstat = 0x04000004;
  vcount = 0x04000006;
  keyinput = 0x04000130;
  dma_regs = 0x040000B0;
  is_vblank = bit 0;
  without_vblank = λ v. v - v % 2;
  is_wide = bit 10;
  is_repeat = bit 9;
  is_enabled = bit 15;
  without_enable = λ c. c - c / 2 ^ 31 * 2 ^ 31;
  bios_size = 0;
  host_range = λ _ _. false;
}
