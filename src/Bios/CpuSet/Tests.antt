-- ===== src/Bios/CpuSet/Tests.antt =====
-- platform/bios.c, CpuSet on the console's control bits.
use katam_port.Base.{◌%◌, ◌≡◌, refl, read16, write16}
use katam_port.Console.{Console, vblank_consume, vblank_end}
use katam_port.Console.Gba.{bit, board}
use katam_port.Bios.CpuSet.{Controls, set_units, cpu_set, register_ram_reset}

abbrev bits : Controls
bits = record {
  is_32bit = bit 26;
  is_fixed = bit 24;
  is_fast_fixed = bit 24;
  resets_ewram = bit 0;
  resets_iwram = bit 1;
  resets_palette = bit 2;
  resets_vram = bit 3;
  resets_oam = bit 4;
}

abbrev console : Console
console = record { mem = λ a. a % 251; budget = 100; keys_down = 0; frame_count = 0 }

filled :
    (cpu_set board bits 0x02000013 0x02000100 0x05000002 console).mem 0x02000105 ≡ 0x02000011 % 251
unfolding cpu_set set_units vblank_consume vblank_end read16 write16
filled = refl

-- The last 0x200 bytes of IWRAM are left alone.
reset_keeps : register_ram_reset bits 0x1F (λ _. 7) 0x03007E00 ≡ 7
unfolding register_ram_reset
reset_keeps = refl
