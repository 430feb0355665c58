-- ===== src/Sram/Tests.antt =====
-- platform/sram.c on a concrete memory.
use katam_port.Base.{ℕ, ◌+◌, ◌≡◌, refl, false, Option, some, arith, inl}
use katam_port.Sram.{
  Sram, sram_base, restore_once, is_in_sram, is_same, write_sram, write_sram_ex, read_sram,
}
use katam_port.Sram.Write.{write_sram-dirty, read_sram-write_sram_ex}

-- Every byte is 1, and the host has stored a save of twos.
abbrev before : Sram
before = record { mem = λ _. 1; restored = false; dirty = 0 }

abbrev save : Option (ℕ → ℕ)
save = some (λ _. 2)

write_sram-dirty_example : (write_sram save 0x2000 sram_base 3 before).dirty ≡ 1
unfolding restore_once is_in_sram write_sram is_same
write_sram-dirty_example =
    write_sram-dirty save 0x2000 sram_base 3 before sram_base refl (λ e. absurd (omega (arith, e)))

read_sram-write_sram_ex_example :
    (read_sram save sram_base 0x3000 3 (write_sram_ex save 0x2000 sram_base 3 3 before).1).mem
      (0x3000 + 1)
    ≡ (restore_once save before).mem (0x2000 + 1)
read_sram-write_sram_ex_example =
    read_sram-write_sram_ex save 0x2000 sram_base 0x3000 3 2 1 before (inl (omega arith))
      (omega arith)
