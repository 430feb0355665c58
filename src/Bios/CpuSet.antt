-- ===== src/Bios/CpuSet.antt =====
-- platform/bios.c, CpuSet, CpuFastSet and RegisterRamReset: the block moves and fills of the BIOS. The
-- bits of the control word and of the reset flags are of the game's headers, parameters here.
pub mod Moves
mod Tests
use katam_port.Base.{
  ℕ, zero, suc, ◌+◌, ◌-◌, ◌*◌, ◌/◌, ◌%◌, ◌^◌, Bool, if◌then◌else◌, u32, is_inside, copy,
}
use katam_port.Console.{Board, Console, vblank_consume}
use katam_port.Dma.{aligned}

-- `d[i] = fixed ? *s : s[i]` from `i` on, with `n` units left.
unfoldable pub set_units : Bool → ℕ → ℕ → ℕ → ℕ → ℕ → (ℕ → ℕ) → ℕ → ℕ
set_units fixed unit s d i zero mem = mem
set_units fixed unit s d i (suc n) mem =
    set_units fixed unit s d (i + 1) n
      (copy (if fixed then s else u32 (s + i * unit)) (u32 (d + i * unit)) unit mem)

-- control & CPU_SET_32BIT, CPU_SET_SRC_FIXED and CPU_FAST_SET_SRC_FIXED; the tests of resetFlags with
-- RESET_EWRAM, RESET_IWRAM, RESET_PALETTE, RESET_VRAM and RESET_OAM.
pub record Controls : Type 0 where
  pub is_32bit : ℕ → Bool
  pub is_fixed : ℕ → Bool
  pub is_fast_fixed : ℕ → Bool
  pub resets_ewram : ℕ → Bool
  pub resets_iwram : ℕ → Bool
  pub resets_palette : ℕ → Bool
  pub resets_vram : ℕ → Bool
  pub resets_oam : ℕ → Bool

abbrev pub set_count : ℕ → ℕ
set_count control = control % 2 ^ 21

-- The count is rounded up to a multiple of eight words.
abbrev pub fast_count : ℕ → ℕ
fast_count control = (control % 2 ^ 21 + 7) / 8 * 8

abbrev pub set_unit : Controls → ℕ → ℕ
set_unit bits control = if bits.is_32bit control then 4 else 2

module _ (board : Board) (bits : Controls) where
  -- CpuSet
  unfoldable pub cpu_set : ℕ → ℕ → ℕ → Console → Console
  cpu_set src dest control c =
      let unit = set_unit bits control in
      let c' = vblank_consume board (u32 (set_count control * unit)) c in
      record c' {
        mem =
            set_units (bits.is_fixed control) unit (aligned unit src) (aligned unit dest) 0
              (set_count control) c'.mem;
      }

  -- CpuFastSet
  unfoldable pub cpu_fast_set : ℕ → ℕ → ℕ → Console → Console
  cpu_fast_set src dest control c =
      let c' = vblank_consume board (u32 (fast_count control * 4)) c in
      record c' {
        mem =
            set_units (bits.is_fast_fixed control) 4 (aligned 4 src) (aligned 4 dest) 0
              (fast_count control) c'.mem;
      }

-- memset(base, 0, size)
abbrev pub zeroed : Bool → ℕ → ℕ → (ℕ → ℕ) → ℕ → ℕ
zeroed wanted base size mem a =
    if wanted then (if is_inside base size a then 0 else mem a) else mem a

-- RegisterRamReset
unfoldable pub register_ram_reset : Controls → ℕ → (ℕ → ℕ) → ℕ → ℕ
register_ram_reset bits flags mem = zeroed (bits.resets_oam flags) 0x07000000 0x00000400 (
    zeroed (bits.resets_vram flags) 0x06000000 0x00018000 (
      zeroed (bits.resets_palette flags) 0x05000000 0x00000400 (
        zeroed (bits.resets_iwram flags) 0x03000000 (0x00008000 - 0x200)
          (zeroed (bits.resets_ewram flags) 0x02000000 0x00040000 mem))))
