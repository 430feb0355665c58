-- ===== src/Bios.antt =====
-- platform/bios.c: the square root of the BIOS.
pub mod Sqrt
pub mod RunLength
pub mod CpuSet
pub mod Lz77
mod Tests
use katam_port.Base.{ℕ, zero, suc, ◌+◌, ◌-◌, ◌*◌, ◌/◌, ◌%◌, ◌^◌, Bool, ltb, u16, u32, if◌then◌else◌}

-- rem, root and num of Sqrt
pub record Roots : Type 0 where
  pub rem : ℕ
  pub root : ℕ
  pub num : ℕ

-- The shifts of one round: the low two bits of `rem << 2` are free for the top two of num, and root is
-- even afterwards, so `root | 1` is root + 1.
abbrev pub shifted : Roots → Roots
shifted s = record {
  rem = u32 (s.rem * 4) + s.num / 2 ^ 30;
  root = u32 (s.root * 2);
  num = u32 (s.num * 4);
}

abbrev pub subtracted : Roots → Roots
subtracted s = record s { rem = s.rem - (s.root + 1); root = s.root + 2 }

abbrev pub sqrt_round : Roots → Roots
sqrt_round s = if ltb (shifted s).root (shifted s).rem then subtracted (shifted s) else shifted s

-- The loop, with `n` rounds left.
unfoldable pub sqrt_rounds : ℕ → Roots → Roots
sqrt_rounds zero s = s
sqrt_rounds (suc n) s = sqrt_rounds n (sqrt_round s)

-- Sqrt
unfoldable pub sqrt : ℕ → ℕ
sqrt num = u16 ((sqrt_rounds 16 (record { rem = 0; root = 0; num = num })).root / 2)
