-- ===== src/Bios/Lz77.antt =====
-- platform/bios.c: LZ77UnComp. The source is the function from offsets to its bytes, which the output
-- does not overlap; the destination is in the memory of the process.
pub mod Bounds
use katam_port.Base.{
  ℕ, zero, suc, ◌+◌, ◌-◌, ◌*◌, ◌/◌, ◌%◌, ◌^◌, Bool, true, false, ltb, leb, min, if◌then◌else◌,
  update, u8, u32, sub32,
}
use katam_port.Bios.RunLength.{header_size}

-- `src`, as an offset, `written`, and the memory.
pub record Lz : Type 0 where
  pub at : ℕ
  pub written : ℕ
  pub mem : ℕ → ℕ

-- dst[written++] = v
abbrev pub emit : ℕ → ℕ → Lz → Lz
emit dest v s = record s { written = s.written + 1; mem = update s.mem (u32 (dest + s.written)) v }

module _ (src : ℕ → ℕ) (dest size : ℕ) where
  -- The loop that copies from `disp` bytes behind, with `n` rounds of `i` left.
  unfoldable pub copy_back : ℕ → ℕ → Lz → Lz
  copy_back disp zero s = s
  copy_back disp (suc n) s = elim (ltb s.written size) [
    | true ↦ copy_back disp n (emit dest (s.mem (sub32 (dest + s.written) disp)) s)
    | false ↦ s
  ]

  -- A round of the loop over the bits.
  unfoldable pub token : ℕ → Lz → Lz
  token flags s =
      if leb 0x80 flags
      then copy_back (src s.at % 2 ^ 4 * 2 ^ 8 + src (s.at + 1) + 1) (src s.at / 2 ^ 4 + 3)
          (record s { at = s.at + 2 })
      else emit dest (src s.at) (record s { at = s.at + 1 })

  -- The loop over the bits of a group, with `n` of them left.
  unfoldable pub token_bits : ℕ → ℕ → Lz → Lz
  token_bits zero flags s = s
  token_bits (suc n) flags s = elim (ltb s.written size) [
    | true ↦ token_bits n (u8 (flags * 2)) (token flags s)
    | false ↦ s
  ]

  -- `while (written < size)`, with fuel: every group writes one byte at least.
  unfoldable pub groups : ℕ → Lz → Lz
  groups zero s = s
  groups (suc fuel) s = elim (ltb s.written size) [
    | true ↦ groups fuel (token_bits 8 (src s.at) (record s { at = s.at + 1 }))
    | false ↦ s
  ]

-- LZ77UnComp
unfoldable pub lz77_uncomp : (ℕ → ℕ) → ℕ → (ℕ → ℕ) → Lz
lz77_uncomp src dest mem =
    groups src dest (header_size src) (header_size src) (record { at = 4; written = 0; mem = mem })
