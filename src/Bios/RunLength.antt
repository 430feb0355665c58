-- ===== src/Bios/RunLength.antt =====
-- platform/bios.c: RLUnComp. The source is the function from offsets to its bytes; the output is the
-- list of the bytes written.
pub mod Blocks
use katam_port.Base.{
  ℕ, zero, suc, ◌+◌, ◌-◌, ◌*◌, ◌%◌, ◌^◌, Bool, true, false, List, [], ◌∷◌, ◌++◌, leb, min,
  replicate,
}

-- `n` bytes from the offset `at` on.
unfoldable pub bytes_at : (ℕ → ℕ) → ℕ → ℕ → List ℕ
bytes_at src at zero = []
bytes_at src at (suc n) = src at ∷ bytes_at src (at + 1) n

-- `while (written < size)`, with `left` bytes to write and `fuel` rounds at most: every round writes one
-- byte at least.
unfoldable pub expand_runs : (ℕ → ℕ) → ℕ → ℕ → ℕ → List ℕ
expand_runs src zero at left = []
expand_runs src (suc fuel) at zero = []
expand_runs src (suc fuel) at (suc left) = elim (leb 128 (src at)) [
  | true ↦
      let n = min (src at % 128 + 3) (suc left) in
      replicate n (src (at + 1)) ++ expand_runs src fuel (at + 2) (suc left - n)
  | false ↦
      let n = min (src at % 128 + 1) (suc left) in
      bytes_at src (at + 1) n ++ expand_runs src fuel (at + 1 + n) (suc left - n)
]

-- The size in the upper three bytes of the header.
abbrev pub header_size : (ℕ → ℕ) → ℕ
header_size src = src 1 + src 2 * 2 ^ 8 + src 3 * 2 ^ 16

-- RLUnComp
unfoldable pub rl_uncomp : (ℕ → ℕ) → List ℕ
rl_uncomp src = expand_runs src (header_size src) 4 (header_size src)
