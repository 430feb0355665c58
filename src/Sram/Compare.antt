-- ===== src/Sram/Compare.antt =====
-- platform/sram.c: the comparisons of WriteSram and VerifySram.
use katam_port.Base.{copy, ℕ, zero, suc, ◌+◌, ◌≤◌, ◌<◌, ◌≡◌, refl, true, ◌⊎◌, arith, ℕ_discrete}
use katam_port.Sram.{is_same, first_mismatch}

-- The blocks hold the same bytes.
abbrev pub Same : (ℕ → ℕ) → ℕ → ℕ → ℕ → Type 0
Same mem src dest size = (i : ℕ) → i < size → mem (dest + i) ≡ mem (src + i)

pub is_same_lem :
    (mem : ℕ → ℕ) (src dest size : ℕ) → is_same mem src dest size ≡ true → Same mem src dest size
unfolding is_same
is_same_lem mem src dest zero h i lt = absurd (omega arith)
is_same_lem mem src dest (suc n) h i lt = elim (ℕ_discrete i n) [
  | yes e ↦ rw e (ground arith)
  | no ne ↦ is_same_lem mem src dest n (ground arith) i (omega arith)
]

-- A copy into a block that is apart from its source leaves the two the same.
pub copy-Same :
    (mem : ℕ → ℕ) (src dest size : ℕ)
    → (src + size ≤ dest) ⊎ (dest + size ≤ src)
    → Same (copy src dest size mem) src dest size
copy-Same mem src dest size apart i lt = ground arith

pub first_mismatch-Same :
    (mem : ℕ → ℕ) (src dest i n : ℕ)
    → Same mem src dest (i + n)
    → first_mismatch mem src dest i n ≡ 0
unfolding first_mismatch
first_mismatch-Same mem src dest i zero h = refl
first_mismatch-Same mem src dest i (suc n) h =
    ground (arith, h i, first_mismatch-Same mem src dest (i + 1) n)
