-- ===== src/Base/Memory.antt =====
-- The memory of the process as the function from addresses to bytes, and what C does to it.
use Prim.Native.Nat.{ℕ, ◌+◌, ◌-◌, ◌*◌, ◌/◌, ◌^◌, ◌≤◌, ◌<◌}
use mathlib.Core.Path.{◌≡◌, refl}
use mathlib.Core.Logic.{◌⊎◌, inl, inr}
use mathlib.Core.Bool.{Bool, true, false, ◌&&◌}
use native.Mathlib.Omega.{arith}
use katam_port.Base.Tests.{ltb, leb, if◌then◌else◌}
use katam_port.Base.Words.{u8}

-- `from <= a && a < from + size`
abbrev pub is_inside : ℕ → ℕ → ℕ → Bool
is_inside from size a = leb from a && ltb a (from + size)

-- memcpy(dest, src, size) of blocks that do not overlap; `*dest = *src` of objects of that size.
abbrev pub copy : ℕ → ℕ → ℕ → (ℕ → ℕ) → ℕ → ℕ
copy src dest size mem a = if is_inside dest size a then mem (src + (a - dest)) else mem a

-- *(u16 *)a
unfoldable pub read16 : (ℕ → ℕ) → ℕ → ℕ
read16 mem a = mem a + mem (a + 1) * 2 ^ 8

-- *(u16 *)a = v and *(u32 *)a = v, with the low byte first.
unfoldable pub write16 : ℕ → ℕ → (ℕ → ℕ) → ℕ → ℕ
write16 a v mem b = if is_inside a 2 b then u8 (v / 2 ^ (8 * (b - a))) else mem b

unfoldable pub write32 : ℕ → ℕ → (ℕ → ℕ) → ℕ → ℕ
write32 a v mem b = if is_inside a 4 b then u8 (v / 2 ^ (8 * (b - a))) else mem b

pub inside→le : (from size a : ℕ) → is_inside from size a ≡ true → from ≤ a
inside→le from size a h = ground arith

pub inside→lt : (from size a : ℕ) → is_inside from size a ≡ true → a < from + size
inside→lt from size a h = ground arith

pub is_inside_of : (from size a : ℕ) → from ≤ a → a < from + size → is_inside from size a ≡ true
is_inside_of from size a p q = ground arith

pub outside→ : (from size a : ℕ) → is_inside from size a ≡ false → (a < from) ⊎ (from + size ≤ a)
outside→ from size a h = ground arith

pub is_outside_of :
    (from size a : ℕ) → (a < from) ⊎ (from + size ≤ a) → is_inside from size a ≡ false
is_outside_of from size a (inl p) = ground arith
is_outside_of from size a (inr p) = ground arith

pub copy-outside :
    (src dest size : ℕ) (mem : ℕ → ℕ) (a : ℕ)
    → is_inside dest size a ≡ false
    → copy src dest size mem a ≡ mem a
copy-outside src dest size mem a h = rw h refl

pub copy-inside :
    (src dest size : ℕ) (mem : ℕ → ℕ) (b : ℕ)
    → b < size
    → copy src dest size mem (dest + b) ≡ mem (src + b)
copy-inside src dest size mem b h = ground arith

pub write16-outside :
    (a v : ℕ) (mem : ℕ → ℕ) (b : ℕ) → is_inside a 2 b ≡ false → write16 a v mem b ≡ mem b
unfolding write16
write16-outside a v mem b h = rw h refl

pub write32-outside :
    (a v : ℕ) (mem : ℕ → ℕ) (b : ℕ) → is_inside a 4 b ≡ false → write32 a v mem b ≡ mem b
unfolding write32
write32-outside a v mem b h = rw h refl
