-- ===== src/Sram.antt =====
-- platform/sram.c: save memory. An address is a number, and the memory of the process the function from
-- addresses to bytes.
pub mod Compare
pub mod Write
mod Tests
use katam_port.Base.{
  ℕ, zero, suc, ◌+◌, ◌-◌, Bool, true, false, ◌&&◌, ◌||◌, Option, none, some, ltb, leb, ◌==◌, u32,
  if◌then◌else◌, is_inside, copy,
}

-- GBA_SRAM_BASE, relocated, and GBA_SRAM_SIZE
abbrev pub sram_base : ℕ
sram_base = 0x09000000

abbrev pub sram_size : ℕ
sram_size = 0x00010000

-- The memory, sRestored, and how often PortSramMarkDirty was called.
pub record Sram : Type 0 where
  pub mem : ℕ → ℕ
  pub restored : Bool
  pub dirty : ℕ

-- PortSramLoad: the bytes that the host has stored, if any, are put over the region.
abbrev pub restore : Option (ℕ → ℕ) → (ℕ → ℕ) → ℕ → ℕ
restore none mem = mem
restore (some stored) mem =
    λ a. if is_inside sram_base sram_size a then stored (a - sram_base) else mem a

unfoldable pub restore_once : Option (ℕ → ℕ) → Sram → Sram
restore_once host s =
    if s.restored then s else record s { restored = true; mem = restore host s.mem }

unfoldable pub is_in_sram : ℕ → ℕ → Bool
is_in_sram p size = leb sram_base p && leb size sram_size && leb (p - sram_base) (sram_size - size)

-- ReadSram
unfoldable pub read_sram : Option (ℕ → ℕ) → ℕ → ℕ → ℕ → Sram → Sram
read_sram host src dest size s =
    let t = restore_once host s in record t { mem = copy src dest size t.mem }

-- memcmp(dest, src, size) == 0
unfoldable pub is_same : (ℕ → ℕ) → ℕ → ℕ → ℕ → Bool
is_same mem src dest zero = true
is_same mem src dest (suc n) = is_same mem src dest n && (mem (dest + n) == mem (src + n))

-- The copy and the mark of WriteSram.
abbrev pub store_bytes : ℕ → ℕ → ℕ → Sram → Sram
store_bytes src dest size t = record t {
  mem = copy src dest size t.mem;
  dirty = if is_in_sram dest size then t.dirty + 1 else t.dirty;
}

-- WriteSram
unfoldable pub write_sram : Option (ℕ → ℕ) → ℕ → ℕ → ℕ → Sram → Sram
write_sram host src dest size s =
    let t = restore_once host s in
    if size == 0 || is_same t.mem src dest size then t else store_bytes src dest size t

-- The loop of VerifySram from `i` on, with `n` bytes left.
unfoldable pub first_mismatch : (ℕ → ℕ) → ℕ → ℕ → ℕ → ℕ → ℕ
first_mismatch mem src target i zero = 0
first_mismatch mem src target i (suc n) =
    let rest = first_mismatch mem src target (i + 1) n in
    if mem (target + i) == mem (src + i) then rest else u32 (target + i)

-- VerifySram
unfoldable pub verify_sram : Option (ℕ → ℕ) → ℕ → ℕ → ℕ → Sram → ℕ × Sram
verify_sram host src target size s =
    let t = restore_once host s in (first_mismatch t.mem src target 0 size, t)

-- WriteSramEx, on the retries that are left; SRAM_RETRY_MAX stands in the game's header.
unfoldable pub write_sram_ex : Option (ℕ → ℕ) → ℕ → ℕ → ℕ → ℕ → Sram → ℕ × Sram
write_sram_ex host src dest size zero s = (u32 dest, s)
write_sram_ex host src dest size (suc retries) s =
    let r = verify_sram host src dest size (write_sram host src dest size s) in
    elim (r.0 == 0) [ true ↦ (0, r.1) | false ↦ write_sram_ex host src dest size retries r.1 ]
