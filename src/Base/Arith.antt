-- ===== src/Base/Arith.antt =====
-- Products, which the linear tactics take for unknowns.
use Prim.Native.Nat.{ℕ, suc, ◌+◌, ◌*◌, ◌≤◌, ◌<◌}
use mathlib.Core.Path.{◌≡◌}
use native.Mathlib.Omega.{arith}

pub times_suc : (j unit : ℕ) → suc j * unit ≡ unit + j * unit
times_suc j unit = grind arith

-- A unit before the end of a run ends before it too.
pub times_mono : (j n unit : ℕ) → j < n → j * unit + unit ≤ n * unit
times_mono j n unit h = grind arith
