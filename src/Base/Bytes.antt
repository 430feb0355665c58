-- ===== src/Base/Bytes.antt =====
-- platform/rollback.c: Put16, Get16, Put32, Get32. A buffer is the list of its bytes; a writer gives
-- the bytes that it stores, a reader takes them off the front.
use Prim.Native.Nat.{ℕ, ◌+◌, ◌*◌, ◌/◌, ◌^◌, ◌<◌}
use mathlib.Core.Path.{◌≡◌}
use mathlib.Core.List.{List, [], ◌∷◌, ◌++◌}
use native.Mathlib.Omega.{arith}
use katam_port.Base.Lists.{get_or, length}
use katam_port.Base.Words.{u8, u16}

unfoldable pub put16 : ℕ → List ℕ
put16 v = u8 v ∷ u8 (v / 2 ^ 8) ∷ []

-- p[0] | (p[1] << 8): the two bytes do not overlap.
unfoldable pub get16 : List ℕ → ℕ
get16 p = get_or p 0 0 + get_or p 1 0 * 2 ^ 8

unfoldable pub put32 : ℕ → List ℕ
unfolding put16
put32 v = put16 (u16 v) ++ put16 (u16 (v / 2 ^ 16))

unfoldable pub get32 : List ℕ → ℕ
get32 p = get_or p 0 0 + get_or p 1 0 * 2 ^ 8 + (get_or p 2 0 + get_or p 3 0 * 2 ^ 8) * 2 ^ 16

pub length-put16 : (v : ℕ) → length (put16 v) ≡ 2
unfolding put16
length-put16 v = omega arith

pub length-put32 : (v : ℕ) → length (put32 v) ≡ 4
unfolding put32
length-put32 v = omega arith

pub get16-put16 : (v : ℕ) (rest : List ℕ) → v < 2 ^ 16 → get16 (put16 v ++ rest) ≡ v
unfolding put16 get16
get16-put16 v rest h = omega arith

pub get32-put32 : (v : ℕ) (rest : List ℕ) → v < 2 ^ 32 → get32 (put32 v ++ rest) ≡ v
unfolding put32 get32
get32-put32 v rest h = omega arith
