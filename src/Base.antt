-- ===== src/Base.antt =====
-- Names that every part of the development shares: the libraries', passed on, and the helpers of
-- the children (Boolean tests, arrays as lists or functions, machine words, little-endian bytes).
mod Tests
mod Lists
mod Arrays
mod Words
mod Int
mod Bytes
mod Memory
mod Arith
pub use Tests.*
pub use Lists.*
pub use Arrays.*
unfoldable pub use Words.*
pub use Int.*
pub use Arith.*
unfoldable pub use Bytes.*
unfoldable pub use Memory.*
pub use Prim.Native.Nat.{
  ℕ, zero, suc, ◌+◌, ◌-◌, ◌*◌, ◌/◌, ◌%◌, ◌^◌, ◌≤◌, ◌<◌, min, bit_and, bit_or, bit_xor,
}
pub use mathlib.Core.Path.{◌≡◌, refl, sym, ap, ap₂, ◌∙◌, subst, fun_ext, ◌≡⟨◌⟩◌, ◌∎}
pub use mathlib.Core.Logic.{◌≢◌, ◌↔◌, ◌⊎◌, inl, inr}
pub use mathlib.Core.Bool.{Bool, true, false, not, ◌&&◌, ◌||◌}
pub use mathlib.Core.Option.{Option, none, some}
pub use mathlib.Core.List.{List, [], ◌∷◌, ◌++◌, map, append-nil, append_assoc}
pub use native.Mathlib.Omega.{arith}
unfoldable pub use native.Mathlib.Decide.{dec_lt, ℕ_discrete}
