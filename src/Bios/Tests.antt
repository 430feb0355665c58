-- ===== src/Bios/Tests.antt =====
-- platform/bios.c on concrete words.
use katam_port.Base.{
  is_inside, false, ℕ, get_or, refl, ◌≡◌, List, [], ◌∷◌, ◌+◌, ◌*◌, ◌≤◌, ◌<◌, arith,
}
use katam_port.Bios.{sqrt}
use katam_port.Bios.Lz77.{lz77_uncomp, groups, token_bits, token, copy_back}
use katam_port.Bios.Lz77.Bounds.{lz77_uncomp-bounded}
use katam_port.Bios.Sqrt.{sqrt_lem}
use katam_port.Bios.RunLength.{rl_uncomp}
use katam_port.Bios.RunLength.Blocks.{
  Block, run, literal, expand, expand_all, encode, IsBlock, StandsAt, BlocksAt, rl_uncomp-blocks,
}

sqrt_lem_example :
    (sqrt 0xFFFFFFFF * sqrt 0xFFFFFFFF ≤ 0xFFFFFFFF)
    × (0xFFFFFFFF < (sqrt 0xFFFFFFFF + 1) * (sqrt 0xFFFFFFFF + 1))
sqrt_lem_example = sqrt_lem 0xFFFFFFFF (omega arith)

-- Four fives, and two bytes as they are.
abbrev packed : ℕ → ℕ
packed i = get_or (0 ∷ 6 ∷ 0 ∷ 0 ∷ 129 ∷ 5 ∷ 1 ∷ 8 ∷ 9 ∷ []) i 0

abbrev blocks : List Block
blocks = run 4 5 ∷ literal (8 ∷ 9 ∷ []) ∷ []

rl_uncomp-blocks_example : rl_uncomp packed ≡ 5 ∷ 5 ∷ 5 ∷ 5 ∷ 8 ∷ 9 ∷ []
unfolding BlocksAt IsBlock StandsAt encode expand_all expand
rl_uncomp-blocks_example =
    rl_uncomp-blocks packed blocks
      (
        (omega arith, omega arith),
        (refl, (refl, tt)),
        ((omega arith, omega arith), (refl, (refl, (refl, tt))), tt),
      )
      refl

-- A literal byte, and a copy of five from one byte behind it.
abbrev repeated : ℕ → ℕ
repeated i = get_or (0x10 ∷ 6 ∷ 0 ∷ 0 ∷ 0x40 ∷ 9 ∷ 0x20 ∷ 0 ∷ []) i 0

lz77_uncomp-bounded_example :
    ((lz77_uncomp repeated 100 (λ _. 0)).written ≡ 6)
    × ((a : ℕ) → is_inside 100 6 a ≡ false → (lz77_uncomp repeated 100 (λ _. 0)).mem a ≡ 0)
lz77_uncomp-bounded_example = lz77_uncomp-bounded repeated 100 (λ _. 0) (omega arith)

nines : (lz77_uncomp repeated 100 (λ _. 0)).mem 105 ≡ 9
unfolding lz77_uncomp groups token_bits token copy_back
nines = refl
