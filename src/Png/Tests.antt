-- ===== src/Png/Tests.antt =====
-- platform/native/png.c on a picture of two pixels by one.
use katam_port.Base.{ℕ, ◌+◌, ◌≡◌, refl, [], ◌∷◌}
use katam_port.Png.{crc32, crc_bytes, crc_step, crc_rounds}

abbrev picture : ℕ → ℕ
picture i = 0xFF332211 + i

-- The check value of CRC-32, of the digits 1 to 9.
check_value : crc32 0 (49 ∷ 50 ∷ 51 ∷ 52 ∷ 53 ∷ 54 ∷ 55 ∷ 56 ∷ 57 ∷ []) ≡ 0xCBF43926
unfolding crc32 crc_bytes crc_step crc_rounds
check_value = refl
