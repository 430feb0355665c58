-- ===== src/Png.antt =====
-- platform/native/png.c: the screenshot writer. A file is the list of its bytes; a picture is the
-- function from pixel numbers to words 0xAABBGGRR. malloc, fopen and fwrite are taken to succeed.
pub mod Chunks
pub mod Blocks
pub mod Rows
pub mod Decode
mod Tests
use katam_port.Base.{
  ℕ, zero, suc, ◌+◌, ◌-◌, ◌*◌, ◌/◌, ◌%◌, ◌^◌, Bool, true, false, ◌||◌, List, [], ◌∷◌, ◌++◌, Option,
  none, some, ltb, leb, ◌==◌, if◌then◌else◌, length, take, drop, u8, u32, bit_xor, min,
}

-- The eight rounds that make an entry of the table.
unfoldable pub crc_rounds : ℕ → ℕ → ℕ
crc_rounds zero c = c
crc_rounds (suc j) c = crc_rounds j (if c % 2 == 1 then bit_xor 0xEDB88320 (c / 2) else c / 2)

-- table[(crc ^ p[i]) & 0xFF] ^ (crc >> 8)
unfoldable pub crc_step : ℕ → ℕ → ℕ
crc_step crc byte = u32 (bit_xor (crc_rounds 8 (bit_xor crc byte % 2 ^ 8)) (crc / 2 ^ 8))

unfoldable pub crc_bytes : ℕ → List ℕ → ℕ
crc_bytes crc [] = crc
crc_bytes crc (b ∷ bs) = crc_bytes (crc_step crc b) bs

-- `crc ^ 0xFFFFFFFF` of a u32 is its complement.
abbrev pub inverted : ℕ → ℕ
inverted crc = 2 ^ 32 - 1 - crc

-- Crc32
unfoldable pub crc32 : ℕ → List ℕ → ℕ
crc32 crc bs = inverted (crc_bytes (inverted crc) bs)

-- Be32
abbrev pub be32 : ℕ → List ℕ
be32 v = u8 (v / 2 ^ 24) ∷ u8 (v / 2 ^ 16) ∷ u8 (v / 2 ^ 8) ∷ u8 v ∷ []

-- Chunk
unfoldable pub chunk : List ℕ → List ℕ → List ℕ
chunk kind content =
    be32 (u32 (length content)) ++ (kind ++ (content ++ be32 (crc32 (crc32 0 kind) content)))

-- The bytes of one pixel, and of `n` pixels from number `i` on.
abbrev pub pixel : ℕ → List ℕ
pixel c = u8 c ∷ u8 (c / 2 ^ 8) ∷ u8 (c / 2 ^ 16) ∷ []

unfoldable pub pixels : (ℕ → ℕ) → ℕ → ℕ → List ℕ
pixels rgba i zero = []
pixels rgba i (suc n) = pixel (rgba i) ++ pixels rgba (i + 1) n

-- Row `y` on, with `n` rows left: a filter byte, and the pixels.
unfoldable pub rows : (ℕ → ℕ) → ℕ → ℕ → ℕ → List ℕ
rows rgba w y zero = []
rows rgba w y (suc n) = 0 ∷ (pixels rgba (y * w) w ++ rows rgba w (y + 1) n)

-- s1 and s2
unfoldable pub adler : ℕ → ℕ → List ℕ → ℕ
adler s1 s2 [] = s2 * 2 ^ 16 + s1
adler s1 s2 (b ∷ bs) = adler ((s1 + b) % 65521) ((s2 + (s1 + b) % 65521) % 65521) bs

abbrev pub block_max : ℕ
block_max = 65535

-- The header of a stored block of `n` bytes.
abbrev pub block_head : Bool → ℕ → List ℕ
block_head final n =
    (if final then 1 else 0)
    ∷ n % 2 ^ 8
    ∷ u8 (n / 2 ^ 8)
    ∷ (2 ^ 8 - 1 - n % 2 ^ 8)
    ∷ (2 ^ 8 - 1 - n / 2 ^ 8 % 2 ^ 8)
    ∷ []

-- The do-while loop on the bytes from `off` on, with fuel: a round that is not the last takes
-- block_max bytes.
unfoldable pub stored_blocks : ℕ → List ℕ → List ℕ
stored_blocks zero raw = []
stored_blocks (suc fuel) raw =
    let n = min (length raw) block_max in
    let rest = stored_blocks fuel (drop n raw) in
    let final = leb (length raw) n in
    block_head final n ++ (take n raw ++ (if final then [] else rest))

unfoldable pub zlib : List ℕ → List ℕ
zlib raw = 0x78 ∷ 0x01 ∷ (stored_blocks (suc (length raw)) raw ++ be32 (adler 1 0 raw))

-- zLen
abbrev pub zlib_size : ℕ → ℕ
zlib_size n = 2 + 4 + n + 5 * ((n + 65534) / 65535)

abbrev pub signature : List ℕ
signature = 137 ∷ 80 ∷ 78 ∷ 71 ∷ 13 ∷ 10 ∷ 26 ∷ 10 ∷ []

abbrev pub ihdr : ℕ → ℕ → List ℕ
ihdr w h = be32 w ++ (be32 h ++ (8 ∷ 2 ∷ 0 ∷ 0 ∷ 0 ∷ []))

-- The chunk types
abbrev pub ihdr_kind : List ℕ
ihdr_kind = 73 ∷ 72 ∷ 68 ∷ 82 ∷ []

abbrev pub idat_kind : List ℕ
idat_kind = 73 ∷ 68 ∷ 65 ∷ 84 ∷ []

abbrev pub iend_kind : List ℕ
iend_kind = 73 ∷ 69 ∷ 78 ∷ 68 ∷ []

-- PortNativeWritePng, of a width and a height that are not negative: the file, or the refusal.
unfoldable pub write_png : (ℕ → ℕ) → ℕ → ℕ → Option (List ℕ)
write_png rgba w h =
    if w == 0 || h == 0
    then none
    else some (
        signature
        ++ (chunk ihdr_kind (ihdr w h)
            ++ (chunk idat_kind (zlib (rows rgba w 0 h)) ++ chunk iend_kind [])))
