-- ===== src/Png/Chunks.antt =====
-- platform/native/png.c: a chunk is read back by a reader that checks the CRC of type and data at once.
use katam_port.Base.{
  ℕ, ◌+◌, ◌*◌, ◌^◌, ◌<◌, ◌≡◌, refl, sym, ◌∙◌, ap, List, [], ◌∷◌, ◌++◌, Option, none, some, ◌==◌,
  ==_refl, if◌then◌else◌, length, take, drop, get_or, take-append, drop-append, append_assoc, u32,
  arith,
}
use katam_port.Png.{crc_step, crc_bytes, crc32, inverted, be32, chunk}

unfoldable pub read_be32 : List ℕ → ℕ
read_be32 bs =
    get_or bs 0 0 * 2 ^ 24 + get_or bs 1 0 * 2 ^ 16 + get_or bs 2 0 * 2 ^ 8 + get_or bs 3 0

pub read_be32-be32 : (v : ℕ) (rest : List ℕ) → v < 2 ^ 32 → read_be32 (be32 v ++ rest) ≡ v
unfolding read_be32
read_be32-be32 v rest h = omega arith

crc_step-lt : (crc b : ℕ) → crc_step crc b < 2 ^ 32
unfolding crc_step
crc_step-lt crc b = omega arith

crc_bytes-lt : (crc : ℕ) (bs : List ℕ) → crc < 2 ^ 32 → crc_bytes crc bs < 2 ^ 32
unfolding crc_bytes
crc_bytes-lt crc [] h = h
crc_bytes-lt crc (b ∷ bs) h = crc_bytes-lt (crc_step crc b) bs (crc_step-lt crc b)

crc_bytes-append :
    (crc : ℕ) (xs ys : List ℕ) → crc_bytes crc (xs ++ ys) ≡ crc_bytes (crc_bytes crc xs) ys
unfolding crc_bytes
crc_bytes-append crc [] ys = refl
crc_bytes-append crc (x ∷ xs) ys = crc_bytes-append (crc_step crc x) xs ys

-- The CRC of a second part, begun with that of the first, is the CRC of both.
pub crc32-append : (xs ys : List ℕ) → crc32 (crc32 0 xs) ys ≡ crc32 0 (xs ++ ys)
unfolding crc32
crc32-append xs ys =
    ap (λ c. inverted (crc_bytes c ys)) twice
    ∙ sym (ap inverted (crc_bytes-append (inverted 0) xs ys))
  where
    twice : inverted (inverted (crc_bytes (inverted 0) xs)) ≡ crc_bytes (inverted 0) xs
    twice = omega (arith, crc_bytes-lt (inverted 0) xs (omega arith))

pub crc32-lt : (crc : ℕ) (bs : List ℕ) → crc32 crc bs < 2 ^ 32
unfolding crc32
crc32-lt crc bs = omega arith

-- A chunk's type, its data, and what follows it.
pub record Chunk : Type 0 where
  pub kind : List ℕ
  pub content : List ℕ
  pub rest : List ℕ

abbrev pub checked : ℕ → Chunk → Option Chunk
checked crc c = if crc == crc32 0 (c.kind ++ c.content) then some c else none

unfoldable pub read_chunk : List ℕ → Option Chunk
read_chunk bs =
    let n = read_be32 bs in
    let tail = drop n (drop 4 (drop 4 bs)) in
    checked (read_be32 tail) (record {
      kind = take 4 (drop 4 bs);
      content = take n (drop 4 (drop 4 bs));
      rest = drop 4 tail;
    })

read_parts :
    (n crc : ℕ) (kind content rest : List ℕ)
    → length kind ≡ 4
    → length content ≡ n
    → n < 2 ^ 32
    → crc < 2 ^ 32
    → read_chunk (be32 n ++ (kind ++ (content ++ (be32 crc ++ rest))))
      ≡ checked crc (record { kind = kind; content = content; rest = rest })
unfolding read_chunk
read_parts n crc kind content rest k l h c =
    rw
      (
        read_be32-be32 n (kind ++ (content ++ (be32 crc ++ rest))) h,
        take-append kind (content ++ (be32 crc ++ rest)) k,
        drop-append kind (content ++ (be32 crc ++ rest)) k,
        take-append content (be32 crc ++ rest) l,
        drop-append content (be32 crc ++ rest) l,
        read_be32-be32 crc rest c,
      )
      refl

chunk-parts :
    (kind content rest : List ℕ)
    → length content < 2 ^ 32
    → chunk kind content ++ rest
      ≡ be32 (length content) ++ (kind ++ (content ++ (be32 (crc32 0 (kind ++ content)) ++ rest)))
unfolding chunk
chunk-parts kind content rest h = simp (append_assoc, crc32-append, small)
  where
    small : u32 (length content) ≡ length content
    small = omega arith

-- The reader gives back the type and the data of a chunk, and what follows it.
pub read_chunk-chunk :
    (kind content rest : List ℕ)
    → length kind ≡ 4
    → length content < 2 ^ 32
    → read_chunk (chunk kind content ++ rest)
      ≡ some (record { kind = kind; content = content; rest = rest })
read_chunk-chunk kind content rest k h =
    ap read_chunk (chunk-parts kind content rest h)
    ∙ read_parts (length content) (crc32 0 (kind ++ content)) kind content rest k refl h
        (crc32-lt 0 (kind ++ content))
    ∙ rw (==_refl (crc32 0 (kind ++ content))) refl
