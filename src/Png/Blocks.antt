-- ===== src/Png/Blocks.antt =====
-- platform/native/png.c: the zlib stream of stored blocks, its size, and a reader of such streams.
use katam_port.Base.{
  ℕ, zero, suc, ◌+◌, ◌-◌, ◌*◌, ◌/◌, ◌%◌, ◌^◌, ◌≤◌, ◌<◌, ◌≡◌, refl, ◌∙◌, ap, Bool, true, false, not,
  Bool-cases, inl, inr, List, [], ◌∷◌, ◌++◌, Option, none, some, leb, ◌==◌, if◌then◌else◌, length,
  take, drop, get_or, take-append, drop-append, length-append, append_assoc, append-nil, u8, arith,
  min, leb→le,
}
use katam_port.Png.{block_max, block_head, stored_blocks, adler, zlib, zlib_size, be32}

length-take : (n : ℕ) (xs : List ℕ) → n ≤ length xs → length (take n xs) ≡ n
length-take zero xs h = refl
length-take (suc n) [] h = absurd (omega arith)
length-take (suc n) (x ∷ xs) h = ap suc (length-take n xs (omega arith))

length-drop : (n : ℕ) (xs : List ℕ) → length (drop n xs) ≡ length xs - n
length-drop zero xs = omega arith
length-drop (suc n) [] = omega arith
length-drop (suc n) (x ∷ xs) = length-drop n xs ∙ omega arith

take_append_drop : (n : ℕ) (xs : List ℕ) → take n xs ++ drop n xs ≡ xs
take_append_drop zero xs = refl
take_append_drop (suc n) [] = refl
take_append_drop (suc n) (x ∷ xs) = ap (λ t. x ∷ t) (take_append_drop n xs)

take_all : (n : ℕ) (xs : List ℕ) → length xs ≤ n → take n xs ≡ xs
take_all zero [] h = refl
take_all zero (x ∷ xs) h = absurd (omega arith)
take_all (suc n) [] h = refl
take_all (suc n) (x ∷ xs) h = ap (λ t. x ∷ t) (take_all n xs (omega arith))

leb_refl : (n : ℕ) → leb n n ≡ true
leb_refl n = ground arith

-- The size of the block that is next.
abbrev next_size : List ℕ → ℕ
next_size raw = min (length raw) block_max

blocks-last :
    (fuel : ℕ) (raw : List ℕ)
    → length raw ≤ block_max
    → stored_blocks (suc fuel) raw ≡ block_head true (length raw) ++ raw
unfolding stored_blocks
blocks-last fuel raw h =
    rw (whole, leb_refl (length raw), take_all (length raw) raw (omega arith), append-nil raw) refl
  where
    whole : next_size raw ≡ length raw
    whole = omega arith

blocks-more :
    (fuel : ℕ) (raw : List ℕ)
    → block_max < length raw
    → stored_blocks (suc fuel) raw
      ≡ block_head false block_max
        ++ (take block_max raw ++ stored_blocks fuel (drop block_max raw))
unfolding stored_blocks
blocks-more fuel raw h = rw (full, more) refl
  where
    full : next_size raw ≡ block_max
    full = omega arith

    more : leb (length raw) block_max ≡ false
    more = ground arith

-- A reader of stored blocks, which checks each length against its complement: the bytes, and what
-- follows the last block.
abbrev joined : List ℕ → Option (List ℕ × List ℕ) → Option (List ℕ × List ℕ)
joined part none = none
joined part (some (bytes, tail)) = some (part ++ bytes, tail)

unfoldable pub inflate : ℕ → List ℕ → Option (List ℕ × List ℕ)
inflate zero bs = none
inflate (suc fuel) bs =
    let n = get_or bs 1 0 + get_or bs 2 0 * 2 ^ 8 in
    let complement = get_or bs 3 0 + get_or bs 4 0 * 2 ^ 8 in
    let rest = joined (take n (drop 5 bs)) (inflate fuel (drop n (drop 5 bs))) in
    if not (n + complement == 2 ^ 16 - 1)
    then none
    else if get_or bs 0 0 == 1
    then some (take n (drop 5 bs), drop n (drop 5 bs))
    else rest

inflate-head :
    (fuel n : ℕ) (final : Bool) (part tail : List ℕ)
    → length part ≡ n
    → n ≤ block_max
    → inflate (suc fuel) (block_head final n ++ (part ++ tail))
      ≡ (if final then some (part, tail) else joined part (inflate fuel tail))
unfolding inflate
inflate-head fuel n true part tail l h =
    rw (size, whole, take-append part tail l, drop-append part tail l) refl
  where
    size : n % 2 ^ 8 + u8 (n / 2 ^ 8) * 2 ^ 8 ≡ n
    size = omega arith

    whole :
        (n + (2 ^ 8 - 1 - n % 2 ^ 8 + (2 ^ 8 - 1 - n / 2 ^ 8 % 2 ^ 8) * 2 ^ 8) == 2 ^ 16 - 1) ≡ true
    whole = ground arith
inflate-head fuel n false part tail l h =
    rw (size, whole, take-append part tail l, drop-append part tail l) refl
  where
    size : n % 2 ^ 8 + u8 (n / 2 ^ 8) * 2 ^ 8 ≡ n
    size = omega arith

    whole :
        (n + (2 ^ 8 - 1 - n % 2 ^ 8 + (2 ^ 8 - 1 - n / 2 ^ 8 % 2 ^ 8) * 2 ^ 8) == 2 ^ 16 - 1) ≡ true
    whole = ground arith

inflate-last :
    (f g : ℕ) (raw tail : List ℕ)
    → length raw ≤ block_max
    → inflate (suc f) (stored_blocks (suc g) raw ++ tail) ≡ some (raw, tail)
inflate-last f g raw tail h =
    ap (λ bs. inflate (suc f) (bs ++ tail)) (blocks-last g raw h)
    ∙ inflate-head f (length raw) true raw tail refl h

inflate-more :
    (f g : ℕ) (raw tail : List ℕ)
    → block_max < length raw
    → inflate (suc f) (stored_blocks (suc g) raw ++ tail)
      ≡ joined (take block_max raw) (inflate f (stored_blocks g (drop block_max raw) ++ tail))
inflate-more f g raw tail h =
    ap (λ bs. inflate (suc f) (bs ++ tail)) (blocks-more g raw h)
    ∙ ap (λ bs. inflate (suc f) (block_head false block_max ++ bs))
        (append_assoc (take block_max raw) (stored_blocks g (drop block_max raw)) tail)
    ∙ inflate-head f block_max false (take block_max raw)
        (stored_blocks g (drop block_max raw) ++ tail) (length-take block_max raw (omega arith))
        (omega arith)

-- Every stream of blocks is read back, with enough fuel on both sides.
pub inflate-stored_blocks :
    (f g : ℕ) (raw tail : List ℕ)
    → length raw ≤ f
    → length raw ≤ g
    → inflate (suc f) (stored_blocks (suc g) raw ++ tail) ≡ some (raw, tail)
inflate-stored_blocks zero g raw tail h k = inflate-last 0 g raw tail (omega arith)
inflate-stored_blocks (suc f) zero raw tail h k = inflate-last (suc f) 0 raw tail (omega arith)
inflate-stored_blocks (suc f) (suc g) raw tail h k =
    elim (Bool-cases (leb (length raw) block_max)) [
      | inl small ↦ inflate-last (suc f) (suc g) raw tail (leb→le _ _ small)
      | inr big ↦
          inflate-more (suc f) (suc g) raw tail (ground arith)
          ∙ ap (joined (take block_max raw)) (
              inflate-stored_blocks f g (drop block_max raw) tail
                (omega (arith, length-drop block_max raw))
                (omega (arith, length-drop block_max raw)))
          ∙ ap (λ bs. some (bs, tail)) (take_append_drop block_max raw)
    ]

-- A block has five bytes of header, and all but the last are full.
length-stored_blocks :
    (fuel : ℕ) (raw : List ℕ)
    → 0 < length raw
    → length raw ≤ fuel
    → length (stored_blocks (suc fuel) raw) ≡ length raw + 5 * ((length raw + 65534) / 65535)
length-stored_blocks zero raw some_byte h = absurd (omega arith)
length-stored_blocks (suc fuel) raw some_byte h = elim (Bool-cases (leb (length raw) block_max)) [
  | inl small ↦ ap length (blocks-last (suc fuel) raw (leb→le _ _ small)) ∙ one (leb→le _ _ small)
  | inr big ↦
      ap length (blocks-more (suc fuel) raw (ground arith))
      ∙ omega (
        arith,
        length-append (take block_max raw) (stored_blocks (suc fuel) (drop block_max raw)),
        length-take block_max raw (ground arith),
        length-drop block_max raw,
        length-stored_blocks fuel (drop block_max raw) (more (ground arith))
            (omega (arith, length-drop block_max raw)),
        more (ground arith),
      )
]
  where
    one :
        length raw ≤ block_max
        → length (block_head true (length raw) ++ raw)
          ≡ length raw + 5 * ((length raw + 65534) / 65535)
    one small = omega arith

    more : block_max < length raw → 0 < length (drop block_max raw)
    more big = omega (arith, length-drop block_max raw)

-- The zlib stream fills the buffer that zLen sizes, and no more.
pub length-zlib : (raw : List ℕ) → 0 < length raw → length (zlib raw) ≡ zlib_size (length raw)
unfolding zlib
length-zlib raw h = omega (
  arith,
  length-append (stored_blocks (suc (length raw)) raw) (be32 (adler 1 0 raw)),
  length-stored_blocks (length raw) raw h (omega arith),
)
