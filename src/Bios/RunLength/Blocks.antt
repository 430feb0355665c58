-- ===== src/Bios/RunLength/Blocks.antt =====
-- platform/bios.c: RLUnComp reads the format of runs and literal blocks, and writes the size that the
-- header gives.
use katam_port.Base.{
  ℕ, zero, suc, ◌+◌, ◌-◌, ◌%◌, ◌≤◌, ◌≡◌, refl, sym, ◌∙◌, ap, ap₂, true, false, Bool-cases, inl, inr,
  List, [], ◌∷◌, ◌++◌, leb, min, replicate, length, length-append, length-replicate, arith,
}
use katam_port.Bios.RunLength.{bytes_at, expand_runs, header_size, rl_uncomp}

length-bytes_at : (src : ℕ → ℕ) (at n : ℕ) → length (bytes_at src at n) ≡ n
unfolding bytes_at
length-bytes_at src at zero = refl
length-bytes_at src at (suc n) = ap suc (length-bytes_at src (at + 1) n)

expand_runs-run :
    (src : ℕ → ℕ) (fuel at left : ℕ)
    → leb 128 (src at) ≡ true
    → let n = min (src at % 128 + 3) (suc left) in
      expand_runs src (suc fuel) at (suc left)
      ≡ replicate n (src (at + 1)) ++ expand_runs src fuel (at + 2) (suc left - n)
unfolding expand_runs
expand_runs-run src fuel at left e = rw (e, expand_runs) refl

expand_runs-literal :
    (src : ℕ → ℕ) (fuel at left : ℕ)
    → leb 128 (src at) ≡ false
    → let n = min (src at % 128 + 1) (suc left) in
      expand_runs src (suc fuel) at (suc left)
      ≡ bytes_at src (at + 1) n ++ expand_runs src fuel (at + 1 + n) (suc left - n)
unfolding expand_runs
expand_runs-literal src fuel at left e = rw (e, expand_runs) refl

length-expand_runs :
    (src : ℕ → ℕ) (fuel at left : ℕ) → left ≤ fuel → length (expand_runs src fuel at left) ≡ left
length-expand_runs src zero at left h = unfold expand_runs in omega arith
length-expand_runs src (suc fuel) at zero h = unfold expand_runs in refl
length-expand_runs src (suc fuel) at (suc left) h = elim (Bool-cases (leb 128 (src at))) [
  | inl run ↦
      let n = min (src at % 128 + 3) (suc left) in
      let rest = expand_runs src fuel (at + 2) (suc left - n) in
      ap length (expand_runs-run src fuel at left run)
      ∙ omega (
        arith,
        length-append (replicate n (src (at + 1))) rest,
        length-replicate n (src (at + 1)),
        length-expand_runs src fuel (at + 2) (suc left - n) (omega arith),
      )
  | inr lit ↦
      let n = min (src at % 128 + 1) (suc left) in
      let rest = expand_runs src fuel (at + 1 + n) (suc left - n) in
      ap length (expand_runs-literal src fuel at left lit)
      ∙ omega (
        arith,
        length-append (bytes_at src (at + 1) n) rest,
        length-bytes_at src (at + 1) n,
        length-expand_runs src fuel (at + 1 + n) (suc left - n) (omega arith),
      )
]

-- RLUnComp ends, and writes as many bytes as the header says, whatever the source.
pub length-rl_uncomp : (src : ℕ → ℕ) → length (rl_uncomp src) ≡ header_size src
unfolding rl_uncomp
length-rl_uncomp src = length-expand_runs src (header_size src) 4 (header_size src) (omega arith)

-- The blocks of the format: a byte that is repeated, or bytes as they are.
pub data Block : Type 0 where
  run : ℕ → ℕ → Block
  literal : List ℕ → Block

unfoldable pub expand : Block → List ℕ
expand (run n v) = replicate n v
expand (literal xs) = xs

-- A block that a flag byte can tell, of n + 3 or n + 1 bytes.
unfoldable pub IsBlock : Block → Type 0
IsBlock (run n v) = (3 ≤ n) × (n ≤ 130)
IsBlock (literal xs) = (1 ≤ length xs) × (length xs ≤ 128)

unfoldable pub encode : Block → List ℕ
encode (run n v) = (128 + (n - 3)) ∷ v ∷ []
encode (literal xs) = (length xs - 1) ∷ xs

-- The bytes stand in the source from the offset `at` on.
unfoldable pub StandsAt : (ℕ → ℕ) → ℕ → List ℕ → Type 0
StandsAt src at [] = Unit
StandsAt src at (x ∷ xs) = (src at ≡ x) × StandsAt src (at + 1) xs

-- The blocks, one behind the other.
unfoldable pub BlocksAt : (ℕ → ℕ) → ℕ → List Block → Type 0
BlocksAt src at [] = Unit
BlocksAt src at (b ∷ bs) =
    IsBlock b × StandsAt src at (encode b) × BlocksAt src (at + length (encode b)) bs

unfoldable pub expand_all : List Block → List ℕ
expand_all [] = []
expand_all (b ∷ bs) = expand b ++ expand_all bs

bytes_at-StandsAt :
    (src : ℕ → ℕ) (at : ℕ) (xs : List ℕ) → StandsAt src at xs → bytes_at src at (length xs) ≡ xs
unfolding bytes_at StandsAt
bytes_at-StandsAt src at [] h = refl
bytes_at-StandsAt src at (x ∷ xs) (e, h) =
    ap₂ (λ y ys. y ∷ ys) e (bytes_at-StandsAt src (at + 1) xs h)

expand_runs-none : (src : ℕ → ℕ) (fuel at : ℕ) → expand_runs src fuel at 0 ≡ []
unfolding expand_runs
expand_runs-none src zero at = refl
expand_runs-none src (suc fuel) at = refl

-- One block, with room for it, is written whole.
expand_runs-block :
    (src : ℕ → ℕ) (fuel at left : ℕ) (b : Block)
    → IsBlock b
    → StandsAt src at (encode b)
    → length (expand b) ≤ suc left
    → expand_runs src (suc fuel) at (suc left)
      ≡ expand b ++ expand_runs src fuel (at + length (encode b)) (suc left - length (expand b))
unfolding IsBlock StandsAt encode expand
expand_runs-block src fuel at left (run n v) (lo, hi) (flag, (value, _)) room =
    expand_runs-run src fuel at left (ground arith)
    ∙ ap₂ (λ k x. replicate k x ++ expand_runs src fuel (at + 2) (suc left - k)) count value
    ∙ ap (λ k. replicate n v ++ expand_runs src fuel (at + 2) (suc left - k))
        (sym (length-replicate n v))
  where
    count : min (src at % 128 + 3) (suc left) ≡ n
    count = omega (arith, flag, lo, hi, room, length-replicate n v)
expand_runs-block src fuel at left (literal xs) (lo, hi) (flag, bytes) room =
    expand_runs-literal src fuel at left (ground arith)
    ∙ ap (λ k. bytes_at src (at + 1) k ++ expand_runs src fuel (at + 1 + k) (suc left - k)) count
    ∙ ap₂ (λ ys k. ys ++ expand_runs src fuel k (suc left - length xs))
        (bytes_at-StandsAt src (at + 1) xs bytes) (omega arith)
  where
    count : min (src at % 128 + 1) (suc left) ≡ length xs
    count = omega (arith, flag, lo, hi, room)

IsBlock-length : (b : Block) → IsBlock b → 1 ≤ length (expand b)
unfolding IsBlock expand
IsBlock-length (run n v) (lo, hi) = omega (arith, lo, length-replicate n v)
IsBlock-length (literal xs) (lo, hi) = lo

expand_runs-blocks :
    (src : ℕ → ℕ) (bs : List Block) (fuel at left : ℕ)
    → BlocksAt src at bs
    → length (expand_all bs) ≡ left
    → left ≤ fuel
    → expand_runs src fuel at left ≡ expand_all bs
unfolding BlocksAt expand_all
expand_runs-blocks src [] fuel at left h e le =
    ap (expand_runs src fuel at) (sym e) ∙ expand_runs-none src fuel at
expand_runs-blocks src (b ∷ bs) fuel at zero (ok, _, _) e le =
    absurd (omega (arith, length-append (expand b) (expand_all bs), IsBlock-length b ok))
expand_runs-blocks src (b ∷ bs) zero at (suc left) h e le = absurd (omega arith)
expand_runs-blocks src (b ∷ bs) (suc fuel) at (suc left) (ok, here, more) e le =
    let lens = length-append (expand b) (expand_all bs) in
    expand_runs-block src fuel at left b ok here (omega (arith, lens))
    ∙ ap (λ ys. expand b ++ ys)
        (expand_runs-blocks src bs fuel (at + length (encode b)) (suc left - length (expand b)) more
          (omega (arith, lens)) (omega (arith, IsBlock-length b ok)))

-- Where the header is followed by blocks that expand to the size that it gives, RLUnComp writes what
-- they expand to.
pub rl_uncomp-blocks :
    (src : ℕ → ℕ) (bs : List Block)
    → BlocksAt src 4 bs
    → length (expand_all bs) ≡ header_size src
    → rl_uncomp src ≡ expand_all bs
unfolding rl_uncomp
rl_uncomp-blocks src bs h e =
    expand_runs-blocks src bs (header_size src) 4 (header_size src) h e (omega arith)
