-- ===== src/Bios/Sqrt.antt =====
-- platform/bios.c: Sqrt is the integer square root.
use katam_port.Base.{
  ℕ, zero, suc, ◌+◌, ◌*◌, ◌/◌, ◌%◌, ◌^◌, ◌≤◌, ◌<◌, ◌≡◌, refl, sym, ◌∙◌, ap₂, subst, true, false,
  Bool-cases, inl, inr, ltb, ltb→lt, ltb_false→le, u32, arith,
}
use katam_port.Bios.{Roots, shifted, subtracted, sqrt_round, sqrt_rounds, sqrt}

-- `r` is the root of `n`, rounded down, and `s` holds it, doubled, with what is left.
record IsRoot (n : ℕ) (r : ℕ) (s : Roots) : Type 0 where
  double : s.root ≡ 2 * r
  left : s.rem + r * r ≡ n
  small : s.rem ≤ 2 * r

square_odd : (r : ℕ) → (2 * r + 1) * (2 * r + 1) ≡ 4 * (r * r) + 4 * r + 1
square_odd r = grind arith

square_even : (r : ℕ) → (2 * r) * (2 * r) ≡ 4 * (r * r)
square_even r = grind arith

module _ (n r : ℕ) (s : Roots) (lt : r < 2 ^ 15) (h : IsRoot n r s) where
  next_root : (shifted s).root ≡ 4 * r
  next_root = omega (arith, h.double, lt)

  next_rem : (shifted s).rem ≡ 4 * s.rem + s.num / 2 ^ 30
  next_rem = omega (arith, h.small, lt)

  low-IsRoot :
      ltb (shifted s).root (shifted s).rem ≡ false
      → IsRoot (4 * n + s.num / 2 ^ 30) (2 * r) (shifted s)
  low-IsRoot low = record {
    double = omega (arith, next_root);
    left = omega (arith, next_rem, h.left, square_even r);
    small = omega (arith, next_root, ltb_false→le _ _ low);
  }

  high-IsRoot :
      s.num < 2 ^ 32
      → ltb (shifted s).root (shifted s).rem ≡ true
      → IsRoot (4 * n + s.num / 2 ^ 30) (2 * r + 1) (subtracted (shifted s))
  high-IsRoot word high = record {
    double = omega (arith, next_root);
    left = omega (arith, next_rem, next_root, h.left, square_odd r, ltb→lt _ _ high);
    small = omega (arith, next_rem, next_root, h.small, ltb→lt _ _ high);
  }

-- A number that the digits of `num` in base four have been appended to, `k` of them.
unfoldable appended : ℕ → ℕ → ℕ → ℕ
appended zero n num = n
appended (suc k) n num = appended k (4 * n + num / 2 ^ 30) (u32 (num * 4))

-- `k` further rounds keep a root below `b` in sixteen bits.
unfoldable Fits : ℕ → ℕ → Type 0
Fits zero b = b ≤ 2 ^ 16
Fits (suc k) b = (b ≤ 2 ^ 15) × Fits k (2 * b)

-- The root of `n`, below 2 ^ 16, that a state holds.
record Holds (n b : ℕ) (s : Roots) : Type 0 where
  root : ℕ
  bound : root < b
  holds : IsRoot n root s

sqrt_round-Holds :
    (n b : ℕ) (s : Roots)
    → b ≤ 2 ^ 15
    → s.num < 2 ^ 32
    → Holds n b s
    → Holds (4 * n + s.num / 2 ^ 30) (2 * b) (sqrt_round s)
sqrt_round-Holds n b s fits word h = elim (Bool-cases (ltb (shifted s).root (shifted s).rem)) [
  | inl high ↦ rw high (record {
    root = 2 * h.root + 1;
    bound = omega (arith, h.bound);
    holds = high-IsRoot n h.root s (omega (arith, h.bound)) h.holds word high;
  })
  | inr low ↦ rw low (record {
    root = 2 * h.root;
    bound = omega (arith, h.bound);
    holds = low-IsRoot n h.root s (omega (arith, h.bound)) h.holds low;
  })
]

sqrt_round-num : (s : Roots) → (sqrt_round s).num ≡ u32 (s.num * 4)
sqrt_round-num s = elim (Bool-cases (ltb (shifted s).root (shifted s).rem)) [
  | inl high ↦ rw high refl
  | inr low ↦ rw low refl
]

sqrt_rounds-Holds :
    (k n b : ℕ) (s : Roots)
    → Fits k b
    → s.num < 2 ^ 32
    → Holds n b s
    → Holds (appended k n s.num) (2 ^ 16) (sqrt_rounds k s)
unfolding Fits appended sqrt_rounds
sqrt_rounds-Holds zero n b s fits word h = record {
  root = h.root;
  bound = omega (arith, h.bound);
  holds = h.holds;
}
sqrt_rounds-Holds (suc k) n b s fits word h =
    subst
      (λ m. Holds (appended k (4 * n + s.num / 2 ^ 30) m) (2 ^ 16) (sqrt_rounds k (sqrt_round s)))
      (sqrt_round-num s)
      (sqrt_rounds-Holds k _ (2 * b) (sqrt_round s) fits.1 (omega (arith, sqrt_round-num s))
        (sqrt_round-Holds n b s fits.0 word h))

-- Two digits at once, then four, eight, and all sixteen.
appended-two :
    (k n a : ℕ) → appended (suc (suc k)) n a ≡ appended k (16 * n + a / 2 ^ 28) (a * 16 % 2 ^ 32)
unfolding appended
appended-two k n a = ap₂ (appended k) (omega arith) (omega arith)

appended-four :
    (k n a : ℕ)
    → appended (suc (suc (suc (suc k)))) n a
      ≡ appended k (2 ^ 8 * n + a / 2 ^ 24) (a * 2 ^ 8 % 2 ^ 32)
appended-four k n a =
    appended-two (suc (suc k)) n a
    ∙ appended-two k _ _
    ∙ ap₂ (appended k) (omega arith) (omega arith)

appended-eight :
    (k n a : ℕ)
    → appended (suc (suc (suc (suc (suc (suc (suc (suc k)))))))) n a
      ≡ appended k (2 ^ 16 * n + a / 2 ^ 16) (a * 2 ^ 16 % 2 ^ 32)
appended-eight k n a =
    appended-four (suc (suc (suc (suc k)))) n a
    ∙ appended-four k _ _
    ∙ ap₂ (appended k) (omega arith) (omega arith)

appended-all : (num : ℕ) → num < 2 ^ 32 → appended 16 0 num ≡ num
appended-all num word = appended-eight 8 0 num ∙ appended-eight 0 _ _ ∙ last
  where
    last :
        appended 0
          (2 ^ 16 * (2 ^ 16 * 0 + num / 2 ^ 16) + num * 2 ^ 16 % 2 ^ 32 / 2 ^ 16)
          (num * 2 ^ 16 % 2 ^ 32 * 2 ^ 16 % 2 ^ 32)
        ≡ num
    last = unfold appended in omega arith

start-Holds : (num : ℕ) → Holds 0 1 (record { rem = 0; root = 0; num = num })
start-Holds num = record {
  root = 0;
  bound = omega arith;
  holds = record { double = refl; left = refl; small = omega arith };
}

next_square : (r : ℕ) → (r + 1) * (r + 1) ≡ r * r + 2 * r + 1
next_square r = grind arith

-- Sqrt of a word is its integer square root: its square is at most the word, and the next square is
-- more.
pub sqrt_lem :
    (num : ℕ) → num < 2 ^ 32 → (sqrt num * sqrt num ≤ num) × (num < (sqrt num + 1) * (sqrt num + 1))
sqrt_lem num word =
    subst (λ r. (r * r ≤ num) × (num < (r + 1) * (r + 1))) (sym result)
      (
        omega (arith, found, h.holds.left),
        omega (arith, found, h.holds.left, h.holds.small, next_square h.root),
      )
  where
    h :
        Holds
          (appended 16 0 num)
          (2 ^ 16)
          (sqrt_rounds 16 (record { rem = 0; root = 0; num = num }))
    h =
        sqrt_rounds-Holds 16 0 1 (record { rem = 0; root = 0; num = num })
          (unfold Fits in ground arith) word (start-Holds num)

    found : appended 16 0 num ≡ num
    found = appended-all num word

    result : sqrt num ≡ h.root
    result = unfold sqrt in omega (arith, h.holds.double, h.bound)
