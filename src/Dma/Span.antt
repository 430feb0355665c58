-- ===== src/Dma/Span.antt =====
-- platform/dma.c, SpanOf and RangeOk: where the units of a run stand, and that an accepted span holds
-- all of them.
use katam_port.Base.{
  times_suc, times_mono, ℕ, zero, suc, ◌+◌, ◌-◌, ◌*◌, ◌%◌, ◌^◌, ◌≤◌, ◌<◌, ◌≡◌, ◌≢◌, refl, sym, ◌∙◌,
  ap, subst, ◌⊎◌, inl, inr, true, false, Bool-cases, ltb, ltb_false→le, ◌==◌, dec_lt, arith, u32,
  if◌then◌else◌, ℕ_discrete,
}
use katam_port.Console.{Board}
use katam_port.Dma.{
  Extent, span_of, step_addr, range_ok, ctrl_dec, ctrl_fixed, ctrl_inc, ctrl_inc_reload,
}

-- The address of unit `j` of a run, as the loop reaches it.
unfoldable pub reached : ℕ → ℕ → ℕ → ℕ → ℕ
reached ctrl unit a zero = a
reached ctrl unit a (suc j) = reached ctrl unit (step_addr ctrl unit a) j

-- The same on paper: up, down, or in place.
unfoldable pub place : ℕ → ℕ → ℕ → ℕ → ℕ
place ctrl unit a j =
    if ctrl == ctrl_dec then a - j * unit else if ctrl == ctrl_fixed then a else a + j * unit

abbrev pub IsUnit : ℕ → Type 0
IsUnit unit = (unit ≡ 2) ⊎ (unit ≡ 4)

-- Two different units do not overlap.
pub times_apart :
    (i j unit : ℕ) → i ≢ j → (i * unit + unit ≤ j * unit) ⊎ (j * unit + unit ≤ i * unit)
times_apart i j unit h = elim (dec_lt i j) [
  | yes p ↦ inl (times_mono i j unit p)
  | no p ↦ inr (times_mono j i unit (omega arith))
]

times_pred : (n unit : ℕ) → 0 < n → (n - 1) * unit + unit ≡ n * unit
times_pred zero unit h = absurd (omega arith)
times_pred (suc n) unit h = omega (arith, ap (λ k. k * unit) pred, times_suc n unit)
  where
    pred : suc n - 1 ≡ n
    pred = omega arith

reached_next :
    (ctrl unit a b j : ℕ)
    → step_addr ctrl unit a ≡ b
    → reached ctrl unit a (suc j) ≡ reached ctrl unit b j
unfolding reached
reached_next ctrl unit a b j e = ap (λ x. reached ctrl unit x j) e

reached-up :
    (ctrl unit a j : ℕ)
    → (ctrl ≡ ctrl_inc) ⊎ (ctrl ≡ ctrl_inc_reload)
    → a + j * unit < 2 ^ 32
    → reached ctrl unit a j ≡ a + j * unit
reached-up ctrl unit a zero up h = unfold reached in omega arith
reached-up ctrl unit a (suc j) up h =
    reached_next ctrl unit a (a + unit) j (step up)
    ∙ reached-up ctrl unit (a + unit) j up (omega (arith, times_suc j unit))
    ∙ omega (arith, times_suc j unit)
  where
    small : u32 (a + unit) ≡ a + unit
    small = omega (arith, times_suc j unit)

    step : (ctrl ≡ ctrl_inc) ⊎ (ctrl ≡ ctrl_inc_reload) → step_addr ctrl unit a ≡ a + unit
    step (inl e) = unfold step_addr in rw e small
    step (inr e) = unfold step_addr in rw e small

reached-down : (unit a j : ℕ) → a < 2 ^ 32 → j * unit ≤ a → reached ctrl_dec unit a j ≡ a - j * unit
reached-down unit a zero h p = unfold reached in omega arith
reached-down unit a (suc j) h p =
    reached_next ctrl_dec unit a (a - unit) j (unfold step_addr in omega (arith, times_suc j unit))
    ∙ reached-down unit (a - unit) j (omega arith) (omega (arith, times_suc j unit))
    ∙ omega (arith, times_suc j unit)

reached-fixed : (unit a j : ℕ) → reached ctrl_fixed unit a j ≡ a
unfolding reached step_addr
reached-fixed unit a zero = refl
reached-fixed unit a (suc j) = reached-fixed unit a j

-- An accepted range does not run past the end of the address space.
pub range_ok-fits :
    (board : Board) (b : Extent)
    → range_ok board b ≡ true
    → b.base < 2 ^ 32
    → b.size < 2 ^ 32
    → b.base + b.size < 2 ^ 32
range_ok-fits board b ok p q = elim (Bool-cases (ltb (u32 (b.base + b.size)) b.base)) [
  | inl wrapped ↦ absurd (accepted wrapped)
  | inr fine ↦ omega (arith, ltb_false→le _ _ fine)
]
  where
    accepted : ltb (u32 (b.base + b.size)) b.base ≡ true → ⊥
    accepted wrapped =
        let e : range_ok board b ≡ false = unfold range_ok in rw wrapped refl in cc (ok, e)

-- The control mode, by the way that it moves.
abbrev pub Moves : ℕ → Type 0
Moves ctrl =
    ((ctrl ≡ ctrl_inc) ⊎ (ctrl ≡ ctrl_inc_reload)) ⊎ (ctrl ≡ ctrl_dec) ⊎ (ctrl ≡ ctrl_fixed)

pub ctrl-Moves : (flags : ℕ) → Moves (flags % 4)
ctrl-Moves flags = elim (ℕ_discrete (flags % 4) 0) [
  | yes e ↦ inl (inl e)
  | no n ↦ elim (ℕ_discrete (flags % 4) 3) [
    | yes e ↦ inl (inr e)
    | no m ↦ elim (ℕ_discrete (flags % 4) 1) [
      | yes e ↦ inr (inl e)
      | no k ↦ inr (inr (omega arith))
    ]
  ]
]

-- What the two ends and the place of a unit are, for each mode.
pub record Shown (ctrl unit a n : ℕ) : Type 0 where
  pub fits : (span_of a ctrl unit n).base + (span_of a ctrl unit n).size < 2 ^ 32
  pub is_reached : (j : ℕ) → j < n → reached ctrl unit a j ≡ place ctrl unit a j
  pub starts : (j : ℕ) → j < n → (span_of a ctrl unit n).base ≤ place ctrl unit a j
  pub ends :
      (j : ℕ)
      → j < n
      → place ctrl unit a j + unit ≤ (span_of a ctrl unit n).base + (span_of a ctrl unit n).size
  pub distinct :
      (i j : ℕ)
      → i < n
      → j < n
      → i ≢ j
      → ctrl ≢ ctrl_fixed
      → (place ctrl unit a i + unit ≤ place ctrl unit a j)
        ⊎ (place ctrl unit a j + unit ≤ place ctrl unit a i)

module _ (unit a n : ℕ) (small : n * unit ≤ 2 ^ 24) (some_unit : 0 < n)
    (in_space : a < 2 ^ 32) where
  up-Shown :
      (ctrl : ℕ)
      → (ctrl ≡ ctrl_inc) ⊎ (ctrl ≡ ctrl_inc_reload)
      → (span_of a ctrl unit n).base + (span_of a ctrl unit n).size < 2 ^ 32
      → Shown ctrl unit a n
  up-Shown ctrl up f = record {
    fits = f;
    is_reached = λ j lt.
        reached-up ctrl unit a j up (omega (arith, within up f, times_mono j n unit lt))
        ∙ sym (placed up j);
    starts = λ j lt. omega (arith, spanned up, placed up j);
    ends = λ j lt. omega (arith, spanned up, placed up j, times_mono j n unit lt);
    distinct = λ i j li lj ne moves. elim (times_apart i j unit ne) [
      | inl h ↦ inl (omega (arith, placed up i, placed up j))
      | inr h ↦ inr (omega (arith, placed up i, placed up j))
    ];
  }
    where
      placed :
          (ctrl ≡ ctrl_inc) ⊎ (ctrl ≡ ctrl_inc_reload)
          → (j : ℕ) → place ctrl unit a j ≡ a + j * unit
      placed (inl e) j = unfold place in rw e refl
      placed (inr e) j = unfold place in rw e refl

      spanned :
          (ctrl ≡ ctrl_inc) ⊎ (ctrl ≡ ctrl_inc_reload)
          → ((span_of a ctrl unit n).base ≡ a) × ((span_of a ctrl unit n).size ≡ n * unit)
      spanned (inl e) = unfold span_of in rw e (omega arith)
      spanned (inr e) = unfold span_of in rw e (omega arith)

      within :
          (ctrl ≡ ctrl_inc) ⊎ (ctrl ≡ ctrl_inc_reload)
          → (span_of a ctrl unit n).base + (span_of a ctrl unit n).size < 2 ^ 32
          → a + n * unit < 2 ^ 32
      within u f' = omega (arith, spanned u)

  -- A run down does not pass below address 0.
  down-within :
      (span_of a ctrl_dec unit n).base + (span_of a ctrl_dec unit n).size < 2 ^ 32
      → ((span_of a ctrl_dec unit n).base + (n - 1) * unit ≡ a)
        × ((span_of a ctrl_dec unit n).size ≡ n * unit)
        × ((n - 1) * unit + unit ≡ n * unit)
  unfolding span_of
  down-within f = (omega (arith, whole), omega (arith, whole), whole)
    where
      whole : (n - 1) * unit + unit ≡ n * unit
      whole = times_pred n unit some_unit

  down-Shown :
      (span_of a ctrl_dec unit n).base + (span_of a ctrl_dec unit n).size < 2 ^ 32
      → Shown ctrl_dec unit a n
  unfolding place
  down-Shown f = record {
    fits = f;
    is_reached = λ j lt.
        reached-down unit a j in_space (omega (arith, down-within f, times_mono j n unit lt));
    starts = λ j lt. omega (arith, down-within f, times_mono j n unit lt);
    ends = λ j lt. omega (arith, down-within f, times_mono j n unit lt);
    distinct = λ i j li lj ne moves. elim (times_apart i j unit ne) [
      | inl h ↦ inr (omega (arith, down-within f, times_mono i n unit li, times_mono j n unit lj))
      | inr h ↦ inl (omega (arith, down-within f, times_mono i n unit li, times_mono j n unit lj))
    ];
  }

  fixed-Shown :
      (span_of a ctrl_fixed unit n).base + (span_of a ctrl_fixed unit n).size < 2 ^ 32
      → Shown ctrl_fixed unit a n
  unfolding place
  fixed-Shown f = record {
    fits = f;
    is_reached = λ j lt. reached-fixed unit a j;
    starts = λ j lt. unfold span_of in omega arith;
    ends = λ j lt. unfold span_of in omega arith;
    distinct = λ i j li lj ne moves. absurd (moves refl);
  }

  -- In a run whose span stays in the address space, the loop reaches every unit at its place, and the
  -- span holds it.
  pub span_of-Shown :
      (ctrl : ℕ)
      → Moves ctrl
      → (span_of a ctrl unit n).base + (span_of a ctrl unit n).size < 2 ^ 32
      → Shown ctrl unit a n
  span_of-Shown ctrl (inl up) f = up-Shown ctrl up f
  span_of-Shown ctrl (inr (inl e)) f =
      subst (λ k. Shown k unit a n) (sym e)
        (down-Shown
          (subst (λ k. (span_of a k unit n).base + (span_of a k unit n).size < 2 ^ 32) e f))
  span_of-Shown ctrl (inr (inr e)) f =
      subst (λ k. Shown k unit a n) (sym e)
        (fixed-Shown
          (subst (λ k. (span_of a k unit n).base + (span_of a k unit n).size < 2 ^ 32) e f))
