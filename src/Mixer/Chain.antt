-- ===== src/Mixer/Chain.antt =====
-- platform/m4a_mixer.c: the chain of channels of a track, and a round of ply_fine at its head.
use katam_port.Base.{ℕ, ◌≡◌, ◌≢◌, sym, ◌∙◌, ap, subst, List, [], ◌∷◌, arith, All}
use katam_port.Mixer.{Chan, Store, real_clear_chain, released, fine_one}

-- From `at` on, behind `prev`, the channels of track `t` are these.
abbrev pub Linked : Store → ℕ → ℕ → ℕ → List ℕ → Type 0
Linked s t prev at [] = at ≡ 0
Linked s t prev at (x ∷ xs) =
    (at ≡ x)
    × (x ≢ 0)
    × ((s.chans x).track ≡ t)
    × ((s.chans x).pp ≡ prev)
    × Linked s t x (s.chans x).np xs

abbrev pub Distinct : List ℕ → Type 0
Distinct [] = Unit {0}
Distinct (x ∷ xs) = All (λ y. y ≢ x) xs × Distinct xs

module _ (x t : ℕ) (s : Store) (owned : (s.chans x).track ≡ t) (t_some : t ≢ 0)
    (first : (s.chans x).pp ≡ 0) where
  -- What a round makes of the first channel, of the next one, of the others and of the track.
  pub fine_one_self :
      (s.chans x).np ≢ x
      → (fine_one x s).chans x
        ≡ record (s.chans x) { status = released (s.chans x).status; track = 0 }
  unfolding fine_one real_clear_chain
  fine_one_self ne = ground arith

  fine_one-next :
      (y : ℕ)
      → (s.chans x).np ≡ y
      → y ≢ 0
      → y ≢ x
      → (fine_one x s).chans y ≡ record (s.chans y) { pp = 0 }
  unfolding fine_one real_clear_chain
  fine_one-next y e nz ne = ground arith

  pub fine_one-other : (z : ℕ) → z ≢ x → z ≢ (s.chans x).np → (fine_one x s).chans z ≡ s.chans z
  unfolding fine_one real_clear_chain
  fine_one-other z ne ne' = ground arith

  pub fine_one-last : (z : ℕ) → (s.chans x).np ≡ 0 → z ≢ x → (fine_one x s).chans z ≡ s.chans z
  unfolding fine_one real_clear_chain
  fine_one-last z e ne = ground arith

  pub fine_one-track : ((fine_one x s).tracks t).chan ≡ (s.chans x).np
  unfolding fine_one real_clear_chain
  fine_one-track = ground arith

  pub fine_one-status : (z : ℕ) → z ≢ x → ((fine_one x s).chans z).status ≡ (s.chans z).status
  unfolding fine_one real_clear_chain
  fine_one-status z ne = ground arith

pub All-map₂ :
    {P Q R : ℕ → Type 0} (xs : List ℕ)
    → ((y : ℕ) → P y → Q y → R y)
    → All P xs
    → All Q xs
    → All R xs
All-map₂ [] f h k = tt
All-map₂ (x ∷ xs) f h k = (f x h.0 k.0, All-map₂ xs f h.1 k.1)

-- A chain whose channels stay is a chain still.
Linked-same :
    (s s' : Store) (t prev at : ℕ) (xs : List ℕ)
    → All (λ z. s'.chans z ≡ s.chans z) xs
    → Linked s t prev at xs
    → Linked s' t prev at xs
Linked-same s s' t prev at [] h l = l
Linked-same s s' t prev at (x ∷ xs) h (e, nz, o, p, l) = (
  e,
  nz,
  ap (λ (c : Chan). c.track) h.0 ∙ o,
  ap (λ (c : Chan). c.pp) h.0 ∙ p,
  Linked-same s s' t x (s'.chans x).np xs h.1
      (subst (λ n. Linked s t x n xs) (sym (ap (λ (c : Chan). c.np) h.0)) l),
)

-- The rest of the chain, once its first channel has gone.
pub Linked-rest :
    (s : Store) (t x : ℕ) (xs : List ℕ)
    → t ≢ 0
    → (s.chans x).track ≡ t
    → (s.chans x).pp ≡ 0
    → All (λ y. y ≢ x) xs
    → Distinct xs
    → Linked s t x (s.chans x).np xs
    → Linked (fine_one x s) t 0 (s.chans x).np xs
Linked-rest s t x [] tn o p fresh d l = l
Linked-rest s t x (y ∷ ys) tn o p fresh d (e, nz, o', p', l) = (
  e,
  nz,
  ap (λ (c : Chan). c.track) next ∙ o',
  ap (λ (c : Chan). c.pp) next,
  subst (λ n. Linked (fine_one x s) t y n ys) (sym (ap (λ (c : Chan). c.np) next))
      (Linked-same s (fine_one x s) t y (s.chans y).np ys
        (All-map₂ ys (λ z ne ne'. fine_one-other x t s o tn p z ne (λ z_next. ne' (z_next ∙ e)))
          fresh.1 d.0)
        l),
)
  where
    next : (fine_one x s).chans y ≡ record (s.chans y) { pp = 0 }
    next = fine_one-next x t s o tn p y e nz fresh.0
