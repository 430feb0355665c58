-- ===== src/Rollback/Timeline/Reserve.antt =====
-- platform/rollback.c: the timeline's invariant, and TimelineReserve.
use katam_port.Base.{
  ℕ, ◌*◌, ◌^◌, ◌≤◌, ◌<◌, ◌≡◌, refl, ◌∙◌, false, some, ltb, leb, arith, Bool-cases, inl, inr, sym,
  subst, ◌⊎◌, ◌&&◌,
}
use katam_port.Rollback.State.{Timeline, Heap, rb_players, keys_mod}
use katam_port.Rollback.Timeline.{timeline_reserve, wanted, grow, clear_from}

-- The arrays are zero from their capacity on, the keys are of ten bits, and no cell wraps.
pub record IsTimeline (tl : Timeline) : Type 0 where
  pub masked : (i : ℕ) → tl.keys i < keys_mod
  pub clean_keys : (i : ℕ) → tl.cap * rb_players ≤ i → tl.keys i ≡ 0
  pub clean_known : (i : ℕ) → tl.cap * rb_players ≤ i → tl.known i ≡ false
  pub fits : tl.len ≤ tl.cap
  pub small : tl.cap ≤ 2 ^ 30

-- `u` is the timeline `t` with room for the frame: no cell has changed.
pub record Reserved (t : Timeline) (frame : ℕ) (u : Timeline) : Type 0 where
  pub same_keys : (i : ℕ) → u.keys i ≡ t.keys i
  pub same_known : (i : ℕ) → u.known i ≡ t.known i
  pub same_len : u.len ≡ t.len
  pub room : frame < u.cap
  pub valid : IsTimeline u

wanted-bounds : (frame : ℕ) → frame < 2 ^ 30 → (frame < wanted frame) × (wanted frame ≤ 2 ^ 30)
wanted-bounds frame h = omega arith

clear_from-clean {ℓ} :
    {A : Type ℓ} (cap want : ℕ) (v : A) (f : ℕ → A) (i : ℕ)
    → (cap * rb_players ≤ i → f i ≡ v)
    → clear_from cap want v f i ≡ f i
clear_from-clean cap want v f i h =
    elim (Bool-cases (leb (cap * rb_players) i && ltb i (want * rb_players))) [
      | inl e ↦ rw e (sym (h (ground arith)))
      | inr e ↦ rw e
    ]

grow-Reserved :
    (tl : Timeline) (frame : ℕ)
    → IsTimeline tl
    → frame < 2 ^ 30
    → tl.cap ≤ frame
    → Reserved tl frame (grow tl (wanted frame))
grow-Reserved tl frame v h full = record {
  same_keys = keys;
  same_known = known;
  same_len = refl;
  room = (wanted-bounds frame h).0;
  valid = record {
    masked = λ i. omega (arith, keys i, v.masked i);
    clean_keys = λ i b. keys i ∙ v.clean_keys i (beyond i b);
    clean_known = λ i b. known i ∙ v.clean_known i (beyond i b);
    fits = omega (arith, v.fits, wanted-bounds frame h);
    small = (wanted-bounds frame h).1;
  };
}
  where
    keys : (i : ℕ) → (grow tl (wanted frame)).keys i ≡ tl.keys i
    keys i = clear_from-clean tl.cap (wanted frame) 0 tl.keys i (v.clean_keys i)

    known : (i : ℕ) → (grow tl (wanted frame)).known i ≡ tl.known i
    known i = clear_from-clean tl.cap (wanted frame) false tl.known i (v.clean_known i)

    beyond : (i : ℕ) → wanted frame * rb_players ≤ i → tl.cap * rb_players ≤ i
    beyond i b = omega (arith, wanted-bounds frame h)

timeline_reserve-cases :
    (heap : Heap) (tl : Timeline) (frame : ℕ) {u : Timeline}
    → timeline_reserve heap tl frame ≡ some u
    → ((tl.cap ≤ frame) × (u ≡ grow tl (wanted frame))) ⊎ ((frame < tl.cap) × (u ≡ tl))
unfolding timeline_reserve
timeline_reserve-cases heap tl frame e = elim (Bool-cases (ltb frame tl.cap)) [
  | inl room ↦ inr (ground arith)
  | inr full ↦ inl (ground arith)
]

-- TimelineReserve, where it succeeds on a valid timeline for a frame below 2 ^ 30, makes room for the
-- frame, changes no cell, and leaves a valid timeline.
pub timeline_reserve-Reserved :
    (heap : Heap) (tl : Timeline) (frame : ℕ) {u : Timeline}
    → IsTimeline tl
    → frame < 2 ^ 30
    → timeline_reserve heap tl frame ≡ some u
    → Reserved tl frame u
timeline_reserve-Reserved heap tl frame {u} v h e = elim (timeline_reserve-cases heap tl frame e) [
  | inl (full, same) ↦ subst (Reserved tl frame) (sym same) (grow-Reserved tl frame v h full)
  | inr (room, same) ↦ subst (Reserved tl frame) (sym same) (record {
    same_keys = λ i. refl;
    same_known = λ i. refl;
    same_len = refl;
    room = room;
    valid = v;
  })
]
