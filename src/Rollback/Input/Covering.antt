-- ===== src/Rollback/Input/Covering.antt =====
-- platform/rollback.c: no misprediction is forgotten by PortRbConfirmInput.
use katam_port.Base.{
  ℕ, ◌%◌, ◌^◌, ◌≤◌, ◌<◌, ◌≡◌, ◌≢◌, refl, sym, ◌∙◌, subst, ap, true, ◌&&◌, Option-cases, Bool-cases,
  inl, inr, ltb, ◌==◌, arith, ℤ, pos, negsuc, List, [], ◌∷◌, ℕ_discrete, All,
}
use katam_port.Rollback.State.{Timeline, Session, Heap, rb_players, keys_mod, cell, resimulating}
use katam_port.Rollback.Timeline.{timeline_reserve}
use katam_port.Rollback.Timeline.Reserve.{IsTimeline, Reserved, timeline_reserve-Reserved}
use katam_port.Rollback.Input.{
  write_known, extend, in_ring, correct, store, too_late, confirm_input,
}
use katam_port.Rollback.Input.Correction.{
  Covers, IsAsked, correct-tl, correct-asks, correct-stays, correct-settled, correct-IsBeside,
  other_cell,
}
use katam_port.Rollback.Invariant.Inputs.{write_known-IsTimeline, written-IsTimeline}

module _ (s0 s : Session) (player frame keys : ℕ) (hf : frame < 2 ^ 30) (hp : player < rb_players)
    (hk : keys < keys_mod) (room : frame < s.tl.cap) (c : Covers s0 s) where
  -- The session with the cell of a past frame written.
  abbrev written : Session
  written = record s { tl = write_known s.tl (cell frame player) keys }

  same_write :
      (s.tl.keys (cell frame player) == keys) ≡ true → (j : ℕ) → written.tl.keys j ≡ s.tl.keys j
  same_write same j = ground arith

  -- What differs on a past frame differed before, or it is the frame that is corrected.
  past-covered :
      (f p : ℕ)
      → f < s0.frame
      → f < 2 ^ 30
      → p < rb_players
      → in_ring s0 f ≡ true
      → written.tl.keys (cell f p) ≢ s0.tl.keys (cell f p)
      → IsAsked f (correct (s.tl.keys (cell frame player)) keys frame written)
  past-covered f p past early hq here ne =
      elim (Bool-cases (s.tl.keys (cell frame player) == keys)) [
        | inl same ↦
            correct-stays (s.tl.keys (cell frame player)) keys frame f written
              (c.covered f p past early hq here (λ e. ne (same_write same (cell f p) ∙ e)))
        | inr other ↦ elim (ℕ_discrete f frame) [
          | yes e ↦
              subst (λ g. IsAsked g (correct (s.tl.keys (cell frame player)) keys frame written))
                (sym e)
                (correct-asks (s.tl.keys (cell frame player)) keys frame written other
                  (c.beside.ring frame ∙ ap (in_ring s0) (sym e) ∙ here) c.settled)
          | no d ↦ correct-stays (s.tl.keys (cell frame player)) keys frame f written (
              c.covered f p past early hq here
                (λ e. ne (other_cell s.tl f p frame player keys early hf hq hp (λ h. d (h.0)) ∙ e)))
        ]
      ]

  past-Covers : Covers s0 (correct (s.tl.keys (cell frame player)) keys frame written)
  past-Covers = record {
    beside =
        correct-IsBeside _ keys frame s0 written
          (record { frame = c.beside.frame; ring = c.beside.ring });
    valid = subst IsTimeline (sym (correct-tl _ keys frame written)) (
        write_known-IsTimeline s.tl (cell frame player) keys c.valid (omega (arith, c.valid.small))
          hk);
    settled = correct-settled _ keys frame written c.settled;
    covered = λ f p past early hq here ne. past-covered f p past early hq here (
        subst (λ tl. tl.keys (cell f p) ≢ s0.tl.keys (cell f p)) (correct-tl _ keys frame written)
          ne);
  }

  ahead-Covers :
      s.frame ≤ frame
      → Covers s0 (record s { tl = extend (write_known s.tl (cell frame player) keys) frame })
  ahead-Covers le = record {
    beside = record { frame = c.beside.frame; ring = c.beside.ring };
    valid = written-IsTimeline s.tl frame player keys c.valid room hp hk;
    settled = c.settled;
    covered = λ f p past early hq here ne. c.covered f p past early hq here (λ e. ne (
        other_cell s.tl f p frame player keys early hf hq hp
          (λ h. omega (arith, h, le, past, c.beside.frame))
        ∙ e));
  }

  pub store-Covers : Covers s0 (store player frame keys s)
  unfolding store
  store-Covers = elim (Bool-cases (s.tl.known (cell frame player))) [
    | inl twice ↦ rw (twice, store) c
    | inr new ↦ elim (Bool-cases (ltb frame s.frame)) [
      | inl past ↦ rw (new, past, store) past-Covers
      | inr ahead ↦ rw (new, ahead, store) (ahead-Covers (ground arith))
    ]
  ]

Reserved-Covers :
    (s0 s : Session) (frame : ℕ) (tl : Timeline)
    → Reserved s.tl frame tl
    → Covers s0 s
    → Covers s0 (record s { tl = tl })
Reserved-Covers s0 s frame tl r c = record {
  beside = record { frame = c.beside.frame; ring = c.beside.ring };
  valid = r.valid;
  settled = c.settled;
  covered = λ f p past early hq here ne.
      c.covered f p past early hq here (λ e. ne (r.same_keys (cell f p) ∙ e));
}

confirm_input-Covers :
    (heap : Heap) (player : ℤ) (frame keys : ℕ) (s0 s : Session)
    → frame < 2 ^ 30
    → Covers s0 s
    → Covers s0 (confirm_input heap player frame keys s)
unfolding confirm_input
confirm_input-Covers heap (negsuc _) frame keys s0 s hf c = c
confirm_input-Covers heap (pos player) frame keys s0 s hf c =
    elim (Bool-cases (s.active && ltb player rb_players)) [
      | inr off ↦ rw (off, confirm_input) c
      | inl on ↦ elim (Bool-cases (too_late s frame)) [
        | inl late ↦
            rw (on, late, confirm_input)
              (record {
                beside = record { frame = c.beside.frame; ring = c.beside.ring };
                valid = c.valid;
                settled = c.settled;
                covered = c.covered;
              })
        | inr fresh ↦ elim (Option-cases (timeline_reserve heap s.tl frame)) [
          | inl e ↦ rw (on, fresh, e, confirm_input) c
          | inr (tl, e) ↦
              let r = timeline_reserve-Reserved heap s.tl frame c.valid hf e in
              rw (on, fresh, e, confirm_input)
                (store-Covers s0 (record s { tl = tl }) player frame (keys % keys_mod) hf
                  (ground arith) (omega arith) r.room (Reserved-Covers s0 s frame tl r c))
        ]
      ]
    ]

-- The confirmations that arrive between two frame hooks.
pub record Confirmation : Type 0 where
  pub player : ℤ
  pub frame : ℕ
  pub keys : ℕ

unfoldable pub confirm_all : Heap → List Confirmation → Session → Session
confirm_all heap [] s = s
confirm_all heap (x ∷ xs) s = confirm_all heap xs (confirm_input heap x.player x.frame x.keys s)

confirm_all-Covers :
    (heap : Heap) (xs : List Confirmation) (s0 s : Session)
    → All (λ x. x.frame < 2 ^ 30) xs
    → Covers s0 s
    → Covers s0 (confirm_all heap xs s)
unfolding confirm_all
confirm_all-Covers heap [] s0 s _ c = c
confirm_all-Covers heap (x ∷ xs) s0 s (h, hs) c =
    confirm_all-Covers heap xs s0 _ hs (confirm_input-Covers heap x.player x.frame x.keys s0 s h c)

start-Covers : (s : Session) → IsTimeline s.tl → s.catch_up ≢ resimulating → Covers s s
start-Covers s v ne = record {
  beside = record { frame = refl; ring = λ f. refl };
  valid = v;
  settled = ne;
  covered = λ f p _ _ _ _ d. absurd (d refl);
}

-- Whatever confirmations arrive in a session that is not resimulating, for frames below 2 ^ 30: when
-- one of them has changed the keys that a past frame ran on, and the snapshot of that frame is in the
-- ring, then a rollback is outstanding, and it goes back to that frame or further.
pub confirm_all-IsAsked :
    (heap : Heap) (xs : List Confirmation) (s : Session) (f p : ℕ)
    → All (λ x. x.frame < 2 ^ 30) xs
    → IsTimeline s.tl
    → s.catch_up ≢ resimulating
    → f < s.frame
    → f < 2 ^ 30
    → p < rb_players
    → in_ring s f ≡ true
    → (confirm_all heap xs s).tl.keys (cell f p) ≢ s.tl.keys (cell f p)
    → IsAsked f (confirm_all heap xs s)
confirm_all-IsAsked heap xs s f p hs v ne past early hp here changed =
    (confirm_all-Covers heap xs s s hs (start-Covers s v ne)).covered f p past early hp here changed
