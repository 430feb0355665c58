-- ===== src/Rollback/World/Backed.antt =====
-- platform/rollback.c: a rollback restores the memory that its frame last ran from.
use katam_port.Base.{
  ℕ, zero, suc, ◌%◌, ◌≡◌, ◌≢◌, refl, sym, ◌∙◌, subst, ap, true, Bool-cases, inl, inr, leb, arith,
  update, update_self, update_ne, ℕ_discrete,
}
use katam_port.Rollback.State.{Session, rb_players, requested}
use katam_port.Rollback.Machine.{Machine}
use katam_port.Rollback.Frame.{
  apply_slot, apply_slots, apply_slot_inputs, roll_back, catch_up_done, with_inputs, frame_mem,
  saved, simulate,
}
use katam_port.Rollback.Invariant.{IsSession}
use katam_port.Rollback.Invariant.Frame.{CatchUp-cases, catch_up_done-cases}
use katam_port.Rollback.Frame.Branches.{roll_back-requested, roll_back-other}
use katam_port.Rollback.World.{World}
use katam_port.Rollback.World.Ring.{HasRing, with_inputs-IsBeside}

module _ (m : Machine) where
  -- Every snapshot of the ring is that of the memory which its frame was last run from.
  pub record Holds (s : Session) (last : ℕ → m.Mem) : Type 0 where
    pub snapshots : (i : ℕ) → s.ring_valid i ≡ true → s.ring i ≡ m.save (last (s.ring_frame i))
    pub sizes : (i : ℕ) → s.ring_valid i ≡ true → m.IsMem (last (s.ring_frame i))

  pub record IsWorld (start : ℕ) (w : World m) : Type 0 where
    pub session : IsSession start w.session
    pub mem : m.IsMem w.mem
    pub ring : Holds w.session w.last

  pub HasRing-Holds : {s t : Session} {last : ℕ → m.Mem} → HasRing s t → Holds s last → Holds t last
  HasRing-Holds {s} {t} {last} r h = record {
    snapshots = λ i v.
        ap (λ f. f i) r.ring
        ∙ h.snapshots i (ap (λ f. f i) (sym r.ring_valid) ∙ v)
        ∙ ap (λ f. m.save (last (f i))) (sym r.ring_frame);
    sizes = λ i v.
        subst (λ f. m.IsMem (last (f i))) (sym r.ring_frame)
          (h.sizes i (ap (λ f. f i) (sym r.ring_valid) ∙ v));
  }

  apply_slot-IsMem :
      (s : Session) (f slot : ℕ) (mem : m.Mem) → m.IsMem mem → m.IsMem (apply_slot m s f slot mem)
  unfolding apply_slot
  apply_slot-IsMem s f slot mem h = elim (Bool-cases (leb s.slots_in_play slot)) [
    | inl out ↦ rw (out, apply_slot) h
    | inr in_play ↦
        rw (in_play, apply_slot)
          (m.set_released-IsMem slot _ _
            (m.set_pressed-IsMem slot _ _ (m.set_held-IsMem slot _ mem h)))
  ]

  apply_slots-IsMem :
      (s : Session) (f n : ℕ) (mem : m.Mem) → m.IsMem mem → m.IsMem (apply_slots m s f n mem)
  unfolding apply_slots
  apply_slots-IsMem s f zero mem h = h
  apply_slots-IsMem s f (suc n) mem h = apply_slot-IsMem s f n _ (apply_slots-IsMem s f n mem h)

  frame_mem-IsMem :
      (self : ℕ) (t : Session) (mem : m.Mem) → m.IsMem mem → m.IsMem (frame_mem m self t mem)
  frame_mem-IsMem self t mem h =
      unfold apply_slot_inputs in
      apply_slots-IsMem t t.frame rb_players _
        (m.set_player_count-IsMem _ _ (m.apply_keys-IsMem _ mem h))

  module _ (start : ℕ) (w : World m) (h : IsWorld start w)
      (e : w.session.catch_up ≡ requested) where
    abbrev slot : ℕ
    slot = w.session.catch_up_to % w.session.depth

    slot_valid : w.session.ring_valid slot ≡ true
    slot_valid = let here = h.session.can_roll_back e in ground arith

    slot_frame : w.session.ring_frame slot ≡ w.session.catch_up_to
    slot_frame = let here = h.session.can_roll_back e in ground arith

    loaded : m.load (w.session.ring slot) w.mem ≡ w.last w.session.catch_up_to
    loaded =
        ap (λ x. m.load x w.mem) (h.ring.snapshots slot slot_valid)
        ∙ m.load-save (w.last (w.session.ring_frame slot)) w.mem (h.ring.sizes slot slot_valid)
            h.mem
        ∙ ap w.last slot_frame

    -- A rollback that is asked for goes back to the frame that it was asked for, and restores the
    -- memory that this frame was last run from.
    pub roll_back-restores :
        ((roll_back m w.session w.mem).0.frame ≡ w.session.catch_up_to)
        × ((roll_back m w.session w.mem).1 ≡ w.last w.session.catch_up_to)
    roll_back-restores = rw (roll_back-requested m w.session w.mem e) (slot_frame, loaded)

    restored-IsMem : m.IsMem (w.last w.session.catch_up_to)
    restored-IsMem = subst (λ f. m.IsMem (w.last f)) slot_frame (h.ring.sizes slot slot_valid)

  pub roll_back-Holds :
      (start : ℕ) (w : World m)
      → IsWorld start w
      → let r = roll_back m w.session w.mem in m.IsMem r.1 × Holds r.0 w.last
  roll_back-Holds start w h = elim (CatchUp-cases w.session.catch_up) [
    | inl e ↦ (
      subst m.IsMem (sym ((roll_back-restores start w h e).1)) (restored-IsMem start w h e),
      subst (λ r. Holds r.0 w.last) (sym (roll_back-requested m w.session w.mem e))
          (record { snapshots = h.ring.snapshots; sizes = h.ring.sizes }),
    )
    | inr ne ↦
        subst (λ r. m.IsMem r.1 × Holds r.0 w.last) (sym (roll_back-other m w.session w.mem ne))
          (h.mem, h.ring)
  ]

  pub catch_up_done-Holds :
      (s : Session) (last : ℕ → m.Mem) → Holds s last → Holds (catch_up_done s) last
  catch_up_done-Holds s last h = elim (catch_up_done-cases s) [
    | inl e ↦ subst (λ t. Holds t last) (sym e) h
    | inr e ↦
        subst (λ t. Holds t last) (sym e) (record { snapshots = h.snapshots; sizes = h.sizes })
  ]

  module _ (t : Session) (last : ℕ → m.Mem) (mem : m.Mem)
      (slots : (i : ℕ) → t.ring_valid i ≡ true → t.ring_frame i % t.depth ≡ i) (ok : m.IsMem mem)
      (h : Holds t last) where
    abbrev IsHeld : ℕ → Type 0
    IsHeld i =
        let f = update t.ring_frame (t.frame % t.depth) t.frame i in
        (update t.ring (t.frame % t.depth) (m.save mem) i ≡ m.save (update last t.frame mem f))
        × m.IsMem (update last t.frame mem f)

    newest : IsHeld (t.frame % t.depth)
    newest =
        rw
          (
            update_self t.ring (t.frame % t.depth) (m.save mem),
            update_self t.ring_frame (t.frame % t.depth) t.frame,
            update_self last t.frame mem,
          )
          (refl, ok)

    older : (i : ℕ) → t.frame % t.depth ≢ i → t.ring_valid i ≡ true → IsHeld i
    older i ne v =
        rw
          (
            update_ne t.ring (t.frame % t.depth) i (m.save mem) ne,
            update_ne t.ring_frame (t.frame % t.depth) i t.frame ne,
            update_ne last t.frame (t.ring_frame i) mem
                (λ q. ne (ap (λ f. f % t.depth) q ∙ slots i v)),
          )
          (h.snapshots i v, h.sizes i v)

    IsHeld-at : (i : ℕ) → (saved m t mem).ring_valid i ≡ true → IsHeld i
    IsHeld-at i v = elim (ℕ_discrete (t.frame % t.depth) i) [
      | yes e ↦ subst IsHeld e newest
      | no ne ↦ older i ne (sym (update_ne t.ring_valid (t.frame % t.depth) i true ne) ∙ v)
    ]

    saved-Holds : Holds (saved m t mem) (update last t.frame mem)
    saved-Holds = record { snapshots = λ i v. (IsHeld-at i v).0; sizes = λ i v. (IsHeld-at i v).1 }

  pub simulate-Holds :
      (self : ℕ) (s : Session) (last : ℕ → m.Mem) (mem : m.Mem)
      → ((i : ℕ) → s.ring_valid i ≡ true → s.ring_frame i % s.depth ≡ i)
      → m.IsMem mem
      → Holds s last
      → let r = simulate m self s mem in m.IsMem r.1 × Holds r.0 (update last s.frame r.1)
  unfolding simulate
  simulate-Holds self s last mem slots ok h =
      let t = with_inputs self s in
      let b = with_inputs-IsBeside self s in
      let ok' = frame_mem-IsMem self t mem ok in
      let all =
        saved-Holds t last (frame_mem m self t mem)
          (λ i v.
            ap (λ d. t.ring_frame i % d) b.snapshots.depth
            ∙ ap (λ f. f i % s.depth) b.snapshots.ring_frame
            ∙ slots i (ap (λ f. f i) (sym b.snapshots.ring_valid) ∙ v))
          ok' (HasRing-Holds b.snapshots h) in
      let mem' = frame_mem m self t mem in
      let here = subst (λ f. Holds (saved m t mem') (update last f mem')) b.frame all in
      (ok', record { snapshots = here.snapshots; sizes = here.sizes })
