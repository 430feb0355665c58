-- ===== src/Rollback/Input/Cells.antt =====
-- platform/rollback.c: what PortRbConfirmInput and PortRbSetLocalInput leave in the timeline.
use katam_port.Base.{
  ℕ, ◌%◌, ◌^◌, ◌<◌, ◌≡◌, ◌≢◌, refl, sym, ◌∙◌, subst, true, false, some, Bool-cases, inl, inr, ltb,
  if◌then◌else◌, arith, update_self, update_ne, pos,
}
use katam_port.Rollback.State.{Timeline, Session, Heap, rb_players, keys_mod, cell}
use katam_port.Rollback.Timeline.{timeline_reserve}
use katam_port.Rollback.Timeline.Reserve.{IsTimeline, Reserved, timeline_reserve-Reserved}
use katam_port.Rollback.Input.{write_known, extend, store, too_late, confirm_input}
use katam_port.Rollback.Input.Correction.{correct-tl}

-- The timeline `u` is `t` with the cell `i` confirmed as `v`, unless it was known.
pub record Confirmed (t : Timeline) (i v : ℕ) (u : Timeline) : Type 0 where
  pub now_known : u.known i ≡ true
  pub first_wins : u.keys i ≡ (if t.known i then t.keys i else v)
  pub other_keys : (j : ℕ) → j ≢ i → u.keys j ≡ t.keys j
  pub other_known : (j : ℕ) → j ≢ i → u.known j ≡ t.known j

twice-Confirmed : (t : Timeline) (i v : ℕ) → t.known i ≡ true → Confirmed t i v t
twice-Confirmed t i v k = record {
  now_known = k;
  first_wins = rw k refl;
  other_keys = λ j ne. refl;
  other_known = λ j ne. refl;
}

written-Confirmed :
    (t : Timeline) (i v : ℕ) → t.known i ≡ false → Confirmed t i v (write_known t i v)
written-Confirmed t i v k = record {
  now_known = update_self t.known i true;
  first_wins = rw k (update_self t.keys i v);
  other_keys = λ j ne. update_ne t.keys i j v (λ e. ne (sym e));
  other_known = λ j ne. update_ne t.known i j true (λ e. ne (sym e));
}

extend-Confirmed :
    (t : Timeline) (i v f : ℕ) (u : Timeline) → Confirmed t i v u → Confirmed t i v (extend u f)
extend-Confirmed t i v f u c = record {
  now_known = c.now_known;
  first_wins = c.first_wins;
  other_keys = c.other_keys;
  other_known = c.other_known;
}

store-Confirmed :
    (player frame keys : ℕ) (s : Session)
    → Confirmed s.tl (cell frame player) keys (store player frame keys s).tl
unfolding store
store-Confirmed player frame keys s = elim (Bool-cases (s.tl.known (cell frame player))) [
  | inl twice ↦ rw (twice, store) (twice-Confirmed s.tl (cell frame player) keys twice)
  | inr new ↦ elim (Bool-cases (ltb frame s.frame)) [
    | inl past ↦
        rw (new, past, store)
          (subst (Confirmed s.tl (cell frame player) keys) (sym (correct-tl _ keys frame _))
            (written-Confirmed s.tl (cell frame player) keys new))
    | inr ahead ↦
        rw (new, ahead, store)
          (extend-Confirmed s.tl (cell frame player) keys frame _
            (written-Confirmed s.tl (cell frame player) keys new))
  ]
]

Reserved-Confirmed :
    (t : Timeline) (frame i v : ℕ) (u w : Timeline)
    → Reserved t frame u
    → Confirmed u i v w
    → Confirmed t i v w
Reserved-Confirmed t frame i v u w r c = record {
  now_known = c.now_known;
  first_wins = c.first_wins ∙ rw (r.same_known i, r.same_keys i) refl;
  other_keys = λ j ne. c.other_keys j ne ∙ r.same_keys j;
  other_known = λ j ne. c.other_known j ne ∙ r.same_known j;
}

confirm_input-store :
    (heap : Heap) (player frame keys : ℕ) (s : Session) {tl : Timeline}
    → s.active ≡ true
    → player < rb_players
    → too_late s frame ≡ false
    → timeline_reserve heap s.tl frame ≡ some tl
    → confirm_input heap (pos player) frame keys s
      ≡ store player frame (keys % keys_mod) (record s { tl = tl })
unfolding confirm_input
confirm_input-store heap player frame keys s on hp fresh e = ground arith

-- A confirmation for a player of the link, in a session that is active and has the memory, of a frame
-- below 2 ^ 30 that is not older than the ring: the player's cell is known afterwards, and holds the
-- ten bits that were confirmed first; every other cell is as it was.
pub confirm_input-Confirmed :
    (heap : Heap) (player frame keys : ℕ) (s : Session) {tl : Timeline}
    → IsTimeline s.tl
    → frame < 2 ^ 30
    → s.active ≡ true
    → player < rb_players
    → too_late s frame ≡ false
    → timeline_reserve heap s.tl frame ≡ some tl
    → Confirmed s.tl
        (cell frame player)
        (keys % keys_mod)
        (confirm_input heap (pos player) frame keys s).tl
confirm_input-Confirmed heap player frame keys s {tl} v hf on hp fresh e =
    subst (λ z. Confirmed s.tl (cell frame player) (keys % keys_mod) z.tl)
      (sym (confirm_input-store heap player frame keys s on hp fresh e))
      (Reserved-Confirmed s.tl frame (cell frame player) (keys % keys_mod) tl _
        (timeline_reserve-Reserved heap s.tl frame v hf e)
        (store-Confirmed player frame (keys % keys_mod) (record s { tl = tl })))
