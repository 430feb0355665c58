-- ===== src/Rollback/Log/Fill.antt =====
-- platform/rollback.c: what the timeline holds once the runs of the players are written.
use katam_port.Base.{
  ℕ, zero, suc, ◌+◌, ◌^◌, ◌≤◌, ◌<◌, ◌≡◌, ◌≢◌, ◌⊎◌, inl, inr, true, refl, arith, update_self,
  update_ne, ◌∙◌, ℕ_discrete,
}
use katam_port.Rollback.State.{Timeline, Session, cell, rb_players}
use katam_port.Rollback.Input.{write_known}
use katam_port.Rollback.Log.Encode.{masked_keys}
use katam_port.Rollback.Log.Runs.{fill}

-- Frames below 2 ^ 30 have cells of their own.
pub cell_ne :
    (f p j q : ℕ)
    → f < 2 ^ 30
    → j < 2 ^ 30
    → p < rb_players
    → q < rb_players
    → (f ≢ j) ⊎ (p ≢ q)
    → cell f p ≢ cell j q
cell_ne f p j q hf hj hp hq h = omega arith

-- A write changes its own cell.
write_known_self :
    (tl : Timeline) (i v : ℕ)
    → ((write_known tl i v).keys i ≡ v) × ((write_known tl i v).known i ≡ true)
write_known_self tl i v = (update_self tl.keys i v, update_self tl.known i true)

write_known_ne :
    (tl : Timeline) (i j v : ℕ)
    → i ≢ j
    → ((write_known tl i v).keys j ≡ tl.keys j) × ((write_known tl i v).known j ≡ tl.known j)
write_known_ne tl i j v h = (update_ne tl.keys i j v h, update_ne tl.known i j true h)

module _ (p : ℕ) (g : ℕ → ℕ) (hp : p < rb_players) where
  -- Another player's cells, and earlier frames, stay.
  pub fill_other :
      (n f : ℕ) (tl : Timeline) (j q : ℕ)
      → f + n ≤ 2 ^ 30
      → j < 2 ^ 30
      → q < rb_players
      → (j < f) ⊎ (p ≢ q)
      → ((fill p g n f tl).keys (cell j q) ≡ tl.keys (cell j q))
        × ((fill p g n f tl).known (cell j q) ≡ tl.known (cell j q))
  unfolding fill
  fill_other zero f tl j q h hj hq o = (refl, refl)
  fill_other (suc n) f tl j q h hj hq o =
      let i = cell f p in
      let ne = cell_ne f p j q (omega arith) hj hp hq (omega arith) in
      let here = write_known_ne tl i (cell j q) (g f) ne in
      let rest =
        fill_other n (f + 1) (write_known tl i (g f)) j q (omega arith) hj hq (omega arith) in
      (rest.0 ∙ here.0, rest.1 ∙ here.1)

  -- The player's frames hold the keys that were written, and are known.
  pub fill_own :
      (n f : ℕ) (tl : Timeline) (j : ℕ)
      → f + n ≤ 2 ^ 30
      → f ≤ j
      → j < f + n
      → ((fill p g n f tl).keys (cell j p) ≡ g j) × ((fill p g n f tl).known (cell j p) ≡ true)
  unfolding fill
  fill_own zero f tl j h lo hi = absurd (omega arith)
  fill_own (suc n) f tl j h lo hi = elim (ℕ_discrete j f) [
    | yes e ↦
        let here = write_known_self tl (cell f p) (g f) in
        let rest =
          fill_other n (f + 1) (write_known tl (cell f p) (g f)) f p (omega arith) (omega arith) hp
            (inl (omega arith)) in
        rw e (rest.0 ∙ here.0, rest.1 ∙ here.1)
    | no ne ↦
        fill_own n (f + 1) (write_known tl (cell f p) (g f)) j (omega arith) (omega arith)
          (omega arith)
  ]

-- The players from `p` on, `n` of them, with the keys of the session `s`.
unfoldable pub fill_players_from : Session → ℕ → ℕ → Timeline → Timeline
unfolding fill
fill_players_from s zero p tl = tl
fill_players_from s (suc n) p tl =
    fill_players_from s n (p + 1) (fill p (masked_keys s.tl p) s.tl.len 0 tl)

fill_players-other :
    (s : Session) (n p : ℕ) (tl : Timeline) (j q : ℕ)
    → s.tl.len ≤ 2 ^ 30
    → p + n ≤ rb_players
    → j < 2 ^ 30
    → q < p
    → ((fill_players_from s n p tl).keys (cell j q) ≡ tl.keys (cell j q))
      × ((fill_players_from s n p tl).known (cell j q) ≡ tl.known (cell j q))
unfolding fill_players_from
fill_players-other s zero p tl j q hl hp hj hq = (refl, refl)
fill_players-other s (suc n) p tl j q hl hp hj hq =
    let rest =
      fill_players-other s n (p + 1) (fill p (masked_keys s.tl p) s.tl.len 0 tl) j q hl
        (omega arith) hj (omega arith) in
    let here =
      fill_other p (masked_keys s.tl p) (omega arith) s.tl.len 0 tl j q (omega arith) hj
        (omega arith) (inr (omega arith)) in
    (rest.0 ∙ here.0, rest.1 ∙ here.1)

-- Every frame of every player holds what the session `s` had, masked.
pub fill_players-own :
    (s : Session) (n p : ℕ) (tl : Timeline) (j q : ℕ)
    → s.tl.len ≤ 2 ^ 30
    → p + n ≤ rb_players
    → j < s.tl.len
    → p ≤ q
    → q < p + n
    → ((fill_players_from s n p tl).keys (cell j q) ≡ masked_keys s.tl q j)
      × ((fill_players_from s n p tl).known (cell j q) ≡ true)
unfolding fill_players_from
fill_players-own s zero p tl j q hl hp hj lo hi = absurd (omega arith)
fill_players-own s (suc n) p tl j q hl hp hj lo hi = elim (ℕ_discrete q p) [
  | yes e ↦
      let tl' = fill p (masked_keys s.tl p) s.tl.len 0 tl in
      let rest =
        fill_players-other s n (p + 1) tl' j p hl (omega arith) (omega arith) (omega arith) in
      let here =
        fill_own p (masked_keys s.tl p) (omega arith) s.tl.len 0 tl j (omega arith) (omega arith)
          (omega arith) in
      rw e (rest.0 ∙ here.0, rest.1 ∙ here.1)
  | no ne ↦
      fill_players-own s n (p + 1) (fill p (masked_keys s.tl p) s.tl.len 0 tl) j q hl (omega arith)
        hj (omega arith) (omega arith)
]
