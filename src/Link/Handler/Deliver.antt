-- ===== src/Link/Handler/Deliver.antt =====
-- platform/multi_sio_intr.c over platform/mp_loopback.c: the packet that a peer streams is the one that
-- the game is handed to check.
use katam_port.Base.{
  ℕ, suc, ◌-◌, ◌<◌, ◌≡◌, ◌≢◌, sym, ◌∙◌, ap, subst, false, List, [], ◌∷◌, ◌==◌, arith, update,
  update_ne, update_self, pos, ℕ_discrete,
}
use katam_port.Link.Loopback.{packet_hw, advance_counter}
use katam_port.Link.Handler.{RecvUnit, recv_unit}
use katam_port.Link.Handler.Units.{recv_unit-word}

-- The words that one unit takes.
run_unit : List ℕ → RecvUnit → RecvUnit
run_unit [] u = u
run_unit (w ∷ ws) u = run_unit ws (recv_unit w u)

module _ (f : ℕ → ℕ) where
  -- The first `n` halfwords are in the current buffer.
  record Filling (n : ℕ) (u : RecvUnit) : Type 0 where
    counts : u.counter ≡ pos n
    filled : (x : ℕ) → x < n → u.buf u.current x ≡ f x
    distinct : u.current ≢ u.last

  -- The packet has been completed, and `n` halfwords have come.
  record Full (n : ℕ) (u : RecvUnit) : Type 0 where
    counts : u.counter ≡ pos n
    filled : (x : ℕ) → x < 12 → u.buf u.last x ≡ f x
    flag : u.sync_flag ≡ 1
    distinct : u.current ≢ u.last

  put-filled :
      (u : RecvUnit) (n : ℕ)
      → ((x : ℕ) → x < n → u.buf u.current x ≡ f x)
      → (x : ℕ) → x < suc n
      → update u.buf u.current (update (u.buf u.current) n (f n)) u.current x ≡ f x
  put-filled u n h x lt =
      ap (λ (b : ℕ → ℕ). b x) (update_self u.buf u.current (update (u.buf u.current) n (f n)))
      ∙ elim (ℕ_discrete n x) [
        | yes e ↦
            subst (λ y. update (u.buf u.current) n (f n) y ≡ f y) e
              (update_self (u.buf u.current) n (f n))
        | no ne ↦ update_ne (u.buf u.current) n x (f n) ne ∙ h x (omega arith)
      ]

  fill : (n : ℕ) (u : RecvUnit) → n < 11 → Filling n u → Filling (suc n) (recv_unit (f n) u)
  fill n u lt h = subst (Filling (suc n)) (sym (recv_unit-word (f n) n u h.counts (ground arith))) (
      rw early
        (record { counts = moved_on; filled = put-filled u n h.filled; distinct = h.distinct }))
    where
      moved_on : advance_counter (pos n) ≡ pos (suc n)
      moved_on = ground arith

      early : (n == packet_hw - 3) ≡ false
      early = ground arith
