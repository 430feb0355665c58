-- ===== src/Link/Handler/Units.antt =====
-- platform/multi_sio_intr.c: the counters stay on the packet, and what is being checked stays as it is.
use katam_port.Base.{
  ℕ, zero, suc, ◌+◌, ◌-◌, ◌≤◌, ◌<◌, ◌≡◌, ◌≢◌, refl, sym, ◌∙◌, ap, subst, false, ◌&&◌, Bool-cases,
  inl, inr, List, [], ◌∷◌, ◌==◌, arith, if◌then◌else◌, update, update_ne, ltb, pos,
}
use katam_port.Link.Lobby.{mp_players}
use katam_port.Link.Sio.{Regs}
use katam_port.Link.Loopback.{packet_hw, sync_data, advance_counter, is_past}
use katam_port.Link.Handler.{
  RecvUnit, Area, rotated_at, put_word, recv_unit, recv_units, multi_sio_intr, handed_over,
  recv_buf_change,
}

-- Between two transfers: the counter is an index of the packet, and the three buffers are different.
pub record IsUnit (u : RecvUnit) : Type 0 where
  pub place : ℕ
  pub counts : u.counter ≡ pos place
  pub on_packet : place < packet_hw
  pub flag_bit : u.sync_flag ≤ 1
  pub current_last : u.current ≢ u.last
  pub current_check : u.current ≢ u.check
  pub last_check : u.last ≢ u.check

-- A receive buffer takes the halfword, and the buffers rotate behind the last.
abbrev pub taken : ℕ → ℕ → RecvUnit → RecvUnit
taken w n u =
    record (rotated_at n
      (record u { buf = update u.buf u.current (update (u.buf u.current) n w) })) {
        counter = advance_counter (pos n);
      }

abbrev at : RecvUnit → ℕ → RecvUnit
at u n = record u { counter = pos n }

at-sync :
    (w n : ℕ) (u : RecvUnit) → packet_hw - 3 < n → w ≡ sync_data → recv_unit w (at u n) ≡ at u 0
unfolding recv_unit put_word
at-sync w n u p s = ground arith

at-word :
    (w n : ℕ) (u : RecvUnit)
    → (is_past (pos n) && (w == sync_data)) ≡ false
    → recv_unit w (at u n) ≡ taken w n u
unfolding recv_unit put_word
at-word w n u p = ground arith

at_self : (w n : ℕ) (u : RecvUnit) → u.counter ≡ pos n → recv_unit w u ≡ recv_unit w (at u n)
at_self w n u e = ap (λ c. recv_unit w (record u { counter = c })) e

pub recv_unit-sync :
    (w n : ℕ) (u : RecvUnit)
    → u.counter ≡ pos n
    → packet_hw - 3 < n
    → w ≡ sync_data
    → recv_unit w u ≡ record u { counter = pos 0 }
recv_unit-sync w n u e p s = at_self w n u e ∙ at-sync w n u p s

pub recv_unit-word :
    (w n : ℕ) (u : RecvUnit)
    → u.counter ≡ pos n
    → (is_past (pos n) && (w == sync_data)) ≡ false
    → recv_unit w u ≡ taken w n u
recv_unit-word w n u e p = at_self w n u e ∙ at-word w n u p

-- What a transfer keeps of a unit that was sound: its soundness, and the buffer that is being checked.
pub record Kept (u v : RecvUnit) : Type 0 where
  pub sound : IsUnit v
  pub check : v.check ≡ u.check
  pub content : (x : ℕ) → v.buf v.check x ≡ u.buf u.check x

later : ℕ → ℕ
later n = if ltb n (packet_hw - 1) then n + 1 else n

advance_counter_lem : (n : ℕ) → advance_counter (pos n) ≡ pos (later n)
unfolding later
advance_counter_lem n = ground arith

later-lt : (n : ℕ) → n < packet_hw → later n < packet_hw
unfolding later
later-lt n h = ground arith

taken-Kept : (w : ℕ) (u : RecvUnit) (h : IsUnit u) → Kept u (taken w h.place u)
taken-Kept w u h = elim (Bool-cases (h.place == packet_hw - 3)) [
  | inl e ↦ rw e (record {
    sound = record {
      place = later h.place;
      counts = advance_counter_lem h.place;
      on_packet = later-lt h.place h.on_packet;
      flag_bit = omega arith;
      current_last = λ z. h.current_last (sym z);
      current_check = h.last_check;
      last_check = h.current_check;
    };
    check = refl;
    content = same_content;
  })
  | inr e ↦ rw e (record {
    sound = record {
      place = later h.place;
      counts = advance_counter_lem h.place;
      on_packet = later-lt h.place h.on_packet;
      flag_bit = h.flag_bit;
      current_last = h.current_last;
      current_check = h.current_check;
      last_check = h.last_check;
    };
    check = refl;
    content = same_content;
  })
]
  where
    same_content :
        (x : ℕ)
        → update u.buf u.current (update (u.buf u.current) h.place w) u.check x ≡ u.buf u.check x
    same_content x =
        ap (λ (b : ℕ → ℕ). b x)
          (update_ne u.buf u.current u.check (update (u.buf u.current) h.place w) h.current_check)

pub recv_unit-Kept : (w : ℕ) (u : RecvUnit) → IsUnit u → Kept u (recv_unit w u)
recv_unit-Kept w u h = elim (Bool-cases (is_past (pos h.place) && (w == sync_data))) [
  | inl e ↦
      subst (Kept u) (sym (recv_unit-sync w h.place u h.counts (ground arith) (ground arith)))
        (record {
          sound = record {
            place = 0;
            counts = refl;
            on_packet = omega arith;
            flag_bit = h.flag_bit;
            current_last = h.current_last;
            current_check = h.current_check;
            last_check = h.last_check;
          };
          check = refl;
          content = λ x. refl;
        })
  | inr e ↦ subst (Kept u) (sym (recv_unit-word w h.place u h.counts e)) (taken-Kept w u h)
]

-- MultiSioIntr, seen from one unit.
pub intr-unit :
    (i : ℕ) (r : Regs) (a : Area)
    → i < mp_players
    → (multi_sio_intr (r, a)).1.units i ≡ recv_unit (r.multi i) (a.units i)
unfolding multi_sio_intr recv_units
intr-unit zero r a h = refl
intr-unit (suc zero) r a h = refl
intr-unit (suc (suc zero)) r a h = refl
intr-unit (suc (suc (suc zero))) r a h = refl
intr-unit (suc (suc (suc (suc n)))) r a h = absurd (omega arith)

pub change-unit :
    (i : ℕ) (a : Area) → i < mp_players → (recv_buf_change a).1.units i ≡ handed_over (a.units i)
unfolding recv_buf_change
change-unit zero a h = refl
change-unit (suc zero) a h = refl
change-unit (suc (suc zero)) a h = refl
change-unit (suc (suc (suc zero))) a h = refl
change-unit (suc (suc (suc (suc n)))) a h = absurd (omega arith)

Kept-trans : {u v w : RecvUnit} → Kept u v → Kept v w → Kept u w
Kept-trans {u} {v} {w} p q = record {
  sound = q.sound;
  check = q.check ∙ p.check;
  content = λ x. q.content x ∙ p.content x;
}

-- So many interrupts, each with the registers that it finds.
unfoldable pub transfers : List Regs → Area → Area
transfers [] a = a
transfers (r ∷ rs) a = transfers rs (multi_sio_intr (r, a)).1

transfers_from :
    (rs : List Regs) (a : Area) (i : ℕ) (u : RecvUnit)
    → i < mp_players
    → Kept u (a.units i)
    → Kept u ((transfers rs a).units i)
unfolding transfers
transfers_from [] a i u lt k = k
transfers_from (r ∷ rs) a i u lt k = transfers_from rs (multi_sio_intr (r, a)).1 i u lt (
    subst (Kept u) (sym (intr-unit i r a lt))
      (Kept-trans k (recv_unit-Kept (r.multi i) (a.units i) k.sound)))

-- While the game checks a packet, no number of interrupts, with whatever words, changes the buffer that
-- it checks or the pointer to it; and the counter of each unit is an index of the packet between two
-- transfers, so that no halfword is put in front of a buffer or behind it, with the three buffers of
-- the unit still different.
pub transfers-Kept :
    (rs : List Regs) (a : Area) (i : ℕ)
    → i < mp_players
    → IsUnit (a.units i)
    → Kept (a.units i) ((transfers rs a).units i)
transfers-Kept rs a i lt h =
    transfers_from rs a i (a.units i) lt (record { sound = h; check = refl; content = λ x. refl })
