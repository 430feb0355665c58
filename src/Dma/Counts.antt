-- ===== src/Dma/Counts.antt =====
-- platform/dma.c: what holds of the channel table and of the diagnostic counters whatever the game and
-- the frame loop call, and in what order.
use katam_port.Base.{
  ℕ, zero, suc, ◌+◌, ◌^◌, ◌<◌, ◌≡◌, Bool, true, false, not, ◌&&◌, Bool-cases, inl, inr, List, [],
  ◌∷◌, ◌==◌, ltb, arith, u32, update, All, ℤ, pos, negsuc,
}
use katam_port.Console.{Board, Console}
use katam_port.Dma.{
  Channel, Dma, Cursor, step_addr, move_unit, move_units, src_ctrl, dest_ctrl, unit_of, moved,
  restarted, refuse, run_transfer, range_ok, src_span, dest_span, latched, set_channel, dma_set,
  dma_stop, run_if_timed, run_timing, state_load, timing_of, timing_hblank, timing_vblank,
  timing_now,
}
use katam_port.Dma.Transfer.{IsChannel, unit_small}

-- A call of the file's interface, or something else that the game does to the memory.
pub data Call : Type 0 where
  set : ℤ → ℕ → ℕ → ℕ → Call
  stop : ℤ → Call
  hblank : Call
  vblank : Call
  reload : (ℕ → Channel) → Call
  play : (Console → Console) → Call

abbrev pub perform : Board → Call → Dma × Console → Dma × Console
perform board (set i src dest control) s = dma_set board i src dest control s
perform board (stop i) s = dma_stop board i s
perform board hblank s = run_timing board timing_hblank s
perform board vblank s = run_timing board timing_vblank s
perform board (reload saved) s = (state_load saved s.0, s.1)
perform board (play game) s = (s.0, game s.1)

unfoldable pub perform_all : Board → List Call → Dma × Console → Dma × Console
perform_all board [] s = s
perform_all board (x ∷ xs) s = perform_all board xs (perform board x s)

-- Pointers have 32 bits; a snapshot that is restored holds channels as the table has them.
abbrev pub IsCall : Call → Type 0
IsCall (set i src dest control) = (src < 2 ^ 32) × (dest < 2 ^ 32)
IsCall (reload saved) = (i : ℕ) → IsChannel (saved i)
IsCall _ = Unit {0}

pub record IsDma (d : Dma) : Type 0 where
  pub sound : (i : ℕ) → IsChannel (d.channels i)
  pub no_good_one : d.bad_by_shape 0 ≡ 0
  pub adds_up : d.bad ≡ u32 (d.bad_by_shape 1 + d.bad_by_shape 2 + d.bad_by_shape 3)

step_addr-fits : (ctrl unit a : ℕ) → a < 2 ^ 32 → unit < 5 → step_addr ctrl unit a < 2 ^ 32
unfolding step_addr
step_addr-fits ctrl unit a h k = ground arith

move_units-fits :
    (s t unit n : ℕ) (c : Cursor)
    → c.from < 2 ^ 32
    → c.to < 2 ^ 32
    → unit < 5
    → ((move_units s t unit n c).from < 2 ^ 32) × ((move_units s t unit n c).to < 2 ^ 32)
unfolding move_units
move_units-fits s t unit zero c p q k = (p, q)
move_units-fits s t unit (suc n) c p q k =
    move_units-fits s t unit n (move_unit s t unit c) (step_addr-fits s unit c.from p k)
      (step_addr-fits t unit c.to q k) k

update_sound :
    (f : ℕ → Channel) (i : ℕ) (ch : Channel)
    → ((j : ℕ) → IsChannel (f j))
    → IsChannel ch
    → (j : ℕ) → IsChannel (update f i ch j)
update_sound f i ch h v j = elim (Bool-cases (i == j)) [ inl e ↦ rw e v | inr e ↦ rw e (h j) ]

module _ (board : Board) where
  restarted-IsChannel :
      (ch : Channel) (c : Cursor)
      → IsChannel ch
      → c.from < 2 ^ 32
      → c.to < 2 ^ 32
      → IsChannel (restarted board ch c)
  restarted-IsChannel ch c v p q = ground arith

  refuse-IsDma :
      (src_ok dest_ok : Bool) (d : Dma)
      → (src_ok && dest_ok) ≡ false
      → IsDma d
      → IsDma (refuse src_ok dest_ok d)
  unfolding refuse
  refuse-IsDma true true d e v = absurd (cc)
  refuse-IsDma true false d e v = record {
    sound = v.sound;
    no_good_one = v.no_good_one;
    adds_up = omega (arith, v.adds_up);
  }
  refuse-IsDma false true d e v = record {
    sound = v.sound;
    no_good_one = v.no_good_one;
    adds_up = omega (arith, v.adds_up);
  }
  refuse-IsDma false false d e v = record {
    sound = v.sound;
    no_good_one = v.no_good_one;
    adds_up = omega (arith, v.adds_up);
  }

  run_transfer-IsDma :
      (i : ℕ) (d : Dma) (c : Console) → IsDma d → IsDma (run_transfer board i (d, c)).0
  run_transfer-IsDma i d c v = elim (Bool-cases ((d.channels i).count == 0)) [
    | inl e ↦ unfold run_transfer in rw e v
    | inr e ↦
        elim (Bool-cases
          (range_ok board (src_span board ch) && range_ok board (dest_span board ch))) [
            | inl ok ↦
                unfold run_transfer in
                rw (e, ok)
                  (record {
                    sound =
                        update_sound d.channels i (restarted board ch (moved board ch c.mem))
                          v.sound run;
                    no_good_one = v.no_good_one;
                    adds_up = v.adds_up;
                  })
            | inr bad ↦
                unfold run_transfer in
                rw (e, bad)
                  (refuse-IsDma _ _ (record d { transfers = u32 (d.transfers + 1) }) bad
                    (record { sound = v.sound; no_good_one = v.no_good_one; adds_up = v.adds_up }))
          ]
  ]
    where
      ch : Channel
      ch = d.channels i

      ends : ((moved board ch c.mem).from < 2 ^ 32) × ((moved board ch c.mem).to < 2 ^ 32)
      ends =
          move_units-fits (src_ctrl ch.flags) (dest_ctrl ch.flags) (unit_of board ch) ch.count _
            (omega (arith, (v.sound i).src_fits)) (omega (arith, (v.sound i).dest_fits))
            (unit_small board ch)

      run : IsChannel (restarted board ch (moved board ch c.mem))
      run = restarted-IsChannel ch (moved board ch c.mem) (v.sound i) ends.0 ends.1

  put-IsDma :
      (i : ℕ) (ch : Channel) (d : Dma)
      → IsDma d
      → IsChannel ch
      → IsDma (record d { channels = update d.channels i ch })
  put-IsDma i ch d v w = record {
    sound = update_sound d.channels i ch v.sound w;
    no_good_one = v.no_good_one;
    adds_up = v.adds_up;
  }

  latched-IsChannel :
      (i src dest control : ℕ)
      → src < 2 ^ 32
      → dest < 2 ^ 32
      → IsChannel (latched board i src dest control)
  latched-IsChannel i src dest control p q = ground arith

  set_channel-IsDma :
      (i src dest control : ℕ) (s : Dma × Console)
      → src < 2 ^ 32
      → dest < 2 ^ 32
      → IsDma s.0
      → IsDma (set_channel board i src dest control s).0
  set_channel-IsDma i src dest control (d, c) p q v =
      elim (Bool-cases (not (board.is_enabled ch.flags))) [
        | inl e ↦ rw e put
        | inr e ↦ elim (Bool-cases (timing_of ch.flags == timing_now)) [
          | inl now ↦
              rw (e, now)
                (run_transfer-IsDma i (record d { channels = update d.channels i ch }) _ put)
          | inr later ↦ rw (e, later) put
        ]
      ]
    where
      ch : Channel
      ch = latched board i src dest control

      put : IsDma (record d { channels = update d.channels i ch })
      put = put-IsDma i ch d v (latched-IsChannel i src dest control p q)

  run_if_timed-IsDma :
      (wanted i : ℕ) (s : Dma × Console) → IsDma s.0 → IsDma (run_if_timed board wanted i s).0
  run_if_timed-IsDma wanted i (d, c) v =
      elim (Bool-cases ((d.channels i).armed && (timing_of (d.channels i).flags == wanted))) [
        | inl e ↦ rw e (run_transfer-IsDma i d c v)
        | inr e ↦ rw e v
      ]

  run_timing-IsDma :
      (wanted : ℕ) (s : Dma × Console) → IsDma s.0 → IsDma (run_timing board wanted s).0
  unfolding run_timing
  run_timing-IsDma wanted s v = run_if_timed-IsDma wanted 3 _ (
      run_if_timed-IsDma wanted 2 _
        (run_if_timed-IsDma wanted 1 _ (run_if_timed-IsDma wanted 0 s v)))

  perform-IsDma :
      (x : Call) (s : Dma × Console) → IsCall x → IsDma s.0 → IsDma (perform board x s).0
  unfolding dma_set dma_stop state_load
  perform-IsDma (set (negsuc n) src dest control) s h v = v
  perform-IsDma (set (pos i) src dest control) s h v = elim (Bool-cases (ltb 3 i)) [
    | inl e ↦ rw e v
    | inr e ↦ rw e (set_channel-IsDma i src dest control s h.0 h.1 v)
  ]
  perform-IsDma (stop (negsuc n)) s h v = v
  perform-IsDma (stop (pos i)) (d, c) h v = elim (Bool-cases (ltb 3 i)) [
    | inl e ↦ rw e v
    | inr e ↦ rw e (
        put-IsDma i (record (d.channels i) { armed = false; flags = 0 }) d v
          (stopped (d.channels i) (v.sound i)))
  ]
    where
      stopped : (ch : Channel) → IsChannel ch → IsChannel (record ch { armed = false; flags = 0 })
      stopped ch w = omega arith
  perform-IsDma hblank s h v = run_timing-IsDma timing_hblank s v
  perform-IsDma vblank s h v = run_timing-IsDma timing_vblank s v
  perform-IsDma (reload saved) s h v = record {
    sound = h;
    no_good_one = v.no_good_one;
    adds_up = v.adds_up;
  }
  perform-IsDma (play game) s h v = v

  -- Whatever is called, in whatever order, every channel keeps pointers of 32 bits and at most 0x10000
  -- units, and the total of the refused transfers that PortDmaBadCounts reports is the sum of its three
  -- counts by shape, up to their wrap-around: no refused transfer is counted under the unused shape 0.
  pub perform_all-IsDma :
      (xs : List Call) (s : Dma × Console)
      → All IsCall xs
      → IsDma s.0
      → IsDma (perform_all board xs s).0
  unfolding perform_all
  perform_all-IsDma [] s h v = v
  perform_all-IsDma (x ∷ xs) s h v =
      perform_all-IsDma xs (perform board x s) h.1 (perform-IsDma x s h.0 v)
