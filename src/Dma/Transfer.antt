-- ===== src/Dma/Transfer.antt =====
-- platform/dma.c, RunTransfer as a whole: where it writes, and what a channel's transfer moves.
use katam_port.Base.{
  ℕ, ◌+◌, ◌*◌, ◌/◌, ◌%◌, ◌^◌, ◌≤◌, ◌<◌, ◌≡◌, ◌≢◌, refl, ◌∙◌, ap, Bool, true, false, ◌&&◌,
  Bool-cases, inl, inr, ◌==◌, arith, is_inside, u32,
}
use katam_port.Console.{Board, Console, vblank_consume}
use katam_port.Console.Display.{is_display, vblank_consume-mem}
use katam_port.Dma.{
  Channel, Dma, src_ctrl, dest_ctrl, span_of, range_ok, unit_of, src_start, dest_start, src_span,
  dest_span, moved, run_transfer,
}
use katam_port.Dma.Span.{reached, range_ok-fits, ctrl-Moves, Shown, span_of-Shown}
use katam_port.Dma.Units.{move_units-outside}

-- What PortDmaSet stores: pointers of 32 bits, and a count of at most 0x10000.
pub record IsChannel (ch : Channel) : Type 0 where
  pub src_fits : ch.src < 2 ^ 32
  pub dest_fits : ch.dest < 2 ^ 32
  pub src_reload_fits : ch.src_reload < 2 ^ 32
  pub dest_reload_fits : ch.dest_reload < 2 ^ 32
  pub count_fits : ch.count ≤ 0x10000

span_of-fits :
    (start ctrl unit n : ℕ)
    → start < 2 ^ 32
    → unit < 5
    → ((span_of start ctrl unit n).base < 2 ^ 32) × ((span_of start ctrl unit n).size < 2 ^ 32)
unfolding span_of
span_of-fits start ctrl unit n h k = ground arith

accepted-Shown :
    (board : Board) (start flags unit n : ℕ)
    → start < 2 ^ 32
    → unit < 5
    → n * unit ≤ 2 ^ 24
    → 0 < n
    → range_ok board (span_of start (flags % 4) unit n) ≡ true
    → Shown (flags % 4) unit start n
accepted-Shown board start flags unit n h k small busy ok =
    span_of-Shown unit start n small busy h (flags % 4) (ctrl-Moves flags) (
      range_ok-fits board (span_of start (flags % 4) unit n) ok
        (span_of-fits start (flags % 4) unit n h k).0 (span_of-fits start (flags % 4) unit n h k).1)

module _ (board : Board) (ch : Channel) where
  run_small : ch.count ≤ 0x10000 → ch.count * unit_of board ch ≤ 2 ^ 24
  run_small h = elim (Bool-cases (board.is_wide ch.flags)) [
    | inl e ↦ rw e (omega arith)
    | inr e ↦ rw e (omega arith)
  ]

  pub unit_small : unit_of board ch < 5
  unit_small = elim (Bool-cases (board.is_wide ch.flags)) [
    | inl e ↦ rw e (omega arith)
    | inr e ↦ rw e (omega arith)
  ]

  module _ (v : IsChannel ch) (busy : 0 < ch.count) where
    pub src-Shown :
        range_ok board (src_span board ch) ≡ true
        → Shown (src_ctrl ch.flags) (unit_of board ch) (src_start board ch) ch.count
    src-Shown ok =
        accepted-Shown board (src_start board ch) (ch.flags / 2 ^ 7) (unit_of board ch) ch.count
          (omega (arith, v.src_fits)) unit_small (run_small v.count_fits) busy ok

    pub dest-Shown :
        range_ok board (dest_span board ch) ≡ true
        → Shown (dest_ctrl ch.flags) (unit_of board ch) (dest_start board ch) ch.count
    dest-Shown ok =
        accepted-Shown board (dest_start board ch) (ch.flags / 2 ^ 5) (unit_of board ch) ch.count
          (omega (arith, v.dest_fits)) unit_small (run_small v.count_fits) busy ok

&&-true : (a b : Bool) → (a && b) ≡ true → (a ≡ true) × (b ≡ true)
&&-true a b h = ground arith

outside_part :
    (base size part unit a : ℕ)
    → base ≤ part
    → part + unit ≤ base + size
    → is_inside base size a ≡ false
    → is_inside part unit a ≡ false
outside_part base size part unit a p q out = ground arith

module _ (board : Board) (i : ℕ) (d : Dma) (c : Console) where
  abbrev pub channel : Channel
  channel = d.channels i

  abbrev pub is_accepted : Bool
  is_accepted = range_ok board (src_span board channel) && range_ok board (dest_span board channel)

  busy_pos : (channel.count == 0) ≡ false → 0 < channel.count
  busy_pos e = ground arith

  -- The memory after a transfer that both ends accept.
  run-accepted :
      (channel.count == 0) ≡ false
      → is_accepted ≡ true
      → (run_transfer board i (d, c)).1
        ≡ vblank_consume board
            (u32 (channel.count * unit_of board channel))
            (record c { mem = (moved board channel c.mem).mem })
  run-accepted e a = unfold run_transfer in rw (e, a) refl

  run-refused :
      (channel.count == 0) ≡ false → is_accepted ≡ false → (run_transfer board i (d, c)).1 ≡ c
  run-refused e a = unfold run_transfer in rw (e, a) refl

  run-empty : (channel.count == 0) ≡ true → (run_transfer board i (d, c)).1 ≡ c
  run-empty e = unfold run_transfer in rw e refl

  pub run-mem :
      (a : ℕ)
      → (channel.count == 0) ≡ false
      → is_accepted ≡ true
      → is_display board a ≡ false
      → (run_transfer board i (d, c)).1.mem a ≡ (moved board channel c.mem).mem a
  run-mem a e acc out =
      ap (λ k. k.mem a) (run-accepted e acc)
      ∙ vblank_consume-mem board (u32 (channel.count * unit_of board channel))
          (record c { mem = (moved board channel c.mem).mem }) a out

  module _ (v : IsChannel channel) where
    unit_outside :
        (busy : 0 < channel.count)
        → range_ok board (dest_span board channel) ≡ true
        → (a : ℕ)
        → is_inside (dest_span board channel).base (dest_span board channel).size a ≡ false
        → (j : ℕ) → j < channel.count
        → is_inside
            (reached (dest_ctrl channel.flags) (unit_of board channel) (dest_start board channel) j)
            (unit_of board channel)
            a
          ≡ false
    unit_outside busy ok a out j lt =
        let shown = dest-Shown board channel v busy ok in
        rw (shown.is_reached j lt) (
          outside_part (dest_span board channel).base (dest_span board channel).size _ _ a
            (shown.starts j lt) (shown.ends j lt) out)

    move-outside :
        (busy : 0 < channel.count)
        → range_ok board (dest_span board channel) ≡ true
        → (a : ℕ)
        → is_inside (dest_span board channel).base (dest_span board channel).size a ≡ false
        → (moved board channel c.mem).mem a ≡ c.mem a
    move-outside busy ok a out =
        move_units-outside (src_ctrl channel.flags) (dest_ctrl channel.flags)
          (unit_of board channel) channel.count _ a (unit_outside busy ok a out)

    -- Where RunTransfer changes a byte that is not of the two display registers, RangeOk has accepted
    -- both spans, and the byte is in the destination's.
    pub run_transfer-confined :
        (a : ℕ)
        → is_display board a ≡ false
        → (run_transfer board i (d, c)).1.mem a ≢ c.mem a
        → (range_ok board (src_span board channel) ≡ true)
          × (range_ok board (dest_span board channel) ≡ true)
          × (is_inside (dest_span board channel).base (dest_span board channel).size a ≡ true)
    run_transfer-confined a out changed = elim (Bool-cases (channel.count == 0)) [
      | inl e ↦ absurd (changed (ap (λ k. k.mem a) (run-empty e)))
      | inr busy ↦ elim (Bool-cases is_accepted) [
        | inr no_run ↦ absurd (changed (ap (λ k. k.mem a) (run-refused busy no_run)))
        | inl ok ↦
            elim (Bool-cases
              (is_inside (dest_span board channel).base (dest_span board channel).size a)) [
                | inl inside ↦ ((&&-true _ _ ok).0, (&&-true _ _ ok).1, inside)
                | inr beyond ↦ absurd (
                    changed (
                      run-mem a busy ok out
                      ∙ move-outside (busy_pos busy) (&&-true _ _ ok).1 a beyond))
              ]
      ]
    ]
