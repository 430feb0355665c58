-- ===== src/Dma.antt =====
-- platform/dma.c: the four DMA channels. Pointers have 32 bits, as the whole port has.
pub mod Span
pub mod Units
pub mod BlockMove
pub mod Transfer
pub mod Moves
pub mod Counts
mod Tests
use katam_port.Base.{
  ℕ, zero, suc, ◌+◌, ◌-◌, ◌*◌, ◌/◌, ◌%◌, ◌^◌, Bool, true, false, not, ◌&&◌, ◌||◌, List, [], ◌∷◌,
  ltb, leb, ◌==◌, if◌then◌else◌, update, u32, sub32, ℤ, pos, negsuc, copy, write32,
}
use katam_port.Console.{Board, Console, vblank_consume}

-- struct DmaChannel
pub record Channel : Type 0 where
  pub src : ℕ
  pub dest : ℕ
  pub src_reload : ℕ
  pub dest_reload : ℕ
  pub count : ℕ
  pub flags : ℕ
  pub armed : Bool

-- sChannels, sTransferCount, sBadTransfers and sBadByShape
pub record Dma : Type 0 where
  pub channels : ℕ → Channel
  pub transfers : ℕ
  pub bad : ℕ
  pub bad_by_shape : ℕ → ℕ

-- DMA_TIMING, in units of 0x1000, and its values
abbrev pub timing_of : ℕ → ℕ
timing_of flags = flags / 2 ^ 12 % 4

abbrev pub timing_now : ℕ
timing_now = 0

abbrev pub timing_vblank : ℕ
timing_vblank = 1

abbrev pub timing_hblank : ℕ
timing_hblank = 2

-- DEST_CTRL and SRC_CTRL
abbrev pub dest_ctrl : ℕ → ℕ
dest_ctrl flags = flags / 2 ^ 5 % 4

abbrev pub src_ctrl : ℕ → ℕ
src_ctrl flags = flags / 2 ^ 7 % 4

abbrev pub ctrl_inc : ℕ
ctrl_inc = 0

abbrev pub ctrl_dec : ℕ
ctrl_dec = 1

abbrev pub ctrl_fixed : ℕ
ctrl_fixed = 2

abbrev pub ctrl_inc_reload : ℕ
ctrl_inc_reload = 3

pub record Extent : Type 0 where
  pub base : ℕ
  pub size : ℕ

-- kRegions
abbrev pub gba_regions : ℕ → List Extent
gba_regions bios_size =
    record { base = 0x00000000; size = bios_size }
    ∷ record { base = 0x02000000; size = 0x00040000 }
    ∷ record { base = 0x03000000; size = 0x00008000 }
    ∷ record { base = 0x04000000; size = 0x00000400 }
    ∷ record { base = 0x05000000; size = 0x00000400 }
    ∷ record { base = 0x06000000; size = 0x00018000 }
    ∷ record { base = 0x07000000; size = 0x00000400 }
    ∷ record { base = 0x08000000; size = 0x02000000 }
    ∷ record { base = 0x09000000; size = 0x00010000 }
    ∷ []

-- The loop of RangeOk over the regions.
unfoldable pub is_decoded : List Extent → ℕ → ℕ → Bool
is_decoded [] addr len = false
is_decoded (r ∷ rs) addr len =
    (not (r.size == 0) && leb r.base addr && leb (u32 (addr + len)) (u32 (r.base + r.size)))
    || is_decoded rs addr len

-- SpanOf
unfoldable pub span_of : ℕ → ℕ → ℕ → ℕ → Extent
span_of start ctrl unit count =
    if ctrl == ctrl_dec
    then record { base = sub32 start (u32 ((count - 1) * unit)); size = u32 (count * unit) }
    else if ctrl == ctrl_fixed
    then record { base = start; size = unit }
    else record { base = start; size = u32 (count * unit) }

-- How the copy loop moves an address on.
unfoldable pub step_addr : ℕ → ℕ → ℕ → ℕ
step_addr ctrl unit a =
    if ctrl == ctrl_inc || ctrl == ctrl_inc_reload
    then u32 (a + unit)
    else if ctrl == ctrl_dec
    then sub32 a unit
    else a

-- `src`, `dest` and the memory in the copy loop.
pub record Cursor : Type 0 where
  pub from : ℕ
  pub to : ℕ
  pub mem : ℕ → ℕ

-- The body of the copy loop, with the control modes of source and destination.
abbrev pub move_unit : ℕ → ℕ → ℕ → Cursor → Cursor
move_unit src_mode dest_mode unit c = record {
  from = step_addr src_mode unit c.from;
  to = step_addr dest_mode unit c.to;
  mem = copy c.from c.to unit c.mem;
}

-- The copy loop, on the units that are left.
unfoldable pub move_units : ℕ → ℕ → ℕ → ℕ → Cursor → Cursor
move_units src_mode dest_mode unit zero c = c
move_units src_mode dest_mode unit (suc n) c =
    move_units src_mode dest_mode unit n (move_unit src_mode dest_mode unit c)

-- The low address bits are ignored.
abbrev pub aligned : ℕ → ℕ → ℕ
aligned unit a = a - a % unit

-- The counts of a transfer that leaves the map.
unfoldable pub refuse : Bool → Bool → Dma → Dma
refuse src_ok dest_ok d =
    let shape = (if src_ok then 0 else 1) + (if dest_ok then 0 else 2) in
    record d {
      bad = u32 (d.bad + 1);
      bad_by_shape = update d.bad_by_shape shape (u32 (d.bad_by_shape shape + 1));
    }

module _ (board : Board) where
  -- RangeOk
  unfoldable pub range_ok : Extent → Bool
  range_ok b =
      if ltb (u32 (b.base + b.size)) b.base
      then false
      else is_decoded (gba_regions board.bios_size) b.base b.size || board.host_range b.base b.size

  abbrev pub unit_of : Channel → ℕ
  unit_of ch = if board.is_wide ch.flags then 4 else 2

  -- The first unit's addresses, and the bytes between the two ends of the run.
  abbrev pub src_start : Channel → ℕ
  src_start ch = aligned (unit_of ch) ch.src

  abbrev pub dest_start : Channel → ℕ
  dest_start ch = aligned (unit_of ch) ch.dest

  abbrev pub src_span : Channel → Extent
  src_span ch = span_of (src_start ch) (src_ctrl ch.flags) (unit_of ch) ch.count

  abbrev pub dest_span : Channel → Extent
  dest_span ch = span_of (dest_start ch) (dest_ctrl ch.flags) (unit_of ch) ch.count

  -- What the channel is after a run that ended at a cursor.
  abbrev pub restarted : Channel → Cursor → Channel
  restarted ch c =
      if board.is_repeat ch.flags
      then record ch {
        src = if src_ctrl ch.flags == ctrl_fixed then ch.src_reload else c.from;
        dest = if dest_ctrl ch.flags == ctrl_inc_reload then ch.dest_reload else c.to;
      }
      else record ch { armed = false }

  -- The copy loop of a channel's transfer.
  abbrev pub moved : Channel → (ℕ → ℕ) → Cursor
  moved ch mem =
      move_units (src_ctrl ch.flags) (dest_ctrl ch.flags) (unit_of ch) ch.count
        (record { from = src_start ch; to = dest_start ch; mem = mem })

  -- RunTransfer of channel i; the logs of a bad transfer and the trace are left out.
  unfoldable pub run_transfer : ℕ → Dma × Console → Dma × Console
  run_transfer i (d, c) =
      let ch = d.channels i in
      let counted = record d { transfers = u32 (d.transfers + 1) } in
      if ch.count == 0
      then (d, c)
      else if range_ok (src_span ch) && range_ok (dest_span ch)
      then (
        record counted { channels = update d.channels i (restarted ch (moved ch c.mem)) },
        vblank_consume board (u32 (ch.count * unit_of ch))
            (record c { mem = (moved ch c.mem).mem }),
      )
      else (refuse (range_ok (src_span ch)) (range_ok (dest_span ch)) counted, c)

  -- ((vu32 *)(REG_ADDR_DMA0 + channel * 12))[k] = v
  abbrev pub set_reg : ℕ → ℕ → ℕ → Console → Console
  set_reg i k v c = record c { mem = write32 (board.dma_regs + i * 12 + k * 4) v c.mem }

  -- What PortDmaSet stores in the channel.
  abbrev pub latched : ℕ → ℕ → ℕ → ℕ → Channel
  latched i src dest control = record {
    src = src;
    dest = dest;
    src_reload = src;
    dest_reload = dest;
    count = if control % 2 ^ 16 == 0 then if i == 3 then 0x10000 else 0x4000 else control % 2 ^ 16;
    flags = control / 2 ^ 16 % 2 ^ 16;
    armed = board.is_enabled (control / 2 ^ 16 % 2 ^ 16);
  }

  -- PortDmaSet on a channel that exists
  abbrev pub set_channel : ℕ → ℕ → ℕ → ℕ → Dma × Console → Dma × Console
  set_channel i src dest control (d, c) =
      let ch = latched i src dest control in
      let d' = record d { channels = update d.channels i ch } in
      let c' = set_reg i 1 dest (set_reg i 0 src c) in
      if not (board.is_enabled ch.flags)
      then (d', set_reg i 2 (board.without_enable control) c')
      else if timing_of ch.flags == timing_now
      then (
        (run_transfer i (d', c')).0,
        set_reg i 2 (board.without_enable control) (run_transfer i (d', c')).1,
      )
      else (d', set_reg i 2 control c')

  -- PortDmaSet
  unfoldable pub dma_set : ℤ → ℕ → ℕ → ℕ → Dma × Console → Dma × Console
  dma_set (negsuc _) src dest control s = s
  dma_set (pos i) src dest control s = if ltb 3 i then s else set_channel i src dest control s

  -- PortDmaStop
  unfoldable pub dma_stop : ℤ → Dma × Console → Dma × Console
  dma_stop (negsuc _) s = s
  dma_stop (pos i) (d, c) = if ltb 3 i then (d, c) else (
    record d {
      channels = update d.channels i (record (d.channels i) { armed = false; flags = 0 });
    },
    set_reg i 2 0 c,
  )

  -- A round of RunTiming
  abbrev pub run_if_timed : ℕ → ℕ → Dma × Console → Dma × Console
  run_if_timed wanted i s =
      let ch = s.0.channels i in
      if ch.armed && (timing_of ch.flags == wanted) then run_transfer i s else s

  -- RunTiming
  unfoldable pub run_timing : ℕ → Dma × Console → Dma × Console
  run_timing wanted s =
      run_if_timed wanted 3
        (run_if_timed wanted 2 (run_if_timed wanted 1 (run_if_timed wanted 0 s)))

  -- PortDmaHBlank and PortDmaVBlank
  abbrev pub dma_hblank : Dma × Console → Dma × Console
  dma_hblank = run_timing timing_hblank

  abbrev pub dma_vblank : Dma × Console → Dma × Console
  dma_vblank = run_timing timing_vblank

-- PortDmaStateLoad of what PortDmaStateSave has stored: the channels, and no counter.
unfoldable pub state_load : (ℕ → Channel) → Dma → Dma
state_load saved d = record d { channels = saved }

-- PortDmaBadCounts: the total, and the transfers with a bad source, a bad destination and both.
unfoldable pub bad_counts : Dma → ℕ × ℕ × ℕ × ℕ
bad_counts d = (d.bad, d.bad_by_shape 1, d.bad_by_shape 2, d.bad_by_shape 3)
