-- ===== src/Console.antt =====
-- platform/main.c: what the frame loop keeps for the game beside its memory, the two display registers
-- that end VBlank, the keys, and the frame state that a snapshot holds. The register offsets and bits
-- of the game's headers, and the sizes that a host build chooses, are a parameter, `Board`.
pub mod Display
pub mod Gba
use katam_port.Base.{
  ℕ, ◌-◌, ◌%◌, ◌^◌, Bool, true, false, not, ltb, leb, if◌then◌else◌, Option, none, some, read16,
  write16,
}

-- GBA_IO_BASE + REG_OFFSET_DISPSTAT, _VCOUNT and _KEYINPUT; REG_ADDR_DMA0; the tests and masks with
-- DISPSTAT_VBLANK and the DMA_ flags; PORT_BIOS_REGION_SIZE and PortHostRangeOk of the host's build.
pub record Board : Type 0 where
  pub dispstat : ℕ
  pub vcount : ℕ
  pub keyinput : ℕ
  pub dma_regs : ℕ
  pub is_vblank : ℕ → Bool
  pub without_vblank : ℕ → ℕ
  pub is_wide : ℕ → Bool
  pub is_repeat : ℕ → Bool
  pub is_enabled : ℕ → Bool
  pub without_enable : ℕ → ℕ
  pub bios_size : ℕ
  pub host_range : ℕ → ℕ → Bool

-- The memory, sVBlankBudget, sKeysDown and sFrameCount. Between two calls the budget is not negative.
pub record Console : Type 0 where
  pub mem : ℕ → ℕ
  pub budget : ℕ
  pub keys_down : ℕ
  pub frame_count : ℕ

-- struct PortFrameState
pub record FrameState : Type 0 where
  pub frames : ℕ
  pub vblank_budget : ℕ
  pub keys : ℕ

-- PortFrameStateSave
unfoldable pub frame_state_save : Console → FrameState
frame_state_save c = record { frames = c.frame_count; vblank_budget = c.budget; keys = c.keys_down }

-- PortFrameStateLoad
unfoldable pub frame_state_load : FrameState → Console → Console
frame_state_load st c = record c {
  frame_count = st.frames;
  budget = st.vblank_budget;
  keys_down = st.keys;
}

-- PortSetKeys
unfoldable pub set_keys : ℕ → Console → Console
set_keys down c = record c { keys_down = down % 2 ^ 10 }

-- PortRbApplyKeys
unfoldable pub apply_keys : ℕ → Console → Console
apply_keys keys c = record c { keys_down = keys }

module _ (board : Board) where
  -- UpdateKeyInput; `timeline` is what PortRbKeyOverride gives while a rollback or a replay drives.
  unfoldable pub update_key_input : Option ℕ → Console → Console
  update_key_input timeline c =
      let keys : ℕ = elim timeline [ none ↦ c.keys_down | some driven ↦ driven ] in
      record c { keys_down = keys; mem = write16 board.keyinput (2 ^ 10 - 1 - keys % 2 ^ 10) c.mem }

  -- PortVBlankEnd
  unfoldable pub vblank_end : Console → Console
  vblank_end c = record c {
    mem =
        write16 board.vcount 0
          (write16 board.dispstat (board.without_vblank (read16 c.mem board.dispstat)) c.mem);
    budget = 0;
  }

  -- PortVBlankConsume
  unfoldable pub vblank_consume : ℕ → Console → Console
  vblank_consume bytes c =
      if not (board.is_vblank (read16 c.mem board.dispstat))
      then c
      else if leb c.budget bytes
      then vblank_end c
      else record c { budget = c.budget - bytes }
