-- ===== src/Rollback/Machine.antt =====
-- What the engine asks of the machine that it rewinds: the memory that a snapshot covers, saving and
-- restoring it, and the cells of the game that the frame hook reads and writes. `Rollback.Snapshot`
-- fills it with the regions of the GBA map. The game itself is not part of this repository: `run` is
-- what it does from one frame hook to the next.
use katam_port.Base.{ℕ, List, ◌≡◌}

pub record Machine : Type 1 where
  pub Mem : Type 0
  -- The memory has the sizes that the map has.
  pub IsMem : Mem → Type 0
  pub save : Mem → List ℕ
  pub load : List ℕ → Mem → Mem
  -- GAME_HELD and GAME_AI_INPUT of a slot
  pub held : Mem → ℕ → ℕ
  pub ai_input : Mem → ℕ → ℕ
  pub set_held : ℕ → ℕ → Mem → Mem
  pub set_pressed : ℕ → ℕ → Mem → Mem
  pub set_released : ℕ → ℕ → Mem → Mem
  -- GAME_PLAYER_COUNT
  pub set_player_count : ℕ → Mem → Mem
  -- PortRbApplyKeys, of platform/main.c
  pub apply_keys : ℕ → Mem → Mem
  pub run : Mem → Mem
  -- Restoring what was saved gives it back.
  pub load-save : (m m' : Mem) → IsMem m → IsMem m' → load (save m) m' ≡ m
  -- Every access keeps the sizes, and so does the game.
  pub set_held-IsMem : (slot v : ℕ) (m : Mem) → IsMem m → IsMem (set_held slot v m)
  pub set_pressed-IsMem : (slot v : ℕ) (m : Mem) → IsMem m → IsMem (set_pressed slot v m)
  pub set_released-IsMem : (slot v : ℕ) (m : Mem) → IsMem m → IsMem (set_released slot v m)
  pub set_player_count-IsMem : (n : ℕ) (m : Mem) → IsMem m → IsMem (set_player_count n m)
  pub apply_keys-IsMem : (keys : ℕ) (m : Mem) → IsMem m → IsMem (apply_keys keys m)
  pub run-IsMem : (m : Mem) → IsMem m → IsMem (run m)
