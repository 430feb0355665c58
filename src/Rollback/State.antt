-- ===== src/Rollback/State.antt =====
-- platform/rollback.c: the statics of the engine, and the constants of platform/port/rollback.h.
-- An array is the function from its indices; an s8 is its bit pattern, 0xff for -1.
use katam_port.Base.{ℕ, ◌+◌, ◌*◌, ◌^◌, Bool, List, leb, u32}

abbrev pub rb_players : ℕ
rb_players = 4

-- PORT_RB_MAX_FRAMES, TIMELINE_CHUNK, MAX_EVENTS
abbrev pub max_frames : ℕ
max_frames = 32

abbrev pub timeline_chunk : ℕ
timeline_chunk = 4096

abbrev pub max_events : ℕ
max_events = 256

-- PORT_RB_KEYS_MASK is 0x03ff: `& PORT_RB_KEYS_MASK` keeps the low ten bits.
abbrev pub keys_mod : ℕ
keys_mod = 2 ^ 10

-- enum PortRbEventType, and PORT_RB_SLOT_AI
abbrev pub ev_players : ℕ
ev_players = 1

abbrev pub ev_slot : ℕ
ev_slot = 2

abbrev pub slot_ai : ℕ
slot_ai = 0xff

-- struct Timeline
pub record Timeline : Type 0 where
  pub keys : ℕ → ℕ
  pub known : ℕ → Bool
  pub cap : ℕ
  pub len : ℕ

-- frame * PORT_RB_PLAYERS + player, in u32
abbrev pub cell : ℕ → ℕ → ℕ
cell frame player = u32 (frame * rb_players + player)

-- struct Event
pub record Event : Type 0 where
  pub at : ℕ
  pub kind : ℕ
  pub a : ℕ
  pub b : ℕ

-- struct PortRbStats
pub record Stats : Type 0 where
  pub stat_frame : ℕ
  pub stat_confirmed : ℕ
  pub rollbacks : ℕ
  pub resim_frames : ℕ
  pub deepest : ℕ
  pub late_drops : ℕ
  pub predictions : ℕ
  pub mispredictions : ℕ

-- sCatchUp: 0, 1 and 2
pub data CatchUp : Type 0 where
  live : CatchUp
  resimulating : CatchUp
  requested : CatchUp

-- The statics of rollback.c. `ring` holds the snapshots of sRing by slot, `render` is what was last
-- passed to PortSetRenderEnabled.
pub record Session : Type 0 where
  pub active : Bool
  pub depth : ℕ
  pub players : ℕ
  pub snap_bytes : ℕ
  pub ring : ℕ → List ℕ
  pub ring_frame : ℕ → ℕ
  pub ring_valid : ℕ → Bool
  pub frame : ℕ
  pub confirmed : ℕ
  pub catch_up : CatchUp
  pub catch_up_to : ℕ
  pub stats : Stats
  pub tl : Timeline
  pub events : List Event
  pub slot_peer : ℕ → ℕ
  pub slots_in_play : ℕ
  pub render : Bool

-- The sign of an s8.
abbrev pub is_negative : ℕ → Bool
is_negative x = leb 128 x

-- What the C library decides: whether `realloc` grants a timeline of so many frames, and `malloc` a
-- ring of so many bytes.
pub record Heap : Type 0 where
  pub grant_timeline : ℕ → Bool
  pub grant_ring : ℕ → Bool
