-- ===== src/Rollback/Snapshot.antt =====
-- platform/rollback.c, what a snapshot is: kRegions, MapBytes, HostBytes, SaveTo, LoadFrom, and the
-- damage that PORT_RB_BREAK does to a restore. The sizes of the map are those of port/port.h.
pub mod RoundTrip
pub mod Gba
use katam_port.Base.{
  ℕ, ◌+◌, ◌*◌, Bool, not, ◌&&◌, List, [], ◌∷◌, ◌++◌, ◌==◌, u32, if◌then◌else◌, take, drop, length,
}

-- A row of kRegions.
pub record Region : Type 0 where
  pub base : ℕ
  pub size : ℕ

abbrev pub iwram_base : ℕ
iwram_base = 0x03000000

abbrev pub regions : List Region
regions =
    record { base = 0x02000000; size = 0x00040000 }
    ∷ record { base = iwram_base; size = 0x00008000 }
    ∷ record { base = 0x04000000; size = 0x00000400 }
    ∷ record { base = 0x05000000; size = 0x00000400 }
    ∷ record { base = 0x06000000; size = 0x00018000 }
    ∷ record { base = 0x07000000; size = 0x00000400 }
    ∷ []

-- The bytes of the regions in the order of the table, and the states of the port that the DMA, frame
-- and PPU components save.
pub record Image : Type 0 where
  pub map : List (List ℕ)
  pub dma : List ℕ
  pub timing : List ℕ
  pub ppu : List ℕ

-- PortDmaStateSize, PortFrameStateSize, PortPpuStateSize
pub record HostSizes : Type 0 where
  pub dma_size : ℕ
  pub timing_size : ℕ
  pub ppu_size : ℕ

unfoldable pub sum_sizes : List Region → ℕ
sum_sizes [] = 0
sum_sizes (r ∷ rs) = r.size + sum_sizes rs

abbrev pub map_bytes : ℕ
map_bytes = sum_sizes regions

abbrev pub host_bytes : HostSizes → ℕ
host_bytes z = u32 (z.dma_size + z.timing_size + z.ppu_size)

unfoldable pub save_map : List Region → List (List ℕ) → List ℕ
save_map [] ms = []
save_map (r ∷ rs) [] = []
save_map (r ∷ rs) (m ∷ ms) = take r.size m ++ save_map rs ms

unfoldable pub save_to : HostSizes → Image → List ℕ
save_to z m =
    save_map regions m.map
    ++ (take z.dma_size m.dma ++ (take z.timing_size m.timing ++ take z.ppu_size m.ppu))

-- The loop of LoadFrom over the regions, at the offset `off` of the snapshot. `mode` is BreakMode().
unfoldable pub load_map : ℕ → List Region → ℕ → List ℕ → List (List ℕ) → List (List ℕ)
load_map mode [] off src ms = ms
load_map mode (r ∷ rs) off src [] = []
load_map mode (r ∷ rs) off src (m ∷ ms) =
    (if mode == 2 && r.base == iwram_base then m else take r.size (drop off src))
    ∷ load_map mode rs (off + r.size) src ms

unfoldable pub load_from : HostSizes → ℕ → List ℕ → Image → Image
load_from z mode src m =
    let off = map_bytes in
    record {
      map = load_map mode regions 0 src m.map;
      dma = if mode == 1 then m.dma else take z.dma_size (drop off src);
      timing = take z.timing_size (drop (off + z.dma_size) src);
      ppu =
          if mode == 1
          then m.ppu
          else take z.ppu_size (drop (off + z.dma_size + z.timing_size) src);
    }
