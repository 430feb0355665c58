-- ===== src/Rollback/Tests/Snapshots.antt =====
-- platform/rollback.c: a snapshot of one memory, restored into another.
use katam_port.Base.{ℕ, ◌≡◌, ◌==◌, if◌then◌else◌, refl, [], ◌∷◌, replicate, length-replicate}
use katam_port.Rollback.Snapshot.{regions, Image, HostSizes, save_to, load_from}
use katam_port.Rollback.Snapshot.RoundTrip.{IsImage, restored, load_from-save_to}

abbrev sizes : HostSizes
sizes = record { dma_size = 4; timing_size = 12; ppu_size = 2 }

-- Every byte is `v`.
abbrev flat : ℕ → Image
flat v = record {
  map =
      replicate 0x40000 v
      ∷ replicate 0x8000 v
      ∷ replicate 0x400 v
      ∷ replicate 0x400 v
      ∷ replicate 0x18000 v
      ∷ replicate 0x400 v
      ∷ [];
  dma = replicate 4 v;
  timing = replicate 12 v;
  ppu = replicate 2 v;
}

flat-IsImage : (v : ℕ) → IsImage sizes (flat v)
flat-IsImage v = record {
  sizes = (
    length-replicate 0x40000 v,
    (
      length-replicate 0x8000 v,
      (
        length-replicate 0x400 v,
        (length-replicate 0x400 v, (length-replicate 0x18000 v, (length-replicate 0x400 v, refl))),
      ),
    ),
  );
  dma_fits = refl;
  timing_fits = refl;
  ppu_fits = refl;
}

load_from-save_to_example : load_from sizes 2 (save_to sizes (flat 1)) (flat 2) ≡ record {
  map = restored 2 regions (flat 1).map (flat 2).map;
  dma = if 2 == 1 then (flat 2).dma else (flat 1).dma;
  timing = (flat 1).timing;
  ppu = if 2 == 1 then (flat 2).ppu else (flat 1).ppu;
}
load_from-save_to_example =
    load_from-save_to sizes 2 (flat 1) (flat 2) (flat-IsImage 1) (flat-IsImage 2)
