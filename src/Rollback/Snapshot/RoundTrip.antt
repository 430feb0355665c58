-- ===== src/Rollback/Snapshot/RoundTrip.antt =====
-- platform/rollback.c: LoadFrom gives back what SaveTo saved, but for what PORT_RB_BREAK leaves out.
use katam_port.Base.{
  ℕ, suc, ◌+◌, ◌≡◌, refl, sym, ◌∙◌, ap, ap₂, ◌&&◌, List, [], ◌∷◌, ◌++◌, ◌==◌, if◌then◌else◌, take,
  drop, length, length-append, take-append, drop-append, append-nil, append_assoc, arith,
}
use katam_port.Rollback.Snapshot.{
  Region, iwram_base, regions, Image, HostSizes, sum_sizes, map_bytes, save_map, save_to, load_map,
  load_from,
}

-- Every region has its size.
abbrev pub HasSizes : List Region → List (List ℕ) → Type 0
HasSizes [] ms = length ms ≡ 0
HasSizes (r ∷ rs) [] = suc (length rs) ≡ 0
HasSizes (r ∷ rs) (m ∷ ms) = (length m ≡ r.size) × HasSizes rs ms

pub record IsImage (z : HostSizes) (m : Image) : Type 0 where
  pub sizes : HasSizes regions m.map
  pub dma_fits : length m.dma ≡ z.dma_size
  pub timing_fits : length m.timing ≡ z.timing_size
  pub ppu_fits : length m.ppu ≡ z.ppu_size

-- The regions of `saved`, but IWRAM as it is in `now` when the restore is damaged.
unfoldable pub restored : ℕ → List Region → List (List ℕ) → List (List ℕ) → List (List ℕ)
restored mode [] saved now = now
restored mode (r ∷ rs) saved [] = []
restored mode (r ∷ rs) [] now = []
restored mode (r ∷ rs) (m ∷ ms) (n ∷ ns) =
    (if mode == 2 && r.base == iwram_base then n else m) ∷ restored mode rs ms ns

take_all : (xs : List ℕ) (n : ℕ) → length xs ≡ n → take n xs ≡ xs
take_all xs n h = ap (take n) (sym (append-nil xs)) ∙ take-append xs [] h

-- A block of a known length inside a list.
block :
    (pre xs post : List ℕ) (off n : ℕ)
    → length pre ≡ off
    → length xs ≡ n
    → take n (drop off (pre ++ (xs ++ post))) ≡ xs
block pre xs post off n hp hx =
    ap (take n) (drop-append pre (xs ++ post) hp) ∙ take-append xs post hx

load_map-save_map :
    (mode : ℕ) (rs : List Region) (ms ns : List (List ℕ)) (pre post : List ℕ) (off : ℕ)
    → HasSizes rs ms
    → HasSizes rs ns
    → length pre ≡ off
    → load_map mode rs off (pre ++ (save_map rs ms ++ post)) ns ≡ restored mode rs ms ns
unfolding load_map save_map restored
load_map-save_map mode [] ms ns pre post off hm hn hp = refl
load_map-save_map mode (r ∷ rs) [] ns pre post off hm hn hp = absurd (omega arith)
load_map-save_map mode (r ∷ rs) (m ∷ ms) [] pre post off hm hn hp = absurd (omega arith)
load_map-save_map mode (r ∷ rs) (m ∷ ms) (n ∷ ns) pre post off (h, hm) (_, hn) hp =
    let rest = save_map rs ms ++ post in
    let ih =
      load_map-save_map mode rs ms ns (pre ++ m) post (off + r.size) hm hn
        (omega (arith, length-append pre m)) in
    rw (take_all m r.size h, append_assoc m (save_map rs ms) post)
      (ap₂ (λ x xs. (if mode == 2 && r.base == iwram_base then n else x) ∷ xs)
        (block pre m rest off r.size hp h)
        (ap (λ l. load_map mode rs (off + r.size) l ns) (sym (append_assoc pre m rest)) ∙ ih))

length-save_map :
    (rs : List Region) (ms : List (List ℕ))
    → HasSizes rs ms
    → length (save_map rs ms) ≡ sum_sizes rs
unfolding save_map sum_sizes
length-save_map [] ms h = refl
length-save_map (r ∷ rs) [] h = absurd (omega arith)
length-save_map (r ∷ rs) (m ∷ ms) (h, hs) =
    rw (take_all m r.size h)
      (omega (arith, length-append m (save_map rs ms), length-save_map rs ms hs))

load_blocks :
    (z : HostSizes) (mode : ℕ) (m d t p : List ℕ) (now : Image)
    → length m ≡ map_bytes
    → length d ≡ z.dma_size
    → length t ≡ z.timing_size
    → length p ≡ z.ppu_size
    → load_from z mode (m ++ (d ++ (t ++ p))) now ≡ record {
      map = load_map mode regions 0 (m ++ (d ++ (t ++ p))) now.map;
      dma = if mode == 1 then now.dma else d;
      timing = t;
      ppu = if mode == 1 then now.ppu else p;
    }
unfolding load_from
load_blocks z mode m d t p now hm hd ht hp = rw (dma, timing, ppu) refl
  where
    dma : take z.dma_size (drop map_bytes (m ++ (d ++ (t ++ p)))) ≡ d
    dma = block m d (t ++ p) map_bytes z.dma_size hm hd

    timing : take z.timing_size (drop (map_bytes + z.dma_size) (m ++ (d ++ (t ++ p)))) ≡ t
    timing =
        ap (λ l. take z.timing_size (drop (map_bytes + z.dma_size) l))
          (sym (append_assoc m d (t ++ p)))
        ∙ block (m ++ d) t p (map_bytes + z.dma_size) z.timing_size
            (omega (arith, length-append m d, hm, hd)) ht

    ppu : take z.ppu_size (drop (map_bytes + z.dma_size + z.timing_size) (m ++ (d ++ (t ++ p)))) ≡ p
    ppu =
        ap (λ l. take z.ppu_size (drop (map_bytes + z.dma_size + z.timing_size) l))
          (sym (append_assoc m d (t ++ p)) ∙ sym (append_assoc (m ++ d) t p))
        ∙ ap (take z.ppu_size) (
            drop-append ((m ++ d) ++ t) p
              (omega (arith, length-append (m ++ d) t, length-append m d, hm, hd, ht)))
        ∙ take_all p z.ppu_size hp

save_to-blocks :
    (z : HostSizes) (m : Image)
    → IsImage z m
    → save_to z m ≡ save_map regions m.map ++ (m.dma ++ (m.timing ++ m.ppu))
unfolding save_to
save_to-blocks z m h =
    rw
      (
        take_all m.dma z.dma_size h.dma_fits,
        take_all m.timing z.timing_size h.timing_fits,
        take_all m.ppu z.ppu_size h.ppu_fits,
      )
      refl

-- The image `saved`, with the regions `map`, and what PORT_RB_BREAK=1 leaves as it is in `now`.
abbrev damaged : ℕ → Image → Image → List (List ℕ) → Image
damaged mode saved now map = record {
  map = map;
  dma = if mode == 1 then now.dma else saved.dma;
  timing = saved.timing;
  ppu = if mode == 1 then now.ppu else saved.ppu;
}

-- Loading a snapshot into the memory `now`, both of the map's sizes, gives the regions and the states
-- that were saved, but for IWRAM under PORT_RB_BREAK=2, and for the DMA and PPU states under
-- PORT_RB_BREAK=1.
pub load_from-save_to :
    (z : HostSizes) (mode : ℕ) (saved now : Image)
    → IsImage z saved
    → IsImage z now
    → load_from z mode (save_to z saved) now ≡ record {
      map = restored mode regions saved.map now.map;
      dma = if mode == 1 then now.dma else saved.dma;
      timing = saved.timing;
      ppu = if mode == 1 then now.ppu else saved.ppu;
    }
load_from-save_to z mode saved now hs hn =
    ap (λ src. load_from z mode src now) (save_to-blocks z saved hs)
    ∙ load_blocks z mode (save_map regions saved.map) saved.dma saved.timing saved.ppu now
        (length-save_map regions saved.map hs.sizes) hs.dma_fits hs.timing_fits hs.ppu_fits
    ∙ ap (damaged mode saved now) (
        load_map-save_map mode regions saved.map now.map []
          (saved.dma ++ (saved.timing ++ saved.ppu)) 0 hs.sizes hn.sizes refl)

restored_whole :
    (rs : List Region) (ms ns : List (List ℕ))
    → HasSizes rs ms
    → HasSizes rs ns
    → restored 0 rs ms ns ≡ ms
unfolding restored
restored_whole [] [] [] hm hn = refl
restored_whole [] (m ∷ ms) ns hm hn = absurd (omega arith)
restored_whole [] [] (n ∷ ns) hm hn = absurd (omega arith)
restored_whole (r ∷ rs) [] ns hm hn = absurd (omega arith)
restored_whole (r ∷ rs) (m ∷ ms) [] hm hn = absurd (omega arith)
restored_whole (r ∷ rs) (m ∷ ms) (n ∷ ns) (_, hm) (_, hn) =
    ap (λ xs. m ∷ xs) (restored_whole rs ms ns hm hn)

-- Without PORT_RB_BREAK, loading a snapshot into a memory of the map's sizes gives back the memory that
-- was saved, whatever the memory was.
pub load_from-save_to_whole :
    (z : HostSizes) (saved now : Image)
    → IsImage z saved
    → IsImage z now
    → load_from z 0 (save_to z saved) now ≡ saved
load_from-save_to_whole z saved now hs hn =
    load_from-save_to z 0 saved now hs hn
    ∙ ap (λ map. record saved { map = map })
        (restored_whole regions saved.map now.map hs.sizes hn.sizes)

-- A snapshot has MapBytes() + HostBytes() bytes, with sizes of the port's states that do not wrap.
pub length-save_to :
    (z : HostSizes) (m : Image)
    → IsImage z m
    → length (save_to z m) ≡ map_bytes + (z.dma_size + z.timing_size + z.ppu_size)
length-save_to z m h =
    ap length (save_to-blocks z m h)
    ∙ omega (
      arith,
      length-append (save_map regions m.map) (m.dma ++ (m.timing ++ m.ppu)),
      length-append m.dma (m.timing ++ m.ppu),
      length-append m.timing m.ppu,
      length-save_map regions m.map h.sizes,
      h.dma_fits,
      h.timing_fits,
      h.ppu_fits,
    )
