-- ===== src/Rollback/Snapshot/Gba.antt =====
-- platform/rollback.c: the cells of the game that the engine reads and writes, GAME_PLAYER_COUNT,
-- GAME_HELD, GAME_PRESSED, GAME_RELEASED and GAME_AI_INPUT, as bytes of EWRAM, and sKeysDown of
-- platform/main.c as bytes of the frame state; the machine that the engine rewinds.
use katam_port.Base.{
  ℕ, zero, suc, ◌+◌, ◌*◌, ◌/◌, ◌^◌, ◌≡◌, refl, ap, ◌∙◌, List, [], ◌∷◌, u8, length, get_or,
}
use katam_port.Rollback.Machine.{Machine}
use katam_port.Rollback.Snapshot.{regions, Image, HostSizes, save_to, load_from}
use katam_port.Rollback.Snapshot.RoundTrip.{HasSizes, IsImage, load_from-save_to_whole}

-- *(p + i) = v, inside the block or not at all
abbrev pub set_at : List ℕ → ℕ → ℕ → List ℕ
set_at [] i v = []
set_at (x ∷ xs) zero v = v ∷ xs
set_at (x ∷ xs) (suc i) v = x ∷ set_at xs i v

pub length-set_at : (xs : List ℕ) (i v : ℕ) → length (set_at xs i v) ≡ length xs
length-set_at [] i v = refl
length-set_at (x ∷ xs) zero v = refl
length-set_at (x ∷ xs) (suc i) v = ap suc (length-set_at xs i v)

-- A little-endian halfword.
abbrev pub set_half : List ℕ → ℕ → ℕ → List ℕ
set_half xs i v = set_at (set_at xs i (u8 v)) (i + 1) (u8 (v / 2 ^ 8))

abbrev pub half_at : List ℕ → ℕ → ℕ
half_at xs i = get_or xs i 0 + get_or xs (i + 1) 0 * 2 ^ 8

-- EWRAM is the first region of the table.
abbrev pub ewram : Image → List ℕ
ewram m = elim m.map [ [] ↦ [] | x ∷ _ ↦ x ]

abbrev change_first : (List ℕ → List ℕ) → List (List ℕ) → List (List ℕ)
change_first f [] = []
change_first f (x ∷ xs) = f x ∷ xs

abbrev pub in_ewram : (List ℕ → List ℕ) → Image → Image
in_ewram f m = record m { map = change_first f m.map }

-- Offsets from GBA_EWRAM_BASE.
abbrev pub held_offset : ℕ → ℕ
held_offset slot = 0x382D0 + 8 + 2 * slot

abbrev pub pressed_offset : ℕ → ℕ
pressed_offset slot = 0x382D0 + 8 + 8 + 2 * slot

abbrev pub released_offset : ℕ → ℕ
released_offset slot = 0x382D0 + 8 + 16 + 2 * slot

abbrev pub ai_input_offset : ℕ → ℕ
ai_input_offset slot = 0x38590 + 244 * slot + 158

abbrev pub player_count_offset : ℕ
player_count_offset = 0x3AD30

-- keysDown, behind the two words of struct PortFrameState
abbrev pub keys_offset : ℕ
keys_offset = 8

pub in_ewram-IsImage :
    (z : HostSizes) (f : List ℕ → List ℕ) (m : Image)
    → ((xs : List ℕ) → length (f xs) ≡ length xs)
    → IsImage z m
    → IsImage z (in_ewram f m)
in_ewram-IsImage z f m same h = record {
  sizes = sizes m.map h.sizes;
  dma_fits = h.dma_fits;
  timing_fits = h.timing_fits;
  ppu_fits = h.ppu_fits;
}
  where
    sizes : (ms : List (List ℕ)) → HasSizes regions ms → HasSizes regions (change_first f ms)
    sizes [] k = k
    sizes (x ∷ xs) (k, ks) = (same x ∙ k, ks)

pub length-set_half : (xs : List ℕ) (i v : ℕ) → length (set_half xs i v) ≡ length xs
length-set_half xs i v =
    length-set_at (set_at xs i (u8 v)) (i + 1) (u8 (v / 2 ^ 8)) ∙ length-set_at xs i (u8 v)

-- The port's machine; `run` is the game from one frame hook to the next.
abbrev pub gba :
    (z : HostSizes) (run : Image → Image)
    → ((m : Image) → IsImage z m → IsImage z (run m))
    → Machine
gba z run keeps = record {
  Mem = Image;
  IsMem = IsImage z;
  save = save_to z;
  load = load_from z 0;
  held = λ m slot. half_at (ewram m) (held_offset slot);
  ai_input = λ m slot. get_or (ewram m) (ai_input_offset slot) 0;
  set_held = λ slot v. in_ewram (λ xs. set_half xs (held_offset slot) v);
  set_pressed = λ slot v. in_ewram (λ xs. set_half xs (pressed_offset slot) v);
  set_released = λ slot v. in_ewram (λ xs. set_half xs (released_offset slot) v);
  set_player_count = λ n. in_ewram (λ xs. set_at xs player_count_offset (u8 n));
  apply_keys = λ keys m. record m { timing = set_half m.timing keys_offset keys };
  run = run;
  load-save = λ m m' h h'. load_from-save_to_whole z m m' h h';
  set_held-IsMem =
      λ slot v m h. in_ewram-IsImage z _ m (λ xs. length-set_half xs (held_offset slot) v) h;
  set_pressed-IsMem =
      λ slot v m h. in_ewram-IsImage z _ m (λ xs. length-set_half xs (pressed_offset slot) v) h;
  set_released-IsMem =
      λ slot v m h. in_ewram-IsImage z _ m (λ xs. length-set_half xs (released_offset slot) v) h;
  set_player_count-IsMem =
      λ n m h. in_ewram-IsImage z _ m (λ xs. length-set_at xs player_count_offset (u8 n)) h;
  apply_keys-IsMem = λ keys m h. record {
    sizes = h.sizes;
    dma_fits = h.dma_fits;
    timing_fits = length-set_half m.timing keys_offset keys ∙ h.timing_fits;
    ppu_fits = h.ppu_fits;
  };
  run-IsMem = keeps;
}
