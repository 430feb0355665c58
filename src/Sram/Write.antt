-- ===== src/Sram/Write.antt =====
-- platform/sram.c: a write lands, is verified at once, and is reported when it changes save memory.
use katam_port.Base.{
  is_inside, copy, ℕ, suc, ◌+◌, ◌-◌, ◌≤◌, ◌<◌, ◌≡◌, ◌≢◌, refl, sym, ◌∙◌, ap, subst, Bool, true,
  false, ◌||◌, Bool-cases, inl, inr, ◌⊎◌, ◌==◌, arith, Option,
}
use katam_port.Sram.{
  Sram, is_same, first_mismatch, restore_once, is_in_sram, read_sram, store_bytes, write_sram,
  verify_sram, write_sram_ex,
}
use katam_port.Sram.Compare.{Same, is_same_lem, copy-Same, first_mismatch-Same}

restore_once-again :
    (host : Option (ℕ → ℕ)) (s : Sram) → s.restored ≡ true → restore_once host s ≡ s
unfolding restore_once
restore_once-again host s h = ground arith

restore_once-restored : (host : Option (ℕ → ℕ)) (s : Sram) → (restore_once host s).restored ≡ true
unfolding restore_once
restore_once-restored host s = elim (Bool-cases s.restored) [
  | inl e ↦ simp (e, restore_once) refl
  | inr e ↦ simp (e, restore_once) refl
]

restore_once-dirty : (host : Option (ℕ → ℕ)) (s : Sram) → (restore_once host s).dirty ≡ s.dirty
unfolding restore_once
restore_once-dirty host s = elim (Bool-cases s.restored) [
  | inl e ↦ simp (e, restore_once) refl
  | inr e ↦ simp (e, restore_once) refl
]

module _ (host : Option (ℕ → ℕ)) (src dest size : ℕ) (s : Sram) where
  -- The memory that a call finds, with the stored save in it.
  abbrev found : Sram
  found = restore_once host s

  -- Nothing to write.
  abbrev is_idle : Bool
  is_idle = size == 0 || is_same found.mem src dest size

  write-idle : is_idle ≡ true → write_sram host src dest size s ≡ found
  write-idle e = unfold write_sram in rw e refl

  write-stores : is_idle ≡ false → write_sram host src dest size s ≡ store_bytes src dest size found
  write-stores e = unfold write_sram in rw e refl

  idle-Same : is_idle ≡ true → Same found.mem src dest size
  idle-Same e i lt = is_same_lem found.mem src dest size (ground arith) i lt

  pub write_sram-Same :
      (src + size ≤ dest) ⊎ (dest + size ≤ src)
      → Same (write_sram host src dest size s).mem src dest size
  write_sram-Same apart = elim (Bool-cases is_idle) [
    | inl e ↦ subst (λ t. Same t.mem src dest size) (sym (write-idle e)) (idle-Same e)
    | inr e ↦
        subst (λ t. Same t.mem src dest size) (sym (write-stores e))
          (copy-Same found.mem src dest size apart)
  ]

  pub write_sram-restored : (write_sram host src dest size s).restored ≡ true
  write_sram-restored = elim (Bool-cases is_idle) [
    | inl e ↦ ap (λ t. t.restored) (write-idle e) ∙ restore_once-restored host s
    | inr e ↦ ap (λ t. t.restored) (write-stores e) ∙ restore_once-restored host s
  ]

  -- Outside the block nothing changes.
  pub write_sram-outside :
      (a : ℕ)
      → is_inside dest size a ≡ false
      → (write_sram host src dest size s).mem a ≡ found.mem a
  write_sram-outside a out = elim (Bool-cases is_idle) [
    | inl e ↦ ap (λ t. t.mem a) (write-idle e)
    | inr e ↦ ap (λ t. t.mem a) (write-stores e) ∙ rw out refl
  ]

  -- WriteSram of a block inside the region that changes a byte of the memory tells the host once.
  pub write_sram-dirty :
      (a : ℕ)
      → is_in_sram dest size ≡ true
      → (write_sram host src dest size s).mem a ≢ (restore_once host s).mem a
      → (write_sram host src dest size s).dirty ≡ s.dirty + 1
  write_sram-dirty a inside changed = elim (Bool-cases is_idle) [
    | inl e ↦ absurd (changed (ap (λ t. t.mem a) (write-idle e)))
    | inr e ↦
        ap (λ t. t.dirty) (write-stores e) ∙ rw inside (ap (λ n. n + 1) (restore_once-dirty host s))
  ]

  verified :
      (src + size ≤ dest) ⊎ (dest + size ≤ src)
      → verify_sram host src dest size (write_sram host src dest size s)
        ≡ (0, write_sram host src dest size s)
  verified apart =
      let w = write_sram host src dest size s in
      let again = restore_once-again host w write_sram-restored in
      unfold verify_sram in
      ap (λ t. (first_mismatch t.mem src dest 0 size, t)) again
      ∙ ap (λ n. (n, w))
          (first_mismatch-Same w.mem src dest 0 size
            (λ i lt. write_sram-Same apart i (omega arith)))

  ex-done :
      (retries : ℕ) {w : Sram}
      → verify_sram host src dest size (write_sram host src dest size s) ≡ (0, w)
      → write_sram_ex host src dest size (suc retries) s ≡ (0, w)
  ex-done retries {w} e =
      unfold write_sram_ex in rw (ap (λ z. z.0 == 0) e, write_sram_ex) (ap (λ z. (0, z.1)) e)

  pub write_sram_ex-lands :
      (retries : ℕ)
      → (src + size ≤ dest) ⊎ (dest + size ≤ src)
      → let (r, t) = write_sram_ex host src dest size (suc retries) s in
        (r ≡ 0)
        × (t ≡ write_sram host src dest size s)
        × Same t.mem src dest size
        × ((a : ℕ) → is_inside dest size a ≡ false → t.mem a ≡ (restore_once host s).mem a)
  write_sram_ex-lands retries apart =
      subst
        (λ z.
          (z.0 ≡ 0)
          × (z.1 ≡ write_sram host src dest size s)
          × Same z.1.mem src dest size
          × ((a : ℕ) → is_inside dest size a ≡ false → z.1.mem a ≡ (restore_once host s).mem a))
        (sym (ex-done retries (verified apart)))
        (refl, refl, write_sram-Same apart, write_sram-outside)

-- What WriteSramEx wrote from `src` is what ReadSram reads back, with a block of the save apart from
-- the source, and a buffer that is anywhere; the save that the host had stored is not restored over it.
pub read_sram-write_sram_ex :
    (host : Option (ℕ → ℕ)) (src dest buffer size retries i : ℕ) (s : Sram)
    → (src + size ≤ dest) ⊎ (dest + size ≤ src)
    → i < size
    → (read_sram host dest buffer size (write_sram_ex host src dest size (suc retries) s).1).mem
        (buffer + i)
      ≡ (restore_once host s).mem (src + i)
unfolding read_sram
read_sram-write_sram_ex host src dest buffer size retries i s apart lt =
    ap (λ t. (read_sram host dest buffer size t).mem (buffer + i))
      (write_sram_ex-lands host src dest size s retries apart).1
    ∙ ap (λ t. copy dest buffer size t.mem (buffer + i))
        (restore_once-again host w (write_sram-restored host src dest size s))
    ∙ copied
    ∙ write_sram-Same host src dest size s apart i lt
    ∙ write_sram-outside host src dest size s (src + i) (ground arith)
  where
    w : Sram
    w = write_sram host src dest size s

    inside : is_inside buffer size (buffer + i) ≡ true
    inside = ground arith

    offset : buffer + i - buffer ≡ i
    offset = omega arith

    copied : copy dest buffer size w.mem (buffer + i) ≡ w.mem (dest + i)
    copied = rw (inside, offset) refl
