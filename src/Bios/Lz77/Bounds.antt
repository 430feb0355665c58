-- ===== src/Bios/Lz77/Bounds.antt =====
-- platform/bios.c: LZ77UnComp ends, and writes the bytes that the header announces and no others.
use katam_port.Base.{
  ℕ, zero, suc, ◌+◌, ◌*◌, ◌/◌, ◌%◌, ◌^◌, ◌≤◌, ◌<◌, ◌≡◌, ◌≢◌, refl, sym, ◌∙◌, subst, true, false,
  Bool-cases, inl, inr, ltb, ltb→lt, lt→ltb, ltb_false→le, leb, arith, is_inside, update_ne, u8,
  u32, sub32,
}
use katam_port.Bios.RunLength.{header_size}
use katam_port.Bios.Lz77.{Lz, emit, copy_back, token, token_bits, groups, lz77_uncomp}

module _ (src : ℕ → ℕ) (dest size : ℕ) (fits : dest + size ≤ 2 ^ 32) where
  -- From `s` on, some bytes were written, within the size, and nothing outside the destination.
  record Wrote (s t : Lz) : Type 0 where
    grows : s.written ≤ t.written
    within : t.written ≤ size
    outside : (a : ℕ) → is_inside dest size a ≡ false → t.mem a ≡ s.mem a

  still : (s : Lz) → s.written ≤ size → Wrote s s
  still s h = record { grows = omega arith; within = h; outside = λ a out. refl }

  then_ : {s t u : Lz} → Wrote s t → Wrote t u → Wrote s u
  then_ {s} {t} {u} p q = record {
    grows = omega (arith, p.grows, q.grows);
    within = q.within;
    outside = λ a out. q.outside a out ∙ p.outside a out;
  }

  emit-Wrote : (v : ℕ) (s : Lz) → s.written < size → Wrote s (emit dest v s)
  emit-Wrote v s h = record {
    grows = omega arith;
    within = omega arith;
    outside = λ a out. update_ne s.mem (u32 (dest + s.written)) a v (elsewhere a out);
  }
    where
      elsewhere : (a : ℕ) → is_inside dest size a ≡ false → u32 (dest + s.written) ≢ a
      elsewhere a out = ground arith

  copy-on :
      (disp n : ℕ) (s : Lz)
      → ltb s.written size ≡ true
      → copy_back src dest size disp (suc n) s
        ≡ copy_back src dest size disp n (emit dest (s.mem (sub32 (dest + s.written) disp)) s)
  unfolding copy_back
  copy-on disp n s e = rw (e, copy_back) refl

  copy-off :
      (disp n : ℕ) (s : Lz)
      → ltb s.written size ≡ false
      → copy_back src dest size disp (suc n) s ≡ s
  unfolding copy_back
  copy-off disp n s e = rw (e, copy_back) refl

  copy_back-Wrote :
      (disp n : ℕ) (s : Lz) → s.written ≤ size → Wrote s (copy_back src dest size disp n s)
  copy_back-Wrote disp zero s h = unfold copy_back in still s h
  copy_back-Wrote disp (suc n) s h = elim (Bool-cases (ltb s.written size)) [
    | inl e ↦
        let one = emit-Wrote (s.mem (sub32 (dest + s.written) disp)) s (ltb→lt _ _ e) in
        let rest =
          copy_back-Wrote disp n (emit dest (s.mem (sub32 (dest + s.written) disp)) s) one.within in
        subst (Wrote s) (sym (copy-on disp n s e)) (then_ one rest)
    | inr e ↦ subst (Wrote s) (sym (copy-off disp n s e)) (still s h)
  ]

  bits-on :
      (n flags : ℕ) (s : Lz)
      → ltb s.written size ≡ true
      → token_bits src dest size (suc n) flags s
        ≡ token_bits src dest size n (u8 (flags * 2)) (token src dest size flags s)
  unfolding token_bits
  bits-on n flags s e = rw (e, token_bits) refl

  bits-off :
      (n flags : ℕ) (s : Lz)
      → ltb s.written size ≡ false
      → token_bits src dest size (suc n) flags s ≡ s
  unfolding token_bits
  bits-off n flags s e = rw (e, token_bits) refl

  -- A copy of a byte or more, where there is room for one, writes one.
  copy_back-more :
      (disp n : ℕ) (s : Lz)
      → s.written < size
      → s.written < (copy_back src dest size disp (suc n) s).written
  copy_back-more disp n s h =
      let one = emit dest (s.mem (sub32 (dest + s.written) disp)) s in
      subst (λ (t : Lz). s.written < t.written) (sym (copy-on disp n s (lt→ltb _ _ h)))
        (omega (arith, (copy_back-Wrote disp n one (omega arith)).grows))

  token-Wrote :
      (flags : ℕ) (s : Lz)
      → s.written < size
      → Wrote s (token src dest size flags s) × (s.written < (token src dest size flags s).written)
  unfolding token
  token-Wrote flags s h = elim (Bool-cases (leb 0x80 flags)) [
    | inl e ↦ rw e (
      record {
        grows = (copied s h).grows;
        within = (copied s h).within;
        outside = (copied s h).outside;
      },
      more s h,
    )
    | inr e ↦ rw e (
      record {
        grows = omega arith;
        within = omega arith;
        outside = (emit-Wrote (src s.at) (record s { at = s.at + 1 }) h).outside;
      },
      omega arith,
    )
  ]
    where
      disp : Lz → ℕ
      disp s' = src s'.at % 2 ^ 4 * 2 ^ 8 + src (s'.at + 1) + 1

      copied :
          (s' : Lz)
          → s'.written < size
          → Wrote
              (record s' { at = s'.at + 2 })
              (copy_back src dest size
                (disp s')
                (src s'.at / 2 ^ 4 + 3)
                (record s' { at = s'.at + 2 }))
      copied s' h' =
          copy_back-Wrote (disp s') (src s'.at / 2 ^ 4 + 3) (record s' { at = s'.at + 2 })
            (omega arith)

      more :
          (s' : Lz)
          → s'.written < size
          → s'.written
            < (copy_back src dest size
                (disp s')
                (src s'.at / 2 ^ 4 + 3)
                (record s' { at = s'.at + 2 })).written
      more s' h' =
          let three : suc (src s'.at / 2 ^ 4 + 2) ≡ src s'.at / 2 ^ 4 + 3 = omega arith in
          subst
            (λ n.
              s'.written
              < (copy_back src dest size (disp s') n (record s' { at = s'.at + 2 })).written)
            three
            (copy_back-more (disp s') (src s'.at / 2 ^ 4 + 2) (record s' { at = s'.at + 2 }) h')

  token_bits-Wrote :
      (n flags : ℕ) (s : Lz) → s.written ≤ size → Wrote s (token_bits src dest size n flags s)
  token_bits-Wrote zero flags s h = unfold token_bits in still s h
  token_bits-Wrote (suc n) flags s h = elim (Bool-cases (ltb s.written size)) [
    | inl e ↦
        let one = (token-Wrote flags s (ltb→lt _ _ e)).0 in
        let rest = token_bits-Wrote n (u8 (flags * 2)) (token src dest size flags s) one.within in
        subst (Wrote s) (sym (bits-on n flags s e)) (then_ one rest)
    | inr e ↦ subst (Wrote s) (sym (bits-off n flags s e)) (still s h)
  ]

  -- A group that is begun writes a byte at least.
  group-more :
      (flags : ℕ) (s : Lz)
      → s.written < size
      → s.written < (token_bits src dest size 8 flags s).written
  group-more flags s h =
      let one = token-Wrote flags s h in
      let rest = token_bits-Wrote 7 (u8 (flags * 2)) (token src dest size flags s) one.0.within in
      subst (λ (t : Lz). s.written < t.written) (sym (bits-on 7 flags s (lt→ltb _ _ h)))
        (omega (arith, one.1, rest.grows))

  groups-on :
      (fuel : ℕ) (s : Lz)
      → ltb s.written size ≡ true
      → groups src dest size (suc fuel) s
        ≡ groups src dest size fuel
            (token_bits src dest size 8 (src s.at) (record s { at = s.at + 1 }))
  unfolding groups
  groups-on fuel s e = rw (e, groups) refl

  groups-off :
      (fuel : ℕ) (s : Lz) → ltb s.written size ≡ false → groups src dest size (suc fuel) s ≡ s
  unfolding groups
  groups-off fuel s e = rw (e, groups) refl

  groups-Wrote :
      (fuel : ℕ) (s : Lz)
      → s.written ≤ size
      → size ≤ s.written + fuel
      → Wrote s (groups src dest size fuel s) × ((groups src dest size fuel s).written ≡ size)
  groups-Wrote zero s h e = unfold groups in (still s h, omega arith)
  groups-Wrote (suc fuel) s h e = elim (Bool-cases (ltb s.written size)) [
    | inl on ↦
        let lt = ltb→lt _ _ on in
        let next = token_bits src dest size 8 (src s.at) (record s { at = s.at + 1 }) in
        let one = token_bits-Wrote 8 (src s.at) (record s { at = s.at + 1 }) h in
        let rest =
          groups-Wrote fuel next one.within
            (omega (arith, group-more (src s.at) (record s { at = s.at + 1 }) lt)) in
        subst (λ (t : Lz). Wrote s t × (t.written ≡ size)) (sym (groups-on fuel s on))
          (
            then_ (record { grows = one.grows; within = one.within; outside = one.outside }) rest.0,
            rest.1,
          )
    | inr off ↦
        subst (λ (t : Lz). Wrote s t × (t.written ≡ size)) (sym (groups-off fuel s off))
          (still s h, omega (arith, ltb_false→le _ _ off))
  ]

-- LZ77UnComp ends on every source, with exactly as many bytes written as the header announces, and no
-- byte outside the destination changes, whatever the lengths and displacements in the source say; the
-- destination lies in the address space.
pub lz77_uncomp-bounded :
    (src : ℕ → ℕ) (dest : ℕ) (mem : ℕ → ℕ)
    → dest + header_size src ≤ 2 ^ 32
    → ((lz77_uncomp src dest mem).written ≡ header_size src)
      × ((a : ℕ)
          → is_inside dest (header_size src) a ≡ false
          → (lz77_uncomp src dest mem).mem a ≡ mem a)
unfolding lz77_uncomp
lz77_uncomp-bounded src dest mem fits =
    let (wrote, whole) =
      groups-Wrote src dest (header_size src) fits (header_size src)
        (record { at = 4; written = 0; mem = mem }) (omega arith) (omega arith) in
    (whole, wrote.outside)
