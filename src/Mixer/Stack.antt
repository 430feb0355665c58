-- ===== src/Mixer/Stack.antt =====
-- platform/m4a_mixer.c: the commands that leave the pattern stack of a track alone.
use katam_port.Base.{
  ℕ, zero, suc, ◌≡◌, refl, ◌∙◌, ap, Bool, true, false, ltb, ◌==◌, arith, if◌then◌else◌,
}
use katam_port.Mixer.{Track, Store, set_track, real_clear_chain, fine_one, fine_chain, ply_fine}
use katam_port.Mixer.Commands.{
  Header, byte_at, passed, ply_goto, ply_rept, ply_prio, ply_tempo, ply_keysh, ply_voice, ply_vol,
  ply_pan, ply_bend, ply_bendr, ply_lfodl, ply_modt, ply_tune, ply_port, ply_lfos, ply_mod,
  release_key, ply_endtie, Command, fine, goto, patt, pend, rept, prio, tempo, keysh, voice, volume,
  panning, bending, bendr, lfos, lfodl, modulation, modt, tuning, port, endtie, handle,
}

-- A state in which the track's pattern stack is what it was.
pub record SamePatterns (t : ℕ) (s r : Store) : Type 0 where
  pub same_level : (r.tracks t).pattern_level ≡ (s.tracks t).pattern_level
  pub same_stack : (r.tracks t).pattern_stack ≡ (s.tracks t).pattern_stack

pub SamePatterns-trans :
    (t : ℕ) (s m r : Store) → SamePatterns t s m → SamePatterns t m r → SamePatterns t s r
SamePatterns-trans t s m r p q = record {
  same_level = q.same_level ∙ p.same_level;
  same_stack = q.same_stack ∙ p.same_stack;
}

fine_one-SamePatterns : (t x : ℕ) (s : Store) → SamePatterns t s (fine_one x s)
unfolding fine_one real_clear_chain
fine_one-SamePatterns t x s = record { same_level = ground arith; same_stack = ground arith }

fine_chain-SamePatterns : (fuel x t : ℕ) (s : Store) → SamePatterns t s (fine_chain fuel x s)
unfolding fine_chain
fine_chain-SamePatterns zero x t s = record { same_level = refl; same_stack = refl }
fine_chain-SamePatterns (suc fuel) x t s =
    let next = ((fine_one x s).chans x).np in
    let ih = fine_chain-SamePatterns fuel next t (fine_one x s) in
    elim (x == 0)
      as (λ b.
        SamePatterns t s (elim b [ true ↦ s | false ↦ fine_chain fuel next (fine_one x s) ])) [
          | true ↦ record { same_level = refl; same_stack = refl }
          | false ↦
              SamePatterns-trans t s (fine_one x s) (fine_chain fuel next (fine_one x s))
                (fine_one-SamePatterns t x s) ih
        ]

ply_fine-SamePatterns : (fuel t : ℕ) (s : Store) → SamePatterns t s (ply_fine fuel t s)
unfolding ply_fine
ply_fine-SamePatterns fuel t s =
    let k = fine_chain-SamePatterns fuel (s.tracks t).chan t s in
    record { same_level = ground (arith, k.same_level); same_stack = ground (arith, k.same_stack) }

release_key-tracks : (fuel key x : ℕ) (s : Store) → (release_key fuel key x s).tracks ≡ s.tracks
unfolding release_key
release_key-tracks zero key x s = refl
release_key-tracks (suc fuel) key x s =
    let ih = release_key-tracks fuel key (s.chans x).np s in ground (arith, ih)

ply_endtie-SamePatterns : (fuel t : ℕ) (s : Store) → SamePatterns t s (ply_endtie fuel t s)
unfolding ply_endtie
ply_endtie-SamePatterns fuel t s =
    let k = s.tracks t in
    let key = if ltb (byte_at t s) 0x80 then byte_at t s else k.key in
    let s' =
      if ltb (byte_at t s) 0x80
      then set_track t (record (passed k) { key = byte_at t s }) s
      else s in
    let e : (release_key fuel key k.chan s').tracks ≡ s'.tracks =
      release_key-tracks fuel key k.chan s' in
    record {
      same_level = ap (λ (f : ℕ → Track). (f t).pattern_level) e ∙ ground arith;
      same_stack = ap (λ (f : ℕ → Track). (f t).pattern_stack) e ∙ ground arith;
    }

abbrev pub is_pattern : Command → Bool
is_pattern patt = true
is_pattern pend = true
is_pattern other = false

-- ClearModM leaves the pattern stack alone.
abbrev pub KeepsPatterns : (Track → Track) → Type 0
KeepsPatterns f =
    (k : Track) → ((f k).pattern_level ≡ k.pattern_level) × ((f k).pattern_stack ≡ k.pattern_stack)

module _ (h : Header) (clear_mod_m-keeps : KeepsPatterns h.clear_mod_m) (t : ℕ) (s : Store) where
  ply_lfos-SamePatterns : SamePatterns t s (ply_lfos h t s)
  unfolding ply_lfos
  ply_lfos-SamePatterns =
      let k = record (passed (s.tracks t)) { lfo_speed = byte_at t s } in
      record {
        same_level = ground (arith, (clear_mod_m-keeps k).0);
        same_stack = ground (arith, (clear_mod_m-keeps k).1);
      }

  ply_mod-SamePatterns : SamePatterns t s (ply_mod h t s)
  unfolding ply_mod
  ply_mod-SamePatterns =
      let k = record (passed (s.tracks t)) { mod_depth = byte_at t s } in
      record {
        same_level = ground (arith, (clear_mod_m-keeps k).0);
        same_stack = ground (arith, (clear_mod_m-keeps k).1);
      }

  pub handle-SamePatterns :
      (fuel : ℕ) (c : Command) → is_pattern c ≡ false → SamePatterns t s (handle h fuel c t s)
  unfolding handle ply_goto ply_rept ply_prio ply_tempo ply_keysh ply_voice ply_vol ply_pan ply_bend
      ply_bendr ply_lfodl ply_modt ply_tune ply_port
  handle-SamePatterns fuel fine e = ply_fine-SamePatterns fuel t s
  handle-SamePatterns fuel patt e = cc
  handle-SamePatterns fuel pend e = cc
  handle-SamePatterns fuel lfos e = ply_lfos-SamePatterns
  handle-SamePatterns fuel modulation e = ply_mod-SamePatterns
  handle-SamePatterns fuel endtie e = ply_endtie-SamePatterns fuel t s
  handle-SamePatterns fuel goto e = record { same_level = ground arith; same_stack = ground arith }
  handle-SamePatterns fuel rept e = record { same_level = ground arith; same_stack = ground arith }
  handle-SamePatterns fuel prio e = record { same_level = ground arith; same_stack = ground arith }
  handle-SamePatterns fuel tempo e = record { same_level = ground arith; same_stack = ground arith }
  handle-SamePatterns fuel keysh e = record { same_level = ground arith; same_stack = ground arith }
  handle-SamePatterns fuel voice e = record { same_level = ground arith; same_stack = ground arith }
  handle-SamePatterns fuel volume e = record {
    same_level = ground arith;
    same_stack = ground arith;
  }
  handle-SamePatterns fuel panning e = record {
    same_level = ground arith;
    same_stack = ground arith;
  }
  handle-SamePatterns fuel bending e = record {
    same_level = ground arith;
    same_stack = ground arith;
  }
  handle-SamePatterns fuel bendr e = record { same_level = ground arith; same_stack = ground arith }
  handle-SamePatterns fuel lfodl e = record { same_level = ground arith; same_stack = ground arith }
  handle-SamePatterns fuel modt e = record { same_level = ground arith; same_stack = ground arith }
  handle-SamePatterns fuel tuning e = record {
    same_level = ground arith;
    same_stack = ground arith;
  }
  handle-SamePatterns fuel port e = record { same_level = ground arith; same_stack = ground arith }
