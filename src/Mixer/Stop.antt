-- ===== src/Mixer/Stop.antt =====
-- platform/m4a_mixer.c, TrackStop: every channel of a track falls silent.
use katam_port.Base.{
  ℕ, zero, suc, ◌≡◌, ◌≢◌, true, false, not, ◌&&◌, List, [], ◌∷◌, ◌++◌, ◌==◌, if◌then◌else◌, All,
  bit_and,
}
use katam_port.Mixer.{Chan, Store, set_chan, set_track}

-- `chan->status != 0` of a channel with a CGB oscillator, and what is called for it.
abbrev pub oscillator : Chan → List ℕ
oscillator c =
    if not (c.status == 0) && not (bit_and c.kind 7 == 0) then bit_and c.kind 7 ∷ [] else []

-- A round of the loop of TrackStop.
unfoldable pub stop_one : ℕ → Store → Store
stop_one x s = record (set_chan x (record (s.chans x) { status = 0; track = 0 }) s) {
  switched_off = s.switched_off ++ oscillator (s.chans x);
}

-- The loop, with fuel: a channel of the chain each round.
unfoldable pub stop_chain : ℕ → ℕ → Store → Store
stop_chain zero x s = s
stop_chain (suc fuel) x s = elim (x == 0) [
  | true ↦ s
  | false ↦ stop_chain fuel ((stop_one x s).chans x).np (stop_one x s)
]

-- TrackStop; the first number is MPT_FLG_EXIST.
unfoldable pub track_stop : ℕ → ℕ → ℕ → Store → Store
track_stop exist fuel t s =
    let s' = stop_chain fuel (s.tracks t).chan s in
    if bit_and (s.tracks t).flags exist == 0
    then s
    else set_track t (record (s'.tracks t) { chan = 0 }) s'

-- The oscillators of the channels, in the order of the chain.
abbrev pub oscillators : (ℕ → Chan) → List ℕ → List ℕ
oscillators chans [] = []
oscillators chans (x ∷ xs) = oscillator (chans x) ++ oscillators chans xs

-- What the loop leaves of a chain.
pub record Stopped (xs : List ℕ) (s r : Store) : Type 0 where
  pub silent : All (λ x. r.chans x ≡ record (s.chans x) { status = 0; track = 0 }) xs
  pub others : (z : ℕ) → All (λ y. y ≢ z) xs → r.chans z ≡ s.chans z
  pub called : r.switched_off ≡ s.switched_off ++ oscillators s.chans xs

-- The channels that `np` leads to, from `at` to NULL.
abbrev pub Leads : (ℕ → Chan) → ℕ → List ℕ → Type 0
Leads chans at [] = at ≡ 0
Leads chans at (x ∷ xs) = (at ≡ x) × (x ≢ 0) × Leads chans (chans x).np xs
