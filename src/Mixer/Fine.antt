-- ===== src/Mixer/Fine.antt =====
-- platform/m4a_mixer.c, ply_fine: the end of a track lets go of every channel.
use katam_port.Base.{ℕ, ◌≡◌, ◌≢◌, List, All}
use katam_port.Mixer.{Store, released}

-- What the loop of ply_fine leaves of a chain: nothing owns its channels any more, each has been put
-- into release if it sounds, no other channel has changed, and the track has none.
pub record Cleared (t : ℕ) (xs : List ℕ) (s r : Store) : Type 0 where
  pub unowned : All (λ x. (r.chans x).track ≡ 0) xs
  pub released_all : All (λ x. (r.chans x).status ≡ released (s.chans x).status) xs
  pub others : (z : ℕ) → All (λ y. y ≢ z) xs → r.chans z ≡ s.chans z
  pub no_channel : (r.tracks t).chan ≡ 0
