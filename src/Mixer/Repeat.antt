-- ===== src/Mixer/Repeat.antt =====
-- platform/m4a_mixer.c, ply_rept: how often a loop of a track is played.
use katam_port.Base.{ℕ, zero, suc, ◌+◌, ◌*◌, ◌^◌, ◌≡◌}
use katam_port.Mixer.{Store}
use katam_port.Mixer.Commands.{ply_rept}

-- The address behind the count, with the low byte first.
abbrev pub loop_start : (ℕ → ℕ) → ℕ → ℕ
loop_start mem p = mem (p + 1) + mem (p + 2) * 2 ^ 8 + mem (p + 3) * 2 ^ 16 + mem (p + 4) * 2 ^ 24

-- The track stands at a place, with so many rounds behind it of the loop whose command's count is at p.
pub record At (t p count start place rounds : ℕ) (s : Store) : Type 0 where
  pub position : (s.tracks t).cmd_ptr ≡ place
  pub count_byte : s.mem p ≡ count
  pub address : loop_start s.mem p ≡ start
  pub behind : (s.tracks t).rep_n ≡ rounds

-- The commands between the start of the loop and its end.
module _ (t : ℕ) (body : Store → Store) where
  abbrev pub plays : ℕ → Store → Store
  plays zero s = s
  plays (suc n) s = body (ply_rept t (plays n s))
