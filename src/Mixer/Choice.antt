-- ===== src/Mixer/Choice.antt =====
-- platform/m4a_mixer.c, ply_note: the sample channel that a note gets.
use katam_port.Base.{
  ℕ, zero, suc, ◌≤◌, ◌<◌, ◌≡◌, refl, sym, subst, Bool, true, false, not, ◌&&◌, ltb, leb, Bool-cases,
  ◌⊎◌, inl, inr, ◌==◌, arith, if◌then◌else◌, Option, none, some, bit_and,
}
use katam_port.Mixer.{Chan}

-- `chan->status & 0xC7` and `chan->status & 0x40`
abbrev pub is_taken : Chan → Bool
is_taken c = not (bit_and c.status 0xC7 == 0)

abbrev pub is_releasing : Chan → Bool
is_releasing c = not (bit_and c.status 0x40 == 0)

-- best, bestPriority, bestTrack and haveReleasing
pub record Best : Type 0 where
  pub best : Option ℕ
  pub best_priority : ℕ
  pub best_track : ℕ
  pub have_releasing : Bool

-- A round of the loop, for a channel that is taken.
unfoldable pub consider : Chan → ℕ → Best → Best
consider c i b =
    if is_releasing c && not b.have_releasing
    then record { best = some i; best_priority = c.pr; best_track = c.track; have_releasing = true }
    else if not (is_releasing c) && b.have_releasing
    then b
    else if ltb c.pr b.best_priority
    then record b { best = some i; best_priority = c.pr; best_track = c.track }
    else if c.pr == b.best_priority && leb b.best_track c.track
    then record b { best = some i; best_track = c.track }
    else b

-- The loop, over so many channels from one on.
unfoldable pub best_from : (ℕ → Chan) → ℕ → ℕ → Best → Option ℕ
best_from chans zero i b = b.best
best_from chans (suc rest) i b = elim (is_taken (chans i)) [
  | true ↦ best_from chans rest (suc i) (consider (chans i) i b)
  | false ↦ some i
]

-- The loop as it starts, for a note of a priority from a track.
unfoldable pub choose_channel : (ℕ → Chan) → ℕ → ℕ → ℕ → Option ℕ
choose_channel chans max_chans priority track =
    best_from chans max_chans 0
      (record { best = none; best_priority = priority; best_track = track; have_releasing = false })

-- Of a lower priority, or of the same and from a track that is not at a lower address.
abbrev pub GivesWay : Chan → ℕ → ℕ → Type 0
GivesWay c priority track = (c.pr ≤ priority) × (c.pr ≡ priority → track ≤ c.track)

-- Of a higher priority, or of the same and from a track at a lower address.
abbrev pub Outranks : Chan → ℕ → ℕ → Type 0
Outranks c priority track = (priority ≤ c.pr) × (c.pr ≡ priority → c.track < track)

module _ (chans : ℕ → Chan) (priority track : ℕ) where
  -- What is best of the channels below one.
  pub data Seen (n : ℕ) (b : Best) : Type 0 where
    nobody :
        b ≡ record {
          best = none;
          best_priority = priority;
          best_track = track;
          have_releasing = false;
        }
        → ((j : ℕ) → j < n → (is_releasing (chans j) ≡ false) × Outranks (chans j) priority track)
        → Seen n b
    giving :
        (k : ℕ)
        → k < n
        → b ≡ record {
          best = some k;
          best_priority = (chans k).pr;
          best_track = (chans k).track;
          have_releasing = false;
        }
        → GivesWay (chans k) priority track
        → ((j : ℕ)
            → j < n
            → (is_releasing (chans j) ≡ false) × GivesWay (chans k) (chans j).pr (chans j).track)
        → Seen n b
    fading :
        (k : ℕ)
        → k < n
        → b ≡ record {
          best = some k;
          best_priority = (chans k).pr;
          best_track = (chans k).track;
          have_releasing = true;
        }
        → is_releasing (chans k) ≡ true
        → ((j : ℕ)
            → j < n
            → is_releasing (chans j) ≡ true
            → GivesWay (chans k) (chans j).pr (chans j).track)
        → Seen n b

pub all_suc : (P : ℕ → Type 0) (n : ℕ) → ((j : ℕ) → j < n → P j) → P n → (j : ℕ) → j < suc n → P j
all_suc P n h p j lt = elim (lt_or_eq j n lt) [ inl below ↦ h j below | inr e ↦ subst P (sym e) p ]
  where
    lt_or_eq : (j n : ℕ) → j < suc n → (j < n) ⊎ (j ≡ n)
    lt_or_eq j n lt = ground arith

pub ways : (c : Chan) (p t : ℕ) → GivesWay c p t ⊎ Outranks c p t
ways c p t = elim (Bool-cases (leb c.pr p && not (c.pr == p && ltb c.track t))) [
  | inl e ↦ inl (ground arith)
  | inr e ↦ inr (ground arith)
]

pub GivesWay-Outranks :
    (c d : Chan) (p t : ℕ) → GivesWay c p t → Outranks d p t → GivesWay c d.pr d.track
GivesWay-Outranks c d p t g o = ground arith

pub GivesWay-GivesWay :
    (c d : Chan) (p t : ℕ) → GivesWay c d.pr d.track → GivesWay d p t → GivesWay c p t
GivesWay-GivesWay c d p t g h = ground arith

pub Outranks-GivesWay : (c d : Chan) → Outranks d c.pr c.track → GivesWay c d.pr d.track
Outranks-GivesWay c d o = ground arith

module _ (c : Chan) (i : ℕ) (b : Best) where
  pub consider_first :
      is_releasing c ≡ true
      → b.have_releasing ≡ false
      → consider c i b ≡ record {
        best = some i;
        best_priority = c.pr;
        best_track = c.track;
        have_releasing = true;
      }
  unfolding consider
  consider_first r h = rw (r, h) refl

  pub consider_skip : is_releasing c ≡ false → b.have_releasing ≡ true → consider c i b ≡ b
  unfolding consider
  consider_skip r h = rw (r, h) refl

  pub consider-GivesWay :
      is_releasing c ≡ b.have_releasing
      → GivesWay c b.best_priority b.best_track
      → consider c i b ≡ record {
        best = some i;
        best_priority = c.pr;
        best_track = c.track;
        have_releasing = b.have_releasing;
      }
  unfolding consider
  consider-GivesWay r g = ground arith

  pub consider-Outranks :
      is_releasing c ≡ b.have_releasing
      → Outranks c b.best_priority b.best_track
      → consider c i b ≡ b
  unfolding consider
  consider-Outranks r o = ground arith
