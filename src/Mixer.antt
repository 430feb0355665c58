-- ===== src/Mixer.antt =====
-- platform/m4a_mixer.c: the commands of a track, and the channels that it owns. A pointer to a channel
-- or a track is a number, and 0 is NULL; a track's commands are bytes of the memory. The flags and
-- ClearModM of the game's headers are a parameter.
pub mod Chain
pub mod Choice
pub mod Chosen
pub mod Commands
pub mod Fine
pub mod Patterns
pub mod Repeat
pub mod Seen
pub mod Stack
pub mod Stop
mod Tests
use katam_port.Base.{
  ℕ, zero, suc, ◌+◌, ◌-◌, ◌*◌, ◌/◌, ◌%◌, ◌^◌, Bool, true, false, not, ◌&&◌, ltb, leb, ◌==◌,
  if◌then◌else◌, update, u8, u32, bit_and, bit_or, List,
}

-- The fields of struct SoundChannel that these functions use; `kind` is its type.
pub record Chan : Type 0 where
  pub status : ℕ
  pub kind : ℕ
  pub mk : ℕ
  pub pr : ℕ
  pub np : ℕ
  pub pp : ℕ
  pub track : ℕ

-- The fields of struct MusicPlayerTrack that these functions use. A signed byte stands as its bits;
-- `tone` is the voice, and `chan` the first channel.
pub record Track : Type 0 where
  pub flags : ℕ
  pub cmd_ptr : ℕ
  pub pattern_level : ℕ
  pub pattern_stack : ℕ → ℕ
  pub rep_n : ℕ
  pub priority : ℕ
  pub key_shift : ℕ
  pub tone : ℕ
  pub vol : ℕ
  pub pan : ℕ
  pub bend : ℕ
  pub bend_range : ℕ
  pub lfo_delay : ℕ
  pub mod_t : ℕ
  pub tune : ℕ
  pub lfo_speed : ℕ
  pub mod_depth : ℕ
  pub key : ℕ
  pub chan : ℕ

-- The memory, the channels, the tracks, the player's tempoD, tempoI, tempoU and tone, and the
-- oscillators that CgbOscOff has been called for.
pub record Store : Type 0 where
  pub mem : ℕ → ℕ
  pub chans : ℕ → Chan
  pub tracks : ℕ → Track
  pub tempo_d : ℕ
  pub tempo_i : ℕ
  pub tempo_u : ℕ
  pub tones : ℕ → ℕ
  pub switched_off : List ℕ

abbrev pub set_chan : ℕ → Chan → Store → Store
set_chan x c s = record s { chans = update s.chans x c }

abbrev pub set_track : ℕ → Track → Store → Store
set_track t k s = record s { tracks = update s.tracks t k }

-- RealClearChain
abbrev pub unlink_back : Chan → Store → Store
unlink_back c s =
    if not (c.pp == 0)
    then set_chan c.pp (record (s.chans c.pp) { np = c.np }) s
    else set_track c.track (record (s.tracks c.track) { chan = c.np }) s

abbrev pub unlink_next : Chan → Store → Store
unlink_next c s =
    if not (c.np == 0) then set_chan c.np (record (s.chans c.np) { pp = c.pp }) s else s

unfoldable pub real_clear_chain : ℕ → Store → Store
real_clear_chain x s =
    let c = s.chans x in
    let s' = unlink_next c (unlink_back c s) in
    if c.track == 0 then s else set_chan x (record (s'.chans x) { track = 0 }) s'

-- `if (chan->status & 0xC7) chan->status |= 0x40;`
unfoldable pub released : ℕ → ℕ
released status = if bit_and status 0xC7 == 0 then status else bit_or status 0x40

-- A round of the loop of ply_fine.
unfoldable pub fine_one : ℕ → Store → Store
fine_one x s =
    real_clear_chain x (set_chan x (record (s.chans x) { status = released (s.chans x).status }) s)

-- The loop, with fuel: a channel of the chain each round.
unfoldable pub fine_chain : ℕ → ℕ → Store → Store
fine_chain zero x s = s
fine_chain (suc fuel) x s = elim (x == 0) [
  | true ↦ s
  | false ↦ fine_chain fuel ((fine_one x s).chans x).np (fine_one x s)
]

-- ply_fine
unfoldable pub ply_fine : ℕ → ℕ → Store → Store
ply_fine fuel t s =
    let s' = fine_chain fuel (s.tracks t).chan s in
    set_track t (record (s'.tracks t) { flags = 0 }) s'
