-- ===== src/Mixer/Commands.antt =====
-- platform/m4a_mixer.c: the commands of a track, and the table that dispatches them.
use katam_port.Base.{
  ℕ, zero, suc, ◌+◌, ◌-◌, ◌*◌, ◌/◌, ◌^◌, Bool, not, ◌&&◌, ltb, leb, ◌==◌, if◌then◌else◌, update, u8,
  u16, u32, bit_and, bit_or, List, [], ◌∷◌,
}
use katam_port.Mixer.{Chan, Track, Store, set_chan, set_track, ply_fine}

-- MPT_FLG_VOLCHG, MPT_FLG_PITCHG, C_V, REG_ADDR_NR10 and ClearModM
pub record Header : Type 0 where
  pub volchg : ℕ
  pub pitchg : ℕ
  pub c_v : ℕ
  pub nr10 : ℕ
  pub clear_mod_m : Track → Track

-- The byte at a track's position, and a track behind it.
abbrev pub byte_at : ℕ → Store → ℕ
byte_at t s = s.mem (s.tracks t).cmd_ptr

-- ReadCmd
abbrev pub passed : Track → Track
passed k = record k { cmd_ptr = k.cmd_ptr + 1 }

-- `(s8)(ReadCmd(track) - C_V)`
abbrev pub centred : Header → ℕ → ℕ
centred h b = u8 (b + 2 ^ 8 - h.c_v)

unfoldable pub ply_goto : ℕ → Store → Store
ply_goto t s =
    let k = s.tracks t in
    let p = k.cmd_ptr in
    set_track t
      (record k {
        cmd_ptr = s.mem p + s.mem (p + 1) * 2 ^ 8 + s.mem (p + 2) * 2 ^ 16 + s.mem (p + 3) * 2 ^ 24;
      })
      s

-- ply_patt; the fuel is that of ply_fine.
unfoldable pub ply_patt : ℕ → ℕ → Store → Store
ply_patt fuel t s =
    let k = s.tracks t in
    let called = record k {
      pattern_stack = update k.pattern_stack k.pattern_level (k.cmd_ptr + 4);
      pattern_level = u8 (k.pattern_level + 1);
    } in
    if leb 3 k.pattern_level then ply_fine fuel t s else ply_goto t (set_track t called s)

unfoldable pub ply_pend : ℕ → Store → Store
ply_pend t s =
    let k = s.tracks t in
    let level = k.pattern_level - 1 in
    if k.pattern_level == 0
    then s
    else set_track t (record k { pattern_level = level; cmd_ptr = k.pattern_stack level }) s

unfoldable pub ply_rept : ℕ → Store → Store
ply_rept t s =
    let k = s.tracks t in
    let count = byte_at t s in
    let rep_n = u8 (k.rep_n + 1) in
    if count == 0
    then ply_goto t (set_track t (passed k) s)
    else if ltb rep_n count
    then ply_goto t (set_track t (record k { rep_n = rep_n; cmd_ptr = k.cmd_ptr + 1 }) s)
    else set_track t (record k { rep_n = 0; cmd_ptr = k.cmd_ptr + 5 }) s

unfoldable pub ply_prio : ℕ → Store → Store
ply_prio t s = set_track t (record (passed (s.tracks t)) { priority = byte_at t s }) s

unfoldable pub ply_tempo : ℕ → Store → Store
ply_tempo t s =
    let d = byte_at t s * 2 in
    record (set_track t (passed (s.tracks t)) s) {
      tempo_d = d;
      tempo_i = u16 (u32 (s.tempo_u * d) / 2 ^ 8);
    }

unfoldable pub ply_keysh : Header → ℕ → Store → Store
ply_keysh h t s =
    let k = s.tracks t in
    set_track t (record (passed k) { key_shift = byte_at t s; flags = bit_or k.flags h.pitchg }) s

unfoldable pub ply_voice : ℕ → Store → Store
ply_voice t s = set_track t (record (passed (s.tracks t)) { tone = s.tones (byte_at t s) }) s

unfoldable pub ply_vol : Header → ℕ → Store → Store
ply_vol h t s =
    let k = s.tracks t in
    set_track t (record (passed k) { vol = byte_at t s; flags = bit_or k.flags h.volchg }) s

unfoldable pub ply_pan : Header → ℕ → Store → Store
ply_pan h t s =
    let k = s.tracks t in
    set_track t
      (record (passed k) { pan = centred h (byte_at t s); flags = bit_or k.flags h.volchg }) s

unfoldable pub ply_bend : Header → ℕ → Store → Store
ply_bend h t s =
    let k = s.tracks t in
    set_track t
      (record (passed k) { bend = centred h (byte_at t s); flags = bit_or k.flags h.pitchg }) s

unfoldable pub ply_bendr : Header → ℕ → Store → Store
ply_bendr h t s =
    let k = s.tracks t in
    set_track t (record (passed k) { bend_range = byte_at t s; flags = bit_or k.flags h.pitchg }) s

unfoldable pub ply_lfodl : ℕ → Store → Store
ply_lfodl t s = set_track t (record (passed (s.tracks t)) { lfo_delay = byte_at t s }) s

unfoldable pub ply_modt : Header → ℕ → Store → Store
ply_modt h t s =
    let k = s.tracks t in
    let changed = record (passed k) {
      mod_t = byte_at t s;
      flags = bit_or k.flags (bit_or h.volchg h.pitchg);
    } in
    set_track t (if k.mod_t == byte_at t s then passed k else changed) s

unfoldable pub ply_tune : Header → ℕ → Store → Store
ply_tune h t s =
    let k = s.tracks t in
    set_track t
      (record (passed k) { tune = centred h (byte_at t s); flags = bit_or k.flags h.pitchg }) s

unfoldable pub ply_port : Header → ℕ → Store → Store
ply_port h t s =
    let k = s.tracks t in
    let value = s.mem (k.cmd_ptr + 1) in
    record (set_track t (record k { cmd_ptr = k.cmd_ptr + 2 }) s) {
      mem = update s.mem (h.nr10 + byte_at t s) value;
    }

unfoldable pub ply_lfos : Header → ℕ → Store → Store
ply_lfos h t s =
    let k = record (passed (s.tracks t)) { lfo_speed = byte_at t s } in
    set_track t (if byte_at t s == 0 then h.clear_mod_m k else k) s

unfoldable pub ply_mod : Header → ℕ → Store → Store
ply_mod h t s =
    let k = record (passed (s.tracks t)) { mod_depth = byte_at t s } in
    set_track t (if byte_at t s == 0 then h.clear_mod_m k else k) s

-- `(chan->status & 0x83) && !(chan->status & 0x40) && chan->mk == key`
abbrev pub still_holds : Chan → ℕ → Bool
still_holds c key =
    not (bit_and c.status 0x83 == 0) && (bit_and c.status 0x40 == 0 && (c.mk == key))

-- The loop of ply_endtie, with fuel: a channel of the chain each round.
unfoldable pub release_key : ℕ → ℕ → ℕ → Store → Store
release_key zero key x s = s
release_key (suc fuel) key x s =
    let c = s.chans x in
    let rest = release_key fuel key c.np s in
    if x == 0
    then s
    else if still_holds c key
    then set_chan x (record c { status = bit_or c.status 0x40 }) s
    else rest

unfoldable pub ply_endtie : ℕ → ℕ → Store → Store
ply_endtie fuel t s =
    let k = s.tracks t in
    let key = if ltb (byte_at t s) 0x80 then byte_at t s else k.key in
    let s' =
      if ltb (byte_at t s) 0x80
      then set_track t (record (passed k) { key = byte_at t s }) s
      else s in
    release_key fuel key k.chan s'

pub data Command : Type 0 where
  fine : Command
  goto : Command
  patt : Command
  pend : Command
  rept : Command
  prio : Command
  tempo : Command
  keysh : Command
  voice : Command
  volume : Command
  panning : Command
  bending : Command
  bendr : Command
  lfos : Command
  lfodl : Command
  modulation : Command
  modt : Command
  tuning : Command
  port : Command
  endtie : Command

-- A call through the table, for the handler of each constructor's name.
unfoldable pub handle : Header → ℕ → Command → ℕ → Store → Store
handle h fuel fine t s = ply_fine fuel t s
handle h fuel goto t s = ply_goto t s
handle h fuel patt t s = ply_patt fuel t s
handle h fuel pend t s = ply_pend t s
handle h fuel rept t s = ply_rept t s
handle h fuel prio t s = ply_prio t s
handle h fuel tempo t s = ply_tempo t s
handle h fuel keysh t s = ply_keysh h t s
handle h fuel voice t s = ply_voice t s
handle h fuel volume t s = ply_vol h t s
handle h fuel panning t s = ply_pan h t s
handle h fuel bending t s = ply_bend h t s
handle h fuel bendr t s = ply_bendr h t s
handle h fuel lfos t s = ply_lfos h t s
handle h fuel lfodl t s = ply_lfodl t s
handle h fuel modulation t s = ply_mod h t s
handle h fuel modt t s = ply_modt h t s
handle h fuel tuning t s = ply_tune h t s
handle h fuel port t s = ply_port h t s
handle h fuel endtie t s = ply_endtie fuel t s

-- sJumpTableTemplate at the indices of commands, 0 to 29
unfoldable pub jump_table : List Command
jump_table =
    fine ∷ goto ∷ patt ∷ pend ∷ rept ∷ fine ∷ fine ∷ fine ∷ fine ∷ prio ∷ tempo ∷ keysh ∷ voice
    ∷ volume ∷ panning ∷ bending ∷ bendr ∷ lfos ∷ lfodl ∷ modulation ∷ modt ∷ fine ∷ fine ∷ tuning
    ∷ fine ∷ fine ∷ fine ∷ port ∷ fine ∷ endtie ∷ []
