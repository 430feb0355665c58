-- ===== src/Rollback/Log/Decode.antt =====
-- platform/rollback.c: PortRbDecodeLog. `src` is the list of the bytes from `off` on, and its length
-- what is left of `len`. A refused log returns -1, `none`, and leaves what was written so far.
use katam_port.Base.{
  ℕ, zero, suc, ◌+◌, ◌-◌, ◌*◌, ◌/◌, ◌%◌, Bool, true, false, ◌&&◌, Option, none, some, List, [], ◌∷◌,
  ltb, leb, ◌==◌, if◌then◌else◌, length, get_or, take, drop, get16, get32,
}
use katam_port.Rollback.State.{
  Timeline, Session, Event, Heap, rb_players, max_events, keys_mod, cell,
}
use katam_port.Rollback.Timeline.{timeline_reserve}
use katam_port.Rollback.Input.{write_known}
use katam_port.Rollback.Log.Encode.{log_magic}

-- `while (n-- > 0 && f < frames)`: the frame that the loop stops at, and the timeline.
unfoldable pub write_run : ℕ → ℕ → ℕ → ℕ → ℕ → Timeline → ℕ × Timeline
write_run player frames v zero f tl = (f, tl)
write_run player frames v (suc n) f tl = elim (ltb f frames) [
  | true ↦ write_run player frames v n (f + 1) (write_known tl (cell f player) v)
  | false ↦ (f, tl)
]

-- The runs of one player: the bytes behind them, if they cover the frames.
unfoldable pub decode_runs : ℕ → ℕ → ℕ → ℕ → List ℕ → Timeline → Option (List ℕ) × Timeline
decode_runs player frames zero f src tl = (if f == frames then some src else none, tl)
decode_runs player frames (suc r) f src tl = elim (ltb (length src) 2) [
  | true ↦ (none, tl)
  | false ↦
      let w = get16 src in
      let (f', tl') = write_run player frames (w % keys_mod) (w / keys_mod % 64 + 1) f tl in
      decode_runs player frames r f' (drop 2 src) tl'
]

-- The players from `player` on, with the counts of their runs. What follows a refusal is skipped.
unfoldable pub decode_players :
    ℕ → List ℕ → ℕ → Option (List ℕ) × Timeline → Option (List ℕ) × Timeline
unfolding decode_runs write_run
decode_players frames [] player r = r
decode_players frames (n ∷ ns) player (none, tl) = (none, tl)
decode_players frames (n ∷ ns) player (some src, tl) =
    decode_players frames ns (player + 1) (decode_runs player frames n 0 src tl)

abbrev pub read_event : List ℕ → Event
read_event src = record {
  at = get32 src;
  kind = get_or src 4 0;
  a = get_or src 5 0;
  b = get_or src 6 0;
}

-- The events that are read, and whether the bytes held them all; at most `room` are kept.
unfoldable pub decode_events : ℕ → ℕ → List ℕ → Bool × List Event
decode_events zero room src = (true, [])
decode_events (suc n) zero src = (true, [])
decode_events (suc n) (suc room) src = elim (ltb (length src) 7) [
  | true ↦ (false, [])
  | false ↦ let (done, es) = decode_events n room (drop 7 src) in (done, read_event src ∷ es)
]

-- The memsets of both arrays over their capacity.
abbrev pub wipe : Timeline → Timeline
wipe tl = record tl {
  keys = λ i. if ltb i (tl.cap * rb_players) then 0 else tl.keys i;
  known = λ i. if ltb i (tl.cap * rb_players) then false else tl.known i;
}

-- From `sNumEvents = 0` on, with the runs decoded.
unfoldable pub decode_tail : ℕ → ℕ → ℕ → Session → Option (List ℕ) × Timeline → Option ℕ × Session
decode_tail frames players events s (none, tl) = (none, record s { tl = tl })
decode_tail frames players events s (some src, tl) =
    let (done, es) = decode_events events max_events src in
    if done
    then (
      some frames,
      record s {
        tl = record tl { len = frames };
        events = es;
        players = players;
        confirmed = frames;
      },
    )
    else (none, record s { tl = tl; events = es })

unfoldable pub decode_body : Heap → ℕ → ℕ → ℕ → List ℕ → List ℕ → Session → Option ℕ × Session
decode_body heap frames players events runs src s = elim (timeline_reserve heap s.tl (frames - 1)) [
  | none ↦ (none, s)
  | some tl ↦
      decode_tail frames players events s
        (decode_players frames (take players runs) 0 (some src, wipe tl))
]

abbrev pub read_runs : List ℕ → List ℕ
read_runs src =
    get32 (drop 12 src) ∷ get32 (drop 16 src) ∷ get32 (drop 20 src) ∷ get32 (drop 24 src) ∷ []

-- The shortest log that the length check lets through: 16 + 4 * PORT_RB_PLAYERS.
abbrev pub min_log : ℕ
min_log = 16 + 4 * rb_players

unfoldable pub decode_log : Heap → List ℕ → Session → Option ℕ × Session
decode_log heap src s =
    if s.active && leb min_log (length src) && (get32 src == log_magic)
    then (let players = get16 (drop 8 src) in
        if leb 1 players && leb players rb_players
        then decode_body heap (get32 (drop 4 src)) players (get16 (drop 10 src)) (read_runs src)
            (drop 28 src) s
        else (none, s))
    else (none, s)
