-- ===== src/Rollback/Log/RoundTrip.antt =====
-- platform/rollback.c: PortRbDecodeLog reads back what PortRbEncodeLog writes.
use katam_port.Base.{
  ℕ, zero, suc, ◌+◌, ◌-◌, ◌*◌, ◌^◌, ◌≤◌, ◌<◌, ◌≡◌, refl, ◌∙◌, true, none, some, List, [], ◌∷◌, ◌++◌,
  length, length-append, put16, put32, get16, get32, drop, take, arith, All,
}
use katam_port.Rollback.State.{Timeline, Session, Heap, rb_players, max_events, cell}
use katam_port.Rollback.Log.Encode.{
  log_magic, header_runs, encode_header, encode_players, encode_events, log_bytes, log_size,
  count_runs, encode_runs,
}
use katam_port.Rollback.Timeline.{timeline_reserve}
use katam_port.Rollback.Log.Decode.{decode_log, decode_body, decode_tail, wipe, min_log}
use katam_port.Rollback.Log.Fill.{fill_players_from}
use katam_port.Rollback.Log.Parts.{
  IsMasked, IsEncodable, count_runs-le, length-encode_runs, length-encode_events, run_counts,
  decode_players-encode, decode_events-encode,
}

-- A session that can be written down: one to four players, a timeline whose cells do not wrap, and
-- events that fit their bytes.
pub record IsLoggable (s : Session) : Type 0 where
  pub on : s.active ≡ true
  pub some_players : 1 ≤ s.players
  pub few_players : s.players ≤ rb_players
  pub short : s.tl.len < 2 ^ 28
  pub masked : IsMasked s.tl
  pub few_events : length s.events ≤ max_events
  pub encodable : All IsEncodable s.events

header_runs-le : (s : Session) (p : ℕ) → header_runs s p ≤ s.tl.len
unfolding header_runs
header_runs-le s p = ground (arith, count_runs-le s.tl p s.tl.len)

-- What the decoder reads of a header in front of any bytes.
record Reads (s : Session) (src rest : List ℕ) : Type 0 where
  magic : get32 src ≡ log_magic
  frames : get32 (drop 4 src) ≡ s.tl.len
  players : get16 (drop 8 src) ≡ s.players
  events : get16 (drop 10 src) ≡ length s.events
  run0 : get32 (drop 12 src) ≡ header_runs s 0
  run1 : get32 (drop 16 src) ≡ header_runs s 1
  run2 : get32 (drop 20 src) ≡ header_runs s 2
  run3 : get32 (drop 24 src) ≡ header_runs s 3
  body : drop 28 src ≡ rest
  size : length src ≡ 28 + length rest

encode_header-Reads :
    (s : Session) (rest : List ℕ) → IsLoggable s → Reads s (encode_header s ++ rest) rest
unfolding encode_header put32 put16 get32 get16
encode_header-Reads s rest v = record {
  magic = omega arith;
  frames = omega (arith, v.short);
  players = omega (arith, v.few_players);
  events = omega (arith, v.few_events);
  run0 = omega (arith, v.short, header_runs-le s 0);
  run1 = omega (arith, v.short, header_runs-le s 1);
  run2 = omega (arith, v.short, header_runs-le s 2);
  run3 = omega (arith, v.short, header_runs-le s 3);
  body = refl;
  size = omega arith;
}

-- The runs of the players from `p` on, `n` of them.
total_runs : Session → ℕ → ℕ → ℕ
total_runs s zero p = 0
total_runs s (suc n) p = count_runs s.tl p s.tl.len + total_runs s n (p + 1)

length-encode_players :
    (s : Session) (n p : ℕ) → IsMasked s.tl → length (encode_players s n p) ≡ 2 * total_runs s n p
unfolding total_runs encode_players
length-encode_players s zero p h = refl
length-encode_players s (suc n) p h = omega (
  arith,
  length-append (encode_runs s.tl p s.tl.len) (encode_players s n (p + 1)),
  length-encode_runs s.tl p s.tl.len h,
  length-encode_players s n (p + 1) h,
)

-- The header counts the players' runs, and nothing for the others.
counts_of :
    (s : Session) (n : ℕ)
    → s.players ≡ n
    → n ≤ rb_players
    → (header_runs s 0 + header_runs s 1 + header_runs s 2 + header_runs s 3 ≡ total_runs s n 0)
      × (take n (header_runs s 0 ∷ header_runs s 1 ∷ header_runs s 2 ∷ header_runs s 3 ∷ [])
          ≡ run_counts s n 0)
unfolding header_runs total_runs run_counts
counts_of s zero e h = ground arith
counts_of s (suc zero) e h = ground arith
counts_of s (suc (suc zero)) e h = ground arith
counts_of s (suc (suc (suc zero))) e h = ground arith
counts_of s (suc (suc (suc (suc zero)))) e h = ground arith
counts_of s (suc (suc (suc (suc (suc n))))) e h = absurd (omega arith)

-- The size that PortRbEncodeLog asks the caller for, in a session whose log is of fewer than 2 ^ 28
-- frames, is the number of the bytes that it writes.
pub length-log_bytes : (s : Session) → IsLoggable s → length (log_bytes s) ≡ log_size s
unfolding log_bytes log_size
length-log_bytes s v = omega (
  arith,
  (encode_header-Reads s (encode_players s s.players 0 ++ encode_events s.events) v).size,
  length-append (encode_players s s.players 0) (encode_events s.events),
  length-encode_players s s.players 0 v.masked,
  length-encode_events s.events,
  (counts_of s s.players refl v.few_players).0,
  header_runs-le s 0,
  header_runs-le s 1,
  header_runs-le s 2,
  header_runs-le s 3,
)

-- The timeline of the decoded session is that of the encoded one.
pub record Same (s : Session) (d : Session) : Type 0 where
  pub same_len : d.tl.len ≡ s.tl.len
  pub same_players : d.players ≡ s.players
  pub all_confirmed : d.confirmed ≡ s.tl.len
  pub same_events : d.events ≡ s.events
  pub same_keys :
      (player frame : ℕ)
      → player < s.players
      → frame < s.tl.len
      → (d.tl.keys (cell frame player) ≡ s.tl.keys (cell frame player))
        × (d.tl.known (cell frame player) ≡ true)

-- The session that decoding the log of `s` in the session `d` leaves.
abbrev pub decoded : Session → Timeline → Session → Session
decoded s tl d = record d {
  tl = record (fill_players_from s s.players 0 (wipe tl)) { len = s.tl.len };
  events = s.events;
  players = s.players;
  confirmed = s.tl.len;
}

decode_tail-encode :
    (s d : Session) (tl : Timeline)
    → IsLoggable s
    → decode_tail s.tl.len s.players
        (length s.events)
        d
        (some (encode_events s.events), fill_players_from s s.players 0 (wipe tl))
      ≡ (some s.tl.len, decoded s tl d)
unfolding decode_tail
decode_tail-encode s d tl v = rw (decode_events-encode s.events max_events v.few_events v.encodable)

decode_body-encode :
    (heap : Heap) (s d : Session) (tl : Timeline)
    → IsLoggable s
    → timeline_reserve heap d.tl (s.tl.len - 1) ≡ some tl
    → decode_body heap s.tl.len s.players
        (length s.events)
        (header_runs s 0 ∷ header_runs s 1 ∷ header_runs s 2 ∷ header_runs s 3 ∷ [])
        (encode_players s s.players 0 ++ encode_events s.events)
        d
      ≡ (some s.tl.len, decoded s tl d)
unfolding decode_body
decode_body-encode heap s d tl v room =
    rw (room, decode_body)
      (rw (counts_of s s.players refl v.few_players).1 (
        rw (decode_players-encode s v.masked s.players 0 (encode_events s.events) (wipe tl))
          (decode_tail-encode s d tl v)))

decode_log-Reads :
    (heap : Heap) (s d : Session) (src rest : List ℕ)
    → IsLoggable s
    → Reads s src rest
    → d.active ≡ true
    → min_log ≤ length src
    → decode_log heap src d
      ≡ decode_body heap s.tl.len s.players
          (length s.events)
          (header_runs s 0 ∷ header_runs s 1 ∷ header_runs s 2 ∷ header_runs s 3 ∷ [])
          rest
          d
unfolding decode_log
decode_log-Reads heap s d src rest v r on long = ground arith

pub decode_log-decoded :
    (heap : Heap) (s d : Session) (tl : Timeline)
    → IsLoggable s
    → d.active ≡ true
    → min_log ≤ log_size s
    → timeline_reserve heap d.tl (s.tl.len - 1) ≡ some tl
    → decode_log heap (log_bytes s) d ≡ (some s.tl.len, decoded s tl d)
unfolding log_bytes
decode_log-decoded heap s d tl v on long room =
    decode_log-Reads heap s d (log_bytes s) src v (encode_header-Reads s src v) on
      (omega (arith, length-log_bytes s v))
    ∙ decode_body-encode heap s d tl v room
  where
    src : List ℕ
    src = encode_players s s.players 0 ++ encode_events s.events

-- The length check refuses a log of fewer than 32 bytes, though the header is of 28: what a session
-- of one player whose keys form one run writes is not read back, and nothing is changed.
pub decode_log-short :
    (heap : Heap) (s d : Session)
    → IsLoggable s
    → log_size s < min_log
    → decode_log heap (log_bytes s) d ≡ (none, d)
unfolding decode_log
decode_log-short heap s d v short = ground (arith, length-log_bytes s v)
