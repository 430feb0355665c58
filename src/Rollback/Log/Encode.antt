-- ===== src/Rollback/Log/Encode.antt =====
-- platform/rollback.c: CountRuns and PortRbEncodeLog. A buffer is the list of its bytes.
use katam_port.Base.{
  ℕ, zero, suc, ◌+◌, ◌-◌, ◌*◌, ◌%◌, Option, none, some, List, [], ◌∷◌, ◌++◌, ltb, ◌==◌, u16, u32,
  if◌then◌else◌, length, put16, put32,
}
use katam_port.Rollback.State.{Timeline, Session, Event, keys_mod, cell}

-- 'KRLB'
abbrev pub log_magic : ℕ
log_magic = 0x424C524B

abbrev pub run_max : ℕ
run_max = 64

-- The keys of one player by frame, as CountRuns reads them and as the encoder does.
abbrev pub raw_keys : Timeline → ℕ → ℕ → ℕ
raw_keys tl player frame = tl.keys (cell frame player)

abbrev pub masked_keys : Timeline → ℕ → ℕ → ℕ
masked_keys tl player frame = tl.keys (cell frame player) % keys_mod

-- `while (f + n < frames && n < RUN_MAX && keys[f + n] == v) n++;` from the frame `f`, with `room`
-- counts up to the maximum and `left` frames up to the end.
unfoldable pub run_length : (ℕ → ℕ) → ℕ → ℕ → ℕ → ℕ → ℕ
run_length g v zero left f = 0
run_length g v (suc room) zero f = 0
run_length g v (suc room) (suc left) f =
    if g f == v then suc (run_length g v room left (f + 1)) else 0

-- The outer loop of CountRuns on fuel, with `left` frames from `f` on.
unfoldable pub count_runs_from : (ℕ → ℕ) → ℕ → ℕ → ℕ → ℕ
count_runs_from g zero left f = 0
count_runs_from g (suc fuel) zero f = 0
count_runs_from g (suc fuel) (suc left) f =
    let n = run_length g (g f) run_max (suc left) f in
    suc (count_runs_from g fuel (suc left - n) (f + n))

-- A round takes a frame at least, so as much fuel as frames is enough.
unfoldable pub count_runs : Timeline → ℕ → ℕ → ℕ
unfolding count_runs_from run_length
count_runs tl player frames = count_runs_from (raw_keys tl player) frames frames 0

-- (u16)(v | ((n - 1) << 10)), of ten bits and of six.
abbrev pub run_word : ℕ → ℕ → ℕ
run_word v n = u16 (v + (n - 1) * keys_mod)

unfoldable pub encode_runs_from : (ℕ → ℕ) → ℕ → ℕ → ℕ → List ℕ
encode_runs_from g zero left f = []
encode_runs_from g (suc fuel) zero f = []
encode_runs_from g (suc fuel) (suc left) f =
    let n = run_length g (g f) run_max (suc left) f in
    put16 (run_word (g f) n) ++ encode_runs_from g fuel (suc left - n) (f + n)

unfoldable pub encode_runs : Timeline → ℕ → ℕ → List ℕ
unfolding encode_runs_from run_length
encode_runs tl player frames = encode_runs_from (masked_keys tl player) frames frames 0

-- h.runs[p]
unfoldable pub header_runs : Session → ℕ → ℕ
unfolding count_runs
header_runs s p = if ltb p s.players then count_runs s.tl p s.tl.len else 0

unfoldable pub encode_event : Event → List ℕ
encode_event e = put32 e.at ++ (e.kind ∷ e.a ∷ e.b ∷ [])

unfoldable pub encode_events : List Event → List ℕ
unfolding encode_event
encode_events [] = []
encode_events (e ∷ es) = encode_event e ++ encode_events es

-- The runs of the players from `p` on, `n` of them.
unfoldable pub encode_players : Session → ℕ → ℕ → List ℕ
unfolding encode_runs
encode_players s zero p = []
encode_players s (suc n) p = encode_runs s.tl p s.tl.len ++ encode_players s n (p + 1)

unfoldable pub encode_header : Session → List ℕ
encode_header s =
    put32 log_magic
    ++ (put32 s.tl.len
        ++ (put16 (u16 s.players)
            ++ (put16 (u16 (length s.events))
                ++ (put32 (header_runs s 0)
                    ++ (put32 (header_runs s 1)
                        ++ (put32 (header_runs s 2) ++ put32 (header_runs s 3)))))))

-- What is written to `dest`.
unfoldable pub log_bytes : Session → List ℕ
log_bytes s = encode_header s ++ (encode_players s s.players 0 ++ encode_events s.events)

-- `need`
unfoldable pub log_size : Session → ℕ
log_size s = u32 (
    28
    + header_runs s 0 * 2
    + header_runs s 1 * 2
    + header_runs s 2 * 2
    + header_runs s 3 * 2
    + length s.events * 7)

-- PortRbEncodeLog: the value returned, and what is written where there is room (`cap` is 0 for a
-- dest of NULL).
unfoldable pub encode_log : ℕ → Session → ℕ × Option (List ℕ)
encode_log cap s =
    if s.active
    then if ltb cap (log_size s)
      then (log_size s, none)
      else (u32 (length (log_bytes s)), some (log_bytes s))
    else (0, none)
