-- ===== src/Rollback/Log/Parts.antt =====
-- platform/rollback.c: the players' runs and the events of a log, and its size.
use katam_port.Base.{
  ℕ, zero, suc, ◌+◌, ◌-◌, ◌*◌, ◌^◌, ◌≤◌, ◌<◌, ◌≡◌, refl, sym, fun_ext, true, some, List, [], ◌∷◌,
  ◌++◌, append_assoc, length, length-append, length-put16, length-put32, put16, put32, get32,
  drop-append, arith, All,
}
use katam_port.Rollback.State.{Timeline, Session, Event, keys_mod, cell}
use katam_port.Rollback.Log.Encode.{
  raw_keys, masked_keys, run_length, run_max, count_runs_from, encode_runs_from, count_runs,
  encode_runs, run_word, encode_players, encode_event, encode_events,
}
use katam_port.Rollback.Log.Decode.{decode_runs, decode_players, decode_events, read_event}
use katam_port.Rollback.Log.Runs.{fill, run_length-pos, decode_runs-encode}
use katam_port.Rollback.Log.Fill.{fill_players_from}

-- Every cell holds ten bits, as each of the engine's writes leaves it.
abbrev pub IsMasked : Timeline → Type 0
IsMasked tl = (i : ℕ) → tl.keys i < keys_mod

raw_keys-eq-masked_keys : (tl : Timeline) (p : ℕ) → IsMasked tl → raw_keys tl p ≡ masked_keys tl p
raw_keys-eq-masked_keys tl p h = fun_ext (λ f. sym (small f))
  where
    small : (f : ℕ) → masked_keys tl p f ≡ raw_keys tl p f
    small f = omega (arith, h (cell f p))

-- Two bytes a run.
length-encode_runs_from :
    (g : ℕ → ℕ) (fuel left f : ℕ)
    → length (encode_runs_from g fuel left f) ≡ 2 * count_runs_from g fuel left f
unfolding encode_runs_from count_runs_from
length-encode_runs_from g zero left f = refl
length-encode_runs_from g (suc fuel) zero f = refl
length-encode_runs_from g (suc fuel) (suc left) f =
    let n = run_length g (g f) run_max (suc left) f in
    omega (
      arith,
      length-append (put16 (run_word (g f) n)) (encode_runs_from g fuel (suc left - n) (f + n)),
      length-put16 (run_word (g f) n),
      length-encode_runs_from g fuel (suc left - n) (f + n),
    )

-- No more runs than frames.
count_runs_from-le : (g : ℕ → ℕ) (fuel left f : ℕ) → count_runs_from g fuel left f ≤ left
unfolding count_runs_from
count_runs_from-le g zero left f = omega arith
count_runs_from-le g (suc fuel) zero f = omega arith
count_runs_from-le g (suc fuel) (suc left) f =
    let n = run_length g (g f) run_max (suc left) f in
    omega (arith, run_length-pos g 63 left f, count_runs_from-le g fuel (suc left - n) (f + n))

-- One player, with the count that the header gives.
decode_player-encode :
    (s : Session) (p : ℕ) (rest : List ℕ) (tl : Timeline)
    → IsMasked s.tl
    → decode_runs p s.tl.len (count_runs s.tl p s.tl.len) 0 (encode_runs s.tl p s.tl.len ++ rest) tl
      ≡ (some rest, fill p (masked_keys s.tl p) s.tl.len 0 tl)
unfolding count_runs encode_runs
decode_player-encode s p rest tl h = rw (raw_keys-eq-masked_keys s.tl p h) (
    decode_runs-encode p s.tl.len (masked_keys s.tl p) (λ i. omega arith) s.tl.len s.tl.len 0 rest
      tl (omega arith) (omega arith))

-- The counts that the header gives for the players from `p` on.
unfoldable pub run_counts : Session → ℕ → ℕ → List ℕ
run_counts s zero p = []
run_counts s (suc n) p = count_runs s.tl p s.tl.len ∷ run_counts s n (p + 1)

decode_players-cons :
    (frames n p : ℕ) (ns src : List ℕ) (tl : Timeline)
    → decode_players frames (n ∷ ns) p (some src, tl)
      ≡ decode_players frames ns (p + 1) (decode_runs p frames n 0 src tl)
unfolding decode_players
decode_players-cons frames n p ns src tl = refl

-- The decoder reads the runs of all players, and leaves the rest.
pub decode_players-encode :
    (s : Session)
    → IsMasked s.tl
    → (n p : ℕ) (rest : List ℕ) (tl : Timeline)
    → decode_players s.tl.len (run_counts s n p) p (some (encode_players s n p ++ rest), tl)
      ≡ (some rest, fill_players_from s n p tl)
unfolding run_counts encode_players fill_players_from
decode_players-encode s h zero p rest tl = unfold decode_players in refl
decode_players-encode s h (suc n) p rest tl =
    let tl' = fill p (masked_keys s.tl p) s.tl.len 0 tl in
    rw (append_assoc (encode_runs s.tl p s.tl.len) (encode_players s n (p + 1)) rest) (
      rw decode_players-cons (
        rw (decode_player-encode s p (encode_players s n (p + 1) ++ rest) tl h)
          (decode_players-encode s h n (p + 1) rest tl')))

abbrev pub IsEncodable : Event → Type 0
IsEncodable e = (e.at < 2 ^ 32) × (e.kind < 256) × (e.a < 256) × (e.b < 256)

read_event-encode :
    (e : Event) (rest : List ℕ) → IsEncodable e → read_event (encode_event e ++ rest) ≡ e
unfolding encode_event put32 put16 get32
read_event-encode e rest h = ground arith

length-encode_event : (e : Event) → length (encode_event e) ≡ 7
unfolding encode_event
length-encode_event e =
    omega (arith, length-append (put32 e.at) (e.kind ∷ e.a ∷ e.b ∷ []), length-put32 e.at)

-- The decoder reads the events, as far as they fit.
pub decode_events-encode :
    (es : List Event) (room : ℕ)
    → length es ≤ room
    → All IsEncodable es
    → decode_events (length es) room (encode_events es) ≡ (true, es)
unfolding decode_events encode_events
decode_events-encode [] room h a = refl
decode_events-encode (e ∷ es) zero h a = absurd (omega arith)
decode_events-encode (e ∷ es) (suc room) h a = ground (
  arith,
  read_event-encode e (encode_events es) a.0,
  length-append (encode_event e) (encode_events es),
  length-encode_event e,
  drop-append (encode_event e) (encode_events es) (length-encode_event e),
  decode_events-encode es room (omega arith) a.1,
)

pub length-encode_events : (es : List Event) → length (encode_events es) ≡ 7 * length es
unfolding encode_events
length-encode_events [] = refl
length-encode_events (e ∷ es) = omega (
  arith,
  length-append (encode_event e) (encode_events es),
  length-encode_event e,
  length-encode_events es,
)

pub count_runs-le : (tl : Timeline) (p frames : ℕ) → count_runs tl p frames ≤ frames
unfolding count_runs
count_runs-le tl p frames = count_runs_from-le (raw_keys tl p) frames frames 0

pub length-encode_runs :
    (tl : Timeline) (p frames : ℕ)
    → IsMasked tl
    → length (encode_runs tl p frames) ≡ 2 * count_runs tl p frames
unfolding encode_runs count_runs
length-encode_runs tl p frames h =
    rw (raw_keys-eq-masked_keys tl p h) (length-encode_runs_from (masked_keys tl p) frames frames 0)
