-- ===== src/Rollback/Tests/Logs.antt =====
-- platform/rollback.c: the log of a session, decoded by another, and a join with it.
use katam_port.Base.{if◌then◌else◌, ltb, ◌≡◌, refl, true, [], ◌∷◌, arith, none}
use katam_port.Rollback.State.{Session, ev_slot}
use katam_port.Rollback.Lifecycle.{init}
use katam_port.Rollback.Timeline.{timeline_reserve}
use katam_port.Rollback.Log.Encode.{
  log_bytes, log_size, header_runs, count_runs, count_runs_from, run_length,
}
use katam_port.Rollback.Log.Decode.{decode_log}
use katam_port.Rollback.Log.RoundTrip.{decode_log-short}
use katam_port.Rollback.Tests.{generous, fresh}

-- Three frames of two players: the first lets go after two of them.
abbrev recorded : Session
recorded = record fresh {
  tl = record { keys = λ i. if ltb i 8 then 1 else 0; known = λ _. true; cap = 4096; len = 3 };
  events = record { at = 2; kind = ev_slot; a = 2; b = 1 } ∷ [];
}

-- One player who holds nothing for a frame.
abbrev idle : Session
idle = record fresh {
  players = 1;
  tl = record { keys = λ _. 0; known = λ _. true; cap = 4096; len = 1 };
}

decode_log-short_example : decode_log generous (log_bytes idle) fresh ≡ (none, fresh)
unfolding init timeline_reserve log_size header_runs count_runs count_runs_from run_length
decode_log-short_example =
    decode_log-short generous idle fresh
      (record {
        on = refl;
        some_players = omega arith;
        few_players = omega arith;
        short = omega arith;
        masked = λ i. omega arith;
        few_events = omega arith;
        encodable = tt;
      })
      (omega arith)
