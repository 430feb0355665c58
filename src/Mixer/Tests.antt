-- ===== src/Mixer/Tests.antt =====
-- platform/m4a_mixer.c on two channels of a track, a pattern and a loop.
use katam_port.Base.{ℕ, ◌≡◌, refl, [], update, get_or, some, arith}
use katam_port.Mixer.{Chan, Track, Store, set_track}
use katam_port.Mixer.Choice.{choose_channel, best_from, consider}
use katam_port.Mixer.Chosen.{Chosen, choose_channel-Chosen}
use katam_port.Mixer.Commands.{Header, ply_patt, ply_pend, jump_table, fine, handle}
use katam_port.Mixer.Patterns.{SameBelow, Balanced, ply_pend-ply_patt}

abbrev no_chan : Chan
no_chan = record { status = 0; kind = 0; mk = 0; pr = 0; np = 0; pp = 0; track = 0 }

abbrev no_track : Track
no_track = record {
  flags = 0x80;
  cmd_ptr = 100;
  pattern_level = 0;
  pattern_stack = λ j. 0;
  rep_n = 0;
  priority = 0;
  key_shift = 0;
  tone = 0;
  vol = 0;
  pan = 0;
  bend = 0;
  bend_range = 0;
  lfo_delay = 0;
  mod_t = 0;
  tune = 0;
  lfo_speed = 0;
  mod_depth = 0;
  key = 0;
  chan = 0;
}

-- Track 1 owns a sample channel, then one of an oscillator; a loop ends at 110.
abbrev two_chans : Store
two_chans = record {
  mem = update (update (λ a. 0) 110 3) 111 100;
  chans =
      update (update (λ x. no_chan) 5 (record no_chan { status = 3; np = 6; track = 1 })) 6
        (record no_chan { status = 3; kind = 2; pp = 5; track = 1 });
  tracks = update (λ t. no_track) 1 (record no_track { chan = 5 });
  tempo_d = 0;
  tempo_i = 0;
  tempo_u = 0;
  tones = λ n. n;
  switched_off = [];
}

abbrev header : Header
header = record { volchg = 3; pitchg = 12; c_v = 64; nr10 = 1000; clear_mod_m = λ k. k }

abbrev in_pattern : Store
in_pattern = ply_patt 2 1 two_chans

-- The pattern has one command, of index 9.
abbrev after_prio : Store
after_prio = handle header 2 (get_or jump_table 9 fine) 1 in_pattern

ply_pend-ply_patt_example :
    (((ply_pend 1 after_prio).tracks 1).cmd_ptr ≡ 104)
    × SameBelow 1 two_chans (ply_pend 1 after_prio)
unfolding jump_table
ply_pend-ply_patt_example =
    ply_pend-ply_patt header 2 1 two_chans after_prio (λ k. (refl, refl)) (omega arith)
      (Balanced.next 9 in_pattern after_prio refl (Balanced.stop after_prio after_prio refl))

-- The commands of the loop lead to its end.
abbrev to_end : Store → Store
to_end r = set_track 1 (record (r.tracks 1) { cmd_ptr = 110 }) r

abbrev at_loop_end : Store
at_loop_end = to_end two_chans

-- Three channels that are taken, of which the two last are releasing.
abbrev three_taken : ℕ → Chan
three_taken =
    update
      (update (λ x. record no_chan { status = 3; pr = 5; track = 1 }) 1
        (record no_chan { status = 0x43; pr = 9; track = 1 }))
      2 (record no_chan { status = 0x43; pr = 7; track = 2 })

chosen_of_three : choose_channel three_taken 3 6 1 ≡ some 2
unfolding choose_channel best_from consider
chosen_of_three = refl

choose_channel-Chosen_example : Chosen three_taken 3 6 1 (choose_channel three_taken 3 6 1)
choose_channel-Chosen_example = choose_channel-Chosen three_taken 3 6 1
