-- ===== src/Rollback/Tests/Inputs.antt =====
-- platform/rollback.c on concrete sessions: the timeline and the confirmations.
use katam_port.Base.{◌%◌, refl, List, [], ◌∷◌, pos, arith}
use katam_port.Rollback.State.{Session, resimulating, cell, keys_mod}
use katam_port.Rollback.Lifecycle.{init}
use katam_port.Rollback.Timeline.{
  timeline_reserve, predict_for, advance_confirmed, advance, all_known,
}
use katam_port.Rollback.Timeline.Predict.{
  Predicts, predict_for-Predicts, Advanced, advance_confirmed-Advanced,
}
use katam_port.Rollback.Input.{confirm_input, store, correct}
use katam_port.Rollback.Input.Correction.{IsAsked}
use katam_port.Rollback.Input.Covering.{Confirmation, confirm_all, confirm_all-IsAsked}
use katam_port.Rollback.Input.Cells.{Confirmed, confirm_input-Confirmed}
use katam_port.Rollback.Events.{apply_events_for, apply_events}
use katam_port.Rollback.Frame.{
  fill_players, fill_player, apply_slot, apply_slots, apply_slot_inputs, roll_back, catch_up_done,
  simulate, frame_hook,
}
use katam_port.Rollback.Invariant.{IsSession}
use katam_port.Rollback.Invariant.Frame.{frame_hook-IsSession}
use katam_port.Rollback.Invariant.Open.{init-IsSession}
use katam_port.Rollback.Tests.{generous, blank, fresh, toy, cells}

-- One frame has been run, on the prediction that peer 1 holds nothing.
abbrev played : Session
played = (frame_hook toy generous 0 fresh cells).0

played_valid : IsSession 0 played
unfolding init timeline_reserve
played_valid =
    frame_hook-IsSession toy generous 0 0 fresh cells (omega arith)
      ((init-IsSession generous 14 0 (pos 4) (pos 2) blank (omega arith) refl).0)

abbrev late_key : List Confirmation
late_key = record { player = pos 1; frame = 0; keys = 1 } ∷ []

confirm_all-IsAsked_example : IsAsked 0 (confirm_all generous late_key played)
unfolding init timeline_reserve frame_hook roll_back catch_up_done simulate fill_players fill_player
    apply_slots apply_slot apply_slot_inputs apply_events_for apply_events advance_confirmed advance
    all_known predict_for confirm_input store correct confirm_all
confirm_all-IsAsked_example =
    confirm_all-IsAsked generous late_key played 0 1 (omega arith, tt) played_valid.timeline
      (λ e. cc e) (omega arith) (omega arith) (omega arith) refl (λ e. absurd (omega (arith, e)))

confirm_input-Confirmed_example :
    Confirmed played.tl
      (cell 0 1)
      (0x801 % keys_mod)
      (confirm_input generous (pos 1) 0 0x801 played).tl
unfolding init timeline_reserve frame_hook roll_back catch_up_done simulate fill_players fill_player
    apply_slots apply_slot apply_slot_inputs apply_events_for apply_events advance_confirmed advance
    all_known predict_for
confirm_input-Confirmed_example =
    confirm_input-Confirmed generous 1 0 0x801 played played_valid.timeline (omega arith) refl
      (omega arith) refl refl

-- The same session, while it resimulates from frame 0.
abbrev again : Session
again = record played { catch_up = resimulating; catch_up_to = 0 }

predict_for-Predicts_example : Predicts played.tl 1 1 (predict_for played.tl 1 1)
predict_for-Predicts_example = predict_for-Predicts played.tl 1 1

advance_confirmed-Advanced_example :
    Advanced played.tl played.players played.confirmed (advance_confirmed played)
advance_confirmed-Advanced_example = advance_confirmed-Advanced played
