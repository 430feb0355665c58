-- ===== src/Link/Handler/Tests.antt =====
-- platform/multi_sio_intr.c on a cable where a loopback peer sits in slot 1.
use katam_port.Base.{ℕ, refl, true, false, List, map, arith, pos}
use katam_port.Link.Sio.{Regs}
use katam_port.Link.Loopback.{cleared, build_packet}
use katam_port.Link.Loopback.Packet.{sent}
use katam_port.Link.Handler.{RecvUnit, Area}
use katam_port.Link.Handler.Units.{IsUnit, Kept, transfers, transfers-Kept}

abbrev arriving : ℕ → Regs
arriving w = record {
  cnt = record {
    baud = 0;
    si = false;
    sd = true;
    id = 0;
    error = false;
    start = false;
    middle = 0;
    mode = 2;
    top = 0;
  };
  send = 0;
  multi = λ _. w;
}

abbrev unit : RecvUnit
unit = record { counter = pos 13; current = 0; last = 1; check = 2; sync_flag = 0; buf = λ _ _. 0 }

abbrev area : Area
area = record {
  type_bits = 0;
  hard_error = false;
  send_counter = pos 13;
  current_send = 0;
  next_send = 1;
  send_buf = λ _ _. 0;
  units = λ _. unit;
}

unit-IsUnit : IsUnit unit
unit-IsUnit = record {
  place = 13;
  counts = refl;
  on_packet = omega arith;
  flag_bit = omega arith;
  current_last = λ e. absurd (omega (arith, e));
  current_check = λ e. absurd (omega (arith, e));
  last_check = λ e. absurd (omega (arith, e));
}

abbrev frame : List Regs
frame = map arriving (sent 15 (build_packet 1 cleared))

transfers-Kept_example : Kept unit ((transfers frame area).units 1)
transfers-Kept_example = transfers-Kept frame area 1 (omega arith) unit-IsUnit
