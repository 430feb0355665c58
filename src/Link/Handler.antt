-- ===== src/Link/Handler.antt =====
-- platform/multi_sio_intr.c: the interrupt half of the MultiSio library. The area's fields are those
-- that these two functions use; a unit's three receive buffers are numbered, and a pointer to one is
-- its number, as MultiSioInit of the game sets them up. The timer registers that the handler writes are
-- read by nothing in the port.
pub mod Units
pub mod Deliver
mod Tests
use katam_port.Base.{
  ℕ, zero, suc, ◌+◌, ◌-◌, ◌*◌, ◌^◌, Bool, true, not, ◌&&◌, ◌==◌, if◌then◌else◌, update, u32, ℤ, pos,
  negsuc,
}
use katam_port.Link.Sio.{Siocnt, Regs}
use katam_port.Link.Lobby.{mp_players}
use katam_port.Link.Loopback.{packet_hw, sync_data, advance_counter, is_past}

-- recvBufCounter[i], currentRecvBufp[i], lastRecvBufp[i], recvCheckBufp[i], syncRecvFlag[i], and the
-- buffers.
pub record RecvUnit : Type 0 where
  pub counter : ℤ
  pub current : ℕ
  pub last : ℕ
  pub check : ℕ
  pub sync_flag : ℕ
  pub buf : ℕ → ℕ → ℕ

-- `type` is 0 for a child.
pub record Area : Type 0 where
  pub type_bits : ℕ
  pub hard_error : Bool
  pub send_counter : ℤ
  pub current_send : ℕ
  pub next_send : ℕ
  pub send_buf : ℕ → ℕ → ℕ
  pub units : ℕ → RecvUnit

-- The buffers rotate behind the last halfword of a packet.
abbrev pub rotated_at : ℕ → RecvUnit → RecvUnit
rotated_at n u =
    if n == packet_hw - 3 then record u { last = u.current; current = u.last; sync_flag = 1 } else u

-- A halfword goes where the counter stands. A counter of -1 would put it in front of the buffer.
unfoldable pub put_word : ℤ → ℕ → RecvUnit → RecvUnit
put_word (negsuc _) w u = u
put_word (pos n) w u =
    rotated_at n (record u { buf = update u.buf u.current (update (u.buf u.current) n w) })

-- The receive half of MultiSioIntr for one unit.
unfoldable pub recv_unit : ℕ → RecvUnit → RecvUnit
recv_unit w u =
    let v =
      if is_past u.counter && (w == sync_data)
      then record u { counter = negsuc 0 }
      else put_word u.counter w u in
    record v { counter = advance_counter v.counter }

-- Its loop from unit `i` on, with `n` units left.
unfoldable pub recv_units : ℕ → ℕ → (ℕ → ℕ) → (ℕ → RecvUnit) → ℕ → RecvUnit
recv_units zero i words units = units
recv_units (suc n) i words units =
    recv_units n (i + 1) words (update units i (recv_unit (words i) (units i)))

-- The send half: the register, and the area after it. A counter below -1 sends nothing.
unfoldable pub send_half : ℤ → Regs × Area → Regs × Area
send_half (negsuc zero) (r, a) = (
  record r { send = sync_data },
  record a { current_send = a.next_send; next_send = a.current_send },
)
send_half (negsuc (suc _)) s = s
send_half (pos n) (r, a) = (record r { send = a.send_buf a.current_send n }, a)

-- MultiSioIntr
unfoldable pub multi_sio_intr : Regs × Area → Regs × Area
multi_sio_intr (r, a) =
    let s = send_half a.send_counter (r, record a { hard_error = r.cnt.error }) in
    (
      if not (a.type_bits == 0)
          then record (s.0) { cnt = record (s.0.cnt) { start = true } }
          else s.0,
      record (s.1) {
        send_counter = advance_counter a.send_counter;
        units = recv_units mp_players 0 r.multi a.units;
      },
    )

-- MultiSioRecvBufChange: the buffers, the flags as one word, and their reset.
abbrev pub handed_over : RecvUnit → RecvUnit
handed_over u = record u { check = u.last; last = u.check; sync_flag = 0 }

abbrev pub flags_of : (ℕ → RecvUnit) → ℕ
flags_of units =
    (units 0).sync_flag
    + (units 1).sync_flag * 2 ^ 8
    + (units 2).sync_flag * 2 ^ 16
    + (units 3).sync_flag * 2 ^ 24

unfoldable pub recv_buf_change : Area → ℕ × Area
recv_buf_change a = (
  flags_of a.units,
  record a {
    units =
        update
          (update (update (update a.units 0 (handed_over (a.units 0))) 1 (handed_over (a.units 1)))
            2 (handed_over (a.units 2)))
          3 (handed_over (a.units 3));
  },
)
