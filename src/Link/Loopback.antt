-- ===== src/Link/Loopback.antt =====
-- platform/mp_loopback.c: the transport with a synthetic unit in every other slot of the cable, which
-- sends framed MultiSio packets and checks those that the game sends.
pub mod Packet
pub mod Stream
mod Tests
use katam_port.Base.{
  ℕ, zero, suc, ◌+◌, ◌-◌, ◌*◌, ◌/◌, ◌%◌, ◌^◌, Bool, true, false, not, ◌&&◌, List, [], ◌∷◌, ltb,
  ◌==◌, if◌then◌else◌, update, u8, u16, u32, sub32, ℤ, pos, negsuc, bit_or,
}
use katam_port.Link.Lobby.{mp_players, peer_pass, PeerLobby, peer_reply}
use katam_port.Link.Registry.{Link, Transport}

-- PACKET_HW: the halfwords of struct MultiSioPacket
abbrev pub packet_hw : ℕ
packet_hw = 14

-- MULTI_SIO_BLOCK_SIZE and MULTI_SIO_SYNC_DATA
abbrev pub block_size : ℕ
block_size = 20

abbrev pub sync_data : ℕ
sync_data = 0xFEFE

-- `if (counter < PACKET_HW - 1) ++counter`
abbrev pub advance_counter : ℤ → ℤ
advance_counter (negsuc zero) = pos 0
advance_counter (negsuc (suc n)) = negsuc n
advance_counter (pos n) = if ltb n (packet_hw - 1) then pos (n + 1) else pos n

-- `counter > PACKET_HW - 3`
abbrev pub is_past : ℤ → Bool
is_past (negsuc _) = false
is_past (pos n) = ltb (packet_hw - 3) n

-- struct LoopPeer
pub record LoopPeer : Type 0 where
  pub present : Bool
  pub send_counter : ℤ
  pub packet : ℕ → ℕ
  pub frame_counter : ℕ
  pub recv_counter : ℤ
  pub recv_buf : ℕ → ℕ
  pub payload : ℕ → ℕ
  pub packets : ℕ
  pub bad_checksums : ℕ

abbrev pub cleared : LoopPeer
cleared = record {
  present = false;
  send_counter = pos 0;
  packet = λ _. 0;
  frame_counter = 0;
  recv_counter = pos 0;
  recv_buf = λ _. 0;
  payload = λ _. 0;
  packets = 0;
  bad_checksums = 0;
}

-- The bytes of a packet before its checksum, with the frame counter before and after it moves on.
unfoldable pub packet_byte : ℕ → ℕ → ℕ → ℕ → ℕ
packet_byte id old new k =
    if k == 0
    then old
    else if ltb k 4
    then 0
    else if k == 4
    then u8 (bit_or 0xA0 id)
    else if k == 5
    then new
    else if ltb k (4 + block_size)
    then u8 (id * 0x10 + (k - 4))
    else 0

abbrev pub halfword : (ℕ → ℕ) → ℕ → ℕ
halfword bytes k = bytes (2 * k) + bytes (2 * k + 1) * 2 ^ 8

-- ((const u8 *)buf)[k]
abbrev pub byte_of : (ℕ → ℕ) → ℕ → ℕ
byte_of buf k = u8 (buf (k / 2) / 2 ^ (8 * (k % 2)))

-- The sum of the first `n` halfwords
abbrev pub sum_hw : (ℕ → ℕ) → ℕ → ℕ
sum_hw buf zero = 0
sum_hw buf (suc n) = sum_hw buf n + buf n

-- (u16)(~sum - 14)
unfoldable pub checksum : ℕ → ℕ
checksum sum = u16 (sub32 (sub32 (2 ^ 32 - 1) (u32 sum)) 14)

-- (s16)sum == -15
unfoldable pub is_checked : ℕ → Bool
is_checked sum = u16 sum == 2 ^ 16 - 15

-- BuildPacket
abbrev pub unchecked : ℕ → LoopPeer → ℕ → ℕ
unchecked id p = halfword (packet_byte id p.frame_counter (u8 (p.frame_counter + 1)))

unfoldable pub build_packet : ℕ → LoopPeer → LoopPeer
build_packet id p = record p {
  packet = update (unchecked id p) 1 (checksum (sum_hw (unchecked id p) (packet_hw - 2)));
  frame_counter = u8 (p.frame_counter + 1);
  send_counter = negsuc 0;
}

-- PeerSend: the word, and the peer after it. A counter below -1 does not arise.
abbrev pub word_at : ℤ → (ℕ → ℕ) → ℕ
word_at (negsuc _) packet = sync_data
word_at (pos n) packet = packet (if ltb n packet_hw then n else packet_hw - 1)

unfoldable pub peer_send : LoopPeer → ℕ × LoopPeer
peer_send p =
    (word_at p.send_counter p.packet, record p { send_counter = advance_counter p.send_counter })

-- The checked packet, or the failed check, when the last halfword that counts has come.
unfoldable pub checked_at : ℕ → LoopPeer → LoopPeer
checked_at n p =
    if n == packet_hw - 3
    then (if is_checked (sum_hw p.recv_buf (packet_hw - 2))
        then record p { payload = λ k. byte_of p.recv_buf (4 + k); packets = p.packets + 1 }
        else record p { bad_checksums = p.bad_checksums + 1 })
    else p

-- A halfword that is not a sync word is put where the counter stands.
unfoldable pub stored : ℤ → ℕ → LoopPeer → LoopPeer
stored (negsuc _) w p = p
stored (pos n) w p =
    checked_at n (if ltb n packet_hw then record p { recv_buf = update p.recv_buf n w } else p)

-- PeerRecv
unfoldable pub peer_recv : ℕ → LoopPeer → LoopPeer
peer_recv w p =
    let q =
      if is_past p.recv_counter && (w == sync_data)
      then record p { recv_counter = negsuc 0 }
      else stored p.recv_counter w p in
    record q { recv_counter = advance_counter q.recv_counter }

-- sPeers, sPlayers, sSelfId and sOpen, and the lobby state of platform/mp_peer_lobby.c
pub record Loop : Type 0 where
  pub peers : ℕ → LoopPeer
  pub players : ℕ
  pub self_id : ℕ
  pub is_open : Bool
  pub lobbies : ℕ → PeerLobby

abbrev pub built : ℕ → LoopPeer → LoopPeer
built i p = if p.present then build_packet i p else p

-- LoopOpen
unfoldable pub loop_open : ℕ → Loop → Bool × Loop
loop_open players s = (
  true,
  record s {
    players = players;
    is_open = true;
    peers = λ i. built i (record cleared { present = ltb i players && not (i == s.self_id) });
  },
)

-- LoopClose
abbrev pub loop_close : Loop → Loop
loop_close s = record s { is_open = false }

-- LoopPoll
unfoldable pub loop_poll : Link → Loop → Link × Loop
loop_poll link s = (
  record { up = s.is_open; self_id = u8 s.self_id; players = u8 s.players; error = false },
  if s.is_open then record s { peers = λ i. built i (s.peers i) } else s,
)

-- The slot's word in LoopExchange, and the state after it.
unfoldable pub slot_word : ℕ → ℕ → Loop → ℕ × Loop
slot_word i send s =
    let (reply, lobbies) = peer_reply (pos i) send s.lobbies in
    if not (s.peers i).present
    then (0xFFFF, s)
    else if not (reply == peer_pass)
    then (reply, record s { lobbies = lobbies })
    else (
      (peer_send (s.peers i)).0,
      record s {
        lobbies = lobbies;
        peers = update s.peers i (peer_recv send (peer_send (s.peers i)).1);
      },
    )

-- The loop of LoopExchange from slot `i` on, with `n` slots left.
unfoldable pub exchange_slots : ℕ → ℕ → ℕ → (ℕ → ℕ) → Loop → (ℕ → ℕ) × Loop
exchange_slots zero i send recv s = (recv, s)
exchange_slots (suc n) i send recv s =
    exchange_slots n (i + 1) send (update recv i (slot_word i send s).0) (slot_word i send s).1

-- LoopExchange
unfoldable pub loop_exchange : ℕ → (ℕ → ℕ) → Loop → (Bool × (ℕ → ℕ)) × Loop
loop_exchange send recv s = if not s.is_open then ((false, recv), s) else (
  (true, (exchange_slots mp_players 0 send recv s).0),
  (exchange_slots mp_players 0 send recv s).1,
)

-- sLoopback
abbrev pub loopback : Transport
loopback = record {
  State = Loop;
  open_link = loop_open;
  close_link = loop_close;
  poll = loop_poll;
  exchange = loop_exchange;
}
