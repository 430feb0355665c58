-- ===== src/Link/Lobby.antt =====
-- platform/mp_peer_lobby.c: the synthetic peer of the link lobby.
pub mod Settle
use katam_port.Base.{
  ℕ, zero, suc, ◌+◌, ◌*◌, ◌/◌, ◌%◌, ◌^◌, Bool, true, false, ◌&&◌, ltb, leb, ◌==◌, u16,
  if◌then◌else◌, update, ℤ, pos, negsuc,
}

-- PORT_MP_PLAYERS, PORT_MP_PEER_PASS
abbrev pub mp_players : ℕ
mp_players = 4

abbrev pub peer_pass : ℕ
peer_pass = 0xFFFF

-- enum PeerPhase
pub data PeerPhase : Type 0 where
  idle : PeerPhase
  lobby : PeerPhase
  playing : PeerPhase

-- struct PeerLobby
pub record PeerLobby : Type 0 where
  pub phase : PeerPhase
  pub last_seq : ℕ
  pub settled : ℕ
  pub have_seq : Bool

-- (word & MB_REPLY_MASK) == MB_MASTER_HELLO
abbrev pub is_hello : ℕ → Bool
is_hello word = word / 16 == 0x620

abbrev pub lobby_start : ℕ
lobby_start = 0xE4E4

abbrev pub child_alive : ℕ
child_alive = 0x8F51

abbrev pub child_ready : ℕ
child_ready = 0x70AE

-- MB_SAME_GAME_REPLY | slot, for a slot of one digit
abbrev pub same_game_reply : ℕ → ℕ
same_game_reply slot = 0x8F50 + slot

abbrev pub settle_frames : ℕ
settle_frames = 0x1E

-- The parent's next number: one more in thirteen bits, from 0x100 on.
abbrev pub next_seq : ℕ → ℕ
next_seq last = let e = (last + 1) % 2 ^ 13 in if ltb e 0x100 then 0x100 else e

abbrev pub bump : ℕ → ℕ
bump settled = if ltb settled 0xFFFF then settled + 1 else settled

-- The counter, followed by one word.
unfoldable pub follow : ℕ → PeerLobby → PeerLobby
follow word p = record p {
  settled = if p.have_seq && (next_seq p.last_seq == word % 2 ^ 13) then bump p.settled else 0;
  last_seq = word;
  have_seq = true;
}

abbrev pub settled_reply : PeerLobby → ℕ
settled_reply p = if ltb settle_frames p.settled then child_ready else child_alive

abbrev pub recognised : PeerLobby → PeerLobby
recognised p = record p { phase = lobby; settled = 0; have_seq = false }

abbrev pub is_lobby : PeerPhase → Bool
is_lobby lobby = true
is_lobby _ = false

-- The answer of one peer, and its state.
unfoldable pub answer : ℕ → ℕ → PeerLobby → ℕ × PeerLobby
answer slot word p =
    if is_hello word
    then (same_game_reply slot, recognised p)
    else if word == lobby_start
    then (lobby_start, record p { phase = playing })
    else if is_lobby p.phase
    then (settled_reply (follow word p), follow word p)
    else (peer_pass, p)

-- PortMpPeerLobbyReply
unfoldable pub peer_reply : ℤ → ℕ → (ℕ → PeerLobby) → ℕ × (ℕ → PeerLobby)
peer_reply (negsuc _) word peers = (peer_pass, peers)
peer_reply (pos slot) word peers =
    if ltb 0 slot && ltb slot mp_players
    then (let (reply, p) = answer slot word (peers slot) in (reply, update peers slot p))
    else (peer_pass, peers)

abbrev pub no_peer : PeerLobby
no_peer = record { phase = idle; last_seq = 0; settled = 0; have_seq = false }

-- PortMpPeerLobbyReset: one slot, or all of them for a negative one.
unfoldable pub peer_reset : ℤ → (ℕ → PeerLobby) → ℕ → PeerLobby
peer_reset (negsuc _) peers i = if ltb i mp_players then no_peer else peers i
peer_reset (pos slot) peers i = if ltb slot mp_players && (slot == i) then no_peer else peers i
