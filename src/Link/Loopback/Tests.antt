-- ===== src/Link/Loopback/Tests.antt =====
-- platform/mp_loopback.c on the packet of a concrete peer, and its transport on the cable.
use katam_port.Base.{ℕ, ◌+◌, ◌<◌, ◌≡◌, refl, arith, pos}
use katam_port.Link.Loopback.{LoopPeer, cleared, build_packet, packet_byte}
use katam_port.Link.Loopback.Packet.{sent}
use katam_port.Link.Loopback.Stream.{received, sent-received}

-- A receiver behind a packet.
abbrev listener : LoopPeer
listener = record cleared { recv_counter = pos 13; packets = 4; bad_checksums = 2 }

sent-received_example :
    let r = received (sent 15 (build_packet 2 cleared)) listener in
    (r.packets ≡ 5)
    × (r.bad_checksums ≡ 2)
    × (r.recv_counter ≡ pos 13)
    × ((j : ℕ) → j < 20 → r.payload j ≡ packet_byte 2 0 1 (4 + j))
sent-received_example = sent-received 2 cleared listener 13 refl (omega arith)
