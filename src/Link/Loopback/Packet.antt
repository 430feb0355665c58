-- ===== src/Link/Loopback/Packet.antt =====
-- platform/mp_loopback.c, BuildPacket and PeerSend: what a unit streams.
use katam_port.Base.{
  ℕ, zero, suc, ◌+◌, ◌*◌, ◌/◌, ◌%◌, ◌^◌, ◌<◌, ◌≡◌, refl, ◌∙◌, ap, true, List, [], ◌∷◌, update_ne,
  ℕ_discrete, ◌≤◌, update, u8, arith,
}
use katam_port.Link.Loopback.{
  LoopPeer, packet_byte, halfword, byte_of, sum_hw, checksum, is_checked, unchecked, build_packet,
  peer_send, sync_data,
}

-- The words of `n` transfers, and their arrival at another unit.
unfoldable pub sent : ℕ → LoopPeer → List ℕ
unfolding peer_send
sent zero p = []
sent (suc n) p = (peer_send p).0 ∷ sent n (peer_send p).1

-- `n` halfwords of `f` from index `i` on, and then others.
unfoldable pub words_from : (ℕ → ℕ) → ℕ → ℕ → List ℕ → List ℕ
words_from f zero i rest = rest
words_from f (suc n) i rest = f i ∷ words_from f n (suc i) rest

checksum-is_checked : (s : ℕ) → is_checked (s + checksum s) ≡ true
unfolding checksum is_checked
checksum-is_checked s = ground arith

-- The packet that BuildPacket leaves: its sum, and what its bytes are.
sum_with :
    (f : ℕ → ℕ) (v n : ℕ)
    → f 1 ≡ 0
    → sum_hw (update f 1 v) (suc (suc n)) ≡ sum_hw f (suc (suc n)) + v
sum_with f v zero z = omega (arith, z)
sum_with f v (suc n) z = omega (arith, sum_with f v n z, later)
  where
    later : update f 1 v (suc (suc n)) ≡ f (suc (suc n))
    later = ground arith

packet_byte-lt : (id old new k : ℕ) → new < 2 ^ 8 → 4 ≤ k → packet_byte id old new k < 2 ^ 8
unfolding packet_byte
packet_byte-lt id old new k h lo = ground arith

-- The two bytes of a halfword.
byte_of-halfword :
    (bytes : ℕ → ℕ) (m : ℕ)
    → bytes m < 2 ^ 8
    → bytes (2 * (m / 2)) < 2 ^ 8
    → byte_of (halfword bytes) m ≡ bytes m
byte_of-halfword bytes m h h' = elim (ℕ_discrete (m % 2) 0) [
  | yes e ↦ even e
  | no ne ↦ odd (omega arith)
]
  where
    even : m % 2 ≡ 0 → byte_of (halfword bytes) m ≡ bytes m
    even e = let low : 2 * (m / 2) ≡ m = omega arith in rw e (rw low (omega arith))

    odd : m % 2 ≡ 1 → byte_of (halfword bytes) m ≡ bytes m
    odd e = let high : 2 * (m / 2) + 1 ≡ m = omega arith in rw e (rw high (omega arith))

module _ (id : ℕ) (p : LoopPeer) where
  abbrev pub built_packet : ℕ → ℕ
  built_packet = (build_packet id p).packet

  pub built-is_checked : is_checked (sum_hw built_packet 12) ≡ true
  unfolding build_packet packet_byte
  built-is_checked =
      ap is_checked (sum_with (unchecked id p) (checksum (sum_hw (unchecked id p) 12)) 10 refl)
      ∙ checksum-is_checked (sum_hw (unchecked id p) 12)

  pub sent-words : sent 15 (build_packet id p) ≡ sync_data ∷ words_from built_packet 14 0 []
  unfolding sent words_from build_packet
  sent-words = refl

  pub built-byte :
      (m : ℕ)
      → 4 ≤ m
      → byte_of built_packet m ≡ packet_byte id p.frame_counter (u8 (p.frame_counter + 1)) m
  built-byte m h =
      ap (λ x. u8 (x / 2 ^ (8 * (m % 2)))) unsigned
      ∙ byte_of-halfword (packet_byte id p.frame_counter (u8 (p.frame_counter + 1))) m
          (packet_byte-lt id p.frame_counter _ m (omega arith) h)
          (packet_byte-lt id p.frame_counter _ _ (omega arith) (omega arith))
    where
      unsigned : built_packet (m / 2) ≡ unchecked id p (m / 2)
      unsigned = unfold build_packet in update_ne (unchecked id p) 1 (m / 2) _ (omega arith)
