-- ===== src/Link/Loopback/Stream.antt =====
-- platform/mp_loopback.c, PeerRecv: the packet that one unit streams is the one that another accepts.
use katam_port.Base.{
  ℕ, zero, suc, ◌+◌, ◌-◌, ◌*◌, ◌/◌, ◌%◌, ◌^◌, ◌<◌, ◌≡◌, refl, ◌∙◌, ap, true, List, [], ◌∷◌, ltb,
  sym, subst, ℕ_discrete, ==_refl, ap₂, lt→ltb, ◌≢◌, ◌≤◌, ne→==_false, if◌then◌else◌, update, u8,
  pos, arith,
}
use katam_port.Link.Loopback.{
  LoopPeer, packet_byte, byte_of, sum_hw, is_checked, is_past, build_packet, checked_at, stored,
  peer_recv, block_size, packet_hw, sync_data,
}
use katam_port.Link.Loopback.Packet.{
  sent, words_from, built_packet, built-is_checked, sent-words, built-byte,
}

unfoldable pub received : List ℕ → LoopPeer → LoopPeer
received [] q = q
received (w ∷ ws) q = received ws (peer_recv w q)

-- The receive buffer once the first `n` halfwords of `f` are in it.
filled : (ℕ → ℕ) → ℕ → (ℕ → ℕ) → ℕ → ℕ
filled f zero buf = buf
filled f (suc n) buf = update (filled f n buf) n (f n)

filled_lem : (f : ℕ → ℕ) (n : ℕ) (buf : ℕ → ℕ) (x : ℕ) → x < n → filled f n buf x ≡ f x
unfolding filled
filled_lem f zero buf x h = absurd (omega arith)
filled_lem f (suc n) buf x h = elim (ℕ_discrete n x) [
  | yes e ↦ rw (e, ==_refl x) refl
  | no ne ↦ rw (ne→==_false n x ne) (filled_lem f n buf x (omega arith))
]

sum_hw-filled : (f : ℕ → ℕ) (n m : ℕ) (buf : ℕ → ℕ) → n ≤ m → sum_hw (filled f m buf) n ≡ sum_hw f n
sum_hw-filled f zero m buf h = refl
sum_hw-filled f (suc n) m buf h =
    ap₂ (λ a b. a + b) (sum_hw-filled f n m buf (omega arith)) (filled_lem f m buf n (omega arith))

-- A receiver whose counter and buffer are these.
abbrev at : LoopPeer → ℕ → (ℕ → ℕ) → LoopPeer
at q n buf = record q { recv_counter = pos n; recv_buf = buf }

peer_recv-sync :
    (q : LoopPeer) (k : ℕ)
    → q.recv_counter ≡ pos k
    → packet_hw - 3 < k
    → peer_recv sync_data q ≡ at q 0 q.recv_buf
peer_recv-sync q k e h = unfold peer_recv in rw past refl
  where
    past : is_past q.recv_counter ≡ true
    past = rw e (lt→ltb _ _ h)

started :
    (q : LoopPeer) (k : ℕ)
    → q.recv_counter ≡ pos k
    → packet_hw - 3 < k
    → (ws : List ℕ) → received (sync_data ∷ ws) q ≡ received ws (at q 0 q.recv_buf)
unfolding received
started q k e h ws = ap (received ws) (peer_recv-sync q k e h)

module _ (q : LoopPeer) (n : ℕ) (buf : ℕ → ℕ) (w : ℕ) where
  peer_recv-early : n < 11 → peer_recv w (at q n buf) ≡ at q (suc n) (update buf n w)
  unfolding peer_recv stored checked_at
  peer_recv-early h = ground arith

  peer_recv-late :
      11 < n
      → n < 14
      → w ≢ sync_data
      → peer_recv w (at q n buf) ≡ at q (if ltb n 13 then n + 1 else n) (update buf n w)
  unfolding peer_recv stored checked_at
  peer_recv-late h k ne = ground arith

peer_recv-last :
    (q : LoopPeer) (buf : ℕ → ℕ) (w : ℕ)
    → is_checked (sum_hw (update buf 11 w) 12) ≡ true
    → peer_recv w (at q 11 buf) ≡ record (at q 12 (update buf 11 w)) {
      payload = λ k. byte_of (update buf 11 w) (4 + k);
      packets = q.packets + 1;
    }
unfolding peer_recv stored checked_at
peer_recv-last q buf w c = rw c refl

-- The halfwords before the one that completes the packet.
kept :
    (f : ℕ → ℕ) (q : LoopPeer) (buf : ℕ → ℕ) (rest : List ℕ) (n i : ℕ)
    → i + n ≡ 11
    → received (words_from f n i rest) (at q i (filled f i buf))
      ≡ received rest (at q 11 (filled f 11 buf))
unfolding words_from received filled
kept f q buf rest zero i e =
    ap (λ k. received rest (at q k (filled f k buf))) (let e' : i ≡ 11 = omega arith in e')
kept f q buf rest (suc n) i e =
    ap (received (words_from f n (suc i) rest))
      (peer_recv-early q i (filled f i buf) (f i) (omega arith))
    ∙ kept f q buf rest n (suc i) (omega arith)

-- What a unit is once the packet `f` has come in behind a sync word.
abbrev completed : (ℕ → ℕ) → LoopPeer → LoopPeer
completed f q = record (at q 13 (filled f 14 q.recv_buf)) {
  payload = λ k. byte_of (filled f 12 q.recv_buf) (4 + k);
  packets = q.packets + 1;
}

received-packet :
    (f : ℕ → ℕ) (q : LoopPeer)
    → f 12 ≢ sync_data
    → f 13 ≢ sync_data
    → is_checked (sum_hw f 12) ≡ true
    → received (words_from f 14 0 []) (at q 0 q.recv_buf) ≡ completed f q
unfolding words_from received filled
received-packet f q ne ne' c =
    kept f q q.recv_buf (f 11 ∷ f 12 ∷ f 13 ∷ []) 11 0 refl
    ∙ ap (received (f 12 ∷ f 13 ∷ [])) (peer_recv-last q (filled f 11 q.recv_buf) (f 11) sum_ok)
    ∙ ap (received (f 13 ∷ []))
        (peer_recv-late r 12 (filled f 12 q.recv_buf) (f 12) (omega arith) (omega arith) ne)
    ∙ peer_recv-late r 13 (filled f 13 q.recv_buf) (f 13) (omega arith) (omega arith) ne'
  where
    sum_ok : is_checked (sum_hw (filled f 12 q.recv_buf) 12) ≡ true
    sum_ok = rw (sum_hw-filled f 12 12 q.recv_buf (omega arith)) c

    r : LoopPeer
    r = record q {
      payload = λ k. byte_of (filled f 12 q.recv_buf) (4 + k);
      packets = q.packets + 1;
    }

module _ (id : ℕ) (p : LoopPeer) where
  -- The fifteen transfers of a frame carry the packet that BuildPacket has made: a unit whose receive
  -- counter is past the last halfword of a packet, as it is after one, accepts it. It counts one packet
  -- more and no bad checksum, its payload is the twenty bytes of the block, and its counter is at the
  -- end again, whatever was in the buffers before.
  pub sent-received :
      (q : LoopPeer) (k : ℕ)
      → q.recv_counter ≡ pos k
      → packet_hw - 3 < k
      → let r = received (sent 15 (build_packet id p)) q in
        (r.packets ≡ q.packets + 1)
        × (r.bad_checksums ≡ q.bad_checksums)
        × (r.recv_counter ≡ pos (packet_hw - 1))
        × ((j : ℕ)
            → j < block_size
            → r.payload j ≡ packet_byte id p.frame_counter (u8 (p.frame_counter + 1)) (4 + j))
  sent-received q k e h =
      subst
        (λ r.
          (r.packets ≡ q.packets + 1)
          × (r.bad_checksums ≡ q.bad_checksums)
          × (r.recv_counter ≡ pos (packet_hw - 1))
          × ((j : ℕ)
              → j < block_size
              → r.payload j ≡ packet_byte id p.frame_counter (u8 (p.frame_counter + 1)) (4 + j)))
        (sym outcome) (refl, refl, refl, byte)
    where
      late : ((built_packet id p) 12 ≡ 0) × ((built_packet id p) 13 ≡ 0)
      late = unfold build_packet packet_byte in (refl, refl)

      outcome : received (sent 15 (build_packet id p)) q ≡ completed (built_packet id p) q
      outcome =
          ap (λ ws. received ws q) (sent-words id p)
          ∙ started q k e h (words_from (built_packet id p) 14 0 [])
          ∙ received-packet (built_packet id p) q (omega (arith, late)) (omega (arith, late))
              (built-is_checked id p)

      byte :
          (j : ℕ)
          → j < block_size
          → byte_of (filled (built_packet id p) 12 q.recv_buf) (4 + j)
            ≡ packet_byte id p.frame_counter (u8 (p.frame_counter + 1)) (4 + j)
      byte j lt =
          ap (λ x. u8 (x / 2 ^ (8 * ((4 + j) % 2))))
            (filled_lem (built_packet id p) 12 q.recv_buf ((4 + j) / 2) (omega arith))
          ∙ built-byte id p (4 + j) (omega arith)
