-- ===== src/Link/Lobby/Settle.antt =====
-- platform/mp_peer_lobby.c: when a peer says that it is settled.
use katam_port.Base.{
  ℕ, suc, ◌+◌, ◌/◌, ◌%◌, ◌^◌, ◌≤◌, ◌<◌, ◌≡◌, ◌≢◌, refl, sym, ◌∙◌, subst, ap, true, false, ltb,
  if◌then◌else◌, update, update_self, pos, List, [], ◌∷◌, length, min, arith,
}
use katam_port.Link.Lobby.{
  mp_players, lobby, PeerLobby, is_hello, child_alive, child_ready, same_game_reply, settle_frames,
  next_seq, bump, follow, settled_reply, recognised, answer, peer_reply,
}

-- The peer's answers to a list of words: the last of them, and its state. Without a word there is
-- none, and the answer is `reply`.
unfoldable pub answers : ℕ → List ℕ → ℕ × PeerLobby → ℕ × PeerLobby
answers slot [] r = r
answers slot (w ∷ ws) r = answers slot ws (answer slot w r.1)

-- Words of the parent's counter (0x2XXX), each the next after the one before.
unfoldable pub IsCounting : ℕ → List ℕ → Type 0
IsCounting last [] = Unit
IsCounting last (w ∷ ws) = (w / 2 ^ 13 ≡ 1) × (w % 2 ^ 13 ≡ next_seq last) × IsCounting w ws

-- A peer that follows the counter.
pub record IsFollowing (p : PeerLobby) : Type 0 where
  pub in_lobby : p.phase ≡ lobby
  pub has : p.have_seq ≡ true

answer-count :
    (slot word : ℕ) (p : PeerLobby)
    → p.phase ≡ lobby
    → word / 2 ^ 13 ≡ 1
    → answer slot word p ≡ (settled_reply (follow word p), follow word p)
unfolding answer
answer-count slot word p e tag = ground arith

-- The peer after one word of the counter.
abbrev counted : ℕ → ℕ → PeerLobby → PeerLobby
counted n word p = record p { settled = n; last_seq = word; have_seq = true }

follow-next :
    (word : ℕ) (p : PeerLobby)
    → p.have_seq ≡ true
    → word % 2 ^ 13 ≡ next_seq p.last_seq
    → follow word p ≡ counted (bump p.settled) word p
unfolding follow
follow-next word p has next = ap (λ n. counted n word p) (ground arith)

follow-slip :
    (word : ℕ) (p : PeerLobby)
    → word % 2 ^ 13 ≢ next_seq p.last_seq
    → follow word p ≡ counted 0 word p
unfolding follow
follow-slip word p slip = ap (λ n. counted n word p) (ground arith)

follow-first : (word : ℕ) (p : PeerLobby) → p.have_seq ≡ false → follow word p ≡ counted 0 word p
unfolding follow
follow-first word p none_yet = ap (λ n. counted n word p) (ground arith)

-- The words `ws` count on from what the peer `p` saw last: its count grows by one with each of them,
-- up to the largest of a u16.
answers-count :
    (slot reply : ℕ) (ws : List ℕ) (p : PeerLobby)
    → p.phase ≡ lobby
    → p.have_seq ≡ true
    → p.settled ≤ 0xFFFF
    → reply ≡ settled_reply p
    → IsCounting p.last_seq ws
    → let (r, q) = answers slot ws (reply, p) in
      (r ≡ settled_reply q) × (q.phase ≡ lobby) × (q.settled ≡ min (p.settled + length ws) 0xFFFF)
unfolding answers IsCounting
answers-count slot reply [] p e has le r c = (r, e, omega arith)
answers-count slot reply (w ∷ ws) p e has le r (tag, next, c) =
    let q = counted (bump p.settled) w p in
    let ih = answers-count slot (settled_reply q) ws q e refl (ground arith) refl c in
    subst
      (λ z.
        ((answers slot ws z).0 ≡ settled_reply (answers slot ws z).1)
        × ((answers slot ws z).1.phase ≡ lobby)
        × ((answers slot ws z).1.settled ≡ min (p.settled + suc (length ws)) 0xFFFF))
      (sym
        (answer-count slot w p e tag ∙ ap (λ f. (settled_reply f, f)) (follow-next w p has next)))
      (ih.0, ih.1, ground (arith, ih.2))

answer-hello :
    (slot hello : ℕ) (p : PeerLobby)
    → is_hello hello ≡ true
    → answer slot hello p ≡ (same_game_reply slot, recognised p)
unfolding answer
answer-hello slot hello p h = rw h refl

-- The answer of a peer that has followed `n` words since its count was last zero.
abbrev pub answer_after : ℕ → ℕ
answer_after n = if ltb settle_frames n then child_ready else child_alive

-- A peer in the lobby whose count is zero after `word` answers by the number of words that follow.
answers-zero :
    (slot word : ℕ) (ws : List ℕ) (p : PeerLobby)
    → p.phase ≡ lobby
    → IsCounting word ws
    → let q = counted 0 word p in
      (answers slot ws (settled_reply q, q)).0 ≡ answer_after (length ws)
answers-zero slot word ws p e c =
    let q = counted 0 word p in
    let r = answers-count slot (settled_reply q) ws q e refl (omega arith) refl c in
    r.0 ∙ ground (arith, r.2)

answers-hello :
    (slot hello first : ℕ) (ws : List ℕ) (r : ℕ × PeerLobby)
    → is_hello hello ≡ true
    → first / 2 ^ 13 ≡ 1
    → IsCounting first ws
    → (answers slot (hello ∷ first ∷ ws) r).0 ≡ answer_after (length ws)
unfolding answers
answers-hello slot hello first ws r h tag c =
    ap (λ z. (answers slot ws z).0)
      (ap (λ z. answer slot first z.1) (answer-hello slot hello r.1 h)
        ∙ answer-count slot first (recognised r.1) refl tag
        ∙ ap (λ f. (settled_reply f, f)) (follow-first first (recognised r.1) refl))
    ∙ answers-zero slot first ws (recognised r.1) refl c

answers-slip :
    (slot word : ℕ) (ws : List ℕ) (r : ℕ × PeerLobby)
    → r.1.phase ≡ lobby
    → word / 2 ^ 13 ≡ 1
    → word % 2 ^ 13 ≢ next_seq r.1.last_seq
    → IsCounting word ws
    → (answers slot (word ∷ ws) r).0 ≡ answer_after (length ws)
unfolding answers
answers-slip slot word ws r e tag slip c =
    ap (λ z. (answers slot ws z).0)
      (answer-count slot word r.1 e tag
        ∙ ap (λ f. (settled_reply f, f)) (follow-slip word r.1 slip))
    ∙ answers-zero slot word ws r.1 e c

-- The words that the master sends to one slot: the last reply, and the peers.
unfoldable pub replies : ℕ → List ℕ → ℕ × (ℕ → PeerLobby) → ℕ × (ℕ → PeerLobby)
replies slot [] r = r
replies slot (w ∷ ws) r = replies slot ws (peer_reply (pos slot) w r.1)

peer_reply-answer :
    (slot w : ℕ) (peers : ℕ → PeerLobby)
    → 0 < slot
    → slot < mp_players
    → peer_reply (pos slot) w peers
      ≡ ((answer slot w (peers slot)).0, update peers slot (answer slot w (peers slot)).1)
unfolding peer_reply
peer_reply-answer slot w peers lo hi = ground arith

replies-answers :
    (slot : ℕ) (ws : List ℕ) (reply : ℕ) (peers : ℕ → PeerLobby)
    → 0 < slot
    → slot < mp_players
    → (replies slot ws (reply, peers)).0 ≡ (answers slot ws (reply, peers slot)).0
unfolding replies answers
replies-answers slot [] reply peers lo hi = refl
replies-answers slot (w ∷ ws) reply peers lo hi =
    let a = answer slot w (peers slot) in
    ap (λ z. (replies slot ws z).0) (peer_reply-answer slot w peers lo hi)
    ∙ replies-answers slot ws a.0 (update peers slot a.1) lo hi
    ∙ ap (λ q. (answers slot ws (a.0, q)).0) (update_self peers slot a.1)

-- A peer that is recognised, sees a first word of the parent's counter, and then follows the words
-- `ws` of it, ends up answering that it is ready exactly when these are more than thirty; until then
-- it answers that it is alive. This holds in each of the slots 1 to 3, whatever was before.
pub replies-settles :
    (slot hello first reply : ℕ) (ws : List ℕ) (peers : ℕ → PeerLobby)
    → 0 < slot
    → slot < mp_players
    → is_hello hello ≡ true
    → first / 2 ^ 13 ≡ 1
    → IsCounting first ws
    → (replies slot (hello ∷ first ∷ ws) (reply, peers)).0 ≡ answer_after (length ws)
replies-settles slot hello first reply ws peers lo hi h tag c =
    replies-answers slot (hello ∷ first ∷ ws) reply peers lo hi
    ∙ answers-hello slot hello first ws (reply, peers slot) h tag c

-- A word of the parent's counter that is not the next one costs a peer in the lobby all that it has
-- counted: only more than thirty further words make it ready again.
pub replies-slips :
    (slot word reply : ℕ) (ws : List ℕ) (peers : ℕ → PeerLobby)
    → 0 < slot
    → slot < mp_players
    → (peers slot).phase ≡ lobby
    → word / 2 ^ 13 ≡ 1
    → word % 2 ^ 13 ≢ next_seq (peers slot).last_seq
    → IsCounting word ws
    → (replies slot (word ∷ ws) (reply, peers)).0 ≡ answer_after (length ws)
replies-slips slot word reply ws peers lo hi e tag slip c =
    replies-answers slot (word ∷ ws) reply peers lo hi
    ∙ answers-slip slot word ws (reply, peers slot) e tag slip c
