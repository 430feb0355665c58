-- ===== src/Link/Tests.antt =====
-- The link on concrete words: platform/mp_peer_lobby.c, platform/mp.c, platform/sio.c.
use katam_port.Base.{update, ℕ, ◌+◌, ◌≡◌, refl, true, false, some, none, List, [], ◌∷◌, arith, u32}
use katam_port.Link.Lobby.{lobby, PeerLobby, no_peer}
use katam_port.Link.Lobby.Settle.{replies, IsCounting, answer_after, replies-settles, replies-slips}
use katam_port.Link.Registry.{Transport, Registry, poll_once, poll_once-IsLink, IsLink, no_link}
use katam_port.Link.Sio.{Regs, Sio, sio_frame, sio_slots, multi_mode}
use katam_port.Link.Sio.Slots.{Ran, sio_frame-Ran, sio_frame-full}

-- The parent's counter at the end of its thirteen bits.
abbrev counter : List ℕ
counter = 0x3FFE ∷ 0x3FFF ∷ 0x2100 ∷ 0x2101 ∷ []

replies-settles_example :
    (replies 2 (0x620F ∷ 0x3FFD ∷ counter) (0, λ _. no_peer)).0 ≡ answer_after 4
unfolding IsCounting
replies-settles_example =
    replies-settles 2 0x620F 0x3FFD 0 counter (λ _. no_peer) (omega arith) (omega arith) refl
      (omega arith) (refl, refl, (refl, refl, (refl, refl, (refl, refl, tt))))

-- A peer that was about to settle.
abbrev patient : PeerLobby
patient = record { phase = lobby; last_seq = 0x2200; settled = 30; have_seq = true }

replies-slips_example : (replies 1 (0x2202 ∷ 0x2203 ∷ []) (0, λ _. patient)).0 ≡ answer_after 1
unfolding IsCounting
replies-slips_example =
    replies-slips 1 0x2202 0 (0x2203 ∷ []) (λ _. patient) (omega arith) (omega arith) refl refl
      (λ e. absurd (omega (arith, e))) (refl, refl, tt)

-- A transport with the parent at the far end, which sends its number of words so far.
abbrev echo : Transport
echo = record {
  State = ℕ;
  open_link = λ players s. (true, s);
  close_link = λ s. s;
  poll = λ l s. (record { up = true; self_id = 1; players = 9; error = false }, s);
  exchange = λ send recv s. ((true, update recv 0 (s + send)), s + 1);
}

abbrev attached : Registry echo
attached = record { transport = some 0; link = no_link; polled = false; closed = none }

poll_once-IsLink_example :
    IsLink echo (poll_once echo attached).link
    × (poll_once echo (poll_once echo attached) ≡ poll_once echo attached)
poll_once-IsLink_example =
    poll_once-IsLink echo attached (record { few = omega arith; seated = omega arith })

abbrev port : Sio echo ℕ
port = record {
  regs = record {
    cnt = record {
      baud = 3;
      si = false;
      sd = false;
      id = 0;
      error = false;
      start = false;
      middle = 0;
      mode = multi_mode;
      top = 1;
    };
    send = 7;
    multi = λ _. 0;
  };
  game = 0;
  mp = attached;
  transfers = 5;
  stalls = 0;
  ever_up = false;
}

-- The handler counts the words, and sends their number.
abbrev handler : Regs × ℕ → Regs × ℕ
handler r = (record (r.0) { send = r.1 }, r.1 + 1)

sio_frame-Ran_example : Ran echo handler sio_slots port (sio_frame echo handler port)
sio_frame-Ran_example = sio_frame-Ran echo handler port (omega arith) (omega arith)

sio_frame-full_example : (sio_frame echo handler port).transfers ≡ u32 (5 + sio_slots)
sio_frame-full_example =
    sio_frame-full echo handler port (λ send h. refl) refl refl refl refl
      (λ e. absurd (omega (arith, e))) (omega arith)
