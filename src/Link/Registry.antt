-- ===== src/Link/Registry.antt =====
-- platform/mp.c: which transport is attached, and what it last said about the link.
use katam_port.Base.{
  Option-cases, ℕ, ◌≤◌, ◌<◌, ◌≡◌, refl, Bool, true, false, Option, none, some, ltb, leb,
  if◌then◌else◌, arith, Bool-cases, inl, inr, ℤ, pos, negsuc,
}
use katam_port.Link.Lobby.{mp_players}

-- struct PortMpLink
pub record Link : Type 0 where
  pub up : Bool
  pub self_id : ℕ
  pub players : ℕ
  pub error : Bool

abbrev pub no_link : Link
no_link = record { up = false; self_id = 0; players = 0; error = false }

-- struct PortMpTransport, a transport of the host's: its functions on its own state. An `open` that is
-- NULL is one that succeeds, a `close` that is NULL one that does nothing.
pub record Transport : Type 1 where
  pub State : Type 0
  pub open_link : ℕ → State → Bool × State
  pub close_link : State → State
  pub poll : Link → State → Link × State
  -- The word sent, and what recv[] holds before; whether the transfer happened, and recv[] after it.
  pub exchange : ℕ → (ℕ → ℕ) → State → (Bool × (ℕ → ℕ)) × State

module _ (t : Transport) where
  -- sTransport, sLink, sPolledThisFrame, and the transport that was closed last.
  pub record Registry : Type 0 where
    pub transport : Option t.State
    pub link : Link
    pub polled : Bool
    pub closed : Option t.State

  -- PortMpDetach
  unfoldable pub detach : Registry → Registry
  detach r = elim r.transport [
    | none ↦ r
    | some s ↦ record r { transport = none; link = no_link; closed = some (t.close_link s) }
  ]

  abbrev pub clamp_players : ℤ → ℕ
  clamp_players (negsuc _) = 2
  clamp_players (pos n) = if ltb n 2 then 2 else if ltb mp_players n then mp_players else n

  -- PortMpAttach. `none` is a transport that lacks `exchange` or `poll`, or NULL.
  unfoldable pub attach : Option t.State → ℤ → Registry → Bool × Registry
  attach none players r = (false, detach r)
  attach (some s) players r =
      let (opened, s') = t.open_link (clamp_players players) s in
      if opened
      then (true, record (detach r) { transport = some s'; link = no_link })
      else (false, detach r)

  abbrev pub clamp_link : Link → Link
  clamp_link l = record l {
    players = if ltb mp_players l.players then mp_players else l.players;
    self_id = if leb mp_players l.self_id then 0 else l.self_id;
  }

  abbrev pub polled_by : t.State → Registry → Registry
  polled_by s r =
      let (l, s') = t.poll r.link s in
      record r { transport = some s'; link = clamp_link l; polled = true }

  -- PortMpPoll; the link that it gives is the registry's.
  unfoldable pub poll_once : Registry → Registry
  poll_once r = elim r.transport [
    | none ↦ record r { link = no_link }
    | some s ↦ if r.polled then r else polled_by s r
  ]

  -- PortMpFrame, up to the transfers.
  abbrev pub begin_frame : Registry → Registry
  begin_frame r = record r { polled = false }

  -- PortMpExchange
  unfoldable pub exchange_word : ℕ → (ℕ → ℕ) → Registry → (Bool × (ℕ → ℕ)) × Registry
  exchange_word send recv r = elim r.transport [
    | none ↦ ((false, recv), r)
    | some s ↦ let (out, s') = t.exchange send recv s in (out, record r { transport = some s' })
  ]

  pub exchange_word-some :
      (send : ℕ) (recv : ℕ → ℕ) (r : Registry) {s : t.State}
      → r.transport ≡ some s
      → exchange_word send recv r
        ≡ ((t.exchange send recv s).0, record r { transport = some (t.exchange send recv s).1 })
  unfolding exchange_word
  exchange_word-some send recv r {s = s} e = ground arith

  -- The players and the slot are those of a cable of four.
  pub record IsLink (l : Link) : Type 0 where
    pub few : l.players ≤ mp_players
    pub seated : l.self_id < mp_players

  clamp_link-IsLink : (l : Link) → IsLink (clamp_link l)
  clamp_link-IsLink l = record { few = ground arith; seated = ground arith }

  no_link-IsLink : IsLink no_link
  no_link-IsLink = record { few = omega arith; seated = omega arith }

  poll_once-none : (r : Registry) → r.transport ≡ none → poll_once r ≡ record r { link = no_link }
  unfolding poll_once
  poll_once-none r e = ground arith

  poll_once-again :
      (r : Registry) {s : t.State} → r.transport ≡ some s → r.polled ≡ true → poll_once r ≡ r
  unfolding poll_once
  poll_once-again r {s = s} e p = ground arith

  pub poll_once-first :
      (r : Registry) {s : t.State}
      → r.transport ≡ some s
      → r.polled ≡ false
      → poll_once r ≡ polled_by s r
  unfolding poll_once
  poll_once-first r {s = s} e p = ground arith

  -- PortMpPoll leaves a link of at most four players and a slot on the cable, given one, whatever the
  -- transport says, and a second poll in the same frame changes nothing.
  pub poll_once-IsLink :
      (r : Registry)
      → IsLink r.link
      → IsLink (poll_once r).link × (poll_once (poll_once r) ≡ poll_once r)
  poll_once-IsLink r h = elim (Option-cases r.transport) [
    | inl e ↦
        rw (poll_once-none r e) (no_link-IsLink, poll_once-none (record r { link = no_link }) e)
    | inr (s, e) ↦ elim (Bool-cases r.polled) [
      | inl p ↦ rw (poll_once-again r e p, poll_once-again r e p) (h, refl)
      | inr p ↦
          rw (poll_once-first r e p)
            (clamp_link-IsLink (t.poll r.link s).0, poll_once-again (polled_by s r) refl refl)
    ]
  ]
