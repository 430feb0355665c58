-- ===== src/Link/Sio/Slots.antt =====
-- platform/sio.c: how many transfers a frame runs.
use katam_port.Base.{
  ℕ, zero, suc, ◌+◌, ◌^◌, ◌≤◌, ◌<◌, ◌≡◌, ◌≢◌, refl, sym, ◌∙◌, ap, subst, true, false, none, some,
  Option-cases, Bool-cases, inl, inr, ◌==◌, u32, arith,
}
use katam_port.Link.Registry.{
  Link, Transport, clamp_link, poll_once-first, exchange_word, exchange_word-some,
}
use katam_port.Link.Sio.{
  Regs, multi_mode, sio_slots, is_armed, Sio, stalled, landed, run_transfer, run_slots, refreshed,
  polled, run_up, sio_frame,
}

module _ (t : Transport) {Game : Type 0} (interrupt : Regs × Game → Regs × Game) where
  -- Between `s` and `s'` so many transfers have been run, and so many declined.
  pub record Ran (slots : ℕ) (s s' : Sio t Game) : Type 0 where
    pub ran : ℕ
    pub declined : ℕ
    pub few : ran + declined ≤ slots
    pub once : declined ≤ 1
    pub transfers : s'.transfers ≡ u32 (s.transfers + ran)
    pub stalls : s'.stalls ≡ u32 (s.stalls + declined)

  still : (slots : ℕ) (s : Sio t Game) → s.transfers < 2 ^ 32 → s.stalls < 2 ^ 32 → Ran slots s s
  still slots s ht hs = record {
    ran = 0;
    declined = 0;
    few = omega arith;
    once = omega arith;
    transfers = omega arith;
    stalls = omega arith;
  }

  run_transfer-landed :
      (link : Link) (s : Sio t Game)
      → let r = exchange_word t s.regs.send (λ _. 0xFFFF) s.mp in
        r.0.0 ≡ true → run_transfer t interrupt link s ≡ (true, landed t interrupt link r.0.1 r.1 s)
  unfolding run_transfer
  run_transfer-landed link s e = ground arith

  run_transfer-stalled :
      (link : Link) (s : Sio t Game)
      → let r = exchange_word t s.regs.send (λ _. 0xFFFF) s.mp in
        r.0.0 ≡ false → run_transfer t interrupt link s ≡ (false, stalled t interrupt r.1 s)
  unfolding run_transfer
  run_transfer-stalled link s e = ground arith

  run_slots-unarmed :
      (n : ℕ) (link : Link) (s : Sio t Game)
      → is_armed link s.regs ≡ false
      → run_slots t interrupt (suc n) link s ≡ s
  unfolding run_slots
  run_slots-unarmed n link s e = ground arith

  run_slots-stalled :
      (n : ℕ) (link : Link) (s : Sio t Game) {u : Sio t Game}
      → is_armed link s.regs ≡ true
      → run_transfer t interrupt link s ≡ (false, u)
      → run_slots t interrupt (suc n) link s ≡ u
  unfolding run_slots
  run_slots-stalled n link s {u = u} a e = ground arith

  run_slots-landed :
      (n : ℕ) (link : Link) (s : Sio t Game) {u : Sio t Game}
      → is_armed link s.regs ≡ true
      → run_transfer t interrupt link s ≡ (true, u)
      → run_slots t interrupt (suc n) link s ≡ run_slots t interrupt n link u
  unfolding run_slots
  run_slots-landed n link s {u = u} a e = ground arith

  one_more :
      (n : ℕ) {s u v : Sio t Game}
      → u.transfers ≡ u32 (s.transfers + 1)
      → u.stalls ≡ s.stalls
      → Ran n u v
      → Ran (suc n) s v
  one_more n {s} {u} {v} ht hs r = record {
    ran = r.ran + 1;
    declined = r.declined;
    few = omega (arith, r.few);
    once = r.once;
    transfers = omega (arith, r.transfers, ht);
    stalls = omega (arith, r.stalls, hs);
  }

  run_slots-Ran :
      (n : ℕ) (link : Link) (s : Sio t Game)
      → s.transfers < 2 ^ 32
      → s.stalls < 2 ^ 32
      → Ran n s (run_slots t interrupt n link s)
  run_slots-Ran zero link s ht hs = unfold run_slots in still 0 s ht hs
  run_slots-Ran (suc n) link s ht hs = elim (Bool-cases (is_armed link s.regs)) [
    | inr off ↦ subst (Ran (suc n) s) (sym (run_slots-unarmed n link s off)) (still (suc n) s ht hs)
    | inl on ↦ elim (Bool-cases (exchange_word t s.regs.send (λ _. 0xFFFF) s.mp).0.0) [
      | inr no_word ↦
          subst (Ran (suc n) s)
            (sym (run_slots-stalled n link s on (run_transfer-stalled link s no_word)))
            (record {
              ran = 0;
              declined = 1;
              few = omega arith;
              once = omega arith;
              transfers = omega arith;
              stalls = refl;
            })
      | inl word ↦
          subst (Ran (suc n) s)
            (sym (run_slots-landed n link s on (run_transfer-landed link s word)))
            (one_more n refl refl (run_slots-Ran n link _ (omega arith) hs))
    ]
  ]

  run_up-down : (s : Sio t Game) → s.mp.link.up ≡ false → run_up t interrupt s ≡ s
  run_up-down s e = ground arith

  run_up-up :
      (s : Sio t Game)
      → s.mp.link.up ≡ true
      → run_up t interrupt s
        ≡ run_slots t interrupt sio_slots s.mp.link (record s { ever_up = true })
  run_up-up s e = ground arith

  run_up-Ran :
      (s : Sio t Game)
      → s.transfers < 2 ^ 32
      → s.stalls < 2 ^ 32
      → Ran sio_slots s (run_up t interrupt s)
  run_up-Ran s ht hs = elim (Bool-cases s.mp.link.up) [
    | inr down ↦ subst (Ran sio_slots s) (sym (run_up-down s down)) (still sio_slots s ht hs)
    | inl up ↦
        let r = run_slots-Ran sio_slots s.mp.link (record s { ever_up = true }) ht hs in
        subst (Ran sio_slots s) (sym (run_up-up s up)) (record {
          ran = r.ran;
          declined = r.declined;
          few = r.few;
          once = r.once;
          transfers = r.transfers;
          stalls = r.stalls;
        })
  ]

  sio_frame-none : (s : Sio t Game) → s.mp.transport ≡ none → sio_frame t interrupt s ≡ s
  unfolding sio_frame
  sio_frame-none s e = ground arith

  sio_frame-other :
      (s : Sio t Game) {h : t.State}
      → s.mp.transport ≡ some h
      → (s.regs.cnt.mode == multi_mode) ≡ false
      → sio_frame t interrupt s ≡ polled t interrupt s
  unfolding sio_frame
  sio_frame-other s {h = h} e other = ground arith

  sio_frame-multi :
      (s : Sio t Game) {h : t.State}
      → s.mp.transport ≡ some h
      → (s.regs.cnt.mode == multi_mode) ≡ true
      → sio_frame t interrupt s ≡ run_up t interrupt (refreshed t interrupt (polled t interrupt s))
  unfolding sio_frame
  sio_frame-multi s {h = h} e multi = ground arith

  -- PortSioFrame runs at most sixteen transfers, and stops at the first that the transport declines:
  -- at most one is counted as a stall, and the two are together at most sixteen. This holds whatever
  -- the transport and the interrupt handler do, of counters of 32 bits.
  pub sio_frame-Ran :
      (s : Sio t Game)
      → s.transfers < 2 ^ 32
      → s.stalls < 2 ^ 32
      → Ran sio_slots s (sio_frame t interrupt s)
  sio_frame-Ran s ht hs = elim (Option-cases s.mp.transport) [
    | inl e ↦ subst (Ran sio_slots s) (sym (sio_frame-none s e)) (still sio_slots s ht hs)
    | inr (h, e) ↦ elim (Bool-cases (s.regs.cnt.mode == multi_mode)) [
      | inr other ↦
          let r = still sio_slots s ht hs in
          subst (Ran sio_slots s) (sym (sio_frame-other s e other)) (record {
            ran = r.ran;
            declined = r.declined;
            few = r.few;
            once = r.once;
            transfers = r.transfers;
            stalls = r.stalls;
          })
      | inl multi ↦
          let r = run_up-Ran (refreshed t interrupt (polled t interrupt s)) ht hs in
          subst (Ran sio_slots s) (sym (sio_frame-multi s e multi)) (record {
            ran = r.ran;
            declined = r.declined;
            few = r.few;
            once = r.once;
            transfers = r.transfers;
            stalls = r.stalls;
          })
    ]
  ]

  -- A transport that never declines, with every link of this unit a child's: each slot runs.
  run_slots-full :
      (n : ℕ) (link : Link) (s : Sio t Game) {h : t.State}
      → ((send : ℕ) (h : t.State) → (t.exchange send (λ _. 0xFFFF) h).0.0 ≡ true)
      → link.self_id ≢ 0
      → s.mp.transport ≡ some h
      → s.transfers < 2 ^ 32
      → (run_slots t interrupt n link s).transfers ≡ u32 (s.transfers + n)
  run_slots-full zero link s always child e ht = unfold run_slots in omega arith
  run_slots-full (suc n) link s {h = h} always child e ht =
      let x = exchange_word-some t s.regs.send (λ _. 0xFFFF) s.mp e in
      let word = ap (λ r. r.0.0) x ∙ always s.regs.send h in
      let r = exchange_word t s.regs.send (λ _. 0xFFFF) s.mp in
      let ih =
        run_slots-full n link (landed t interrupt link r.0.1 r.1 s) always child
          (ap (λ r. r.1.transport) x) (omega arith) in
      ap (λ u. u.transfers)
        (run_slots-landed n link s (armed child) (run_transfer-landed link s word))
      ∙ ih
      ∙ omega arith
    where
      armed : link.self_id ≢ 0 → is_armed link s.regs ≡ true
      armed child = ground arith

  -- A child on a link that is up, in multi-play mode, with a transport that never declines, runs
  -- sixteen transfers in the frame, whatever the interrupt handler does.
  pub sio_frame-full :
      (s : Sio t Game) {h : t.State}
      → ((send : ℕ) (h : t.State) → (t.exchange send (λ _. 0xFFFF) h).0.0 ≡ true)
      → s.mp.transport ≡ some h
      → s.mp.polled ≡ false
      → s.regs.cnt.mode ≡ multi_mode
      → (t.poll s.mp.link h).0.up ≡ true
      → (clamp_link t (t.poll s.mp.link h).0).self_id ≢ 0
      → s.transfers < 2 ^ 32
      → (sio_frame t interrupt s).transfers ≡ u32 (s.transfers + sio_slots)
  sio_frame-full s {h = h} always e fresh mode up child ht =
      let p = poll_once-first t s.mp e fresh in
      let s1 = refreshed t interrupt (polled t interrupt s) in
      ap (λ u. u.transfers) (sio_frame-multi s e (ground arith))
      ∙ ap (λ u. u.transfers) (run_up-up s1 (ap (λ m. m.link.up) p ∙ up))
      ∙ run_slots-full sio_slots s1.mp.link (record s1 { ever_up = true }) always
          (λ z. child (ap (λ m. m.link.self_id) (sym p) ∙ z)) (ap (λ m. m.transport) p) ht
