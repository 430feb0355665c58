-- ===== src/Rollback/Join/Seat.antt =====
-- platform/rollback.c: which slot a joiner is offered, and that it has it at the agreed frame.
use katam_port.Base.{
  Option, Option-cases, ℕ_discrete, ℕ, zero, suc, ◌+◌, ◌≤◌, ◌<◌, ◌≡◌, refl, sym, ◌∙◌, subst, ap,
  true, false, none, some, Bool-cases, inl, inr, ltb, arith,
}
use katam_port.Rollback.State.{Session, rb_players, is_negative}
use katam_port.Rollback.Events.{find_vacant, vacant_slot}
use katam_port.Rollback.Log.Encode.{encode_log}
use katam_port.Rollback.Join.{SessionInfo, count_vacant, describe_session}

-- Slot `i` is in play and no peer holds it.
abbrev pub IsVacant : Session → ℕ → Type 0
IsVacant s i = (i < s.slots_in_play) × (is_negative (s.slot_peer i) ≡ true)

find_vacant-out :
    (s : Session) (i n : ℕ) → ltb i s.slots_in_play ≡ false → find_vacant s i (suc n) ≡ none
unfolding find_vacant
find_vacant-out s i n out = rw out refl

find_vacant-free :
    (s : Session) (i n : ℕ)
    → ltb i s.slots_in_play ≡ true
    → is_negative (s.slot_peer i) ≡ true
    → find_vacant s i (suc n) ≡ some i
unfolding find_vacant
find_vacant-free s i n inside free = rw (inside, free) refl

find_vacant-held :
    (s : Session) (i n : ℕ)
    → ltb i s.slots_in_play ≡ true
    → is_negative (s.slot_peer i) ≡ false
    → find_vacant s i (suc n) ≡ find_vacant s (i + 1) n
unfolding find_vacant
find_vacant-held s i n inside held = rw (inside, held) refl

-- The slot `k` is vacant, and the first one from `i` on.
abbrev IsFirst : Session → ℕ → ℕ → Type 0
IsFirst s i k = IsVacant s k × (i ≤ k) × ((j : ℕ) → i ≤ j → j < k → ¬ IsVacant s j)

find_vacant-some : (s : Session) (i n : ℕ) {k : ℕ} → find_vacant s i n ≡ some k → IsFirst s i k
find_vacant-some s i zero e = unfold find_vacant in cc e
find_vacant-some s i (suc n) {k = k} e = elim (Bool-cases (ltb i s.slots_in_play)) [
  | inr out ↦ cc (find_vacant-out s i n out, e)
  | inl inside ↦ elim (Bool-cases (is_negative (s.slot_peer i))) [
    | inl free ↦
        subst (IsFirst s i) (cc (find_vacant-free s i n inside free, e))
          ((ground arith, free), omega arith, λ j lo hi. absurd (omega arith))
    | inr held ↦
        let rest = find_vacant-some s (i + 1) n (sym (find_vacant-held s i n inside held) ∙ e) in
        (
          rest.0,
          omega (arith, rest.1),
          λ j lo hi v. elim (ℕ_discrete i j) [
            | yes q ↦ cc (held, v.1, q)
            | no ne ↦ rest.2 j (omega arith) hi v
          ],
        )
  ]
]

find_vacant-none :
    (s : Session) (i n j : ℕ) → find_vacant s i n ≡ none → i ≤ j → j < i + n → ¬ IsVacant s j
find_vacant-none s i zero j e lo hi v = absurd (omega arith)
find_vacant-none s i (suc n) j e lo hi v = elim (Bool-cases (ltb i s.slots_in_play)) [
  | inr out ↦ ground (arith, v.0)
  | inl inside ↦ elim (Bool-cases (is_negative (s.slot_peer i))) [
    | inl free ↦ cc (e, find_vacant-free s i n inside free)
    | inr held ↦ elim (ℕ_discrete i j) [
      | yes q ↦ cc (held, v.1, q)
      | no ne ↦
          find_vacant-none s (i + 1) n j (sym (find_vacant-held s i n inside held) ∙ e)
            (omega arith) (omega arith) v
    ]
  ]
]

count_vacant-none : (s : Session) (i n : ℕ) → count_vacant s i n ≡ 0 → find_vacant s i n ≡ none
unfolding count_vacant
count_vacant-none s i zero e = unfold find_vacant in refl
count_vacant-none s i (suc n) e = elim (Bool-cases (ltb i s.slots_in_play)) [
  | inr out ↦ find_vacant-out s i n out
  | inl inside ↦ elim (Bool-cases (is_negative (s.slot_peer i))) [
    | inl free ↦ absurd (ground arith)
    | inr held ↦ find_vacant-held s i n inside held ∙ count_vacant-none s (i + 1) n (ground arith)
  ]
]

-- What PortRbVacantSlot gives, as an option: the lowest vacant slot, or that there is none.
pub data Offers (s : Session) : Option ℕ → Type 0 where
  lowest : (k : ℕ) → IsVacant s k → ((j : ℕ) → j < k → ¬ IsVacant s j) → Offers s (some k)
  full : ((j : ℕ) → ¬ IsVacant s j) → Offers s none

vacant_slot-find : (s : Session) → s.active ≡ true → vacant_slot s ≡ find_vacant s 0 rb_players
unfolding vacant_slot
vacant_slot-find s on = rw on refl

-- PortRbVacantSlot, in an active session with at most four slots in play, gives the lowest slot in
-- play that no peer holds, and -1 only when there is none.
pub vacant_slot-Offers :
    (s : Session) → s.active ≡ true → s.slots_in_play ≤ rb_players → Offers s (vacant_slot s)
vacant_slot-Offers s on few = elim (Option-cases (vacant_slot s)) [
  | inl e ↦ subst (Offers s) (sym e) (
      full (λ j v.
        find_vacant-none s 0 rb_players j (sym (vacant_slot-find s on) ∙ e) (omega arith)
          (omega (arith, v.0)) v))
  | inr (k, e) ↦
      let r = find_vacant-some s 0 rb_players (sym (vacant_slot-find s on) ∙ e) in
      subst (Offers s) (sym e) (lowest k r.0 (λ j lt. r.2 j (omega arith) lt))
]

-- A session that PortRbDescribeSession describes as having no vacant slot offers none.
pub describe_session-full :
    (s : Session) (i : SessionInfo)
    → describe_session s ≡ some i
    → i.vacant ≡ 0
    → vacant_slot s ≡ none
describe_session-full s i e z = elim (Bool-cases s.active) [
  | inr off ↦ cc (e, unlisted off)
  | inl on ↦
      vacant_slot-find s on
      ∙ count_vacant-none s 0 rb_players (sym (ap (λ x. x.vacant) (same_info on)) ∙ z)
]
  where
    info : SessionInfo
    info = record {
      frame = s.frame;
      log_bytes = (encode_log 0 s).0;
      slots_in_play = s.slots_in_play;
      vacant = count_vacant s 0 rb_players;
      slot_peer = s.slot_peer;
    }

    unlisted : s.active ≡ false → describe_session s ≡ none
    unlisted off = unfold describe_session in rw off refl

    described : s.active ≡ true → describe_session s ≡ some info
    described on = unfold describe_session in rw on refl

    same_info : s.active ≡ true → i ≡ info
    same_info on = cc (e, described on)
