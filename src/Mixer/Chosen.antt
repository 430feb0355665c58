-- ===== src/Mixer/Chosen.antt =====
-- platform/m4a_mixer.c, ply_note: the channel that the loop over the sample channels chooses.
use katam_port.Base.{
  ℕ, zero, suc, ◌+◌, ◌<◌, ◌≡◌, refl, sym, ◌∙◌, ap, subst, true, false, Bool-cases, inl, inr, arith,
  Option, none, some,
}
use katam_port.Mixer.{Chan}
use katam_port.Mixer.Choice.{
  is_taken, is_releasing, Best, consider, best_from, choose_channel, GivesWay, Outranks, Seen,
  all_suc,
}
use katam_port.Mixer.Seen.{Seen-next}

-- What a choice among so many channels may be.
pub data Chosen (chans : ℕ → Chan) (max_chans priority track : ℕ) : Option ℕ → Type 0 where
  free :
      (r : Option ℕ) (k : ℕ)
      → r ≡ some k
      → k < max_chans
      → is_taken (chans k) ≡ false
      → ((j : ℕ) → j < k → is_taken (chans j) ≡ true)
      → Chosen chans max_chans priority track r
  fading :
      (r : Option ℕ) (k : ℕ)
      → r ≡ some k
      → k < max_chans
      → ((j : ℕ) → j < max_chans → is_taken (chans j) ≡ true)
      → is_releasing (chans k) ≡ true
      → ((j : ℕ)
          → j < max_chans
          → is_releasing (chans j) ≡ true
          → GivesWay (chans k) (chans j).pr (chans j).track)
      → Chosen chans max_chans priority track r
  giving :
      (r : Option ℕ) (k : ℕ)
      → r ≡ some k
      → k < max_chans
      → ((j : ℕ) → j < max_chans → is_taken (chans j) ≡ true)
      → GivesWay (chans k) priority track
      → ((j : ℕ)
          → j < max_chans
          → (is_releasing (chans j) ≡ false) × GivesWay (chans k) (chans j).pr (chans j).track)
      → Chosen chans max_chans priority track r
  refused :
      (r : Option ℕ)
      → r ≡ none
      → ((j : ℕ) → j < max_chans → is_taken (chans j) ≡ true)
      → ((j : ℕ)
          → j < max_chans
          → (is_releasing (chans j) ≡ false) × Outranks (chans j) priority track)
      → Chosen chans max_chans priority track r

Seen→Chosen :
    (chans : ℕ → Chan) (max_chans priority track : ℕ) (r : Option ℕ) (b : Best)
    → r ≡ b.best
    → ((j : ℕ) → j < max_chans → is_taken (chans j) ≡ true)
    → Seen chans priority track max_chans b
    → Chosen chans max_chans priority track r
Seen→Chosen chans max_chans priority track r b e busy (Seen.nobody eb h) =
    refused r (e ∙ ap (λ (x : Best). x.best) eb) busy h
Seen→Chosen chans max_chans priority track r b e busy (Seen.giving k lt eb note h) =
    giving r k (e ∙ ap (λ (x : Best). x.best) eb) lt busy note h
Seen→Chosen chans max_chans priority track r b e busy (Seen.fading k lt eb fades h) =
    fading r k (e ∙ ap (λ (x : Best). x.best) eb) lt busy fades h

best_from-free :
    (chans : ℕ → Chan) (rest n : ℕ) (b : Best)
    → is_taken (chans n) ≡ false
    → best_from chans (suc rest) n b ≡ some n
unfolding best_from
best_from-free chans rest n b e = rw (e, best_from) refl

best_from-taken :
    (chans : ℕ → Chan) (rest n : ℕ) (b : Best)
    → is_taken (chans n) ≡ true
    → best_from chans (suc rest) n b ≡ best_from chans rest (suc n) (consider (chans n) n b)
unfolding best_from
best_from-taken chans rest n b e = rw (e, best_from) refl

best_from-end : (chans : ℕ → Chan) (n : ℕ) (b : Best) → best_from chans zero n b ≡ b.best
unfolding best_from
best_from-end chans n b = refl

best_from-Chosen :
    (chans : ℕ → Chan) (max_chans priority track rest n : ℕ) (b : Best)
    → n + rest ≡ max_chans
    → ((j : ℕ) → j < n → is_taken (chans j) ≡ true)
    → Seen chans priority track n b
    → Chosen chans max_chans priority track (best_from chans rest n b)
best_from-Chosen chans max_chans priority track zero n b size busy seen =
    Seen→Chosen chans max_chans priority track (best_from chans zero n b) b
      (best_from-end chans n b) (λ j lt. busy j (omega (arith, lt)))
      (subst (λ m. Seen chans priority track m b) (omega arith) seen)
best_from-Chosen chans max_chans priority track (suc rest) n b size busy seen =
    elim (Bool-cases (is_taken (chans n))) [
      | inl e ↦
          subst (Chosen chans max_chans priority track) (sym (best_from-taken chans rest n b e)) (
            best_from-Chosen chans max_chans priority track rest (suc n) (consider (chans n) n b)
              (omega arith) (all_suc (λ j. is_taken (chans j) ≡ true) n busy e)
              (Seen-next chans priority track n b seen))
      | inr e ↦
          free (best_from chans (suc rest) n b) n (best_from-free chans rest n b e) (omega arith) e
            busy
    ]

-- The loop of ply_note over the sample channels ends with a channel or none, of which this holds. The
-- first channel that is not taken is chosen. If all are taken and one is releasing, a releasing channel
-- is chosen that gives way to every releasing one: its priority is the lowest of them, and of those with
-- that priority its track stands at the highest address. If all are taken and none is releasing, the
-- one that gives way to all of them is chosen if it gives way to the note, and otherwise, where every
-- channel outranks the note, none.
pub choose_channel-Chosen :
    (chans : ℕ → Chan) (max_chans priority track : ℕ)
    → Chosen chans max_chans priority track (choose_channel chans max_chans priority track)
unfolding choose_channel
choose_channel-Chosen chans max_chans priority track =
    best_from-Chosen chans max_chans priority track max_chans 0
      (record { best = none; best_priority = priority; best_track = track; have_releasing = false })
      (omega arith) (λ j lt. absurd (omega arith)) (Seen.nobody refl (λ j lt. absurd (omega arith)))
