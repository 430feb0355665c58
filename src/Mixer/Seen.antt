-- ===== src/Mixer/Seen.antt =====
-- platform/m4a_mixer.c, ply_note: a round of the loop over the sample channels keeps what is best.
use katam_port.Base.{
  ℕ, suc, ◌<◌, ◌≡◌, refl, sym, subst, true, false, Bool-cases, inl, inr, arith, none, some,
}
use katam_port.Mixer.{Chan}
use katam_port.Mixer.Choice.{
  is_releasing, Best, consider, GivesWay, Outranks, Seen, all_suc, ways, GivesWay-Outranks,
  GivesWay-GivesWay, Outranks-GivesWay, consider_first, consider_skip, consider-GivesWay,
  consider-Outranks,
}

self-GivesWay : (c : Chan) → GivesWay c c.pr c.track
self-GivesWay c = omega arith

module _ (chans : ℕ → Chan) (priority track n : ℕ) where
  Seen-first :
      (b : Best)
      → b.have_releasing ≡ false
      → is_releasing (chans n) ≡ true
      → ((j : ℕ) → j < n → is_releasing (chans j) ≡ false)
      → Seen chans priority track (suc n) (consider (chans n) n b)
  Seen-first b idle r none_yet =
      Seen.fading n (omega arith) (consider_first (chans n) n b r idle) r (
        all_suc
          (λ j. is_releasing (chans j) ≡ true → GivesWay (chans n) (chans j).pr (chans j).track) n
          (λ j lt rj. let e = none_yet j lt in absurd (cc)) (λ own. self-GivesWay (chans n)))

  Seen-nobody :
      ((j : ℕ) → j < n → (is_releasing (chans j) ≡ false) × Outranks (chans j) priority track)
      → Seen chans priority track (suc n) (
          consider (chans n) n (record {
            best = none;
            best_priority = priority;
            best_track = track;
            have_releasing = false;
          }))
  Seen-nobody h =
      let b : Best = record {
        best = none;
        best_priority = priority;
        best_track = track;
        have_releasing = false;
      } in
      elim (Bool-cases (is_releasing (chans n))) [
        | inl r ↦ Seen-first b refl r (λ j lt. (h j lt).0)
        | inr r ↦ elim (ways (chans n) priority track) [
          | inl g ↦ Seen.giving n (omega arith) (consider-GivesWay (chans n) n b r g) g (
              all_suc
                (λ j.
                  (is_releasing (chans j) ≡ false)
                  × GivesWay (chans n) (chans j).pr (chans j).track)
                n
                (λ j lt.
                  ((h j lt).0, GivesWay-Outranks (chans n) (chans j) priority track g (h j lt).1))
                (r, self-GivesWay (chans n)))
          | inr o ↦ Seen.nobody (consider-Outranks (chans n) n b r o) (
              all_suc (λ j. (is_releasing (chans j) ≡ false) × Outranks (chans j) priority track) n
                h (r, o))
        ]
      ]

  Seen-giving :
      (k : ℕ)
      → k < n
      → GivesWay (chans k) priority track
      → ((j : ℕ)
          → j < n
          → (is_releasing (chans j) ≡ false) × GivesWay (chans k) (chans j).pr (chans j).track)
      → Seen chans priority track (suc n) (
          consider (chans n) n (record {
            best = some k;
            best_priority = (chans k).pr;
            best_track = (chans k).track;
            have_releasing = false;
          }))
  Seen-giving k lt_k note h =
      let b : Best = record {
        best = some k;
        best_priority = (chans k).pr;
        best_track = (chans k).track;
        have_releasing = false;
      } in
      elim (Bool-cases (is_releasing (chans n))) [
        | inl r ↦ Seen-first b refl r (λ j lt. (h j lt).0)
        | inr r ↦ elim (ways (chans n) (chans k).pr (chans k).track) [
          | inl g ↦
              Seen.giving n (omega arith) (consider-GivesWay (chans n) n b r g)
                (GivesWay-GivesWay (chans n) (chans k) priority track g note)
                (all_suc
                  (λ j.
                    (is_releasing (chans j) ≡ false)
                    × GivesWay (chans n) (chans j).pr (chans j).track)
                  n
                  (λ j lt. (
                    (h j lt).0,
                    GivesWay-GivesWay (chans n) (chans k) (chans j).pr (chans j).track g (h j lt).1,
                  ))
                  (r, self-GivesWay (chans n)))
          | inr o ↦ Seen.giving k (omega arith) (consider-Outranks (chans n) n b r o) note (
              all_suc
                (λ j.
                  (is_releasing (chans j) ≡ false)
                  × GivesWay (chans k) (chans j).pr (chans j).track)
                n h (r, Outranks-GivesWay (chans k) (chans n) o))
        ]
      ]

  Seen-fading :
      (k : ℕ)
      → k < n
      → is_releasing (chans k) ≡ true
      → ((j : ℕ)
          → j < n
          → is_releasing (chans j) ≡ true
          → GivesWay (chans k) (chans j).pr (chans j).track)
      → Seen chans priority track (suc n) (
          consider (chans n) n (record {
            best = some k;
            best_priority = (chans k).pr;
            best_track = (chans k).track;
            have_releasing = true;
          }))
  Seen-fading k lt_k fades h =
      let b : Best = record {
        best = some k;
        best_priority = (chans k).pr;
        best_track = (chans k).track;
        have_releasing = true;
      } in
      elim (Bool-cases (is_releasing (chans n))) [
        | inr r ↦ Seen.fading k (omega arith) (consider_skip (chans n) n b r refl) fades (
            all_suc
              (λ j. is_releasing (chans j) ≡ true → GivesWay (chans k) (chans j).pr (chans j).track)
              n h (λ own. absurd (cc)))
        | inl r ↦ elim (ways (chans n) (chans k).pr (chans k).track) [
          | inl g ↦ Seen.fading n (omega arith) (consider-GivesWay (chans n) n b r g) r (
              all_suc
                (λ j.
                  is_releasing (chans j) ≡ true → GivesWay (chans n) (chans j).pr (chans j).track)
                n
                (λ j lt rj.
                  GivesWay-GivesWay (chans n) (chans k) (chans j).pr (chans j).track g (h j lt rj))
                (λ own. self-GivesWay (chans n)))
          | inr o ↦ Seen.fading k (omega arith) (consider-Outranks (chans n) n b r o) fades (
              all_suc
                (λ j.
                  is_releasing (chans j) ≡ true → GivesWay (chans k) (chans j).pr (chans j).track)
                n h (λ own. Outranks-GivesWay (chans k) (chans n) o))
        ]
      ]

pub Seen-next :
    (chans : ℕ → Chan) (priority track n : ℕ) (b : Best)
    → Seen chans priority track n b
    → Seen chans priority track (suc n) (consider (chans n) n b)
Seen-next chans priority track n b (Seen.nobody e h) =
    subst (λ r. Seen chans priority track (suc n) (consider (chans n) n r)) (sym e)
      (Seen-nobody chans priority track n h)
Seen-next chans priority track n b (Seen.giving k lt e note h) =
    subst (λ r. Seen chans priority track (suc n) (consider (chans n) n r)) (sym e)
      (Seen-giving chans priority track n k lt note h)
Seen-next chans priority track n b (Seen.fading k lt e fades h) =
    subst (λ r. Seen chans priority track (suc n) (consider (chans n) n r)) (sym e)
      (Seen-fading chans priority track n k lt fades h)
