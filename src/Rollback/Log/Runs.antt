-- ===== src/Rollback/Log/Runs.antt =====
-- platform/rollback.c: the runs of one player, encoded and decoded again.
use katam_port.Base.{
  ℕ, zero, suc, ◌+◌, ◌-◌, ◌/◌, ◌%◌, ◌^◌, ◌≤◌, ◌<◌, ◌≡◌, refl, ap, ◌∙◌, some, List, ◌++◌,
  get16-put16, arith, subst, sym, append_assoc, length-append, length-put16, drop-append, ==_iff,
  put16,
}
use katam_port.Rollback.State.{Timeline, keys_mod, cell}
use katam_port.Rollback.Input.{write_known}
use katam_port.Rollback.Log.Encode.{
  run_length, run_max, count_runs_from, encode_runs_from, run_word,
}
use katam_port.Rollback.Log.Decode.{write_run, decode_runs}

-- A run stays within its maximum and within the frames that are left.
pub run_length-le :
    (g : ℕ → ℕ) (v room left f : ℕ)
    → (run_length g v room left f ≤ room) × (run_length g v room left f ≤ left)
unfolding run_length
run_length-le g v zero left f = omega arith
run_length-le g v (suc room) zero f = omega arith
run_length-le g v (suc room) (suc left) f = ground (arith, run_length-le g v room left (f + 1))

-- It takes a frame at least.
pub run_length-pos : (g : ℕ → ℕ) (room left f : ℕ) → 0 < run_length g (g f) (suc room) (suc left) f
unfolding run_length
run_length-pos g room left f = ground arith

-- The timeline with the keys of `n` frames of a player written from `f` on.
unfoldable pub fill : ℕ → (ℕ → ℕ) → ℕ → ℕ → Timeline → Timeline
fill p g zero f tl = tl
fill p g (suc n) f tl = fill p g n (f + 1) (write_known tl (cell f p) (g f))

fill-add :
    (p : ℕ) (g : ℕ → ℕ) (a b f : ℕ) (tl : Timeline)
    → fill p g (a + b) f tl ≡ fill p g b (f + a) (fill p g a f tl)
unfolding fill
fill-add p g zero b f tl =
    let e : zero + b ≡ b = omega arith in let e' : f + zero ≡ f = omega arith in rw (e, e')
fill-add p g (suc a) b f tl =
    let e : suc a + b ≡ suc (a + b) = omega arith in
    let e' : f + 1 + a ≡ f + suc a = omega arith in
    rw e (rw (← e') (fill-add p g a b (f + 1) (write_known tl (cell f p) (g f))))

-- Decoding a run of `n` frames, all with the keys `v`, writes those frames.
write_run-fill :
    (p frames : ℕ) (g : ℕ → ℕ) (v room left f : ℕ) (tl : Timeline)
    → f + left ≤ frames
    → let n = run_length g v room left f in write_run p frames v n f tl ≡ (f + n, fill p g n f tl)
unfolding run_length write_run fill
write_run-fill p frames g v zero left f tl h = ground arith
write_run-fill p frames g v (suc room) zero f tl h = ground arith
write_run-fill p frames g v (suc room) (suc left) f tl h =
    ground (arith, write_run-fill p frames g v room left (f + 1) (write_known tl (cell f p) v))

-- The word of a run gives back its keys and its length.
run_word-fields :
    (v n : ℕ)
    → v < keys_mod
    → 0 < n
    → n ≤ run_max
    → (run_word v n % keys_mod ≡ v) × (run_word v n / keys_mod % 64 + 1 ≡ n)
run_word-fields v n hv h0 h1 = omega arith

-- The decoder takes a word and writes its run.
decode_runs-put16 :
    (p frames r f w : ℕ) (src : List ℕ) (tl : Timeline)
    → w < 2 ^ 16
    → decode_runs p frames (suc r) f (put16 w ++ src) tl ≡ (
        let (f', tl') = write_run p frames (w % keys_mod) (w / keys_mod % 64 + 1) f tl in
        decode_runs p frames r f' src tl')
unfolding decode_runs
decode_runs-put16 p frames r f w src tl h = ground (
  arith,
  get16-put16 w src h,
  length-append (put16 w) src,
  length-put16 w,
  drop-append (put16 w) src (length-put16 w),
)

-- One round of the decoder undoes one round of the encoder.
decode_runs-round :
    (p frames : ℕ) (g : ℕ → ℕ) (r left f n : ℕ) (src : List ℕ) (tl : Timeline)
    → g f < keys_mod
    → f + suc left ≤ frames
    → run_length g (g f) run_max (suc left) f ≡ n
    → decode_runs p frames (suc r) f (put16 (run_word (g f) n) ++ src) tl
      ≡ decode_runs p frames r (f + n) src (fill p g n f tl)
decode_runs-round p frames g r left f n src tl hv h e =
    rw (decode_runs-put16 p frames r f (run_word (g f) n) src tl (omega arith)) (
      rw (fields.0, fields.1)
        (rw (
          subst (λ k. write_run p frames (g f) k f tl ≡ (f + k, fill p g k f tl)) e
            (write_run-fill p frames g (g f) run_max (suc left) f tl h))))
  where
    fields : (run_word (g f) n % keys_mod ≡ g f) × (run_word (g f) n / keys_mod % 64 + 1 ≡ n)
    fields =
        run_word-fields (g f) n hv (subst (λ k. 0 < k) e (run_length-pos g 63 left f))
          (subst (λ k. k ≤ run_max) e (run_length-le g (g f) run_max (suc left) f).0)

-- The decoder reads what the encoder wrote of a player, and leaves the rest.
pub decode_runs-encode :
    (p frames : ℕ) (g : ℕ → ℕ)
    → ((i : ℕ) → g i < keys_mod)
    → (fuel left f : ℕ) (rest : List ℕ) (tl : Timeline) → left ≤ fuel
    → f + left ≡ frames
    → decode_runs p frames
        (count_runs_from g fuel left f)
        f
        (encode_runs_from g fuel left f ++ rest)
        tl
      ≡ (some rest, fill p g left f tl)
unfolding count_runs_from encode_runs_from
decode_runs-encode p frames g hg zero zero f rest tl h e =
    unfold decode_runs fill in rw ((==_iff f frames).1 (omega arith))
decode_runs-encode p frames g hg zero (suc left) f rest tl h e = absurd (omega arith)
decode_runs-encode p frames g hg (suc fuel) zero f rest tl h e =
    unfold decode_runs fill in rw ((==_iff f frames).1 (omega arith))
decode_runs-encode p frames g hg (suc fuel) (suc left) f rest tl h e =
    step (decode_runs-encode p frames g hg fuel) n refl
  where
    n : ℕ
    n = run_length g (g f) run_max (suc left) f

    step :
        ((left' f' : ℕ) (rest' : List ℕ) (tl' : Timeline)
          → left' ≤ fuel
          → f' + left' ≡ frames
          → decode_runs p frames
              (count_runs_from g fuel left' f')
              f'
              (encode_runs_from g fuel left' f' ++ rest')
              tl'
            ≡ (some rest', fill p g left' f' tl'))
        → (k : ℕ) → run_length g (g f) run_max (suc left) f ≡ k
        → decode_runs p frames
            (suc (count_runs_from g fuel (suc left - k) (f + k)))
            f
            ((put16 (run_word (g f) k) ++ encode_runs_from g fuel (suc left - k) (f + k)) ++ rest)
            tl
          ≡ (some rest, fill p g (suc left) f tl)
    step ih k eq =
        rw
          (append_assoc (put16 (run_word (g f) k)) (encode_runs_from g fuel (suc left - k) (f + k))
            rest)
          (decode_runs-round p frames g _ left f k _ tl (hg f) (omega arith) eq
            ∙ ih (suc left - k) (f + k) rest (fill p g k f tl) (omega (arith, pos))
                (omega (arith, fits))
            ∙ ap (λ t. (some rest, t)) all)
      where
        pos : 0 < k
        pos = subst (λ j. 0 < j) eq (run_length-pos g 63 left f)

        fits : k ≤ suc left
        fits = subst (λ j. j ≤ suc left) eq (run_length-le g (g f) run_max (suc left) f).1

        all : fill p g (suc left - k) (f + k) (fill p g k f tl) ≡ fill p g (suc left) f tl
        all =
            sym (fill-add p g k (suc left - k) f tl)
            ∙ ap (λ j. fill p g j f tl) (omega (arith, fits))
