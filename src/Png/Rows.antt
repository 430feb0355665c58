-- ===== src/Png/Rows.antt =====
-- platform/native/png.c: where the bytes of a pixel stand in the rows.
use katam_port.Base.{
  ℕ, zero, suc, ◌+◌, ◌-◌, ◌*◌, ◌<◌, ◌≡◌, refl, ◌∙◌, ap, List, [], ◌∷◌, ◌++◌, length, take, drop,
  length-append, arith, times_suc,
}
use katam_port.Png.{pixel, pixels, rows}

drop_past : (xs ys : List ℕ) (n m k : ℕ) → length xs ≡ n → n + m ≡ k → drop k (xs ++ ys) ≡ drop m ys
drop_past [] ys n m k h e = ap (λ j. drop j ys) (omega arith)
drop_past (x ∷ xs) ys n m zero h e = absurd (omega arith)
drop_past (x ∷ xs) ys n m (suc k) h e = drop_past xs ys (n - 1) m k (omega arith) (omega arith)

length-pixels : (rgba : ℕ → ℕ) (i n : ℕ) → length (pixels rgba i n) ≡ n * 3
unfolding pixels
length-pixels rgba i zero = omega arith
length-pixels rgba i (suc n) = omega (arith, length-pixels rgba (i + 1) n)

pub length-rows : (rgba : ℕ → ℕ) (w y n : ℕ) → length (rows rgba w y n) ≡ n * (1 + w * 3)
unfolding rows
length-rows rgba w y zero = omega arith
length-rows rgba w y (suc n) = omega (
  arith,
  length-append (pixels rgba (y * w) w) (rows rgba w (y + 1) n),
  length-pixels rgba (y * w) w,
  length-rows rgba w (y + 1) n,
  times_suc n (1 + w * 3),
)

pixels-pixel :
    (rgba : ℕ → ℕ) (i n x : ℕ) (rest : List ℕ)
    → x < n
    → take 3 (drop (x * 3) (pixels rgba i n ++ rest)) ≡ pixel (rgba (i + x))
unfolding pixels
pixels-pixel rgba i zero x rest h = absurd (omega arith)
pixels-pixel rgba i (suc n) zero rest h = ap (λ k. pixel (rgba k)) (omega arith)
pixels-pixel rgba i (suc n) (suc x) rest h =
    ap (λ k. take 3 (drop k (pixel (rgba i) ++ (pixels rgba (i + 1) n ++ rest))))
      (let e : suc x * 3 ≡ suc (suc (suc (x * 3))) = omega arith in e)
    ∙ pixels-pixel rgba (i + 1) n x rest (omega arith)
    ∙ ap (λ k. pixel (rgba k)) (omega arith)

-- The three bytes of pixel x of row y stand behind the rows above it and the filter byte.
pub rows-pixel :
    (rgba : ℕ → ℕ) (w y0 n y x : ℕ)
    → y < n
    → x < w
    → take 3 (drop (y * (1 + w * 3) + (1 + x * 3)) (rows rgba w y0 n))
      ≡ pixel (rgba ((y0 + y) * w + x))
unfolding rows
rows-pixel rgba w y0 zero y x h k = absurd (omega arith)
rows-pixel rgba w y0 (suc n) zero x h k =
    ap (λ j. take 3 (drop j (rows rgba w y0 (suc n))))
      (let e : 0 * (1 + w * 3) + (1 + x * 3) ≡ suc (x * 3) = omega arith in e)
    ∙ pixels-pixel rgba (y0 * w) w x (rows rgba w (y0 + 1) n) k
    ∙ ap (λ j. pixel (rgba (j * w + x))) (let e : y0 ≡ y0 + 0 = omega arith in e)
rows-pixel rgba w y0 (suc n) (suc y) x h k =
    ap (λ j. take 3 (drop j (rows rgba w y0 (suc n))))
      (let e : suc y * (1 + w * 3) + (1 + x * 3) ≡ suc (w * 3 + (y * (1 + w * 3) + (1 + x * 3))) =
          omega (arith, times_suc y (1 + w * 3)) in
        e)
    ∙ ap (take 3) (
        drop_past (pixels rgba (y0 * w) w) (rows rgba w (y0 + 1) n) (w * 3)
          (y * (1 + w * 3) + (1 + x * 3)) _ (length-pixels rgba (y0 * w) w) refl)
    ∙ rows-pixel rgba w (y0 + 1) n y x (omega arith) k
    ∙ ap (λ j. pixel (rgba (j * w + x))) (let e : y0 + 1 + y ≡ y0 + suc y = omega arith in e)
