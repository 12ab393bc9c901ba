-- ===== src/Shamir/Gf256/Reference.antt =====
-- What the look-ups compute: the product of polynomials over two elements, digit by digit, reduced
-- by x^8 + x^4 + x^3 + x^2 + 1, and its inverse.
use ultimate_enigma.Prelude.{
  ℕ, zero, suc, ◌+◌, ◌*◌, ◌/◌, ◌%◌, ◌^◌, ◌<◌, ◌≡◌, sym, ap, ◌∙◌, bit_xor, ok, arith,
}
use native.Mathlib.Nat.{pow-suc}
use ultimate_enigma.Bits.{bit_xor_step, bit_xor-zero}
use ultimate_enigma.Shamir.Gf256.{double, gf_mul, gf_inv}
use ultimate_enigma.Shamir.Gf256.Linear.{times_two, times_xor, double_low}
use ultimate_enigma.Shamir.Gf256.Product.{
  times, inverse, gf_mul-times, gf_inv-inverse, times_comm, times_assoc, times_one, times-zero,
  times-inverse, inverse-IsUnit, times-lt,
}

-- `a` times the lowest digit of `b`.
unfoldable pub digit_times : ℕ → ℕ → ℕ
digit_times a zero = 0
digit_times a (suc digit) = a

-- The product by the lowest `digits` digits of `b`.
unfoldable pub long_product : ℕ → ℕ → ℕ → ℕ
long_product zero a b = 0
long_product (suc digits) a b =
    bit_xor (double (long_product digits a (b / 2))) (digit_times a (b % 2))

split_digit : (b : ℕ) → b < 256 → b ≡ bit_xor (double (b / 2)) (b % 2)
split_digit b h =
    digit (b / 2) (b % 2) (omega arith) (double_low (b / 2) (omega arith)) (omega arith)
  where
    digit :
        (high low : ℕ)
        → low < 2
        → double high ≡ high * 2
        → b ≡ high * 2 + low
        → b ≡ bit_xor (double high) low
    digit high low small e total =
        let half : high * 2 / 2 ≡ high = omega arith in
        let none_left : low / 2 ≡ 0 = omega arith in
        let step = bit_xor_step (high * 2) low in
        let step' = rw half at step in
        let step'' = rw none_left at step' in rw e (omega (arith, step'', bit_xor-zero high))

times-digit : (a d : ℕ) → a < 256 → d < 2 → times a d ≡ digit_times a d
unfolding digit_times
times-digit a zero h p = times-zero a
times-digit a (suc zero) h p = times_one a h
times-digit a (suc (suc d)) h p = absurd (omega arith)

times-half : (a b : ℕ) → a < 256 → b < 128 → times a (double b) ≡ double (times a b)
times-half a b ha hb =
    ap (times a) (sym (times_two b (omega arith)))
    ∙ sym (times_assoc a 2 b ha (omega arith) (omega arith))
    ∙ ap (λ t. times t b) (times_comm a 2)
    ∙ times_assoc 2 a b (omega arith) ha (omega arith)
    ∙ times_two (times a b) (times-lt a b ha (omega arith))

times-long_product :
    (digits a b : ℕ) → a < 256 → b < 256 → b < 2 ^ digits → times a b ≡ long_product digits a b
unfolding long_product
times-long_product zero a b ha byte hb =
    let none_left : b ≡ 0 = omega arith in ap (times a) none_left ∙ times-zero a
times-long_product (suc digits) a b ha byte hb =
    let half : b / 2 < 2 ^ digits = omega (arith, pow-suc 2 digits) in
    ap (times a) (split_digit b byte)
    ∙ times_xor a (double (b / 2)) (b % 2) ha (omega (arith, double_low (b / 2) (omega arith)))
        (omega arith)
    ∙ ap (λ t. bit_xor t (times a (b % 2)))
        (times-half a (b / 2) ha (omega arith)
          ∙ ap double (times-long_product digits a (b / 2) ha (omega arith) half))
    ∙ ap (bit_xor (double (long_product digits a (b / 2)))) (times-digit a (b % 2) ha (omega arith))

-- The product by look-ups of two bytes succeeds and is the product of the polynomials that their
-- digits stand for, digit by digit and reduced at each doubling.
pub gf_mul-long_product : (a b : ℕ) → a < 256 → b < 256 → gf_mul a b ≡ ok (long_product 8 a b)
gf_mul-long_product a b ha hb =
    gf_mul-times a b ha hb ∙ ap ok (times-long_product 8 a b ha hb (omega arith))

-- Every byte but 0 has an inverse: `_gf_inv` succeeds on it, with a byte that is not 0, and the
-- product of the two is 1.
pub gf_mul-gf_inv :
    (a : ℕ)
    → 0 < a
    → a < 256
    → (b : ℕ) × (gf_inv a ≡ ok b) × (0 < b) × (b < 256) × (gf_mul a b ≡ ok 1)
gf_mul-gf_inv a low high =
    let unit = inverse-IsUnit a (low, high) in
    (
      inverse a,
      gf_inv-inverse a (low, high),
      unit.0,
      unit.1,
      gf_mul-times a (inverse a) high unit.1 ∙ ap ok (times-inverse a (low, high)),
    )
