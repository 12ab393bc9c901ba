-- ===== src/Shamir/Gf256/Linear.antt =====
-- The product distributes over exclusive or, since doubling does.
use ultimate_enigma.Prelude.{
  ℕ, zero, suc, ◌+◌, ◌*◌, ◌/◌, ◌≤◌, ◌<◌, ◌≡◌, refl, sym, ap, ◌∙◌, bit_xor, true, ltb, ◌==◌, ==_iff,
  lt→ltb, if◌then◌else◌, lt-or-ge, inl, inr, every, every_sound, arith,
}
use ultimate_enigma.Bits.{
  bit_xor_step, bit_xor_comm, bit_xor_assoc, bit_xor_self, bit_xor-zero, bit_xor-lt, bit_xor-cancel,
}
use ultimate_enigma.Shamir.Gf256.{double}
use ultimate_enigma.Shamir.Gf256.TableFacts.{
  power, logarithm, power_facts, logarithm-power, logarithm_facts, power-zero,
}
use ultimate_enigma.Shamir.Gf256.Product.{
  times, times_units, times_comm, times_assoc, times_one, times-zero, zero-times, times-lt,
}

abbrev double_at : ℕ → ℕ
double_at x = if ltb x 128 then x * 2 else bit_xor (x * 2) 0x11D

doubles_pass : every (λ x. double x == double_at x) 256 ≡ true
unfolding every double
doubles_pass = refl

double_lem : (x : ℕ) → x < 256 → double x ≡ double_at x
double_lem x h = (==_iff _ _).0 (every_sound (λ k. double k == double_at k) 256 x doubles_pass h)

pub double_low : (x : ℕ) → x < 128 → double x ≡ x * 2
double_low x h = double_lem x (omega arith) ∙ rw (lt→ltb x 128 h)

double_high : (x : ℕ) → 128 ≤ x → x < 256 → double x ≡ bit_xor (x * 2) 0x11D
double_high x low h = double_lem x h ∙ ground arith

bit_xor_twice : (a b : ℕ) → bit_xor (a * 2) (b * 2) ≡ bit_xor a b * 2
bit_xor_twice a b =
    let left : a * 2 / 2 ≡ a = omega arith in
    let right : b * 2 / 2 ≡ b = omega arith in
    let step = bit_xor_step (a * 2) (b * 2) in
    let step' = rw left at step in let step'' = rw right at step' in omega arith

halve : (a b : ℕ) → bit_xor a b / 2 ≡ bit_xor (a / 2) (b / 2)
halve a b = omega (arith, bit_xor_step a b)

-- Bit 7 of the sum.
bit_xor_top : (a b : ℕ) → bit_xor a b / 128 ≡ bit_xor (a / 128) (b / 128)
bit_xor_top a b =
    let down : (n : ℕ) → n / 2 / 2 / 2 / 2 / 2 / 2 / 2 ≡ n / 128 = λ n. omega arith in
    sym (down (bit_xor a b))
    ∙ ap (λ t. t / 2 / 2 / 2 / 2 / 2 / 2) (halve a b)
    ∙ ap (λ t. t / 2 / 2 / 2 / 2 / 2) (halve (a / 2) (b / 2))
    ∙ ap (λ t. t / 2 / 2 / 2 / 2) (halve (a / 2 / 2) (b / 2 / 2))
    ∙ ap (λ t. t / 2 / 2 / 2) (halve (a / 2 / 2 / 2) (b / 2 / 2 / 2))
    ∙ ap (λ t. t / 2 / 2) (halve (a / 2 / 2 / 2 / 2) (b / 2 / 2 / 2 / 2))
    ∙ ap (λ t. t / 2) (halve (a / 2 / 2 / 2 / 2 / 2) (b / 2 / 2 / 2 / 2 / 2))
    ∙ halve (a / 2 / 2 / 2 / 2 / 2 / 2) (b / 2 / 2 / 2 / 2 / 2 / 2)
    ∙ rw (down a, down b)

xor_one_high : (a b : ℕ) → 128 ≤ a → a < 256 → b < 128 → 128 ≤ bit_xor a b
xor_one_high a b p q r =
    let high : a / 128 ≡ 1 = omega arith in
    let low : b / 128 ≡ 0 = omega arith in
    let top = bit_xor_top a b in
    let top' = rw high at top in let top'' = rw low at top' in omega (arith, bit_xor-zero 1)

xor_both_high : (a b : ℕ) → 128 ≤ a → a < 256 → 128 ≤ b → b < 256 → bit_xor a b < 128
xor_both_high a b p q r s =
    let high : a / 128 ≡ 1 = omega arith in
    let low : b / 128 ≡ 1 = omega arith in
    let top = bit_xor_top a b in
    let top' = rw high at top in let top'' = rw low at top' in omega (arith, bit_xor_self 1)

xor_right_comm : (a b c : ℕ) → bit_xor (bit_xor a b) c ≡ bit_xor (bit_xor a c) b
xor_right_comm a b c =
    bit_xor_assoc a b c ∙ ap (bit_xor a) (bit_xor_comm b c) ∙ sym (bit_xor_assoc a c b)

double_xor_mixed :
    (a b : ℕ) → 128 ≤ a → a < 256 → b < 128 → double (bit_xor a b) ≡ bit_xor (double a) (double b)
double_xor_mixed a b p q r =
    double_high (bit_xor a b) (xor_one_high a b p q r)
      (bit_xor-lt 8 a b (omega arith) (omega arith))
    ∙ ap (λ t. bit_xor t 0x11D) (sym (bit_xor_twice a b))
    ∙ xor_right_comm (a * 2) (b * 2) 0x11D
    ∙ rw (double_high a p q, double_low b r)

pub double_xor :
    (a b : ℕ) → a < 256 → b < 256 → double (bit_xor a b) ≡ bit_xor (double a) (double b)
double_xor a b ha hb = elim (lt-or-ge a 128) [
  | inl la ↦ elim (lt-or-ge b 128) [
    | inl lb ↦
        double_low (bit_xor a b) (bit_xor-lt 7 a b la lb)
        ∙ sym (bit_xor_twice a b)
        ∙ rw (double_low a la, double_low b lb)
    | inr gb ↦
        ap double (bit_xor_comm a b)
        ∙ double_xor_mixed b a gb hb la
        ∙ bit_xor_comm (double b) (double a)
  ]
  | inr ga ↦ elim (lt-or-ge b 128) [
    | inl lb ↦ double_xor_mixed a b ga ha lb
    | inr gb ↦
        double_low (bit_xor a b) (xor_both_high a b ga ha gb hb)
        ∙ sym (bit_xor_twice a b)
        ∙ sym (
            rw (double_high a ga ha, double_high b gb hb)
              (xor_right_comm (a * 2) 0x11D (bit_xor (b * 2) 0x11D)
                ∙ ap (λ t. bit_xor t 0x11D) (sym (bit_xor_assoc (a * 2) (b * 2) 0x11D))
                ∙ bit_xor-cancel (bit_xor (a * 2) (b * 2)) 0x11D))
  ]
]

power-one : power 1 ≡ 2
power-one = (power_facts 0 (omega arith)).0 ∙ ap double power-zero ∙ unfold double in refl

pub times_two : (x : ℕ) → x < 256 → times 2 x ≡ double x
times_two zero h = times-zero 2 ∙ unfold double in refl
times_two (suc x) h =
    let l1 : logarithm 2 ≡ 1 = ap logarithm (sym power-one) ∙ logarithm-power 1 (omega arith) in
    let (small, same) = logarithm_facts (suc x) (omega arith) h in
    times_units 2 (suc x) (omega arith, omega arith) (omega arith, h)
    ∙ ap power (omega arith)
    ∙ (power_facts (logarithm (suc x)) (omega arith)).0
    ∙ ap double same

times-power-suc :
    (i y : ℕ) → i < 509 → y < 256 → times (power (suc i)) y ≡ double (times (power i) y)
times-power-suc i y h hy =
    let (step, low, high) = power_facts i (omega arith) in
    let index : suc i ≡ i + 1 = omega arith in
    ap (λ t. times (power t) y) index
    ∙ ap (λ t. times t y) (step ∙ sym (times_two (power i) high))
    ∙ times_assoc 2 (power i) y (omega arith) high hy
    ∙ times_two (times (power i) y) (times-lt (power i) y high hy)

one-times : (y : ℕ) → y < 256 → times (power 0) y ≡ y
one-times y h = ap (λ t. times t y) power-zero ∙ times_comm 1 y ∙ times_one y h

times-power_xor :
    (i b c : ℕ)
    → i < 509
    → b < 256
    → c < 256
    → times (power i) (bit_xor b c) ≡ bit_xor (times (power i) b) (times (power i) c)
times-power_xor zero b c h hb hc =
    one-times (bit_xor b c) (bit_xor-lt 8 b c hb hc) ∙ sym (rw (one-times b hb, one-times c hc))
times-power_xor (suc i) b c h hb hc =
    let high = (power_facts i (omega arith)).2 in
    times-power-suc i (bit_xor b c) (omega arith) (bit_xor-lt 8 b c hb hc)
    ∙ ap double (times-power_xor i b c (omega arith) hb hc)
    ∙ double_xor (times (power i) b) (times (power i) c) (times-lt (power i) b high hb)
        (times-lt (power i) c high hc)
    ∙ sym (rw (times-power-suc i b (omega arith) hb, times-power-suc i c (omega arith) hc))

pub times_xor :
    (a b c : ℕ)
    → a < 256
    → b < 256
    → c < 256
    → times a (bit_xor b c) ≡ bit_xor (times a b) (times a c)
times_xor zero b c ha hb hc = zero-times (bit_xor b c) ∙ sym (rw (zero-times b, zero-times c))
times_xor (suc a) b c ha hb hc =
    let (small, same) = logarithm_facts (suc a) (omega arith) ha in
    rw (← same) (times-power_xor (logarithm (suc a)) b c (omega arith) hb hc)
