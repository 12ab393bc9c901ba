-- ===== src/Shamir/Gf256/Product.antt =====
-- The product by logarithms is commutative and associative, and every byte but 0 has an inverse.
use native.Mathlib.Nat.{add_comm}
use ultimate_enigma.Prelude.{
  ℕ, zero, suc, ◌+◌, ◌-◌, ◌%◌, ◌<◌, ◌≡◌, refl, sym, ap, ◌∙◌, ◌||◌, ◌==◌, if◌then◌else◌, ok, arith,
  lt-or-ge, inl, inr,
}
use ultimate_enigma.Shamir.Gf256.{gf_mul, gf_inv}
use ultimate_enigma.Shamir.Gf256.TableFacts.{
  power, logarithm, power_facts, logarithm-power, power_period, logarithm_facts, index-gf_exp,
  index-gf_log, power-zero,
}

-- The product, without the look-ups that may fail.
unfoldable pub times : ℕ → ℕ → ℕ
times a b = if a == 0 || b == 0 then 0 else power (logarithm a + logarithm b)

unfoldable pub inverse : ℕ → ℕ
inverse a = power (255 - logarithm a)

abbrev pub IsUnit : ℕ → Type 0
IsUnit a = (0 < a) × (a < 256)

pub gf_mul-times : (a b : ℕ) → a < 256 → b < 256 → gf_mul a b ≡ ok (times a b)
unfolding gf_mul times
gf_mul-times zero b ha hb = refl
gf_mul-times (suc a) zero ha hb = ground arith
gf_mul-times (suc a) (suc b) ha hb =
    let small : logarithm (suc a) + logarithm (suc b) < 512 =
      omega (arith, logarithm_facts (suc a), logarithm_facts (suc b)) in
    ground (
      arith,
      index-gf_log (suc a) ha,
      index-gf_log (suc b) hb,
      index-gf_exp (logarithm (suc a) + logarithm (suc b)) small,
    )

pub gf_inv-inverse : (a : ℕ) → IsUnit a → gf_inv a ≡ ok (inverse a)
unfolding gf_inv inverse
gf_inv-inverse zero h = absurd (omega arith)
gf_inv-inverse (suc a) h =
    let small : 255 - logarithm (suc a) < 512 = omega arith in
    ground (arith, index-gf_log (suc a) h.1, index-gf_exp (255 - logarithm (suc a)) small)

-- The powers of 2 repeat after 255.
pub power_mod : (i : ℕ) → i < 510 → power i ≡ power (i % 255)
power_mod i h = elim (lt-or-ge i 255) [
  | inl small ↦ ap power (omega arith)
  | inr large ↦
      let shift : i ≡ i - 255 + 255 = omega arith in
      let rest : i % 255 ≡ i - 255 = omega arith in
      ap power shift ∙ power_period (i - 255) (omega arith) ∙ ap power (sym rest)
]

pub logarithm-power_mod : (i : ℕ) → i < 510 → logarithm (power i) ≡ i % 255
logarithm-power_mod i h = ap logarithm (power_mod i h) ∙ logarithm-power (i % 255) (omega arith)

pub times_units : (a b : ℕ) → IsUnit a → IsUnit b → times a b ≡ power (logarithm a + logarithm b)
unfolding times
times_units zero b ha hb = absurd (omega arith)
times_units (suc a) zero ha hb = absurd (omega arith)
times_units (suc a) (suc b) ha hb = ground arith

pub times-IsUnit : (a b : ℕ) → IsUnit a → IsUnit b → IsUnit (times a b)
times-IsUnit a b ha hb =
    let small : logarithm a + logarithm b < 510 =
      omega (arith, logarithm_facts a, logarithm_facts b) in
    let facts = power_facts (logarithm a + logarithm b) small in
    rw (times_units a b ha hb) (facts.1, facts.2)

pub times-zero : (a : ℕ) → times a 0 ≡ 0
unfolding times
times-zero zero = refl
times-zero (suc a) = ground arith

pub zero-times : (a : ℕ) → times 0 a ≡ 0
unfolding times
zero-times a = ground arith

pub times_comm : (a b : ℕ) → times a b ≡ times b a
times_comm zero b = zero-times b ∙ sym (times-zero b)
times_comm (suc a) zero = times-zero (suc a) ∙ sym (zero-times (suc a))
times_comm (suc a) (suc b) =
    unfold times in ground (arith, add_comm (logarithm (suc a)) (logarithm (suc b)))

pub times-lt : (a b : ℕ) → a < 256 → b < 256 → times a b < 256
times-lt zero b ha hb = omega (arith, zero-times b)
times-lt (suc a) zero ha hb = omega (arith, times-zero (suc a))
times-lt (suc a) (suc b) ha hb =
    (times-IsUnit (suc a) (suc b) (omega arith, ha) (omega arith, hb)).1

logarithm-times :
    (a b : ℕ) → IsUnit a → IsUnit b → logarithm (times a b) ≡ (logarithm a + logarithm b) % 255
logarithm-times a b ha hb =
    ap logarithm (times_units a b ha hb)
    ∙ logarithm-power_mod (logarithm a + logarithm b)
        (omega (arith, logarithm_facts a, logarithm_facts b))

times_assoc_units :
    (a b c : ℕ) → IsUnit a → IsUnit b → IsUnit c → times (times a b) c ≡ times a (times b c)
times_assoc_units a b c ha hb hc =
    let la = logarithm_facts a ha.0 ha.1 in
    let lb = logarithm_facts b hb.0 hb.1 in
    let lc = logarithm_facts c hc.0 hc.1 in
    let left = logarithm-times a b ha hb in
    let right = logarithm-times b c hb hc in
    times_units (times a b) c (times-IsUnit a b ha hb) hc
    ∙ power_mod (logarithm (times a b) + logarithm c) (omega arith)
    ∙ ap power (omega arith)
    ∙ sym (power_mod (logarithm a + logarithm (times b c)) (omega arith))
    ∙ sym (times_units a (times b c) ha (times-IsUnit b c hb hc))

pub times_assoc :
    (a b c : ℕ) → a < 256 → b < 256 → c < 256 → times (times a b) c ≡ times a (times b c)
times_assoc zero b c ha hb hc =
    ap (λ t. times t c) (zero-times b) ∙ zero-times c ∙ sym (zero-times (times b c))
times_assoc (suc a) zero c ha hb hc =
    ap (λ t. times t c) (times-zero (suc a))
    ∙ zero-times c
    ∙ sym (ap (times (suc a)) (zero-times c) ∙ times-zero (suc a))
times_assoc (suc a) (suc b) zero ha hb hc =
    times-zero (times (suc a) (suc b))
    ∙ sym (ap (times (suc a)) (times-zero (suc b)) ∙ times-zero (suc a))
times_assoc (suc a) (suc b) (suc c) ha hb hc =
    times_assoc_units (suc a) (suc b) (suc c) (omega arith, ha) (omega arith, hb) (omega arith, hc)

logarithm-one : logarithm 1 ≡ 0
logarithm-one = ap logarithm (sym power-zero) ∙ logarithm-power 0 (omega arith)

pub times_one : (a : ℕ) → a < 256 → times a 1 ≡ a
times_one zero h = zero-times 1
times_one (suc a) h =
    times_units (suc a) 1 (omega arith, h) (omega arith, omega arith)
    ∙ ap power (omega (arith, logarithm-one))
    ∙ (logarithm_facts (suc a) (omega arith) h).1

pub inverse-IsUnit : (a : ℕ) → IsUnit a → IsUnit (inverse a)
unfolding inverse
inverse-IsUnit a h = let facts = power_facts (255 - logarithm a) (omega arith) in (facts.1, facts.2)

pub times-inverse : (a : ℕ) → IsUnit a → times a (inverse a) ≡ 1
times-inverse a h =
    let la = logarithm_facts a h.0 h.1 in
    let li : logarithm (inverse a) ≡ (255 - logarithm a) % 255 =
      unfold inverse in logarithm-power_mod (255 - logarithm a) (omega arith) in
    times_units a (inverse a) h (inverse-IsUnit a h)
    ∙ power_mod (logarithm a + logarithm (inverse a)) (omega arith)
    ∙ ap power (omega arith)
    ∙ power-zero
