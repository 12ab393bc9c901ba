-- ===== src/Bits.antt =====
-- Exclusive or at variables: the laws of Python's `^` that the arithmetic of the field GF(256)
-- and of ChaCha20 rests on, from the recursion on binary digits.
use Prim.Native.Nat.{digits, differ, bit_xor-bitwise, bit_and-bitwise}
use native.Mathlib.Nat.{pow-suc}
use ultimate_enigma.Prelude.{
  ℕ, zero, suc, ◌+◌, ◌*◌, ◌/◌, ◌%◌, ◌^◌, ◌≤◌, ◌<◌, min, max, bit_xor, bit_and, ◌≡◌, refl, arith,
}

-- Two amounts of fuel that both suffice give the same digits.
module _ (rest : ℕ → ℕ) (combine : ℕ → ℕ → ℕ) where
  digits_enough :
      (fuel a b fuel' : ℕ)
      → a ≤ fuel
      → a ≤ fuel'
      → digits rest combine fuel a b ≡ digits rest combine fuel' a b
  digits_enough (suc fuel) (suc a) b (suc fuel') p q =
      rw (digits_enough fuel (suc a / 2) (b / 2) fuel' (omega arith) (omega arith))
  digits_enough (suc fuel) (suc a) b zero p q = absurd (omega arith)
  digits_enough (suc fuel) zero b zero p q = refl
  digits_enough (suc fuel) zero b (suc fuel') p q = refl
  digits_enough zero (suc a) b fuel' p q = absurd (omega arith)
  digits_enough zero zero b zero p q = refl
  digits_enough zero zero b (suc fuel') p q = refl

bit_xor_low_suc :
    (a b : ℕ) → bit_xor (suc a) b ≡ bit_xor (suc a / 2) (b / 2) * 2 + differ (suc a % 2) (b % 2)
bit_xor_low_suc a b = omega (
  arith,
  bit_xor-bitwise (suc a) b,
  bit_xor-bitwise (suc a / 2) (b / 2),
  digits_enough (λ y. y) differ a (suc a / 2) (b / 2) (suc a / 2) (omega arith) (omega arith),
)

zero-bit_xor : (b : ℕ) → bit_xor 0 b ≡ b
zero-bit_xor b = bit_xor-bitwise 0 b

differ_digits : (x y : ℕ) → x < 2 → y < 2 → differ x y ≡ (x + y) % 2
differ_digits zero y p q = omega arith
differ_digits (suc zero) zero p q = refl
differ_digits (suc zero) (suc zero) p q = refl
differ_digits (suc zero) (suc (suc y)) p q = absurd (omega arith)
differ_digits (suc (suc x)) y p q = absurd (omega arith)

-- The lowest digit, and the others.
pub bit_xor_step : (a b : ℕ) → bit_xor a b ≡ bit_xor (a / 2) (b / 2) * 2 + (a % 2 + b % 2) % 2
bit_xor_step zero b = omega (arith, zero-bit_xor b, zero-bit_xor (b / 2))
bit_xor_step (suc a) b =
    omega
      (arith, bit_xor_low_suc a b, differ_digits (suc a % 2) (b % 2) (omega arith) (omega arith))

xor_comm_within : (n a b : ℕ) → a ≤ n → b ≤ n → bit_xor a b ≡ bit_xor b a
xor_comm_within zero zero zero p q = refl
xor_comm_within zero (suc a) b p q = absurd (omega arith)
xor_comm_within zero zero (suc b) p q = absurd (omega arith)
xor_comm_within (suc n) a b p q = omega (
  arith,
  bit_xor_step a b,
  bit_xor_step b a,
  xor_comm_within n (a / 2) (b / 2) (omega arith) (omega arith),
)

pub bit_xor_comm : (a b : ℕ) → bit_xor a b ≡ bit_xor b a
bit_xor_comm a b = xor_comm_within (max a b) a b (omega arith) (omega arith)

xor_assoc_within :
    (n a b c : ℕ) → a ≤ n → b ≤ n → c ≤ n → bit_xor (bit_xor a b) c ≡ bit_xor a (bit_xor b c)
xor_assoc_within zero zero zero zero p q r = refl
xor_assoc_within zero (suc a) b c p q r = absurd (omega arith)
xor_assoc_within zero zero (suc b) c p q r = absurd (omega arith)
xor_assoc_within zero zero zero (suc c) p q r = absurd (omega arith)
xor_assoc_within (suc n) a b c p q r =
    let ih = xor_assoc_within n (a / 2) (b / 2) (c / 2) (omega arith) (omega arith) (omega arith) in
    let left : bit_xor a b / 2 ≡ bit_xor (a / 2) (b / 2) = omega (arith, bit_xor_step a b) in
    let right : bit_xor b c / 2 ≡ bit_xor (b / 2) (c / 2) = omega (arith, bit_xor_step b c) in
    let outer = bit_xor_step (bit_xor a b) c in
    let inner = bit_xor_step a (bit_xor b c) in
    omega (arith, bit_xor_step a b, bit_xor_step b c, rw left at outer, rw right at inner, ih)

pub bit_xor_assoc : (a b c : ℕ) → bit_xor (bit_xor a b) c ≡ bit_xor a (bit_xor b c)
bit_xor_assoc a b c =
    xor_assoc_within (max a (max b c)) a b c (omega arith) (omega arith) (omega arith)

xor_self_within : (n a : ℕ) → a ≤ n → bit_xor a a ≡ 0
xor_self_within zero zero p = refl
xor_self_within zero (suc a) p = absurd (omega arith)
xor_self_within (suc n) a p =
    omega (arith, bit_xor_step a a, xor_self_within n (a / 2) (omega arith))

pub bit_xor_self : (a : ℕ) → bit_xor a a ≡ 0
bit_xor_self a = xor_self_within a a (omega arith)

pub bit_xor-zero : (a : ℕ) → bit_xor a 0 ≡ a
bit_xor-zero a = omega (arith, bit_xor_comm a 0, zero-bit_xor a)

pub bit_xor-zero_left : (a : ℕ) → bit_xor 0 a ≡ a
bit_xor-zero_left a = zero-bit_xor a

pub bit_xor-lt : (k a b : ℕ) → a < 2 ^ k → b < 2 ^ k → bit_xor a b < 2 ^ k
bit_xor-lt zero zero zero p q = omega arith
bit_xor-lt zero zero (suc b) p q = absurd (omega arith)
bit_xor-lt zero (suc a) b p q = absurd (omega arith)
bit_xor-lt (suc k) a b p q =
    let ih =
      bit_xor-lt k (a / 2) (b / 2) (omega (arith, pow-suc 2 k)) (omega (arith, pow-suc 2 k)) in
    omega (arith, pow-suc 2 k, bit_xor_step a b, ih)

-- `a ^ b ^ b` is `a`.
pub bit_xor-cancel : (a b : ℕ) → bit_xor (bit_xor a b) b ≡ a
bit_xor-cancel a b = omega (arith, bit_xor_assoc a b b, bit_xor-zero a, cong_right)
  where
    cong_right : bit_xor a (bit_xor b b) ≡ bit_xor a 0
    cong_right = rw (bit_xor_self b)

bit_and_low_suc :
    (a b : ℕ) → bit_and (suc a) b ≡ bit_and (suc a / 2) (b / 2) * 2 + min (suc a % 2) (b % 2)
bit_and_low_suc a b = omega (
  arith,
  bit_and-bitwise (suc a) b,
  bit_and-bitwise (suc a / 2) (b / 2),
  digits_enough (λ y. zero) min a (suc a / 2) (b / 2) (suc a / 2) (omega arith) (omega arith),
)

and_le_within : (n a b : ℕ) → a ≤ n → bit_and a b ≤ b
and_le_within n zero b p = omega (arith, bit_and-bitwise 0 b)
and_le_within zero (suc a) b p = absurd (omega arith)
and_le_within (suc n) (suc a) b p =
    omega (arith, bit_and_low_suc a b, and_le_within n (suc a / 2) (b / 2) (omega arith))

-- A mask bounds what it lets through.
pub bit_and-le : (a b : ℕ) → bit_and a b ≤ b
bit_and-le a b = and_le_within a a b (omega arith)
