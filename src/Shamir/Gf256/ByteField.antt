-- ===== src/Shamir/Gf256/ByteField.antt =====
-- The bytes with exclusive or and the product by logarithms are a field.
use mathlib.Core.HLevel.{Σ_prop_path}
use native.Mathlib.Bridge.{le_prop}
use ultimate_enigma.Prelude.{ℕ, zero, suc, ◌<◌, ◌≡◌, ◌≢◌, refl, ap, bit_xor, arith}
use ultimate_enigma.Bits.{bit_xor_comm, bit_xor_assoc, bit_xor_self, bit_xor-zero, bit_xor-lt}
use ultimate_enigma.Field.{Field}
use ultimate_enigma.Shamir.Gf256.Product.{
  times, inverse, times_comm, times_assoc, times_one, times-zero, times-lt, inverse-IsUnit,
  times-inverse,
}
use ultimate_enigma.Shamir.Gf256.Linear.{times_xor}

abbrev pub Byte : Type 0
Byte = (value : ℕ) × (value < 256)

pub Byte_path : (a b : Byte) → a.0 ≡ b.0 → a ≡ b
Byte_path a b e = Σ_prop_path (λ n. le_prop) e

unfoldable pub byte_add : Byte → Byte → Byte
byte_add a b = (bit_xor a.0 b.0, bit_xor-lt 8 a.0 b.0 a.1 b.1)

unfoldable pub byte_mul : Byte → Byte → Byte
byte_mul a b = (times a.0 b.0, times-lt a.0 b.0 a.1 b.1)

inverse_or_zero-lt : (a : ℕ) → a < 256 → (r : ℕ) × (r < 256)
inverse_or_zero-lt zero h = (0, omega arith)
inverse_or_zero-lt (suc a) h = (inverse (suc a), (inverse-IsUnit (suc a) (omega arith, h)).1)

unfoldable pub byte_inv : Byte → Byte
unfolding inverse_or_zero-lt
byte_inv a = inverse_or_zero-lt a.0 a.1

pub zero-lt : 0 < 256
zero-lt = omega arith

pub one-lt : 1 < 256
one-lt = omega arith

abbrev pub byte_zero : Byte
byte_zero = (0, zero-lt)

abbrev pub byte_one : Byte
byte_one = (1, one-lt)

module _ (a : Byte) where
  pub add_zero : byte_add a byte_zero ≡ a
  unfolding byte_add
  add_zero = Byte_path (byte_add a byte_zero) a (bit_xor-zero a.0)

  pub add_self : byte_add a a ≡ byte_zero
  unfolding byte_add
  add_self = Byte_path (byte_add a a) byte_zero (bit_xor_self a.0)

  pub mul_one : byte_mul a byte_one ≡ a
  unfolding byte_mul
  mul_one = Byte_path (byte_mul a byte_one) a (times_one a.0 a.1)

  pub mul_zero : byte_mul a byte_zero ≡ byte_zero
  unfolding byte_mul
  mul_zero = Byte_path (byte_mul a byte_zero) byte_zero (times-zero a.0)

  module _ (b : Byte) where
    pub add_comm : byte_add a b ≡ byte_add b a
    unfolding byte_add
    add_comm = Byte_path (byte_add a b) (byte_add b a) (bit_xor_comm a.0 b.0)

    pub mul_comm : byte_mul a b ≡ byte_mul b a
    unfolding byte_mul
    mul_comm = Byte_path (byte_mul a b) (byte_mul b a) (times_comm a.0 b.0)

    module _ (c : Byte) where
      pub add_assoc : byte_add (byte_add a b) c ≡ byte_add a (byte_add b c)
      unfolding byte_add
      add_assoc =
          Byte_path (byte_add (byte_add a b) c) (byte_add a (byte_add b c))
            (bit_xor_assoc a.0 b.0 c.0)

      pub mul_assoc : byte_mul (byte_mul a b) c ≡ byte_mul a (byte_mul b c)
      unfolding byte_mul
      mul_assoc =
          Byte_path (byte_mul (byte_mul a b) c) (byte_mul a (byte_mul b c))
            (times_assoc a.0 b.0 c.0 a.1 b.1 c.1)

      pub mul_add : byte_mul a (byte_add b c) ≡ byte_add (byte_mul a b) (byte_mul a c)
      unfolding byte_mul byte_add
      mul_add =
          Byte_path (byte_mul a (byte_add b c)) (byte_add (byte_mul a b) (byte_mul a c))
            (times_xor a.0 b.0 c.0 a.1 b.1 c.1)

pub mul_inv : (a : Byte) → a ≢ byte_zero → byte_mul a (byte_inv a) ≡ byte_one
unfolding byte_mul byte_inv
mul_inv (zero, h) ne = absurd (ne (Byte_path (zero, h) byte_zero refl))
mul_inv (suc a, h) ne =
    Byte_path (byte_mul (suc a, h) (byte_inv (suc a, h))) byte_one
      (times-inverse (suc a) (omega arith, h))

pub byte_one-ne-zero : byte_one ≢ byte_zero
byte_one-ne-zero e = absurd (omega (arith, ap (λ (b : Byte). b.0) e))

abbrev pub byte_field : Field Byte
byte_field = record {
  o = byte_zero;
  unit = byte_one;
  ◌⊕◌ = byte_add;
  ◌⊗◌ = byte_mul;
  inv = byte_inv;
  add_comm = add_comm;
  add_assoc = add_assoc;
  add_o = add_zero;
  add_self = add_self;
  mul_comm = mul_comm;
  mul_assoc = mul_assoc;
  mul_unit = mul_one;
  mul_o = mul_zero;
  mul_add = mul_add;
  mul_inv = mul_inv;
}
