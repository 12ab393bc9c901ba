-- ===== src/Field.antt =====
-- The interface of a finite field of characteristic two, in which the sharing of
-- services/shamir_service.py calculates: there subtraction is addition.
pub mod Poly
pub mod Interpolation
pub mod Lagrange
use ultimate_enigma.Prelude.{◌≡◌, ◌≢◌, refl, sym, ap, ◌∙◌}

pub record Field (F : Type 0) : Type 0 where
  infixl 65 ◌⊕◌
  infixl 70 ◌⊗◌
  pub o : F
  pub unit : F
  pub ◌⊕◌ : F → F → F
  pub ◌⊗◌ : F → F → F
  pub inv : F → F
  pub add_comm : (a b : F) → a ⊕ b ≡ b ⊕ a
  pub add_assoc : (a b c : F) → a ⊕ b ⊕ c ≡ a ⊕ (b ⊕ c)
  pub add_o : (a : F) → a ⊕ o ≡ a
  pub add_self : (a : F) → a ⊕ a ≡ o
  pub mul_comm : (a b : F) → a ⊗ b ≡ b ⊗ a
  pub mul_assoc : (a b c : F) → a ⊗ b ⊗ c ≡ a ⊗ (b ⊗ c)
  pub mul_unit : (a : F) → a ⊗ unit ≡ a
  pub mul_o : (a : F) → a ⊗ o ≡ o
  pub mul_add : (a b c : F) → a ⊗ (b ⊕ c) ≡ a ⊗ b ⊕ a ⊗ c
  pub mul_inv : (a : F) → a ≢ o → a ⊗ inv a ≡ unit

module _ {F : Type 0} (K : Field F) where
  open K use {
    o, unit, ◌⊕◌, ◌⊗◌, inv, add_comm, add_assoc, add_o, add_self, mul_comm, mul_assoc, mul_unit,
    mul_o, mul_add, mul_inv,
  }

  pub o_add : (a : F) → o ⊕ a ≡ a
  o_add a = add_comm o a ∙ add_o a

  pub o_mul : (a : F) → o ⊗ a ≡ o
  o_mul a = mul_comm o a ∙ mul_o a

  pub unit_mul : (a : F) → unit ⊗ a ≡ a
  unit_mul a = mul_comm unit a ∙ mul_unit a

  pub add_mul : (a b c : F) → (a ⊕ b) ⊗ c ≡ a ⊗ c ⊕ b ⊗ c
  add_mul a b c = rw (mul_comm (a ⊕ b) c, mul_add c a b, mul_comm c a, mul_comm c b)

  pub add_left_comm : (a b c : F) → a ⊕ (b ⊕ c) ≡ b ⊕ (a ⊕ c)
  add_left_comm a b c = rw (← add_assoc a b c, add_comm a b, add_assoc b a c)

  pub add_medial : (a b c d : F) → (a ⊕ b) ⊕ (c ⊕ d) ≡ (a ⊕ c) ⊕ (b ⊕ d)
  add_medial a b c d = rw (add_assoc a b (c ⊕ d), add_left_comm b c d, ← add_assoc a c (b ⊕ d))

  pub mul_left_comm : (a b c : F) → a ⊗ (b ⊗ c) ≡ b ⊗ (a ⊗ c)
  mul_left_comm a b c = rw (← mul_assoc a b c, mul_comm a b, mul_assoc b a c)

  pub mul_right_comm : (a b c : F) → a ⊗ b ⊗ c ≡ a ⊗ c ⊗ b
  mul_right_comm a b c = rw (mul_assoc a b c, mul_comm b c, ← mul_assoc a c b)

  pub add_cancel : (a b : F) → a ⊕ (a ⊕ b) ≡ b
  add_cancel a b = rw (← add_assoc a a b, add_self a, o_add b)

  -- What adds up to nothing is equal.
  pub eq_of_add : (a b : F) → a ⊕ b ≡ o → a ≡ b
  eq_of_add a b h = sym (add_o a) ∙ ap (λ t. a ⊕ t) (sym h) ∙ add_cancel a b

  -- There are no zero divisors.
  pub eq_o_of_mul : (a b : F) → a ≢ o → a ⊗ b ≡ o → b ≡ o
  eq_o_of_mul a b ne h =
      sym (unit_mul b)
      ∙ ap (λ t. t ⊗ b) (sym (mul_inv a ne) ∙ mul_comm a (inv a))
      ∙ mul_assoc (inv a) a b
      ∙ ap (λ t. inv a ⊗ t) h
      ∙ mul_o (inv a)
