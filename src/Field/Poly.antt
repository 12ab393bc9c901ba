-- ===== src/Field/Poly.antt =====
-- Polynomials as lists of coefficients, the lowest first. A polynomial with as many roots as
-- coefficients is zero everywhere.
use ultimate_enigma.Prelude.{
  ℕ, suc, zero, ◌≤◌, ◌≡◌, ◌≢◌, refl, sym, ap, ◌∙◌, List, [], ◌∷◌, length, arith, All, map,
}
use ultimate_enigma.Field
use ultimate_enigma.Field.{Field}

module _ {F : Type 0} (K : Field F) where
  open K use {
    o, unit, ◌⊕◌, ◌⊗◌, add_comm, add_assoc, add_o, add_self, mul_comm, mul_assoc, mul_o, mul_add,
  }

  unfoldable pub eval : List F → F → F
  eval [] x = o
  eval (c ∷ cs) x = c ⊕ x ⊗ eval cs x

  unfoldable pub padd : List F → List F → List F
  padd [] q = q
  padd (a ∷ p) [] = a ∷ p
  padd (a ∷ p) (b ∷ q) = (a ⊕ b) ∷ padd p q

  unfoldable pub scale : F → List F → List F
  scale c = map (λ a. c ⊗ a)

  pub eval-padd : (p q : List F) (x : F) → eval (padd p q) x ≡ eval p x ⊕ eval q x
  unfolding eval padd
  eval-padd [] q x = sym (Field.o_add K (eval q x))
  eval-padd (a ∷ p) [] x = sym (add_o _)
  eval-padd (a ∷ p) (b ∷ q) x =
      rw (eval-padd p q x, mul_add x (eval p x) (eval q x))
        (Field.add_medial K a b (x ⊗ eval p x) (x ⊗ eval q x))

  pub eval-scale : (c : F) (p : List F) (x : F) → eval (scale c p) x ≡ c ⊗ eval p x
  unfolding eval scale
  eval-scale c [] x = sym (mul_o c)
  eval-scale c (a ∷ p) x =
      rw (eval-scale c p x, mul_add c a (x ⊗ eval p x), Field.mul_left_comm K x c (eval p x))

  pub length-padd-le : (p q : List F) (n : ℕ) → length p ≤ n → length q ≤ n → length (padd p q) ≤ n
  unfolding padd
  length-padd-le [] q n hp hq = hq
  length-padd-le (a ∷ p) [] n hp hq = hp
  length-padd-le (a ∷ p) (b ∷ q) zero hp hq = absurd (omega arith)
  length-padd-le (a ∷ p) (b ∷ q) (suc n) hp hq =
      omega (arith, length-padd-le p q n (omega arith) (omega arith))

  pub length-scale : (c : F) (p : List F) → length (scale c p) ≡ length p
  unfolding scale
  length-scale c [] = refl
  length-scale c (a ∷ p) = ap suc (length-scale c p)

  -- Division by `x - a`.
  quotient : F → List F → List F
  quotient a [] = []
  quotient a (c ∷ []) = []
  quotient a (c ∷ d ∷ cs) = eval (d ∷ cs) a ∷ quotient a (d ∷ cs)

  length-quotient : (a c : F) (cs : List F) → length (quotient a (c ∷ cs)) ≡ length cs
  unfolding quotient
  length-quotient a c [] = refl
  length-quotient a c (d ∷ cs) = ap suc (length-quotient a d cs)

  -- The algebra of one step of the division.
  divide_step : (c x a s q : F) → c ⊕ x ⊗ (s ⊕ (x ⊕ a) ⊗ q) ≡ c ⊕ a ⊗ s ⊕ (x ⊕ a) ⊗ (s ⊕ x ⊗ q)
  divide_step c x a s q =
      let u : F = x ⊕ a in
      rw (
        mul_add x s (u ⊗ q),
        mul_add u s (x ⊗ q),
        Field.mul_left_comm K u x q,
        Field.add_mul K x a s,
        add_assoc c (a ⊗ s) (x ⊗ s ⊕ a ⊗ s ⊕ x ⊗ (u ⊗ q)),
        add_comm (x ⊗ s) (a ⊗ s),
        add_assoc (a ⊗ s) (x ⊗ s) (x ⊗ (u ⊗ q)),
        Field.add_cancel K (a ⊗ s) (x ⊗ s ⊕ x ⊗ (u ⊗ q)),
      )

  eval-single : (c x : F) → eval (c ∷ []) x ≡ c
  unfolding eval
  eval-single c x = ap (λ t. c ⊕ t) (mul_o x) ∙ add_o c

  divide : (a : F) (p : List F) (x : F) → eval p x ≡ eval p a ⊕ (x ⊕ a) ⊗ eval (quotient a p) x
  unfolding eval quotient
  divide a [] x = sym (eval-single o (x ⊕ a))
  divide a (c ∷ []) x =
      eval-single c x ∙ sym (ap (λ t. t ⊕ (x ⊕ a) ⊗ o) (eval-single c a) ∙ eval-single c (x ⊕ a))
  divide a (c ∷ d ∷ cs) x =
      ap (λ t. c ⊕ x ⊗ t) (divide a (d ∷ cs) x)
      ∙ divide_step c x a (eval (d ∷ cs) a) (eval (quotient a (d ∷ cs)) x)

  -- Where `a` is a root, every other root is one of the quotient.
  quotient_root :
      (a : F) (p : List F) (b : F) → eval p a ≡ o → b ≢ a → eval p b ≡ o → eval (quotient a p) b ≡ o
  quotient_root a p b ra ne rb =
      Field.eq_o_of_mul K (b ⊕ a) (eval (quotient a p) b) (λ e. ne (Field.eq_of_add K b a e))
        (sym (Field.o_add K _)
          ∙ ap (λ t. t ⊕ (b ⊕ a) ⊗ eval (quotient a p) b) (sym ra)
          ∙ sym (divide a p b)
          ∙ rb)

  abbrev pub Distinct : List F → Type 0
  Distinct [] = Unit
  Distinct (x ∷ xs) = All (λ y. y ≢ x) xs × Distinct xs

  abbrev pub AreRoots : List F → List F → Type 0
  AreRoots p = All (λ x. eval p x ≡ o)

  quotient_roots :
      (a : F) (p : List F) (xs : List F)
      → eval p a ≡ o
      → All (λ y. y ≢ a) xs
      → AreRoots p xs
      → AreRoots (quotient a p) xs
  quotient_roots a p [] ra ne roots = tt
  quotient_roots a p (x ∷ xs) ra ne roots =
      (quotient_root a p x ra ne.0 roots.0, quotient_roots a p xs ra ne.1 roots.1)

  pub zero_of_roots :
      (xs p : List F) → Distinct xs → AreRoots p xs → length p ≤ length xs → (z : F) → eval p z ≡ o
  unfolding eval
  zero_of_roots xs [] distinct roots short z = refl
  zero_of_roots [] (c ∷ cs) distinct roots short z = absurd (omega arith)
  zero_of_roots (x ∷ xs) (c ∷ cs) distinct roots short z =
      let rest =
        zero_of_roots xs (quotient x (c ∷ cs)) distinct.1
          (quotient_roots x (c ∷ cs) xs roots.0 distinct.0 roots.1)
          (omega (arith, length-quotient x c cs)) z in
      divide x (c ∷ cs) z
      ∙ ap (λ t. t ⊕ (z ⊕ x) ⊗ eval (quotient x (c ∷ cs)) z) roots.0
      ∙ Field.o_add K _
      ∙ ap (λ t. (z ⊕ x) ⊗ t) rest
      ∙ mul_o (z ⊕ x)
