-- ===== src/Field/Interpolation.antt =====
-- The terms of Lagrange's formula, and that their sum is a polynomial with no more coefficients
-- than there are points.
use ultimate_enigma.Prelude.{
  ℕ, suc, ◌+◌, ◌≤◌, ◌≡◌, ◌≢◌, refl, sym, ap, ◌∙◌, List, [], ◌∷◌, ◌++◌, length, length-append,
  length-map, arith, map,
}
use ultimate_enigma.Field
use ultimate_enigma.Field.{Field}
use ultimate_enigma.Field.Poly
use ultimate_enigma.Field.Poly.{eval, padd, scale}

module _ {F : Type 0} (K : Field F) where
  open K use {
    o, unit, ◌⊕◌, ◌⊗◌, inv, add_comm, add_assoc, add_o, add_self, mul_comm, mul_assoc, mul_o,
    mul_add, mul_unit, mul_inv,
  }

  -- The product of the differences of `z` and the points.
  abbrev pub product : F → List F → F
  product z [] = unit
  product z (p ∷ ps) = (z ⊕ p) ⊗ product z ps

  -- The basis polynomial of the point `x` among the points `others`, at `z`.
  abbrev pub basis_at : F → F → List F → F
  basis_at z x others = product z others ⊗ inv (product x others)

  -- The terms of the points of `rest`; those of `done` came before them.
  unfoldable pub terms : F → List F → List (F × F) → F
  terms z done [] = o
  terms z done ((x, y) ∷ rest) =
      y ⊗ basis_at z x (done ++ map (λ p. p.0) rest) ⊕ terms z (done ++ x ∷ []) rest

  -- No denominator of a basis polynomial is `o`.
  abbrev pub Divisible : List F → List F → Type 0
  Divisible done [] = Unit
  Divisible done (x ∷ rest) = (product x (done ++ rest) ≢ o) × Divisible (done ++ x ∷ []) rest

  -- One more root.
  times_root : F → List F → List F
  times_root p cs = padd K (scale K p cs) (o ∷ cs)

  eval-times_root :
      (p : F) (cs : List F) (z : F) → eval K (times_root p cs) z ≡ (z ⊕ p) ⊗ eval K cs z
  unfolding times_root eval
  eval-times_root p cs z =
      rw
        (
          Poly.eval-padd K (scale K p cs) (o ∷ cs) z,
          Poly.eval-scale K p cs z,
          Field.o_add K (z ⊗ eval K cs z),
          add_comm (p ⊗ eval K cs z) (z ⊗ eval K cs z),
        )
        (sym (Field.add_mul K z p (eval K cs z)))

  length-times_root-le :
      (p : F) (cs : List F) (n : ℕ) → length cs ≤ n → length (times_root p cs) ≤ suc n
  unfolding times_root
  length-times_root-le p cs n h =
      Poly.length-padd-le K (scale K p cs) (o ∷ cs) (suc n)
        (omega (arith, Poly.length-scale K p cs)) (omega arith)

  product_poly : List F → List F
  product_poly [] = unit ∷ []
  product_poly (p ∷ ps) = times_root p (product_poly ps)

  eval-product_poly : (ps : List F) (z : F) → eval K (product_poly ps) z ≡ product z ps
  unfolding product_poly
  eval-product_poly [] z = unfold eval in (ap (λ t. unit ⊕ t) (mul_o z) ∙ add_o unit)
  eval-product_poly (p ∷ ps) z =
      eval-times_root p (product_poly ps) z ∙ ap (λ t. (z ⊕ p) ⊗ t) (eval-product_poly ps z)

  length-product_poly-le : (ps : List F) → length (product_poly ps) ≤ suc (length ps)
  unfolding product_poly
  length-product_poly-le [] = omega arith
  length-product_poly-le (p ∷ ps) =
      length-times_root-le p (product_poly ps) (suc (length ps)) (length-product_poly-le ps)

  pub terms_poly : List F → List (F × F) → List F
  terms_poly done [] = []
  terms_poly done ((x, y) ∷ rest) =
      let others = done ++ map (λ p. p.0) rest in
      padd K (scale K (y ⊗ inv (product x others)) (product_poly others))
        (terms_poly (done ++ x ∷ []) rest)

  pub eval-terms_poly :
      (done : List F) (rest : List (F × F)) (z : F)
      → eval K (terms_poly done rest) z ≡ terms z done rest
  unfolding terms_poly terms
  eval-terms_poly done [] z = unfold eval in refl
  eval-terms_poly done ((x, y) ∷ rest) z =
      let others = done ++ map (λ p. p.0) rest in
      rw (
        Poly.eval-padd K (scale K (y ⊗ inv (product x others)) (product_poly others))
            (terms_poly (done ++ x ∷ []) rest) z,
        Poly.eval-scale K (y ⊗ inv (product x others)) (product_poly others) z,
        eval-product_poly others z,
        eval-terms_poly (done ++ x ∷ []) rest z,
        mul_assoc y (inv (product x others)) (product z others),
        mul_comm (inv (product x others)) (product z others),
      )

  pub length-terms_poly-le :
      (done : List F) (rest : List (F × F))
      → length (terms_poly done rest) ≤ length done + length rest
  unfolding terms_poly
  length-terms_poly-le done [] = omega arith
  length-terms_poly-le done ((x, y) ∷ rest) =
      let others : List F = done ++ map (λ p. p.0) rest in
      let size : length others ≡ length done + length rest =
        length-append done (map (λ p. p.0) rest) ∙ omega (arith, length-map rest (λ p. p.0)) in
      Poly.length-padd-le K (scale K (y ⊗ inv (product x others)) (product_poly others))
        (terms_poly (done ++ x ∷ []) rest) (length done + suc (length rest))
        (omega (
          arith,
          Poly.length-scale K (y ⊗ inv (product x others)) (product_poly others),
          length-product_poly-le others,
          size,
        ))
        (omega (arith, length-terms_poly-le (done ++ x ∷ []) rest, length-append done (x ∷ [])))
