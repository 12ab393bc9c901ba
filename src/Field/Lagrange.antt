-- ===== src/Field/Lagrange.antt =====
-- Lagrange's formula: the value anywhere of a polynomial from its values at as many points as it
-- has coefficients.
use ultimate_enigma.Prelude.{
  ◌≤◌, ◌≡◌, ◌≢◌, ◌⊎◌, inl, inr, refl, sym, ap, ◌∙◌, List, [], ◌∷◌, ◌++◌, length, length-map, arith,
  All, map,
}
use ultimate_enigma.Field
use ultimate_enigma.Field.{Field}
use ultimate_enigma.Field.Poly
use ultimate_enigma.Field.Poly.{eval, padd}
use ultimate_enigma.Field.Interpolation.{
  product, basis_at, terms, Divisible, terms_poly, eval-terms_poly, length-terms_poly-le,
}

module _ {F : Type 0} (K : Field F) where
  open K use {o, unit, ◌⊕◌, ◌⊗◌, inv, add_o, add_self, mul_o, mul_unit, mul_inv}

  abbrev Has : F → List F → Type 0
  Has z [] = ⊥
  Has z (p ∷ ps) = (z ≡ p) ⊎ Has z ps

  Has-append_left : (z : F) (ps qs : List F) → Has z ps → Has z (ps ++ qs)
  Has-append_left z [] qs h = absurd h
  Has-append_left z (p ∷ ps) qs (inl e) = inl e
  Has-append_left z (p ∷ ps) qs (inr h) = inr (Has-append_left z ps qs h)

  Has-append_right : (z : F) (ps qs : List F) → Has z qs → Has z (ps ++ qs)
  Has-append_right z [] qs h = h
  Has-append_right z (p ∷ ps) qs h = inr (Has-append_right z ps qs h)

  product_root : (z : F) (ps : List F) → Has z ps → product K z ps ≡ o
  product_root z [] h = absurd h
  product_root z (p ∷ ps) (inl e) =
      ap (λ t. (z ⊕ t) ⊗ product K z ps) (sym e)
      ∙ ap (λ t. t ⊗ product K z ps) (add_self z)
      ∙ Field.o_mul K (product K z ps)
  product_root z (p ∷ ps) (inr h) = ap (λ t. (z ⊕ p) ⊗ t) (product_root z ps h) ∙ mul_o (z ⊕ p)

  pub product_ne_o : unit ≢ o → (z : F) (ps : List F) → All (λ p. z ≢ p) ps → product K z ps ≢ o
  product_ne_o one z [] h = one
  product_ne_o one z (p ∷ ps) h = λ e.
      product_ne_o one z ps h.1
        (Field.eq_o_of_mul K (z ⊕ p) (product K z ps) (λ d. h.0 (Field.eq_of_add K z p d)) e)

  -- At a point that is not its own a term vanishes.
  term_vanishes : (z x y : F) (others : List F) → Has z others → y ⊗ basis_at K z x others ≡ o
  term_vanishes z x y others h =
      ap (λ t. y ⊗ (t ⊗ inv (product K x others))) (product_root z others h)
      ∙ ap (λ t. y ⊗ t) (Field.o_mul K (inv (product K x others)))
      ∙ mul_o y

  terms_vanish :
      (z : F) (done : List F) (rest : List (F × F)) → Has z done → terms K z done rest ≡ o
  unfolding terms
  terms_vanish z done [] h = refl
  terms_vanish z done ((x, y) ∷ rest) h =
      let others = done ++ map (λ p. p.0) rest in
      ap (λ t. t ⊕ terms K z (done ++ x ∷ []) rest)
        (term_vanishes z x y others (Has-append_left z done (map (λ p. p.0) rest) h))
      ∙ Field.o_add K (terms K z (done ++ x ∷ []) rest)
      ∙ terms_vanish z (done ++ x ∷ []) rest (Has-append_left z done (x ∷ []) h)

  Has-snoc : (done : List F) (x : F) → Has x (done ++ x ∷ [])
  Has-snoc done x = Has-append_right x done (x ∷ []) (inl refl)

  -- At its own point a term is the value there.
  term_self : (x y : F) (others : List F) → product K x others ≢ o → y ⊗ basis_at K x x others ≡ y
  term_self x y others ne = ap (λ t. y ⊗ t) (mul_inv (product K x others) ne) ∙ mul_unit y

  abbrev Apart : List F → List F → Type 0
  Apart done = All (λ x. All (λ d. x ≢ d) done)

  All-snoc : (P : F → Type 0) (ds : List F) (x : F) → All P ds → P x → All P (ds ++ x ∷ [])
  All-snoc P [] x h p = (p, tt)
  All-snoc P (d ∷ ds) x h p = (h.0, All-snoc P ds x h.1 p)

  All-append : (P : F → Type 0) (ds es : List F) → All P ds → All P es → All P (ds ++ es)
  All-append P [] es h p = p
  All-append P (d ∷ ds) es h p = (h.0, All-append P ds es h.1 p)

  All-flip : (x : F) (xs : List F) → All (λ y. y ≢ x) xs → All (λ y. x ≢ y) xs
  All-flip x [] h = tt
  All-flip x (y ∷ xs) h = (λ e. h.0 (sym e), All-flip x xs h.1)

  Apart-snoc :
      (done xs : List F) (x : F) → Apart done xs → All (λ y. y ≢ x) xs → Apart (done ++ x ∷ []) xs
  Apart-snoc done [] x h n = tt
  Apart-snoc done (y ∷ xs) x h n =
      (All-snoc (λ d. y ≢ d) done x h.0 n.0, Apart-snoc done xs x h.1 n.1)

  Apart-Divisible :
      unit ≢ o → (done xs : List F) → Apart done xs → Poly.Distinct K xs → Divisible K done xs
  Apart-Divisible one done [] apart distinct = tt
  Apart-Divisible one done (x ∷ xs) apart distinct = (
    product_ne_o one x (done ++ xs)
        (All-append (λ d. x ≢ d) done xs apart.0 (All-flip x xs distinct.0)),
    Apart-Divisible one (done ++ x ∷ []) xs (Apart-snoc done xs x apart.1 distinct.0) distinct.1,
  )

  Apart-nil : (xs : List F) → Apart [] xs
  Apart-nil [] = tt
  Apart-nil (x ∷ xs) = (tt, Apart-nil xs)

  pub Distinct-Divisible : unit ≢ o → (xs : List F) → Poly.Distinct K xs → Divisible K [] xs
  Distinct-Divisible one xs distinct = Apart-Divisible one [] xs (Apart-nil xs) distinct

  module _ (f : F → F) where
    abbrev pub graph : List F → List (F × F)
    graph = map (λ x. (x, f x))

    pub map-graph : (xs : List F) → map (λ (p : F × F). p.0) (graph xs) ≡ xs
    map-graph [] = refl
    map-graph (x ∷ xs) = ap (◌∷◌ x) (map-graph xs)

    terms_at :
        unit ≢ o
        → (done xs : List F) (z : F) → Has z xs
        → Apart done xs
        → Poly.Distinct K xs
        → terms K z done (graph xs) ≡ f z
    unfolding terms
    terms_at one done [] z h apart distinct = absurd h
    terms_at one done (x ∷ xs) z (inl e) apart distinct =
        let ne = product_ne_o one x (done ++ map (λ p. p.0) (graph xs)) (
          All-append (λ d. x ≢ d) done (map (λ p. p.0) (graph xs)) apart.0
            (rw (map-graph xs) (All-flip x xs distinct.0))) in
        ap (λ t. terms K t done (graph (x ∷ xs))) e
        ∙ ap (λ t. t ⊕ terms K x (done ++ x ∷ []) (graph xs))
            (term_self x (f x) (done ++ map (λ p. p.0) (graph xs)) ne)
        ∙ ap (λ t. f x ⊕ t) (terms_vanish x (done ++ x ∷ []) (graph xs) (Has-snoc done x))
        ∙ add_o (f x)
        ∙ ap f (sym e)
    terms_at one done (x ∷ xs) z (inr h) apart distinct =
        ap (λ t. t ⊕ terms K z (done ++ x ∷ []) (graph xs))
          (term_vanishes z x (f x) (done ++ map (λ p. p.0) (graph xs))
            (Has-append_right z done (map (λ p. p.0) (graph xs)) (rw (map-graph xs) h)))
        ∙ Field.o_add K (terms K z (done ++ x ∷ []) (graph xs))
        ∙ terms_at one (done ++ x ∷ []) xs z h (Apart-snoc done xs x apart.1 distinct.0) distinct.1

  -- Where `f` has no more coefficients than there are points, all different, Lagrange's formula
  -- through its values at the points is `f` everywhere.
  module _ (one : unit ≢ o) (f : List F) (points : List F) (distinct : Poly.Distinct K points) where
    difference : List F
    difference = padd K f (terms_poly K [] (graph (eval K f) points))

    roots_from : (xs : List F) → ((z : F) → Has z xs → Has z points) → Poly.AreRoots K difference xs
    unfolding difference
    roots_from [] sub = tt
    roots_from (x ∷ xs) sub = (
      Poly.eval-padd K f (terms_poly K [] (graph (eval K f) points)) x
          ∙ ap (λ t. eval K f x ⊕ t)
              (eval-terms_poly K [] (graph (eval K f) points) x
                ∙ terms_at (eval K f) one [] points x (sub x (inl refl)) (Apart-nil points)
                    distinct)
          ∙ add_self (eval K f x),
      roots_from xs (λ z h. sub z (inr h)),
    )

    pub lagrange :
        length f ≤ length points → (z : F) → terms K z [] (graph (eval K f) points) ≡ eval K f z
    unfolding difference
    lagrange short z =
        let zero_at : eval K difference z ≡ o =
          Poly.zero_of_roots K points difference distinct (roots_from points (λ z h. h))
            (Poly.length-padd-le K f (terms_poly K [] (graph (eval K f) points)) (length points)
              short
              (omega (
                arith,
                length-terms_poly-le K [] (graph (eval K f) points),
                length-map {B = F × F} points (λ x. (x, eval K f x)),
              )))
            z in
        sym (
          Field.eq_of_add K (eval K f z) (terms K z [] (graph (eval K f) points)) (
            ap (λ t. eval K f z ⊕ t) (sym (eval-terms_poly K [] (graph (eval K f) points) z))
            ∙ sym (Poly.eval-padd K f (terms_poly K [] (graph (eval K f) points)) z)
            ∙ zero_at))
