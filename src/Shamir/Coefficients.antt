-- ===== src/Shamir/Coefficients.antt =====
-- `_lagrange_coefficients` computes Lagrange's coefficients: the loop over the other points, which
-- skips its own index, and the loop over the points.
use ultimate_enigma.Prelude.{
  ℕ, ◌+◌, ◌<◌, ◌≡◌, ◌≢◌, refl, sym, ap, ◌∙◌, List, [], ◌∷◌, ◌++◌, length, append_assoc,
  length-append, Result, ok, ◌>>=◌, then, ◌==◌, ==_refl, ==_ne, arith,
}
use ultimate_enigma.Field
use ultimate_enigma.Field.{Field}
use ultimate_enigma.Field.Poly.{eval}
use ultimate_enigma.Field.Interpolation.{product, basis_at, Divisible}
use ultimate_enigma.Shamir.{basis_loop, coefficients_loop, lagrange_coefficients}
use ultimate_enigma.Shamir.Basis.{shifted, multiply-shifted, value, value-shifted}
use ultimate_enigma.Shamir.Gf256.{gf_mul, gf_inv, eval_poly}
use ultimate_enigma.Shamir.Gf256.ByteField
use ultimate_enigma.Shamir.Gf256.ByteField.{
  Byte, byte_add, byte_mul, byte_inv, byte_zero, byte_one, byte_field,
}
use ultimate_enigma.Shamir.Gf256.Evaluate.{
  vals, gf_add-byte_add, gf_mul-byte_mul, gf_inv-byte_inv, eval_poly-eval,
}

basis_of : List Byte → List Byte → List Byte
basis_of [] cs = cs
basis_of (p ∷ ps) cs = basis_of ps (shifted p byte_zero cs)

value-basis_of :
    (z : Byte) (ps cs : List Byte)
    → value z (basis_of ps cs) ≡ byte_mul (product byte_field z ps) (value z cs)
unfolding basis_of
value-basis_of z [] cs = sym (Field.unit_mul byte_field (value z cs))
value-basis_of z (p ∷ ps) cs =
    let u = byte_add z p in
    let rest = product byte_field z ps in
    value-basis_of z ps (shifted p byte_zero cs)
    ∙ ap (byte_mul rest)
        (value-shifted z p byte_zero cs ∙ Field.o_add byte_field (byte_mul u (value z cs)))
    ∙ Field.mul_left_comm byte_field rest u (value z cs)
    ∙ sym (ByteField.mul_assoc u rest (value z cs))

module _ (i : ℕ) (x : Byte) where
  -- One turn of the loop at an index that is not the point's own.
  basis_turn :
      (j : ℕ) (p : Byte) (ps : List ℕ) (cs : List Byte) (d : Byte)
      → i ≢ j
      → basis_loop i x.0 j (p.0 ∷ ps) (vals cs) d.0
        ≡ basis_loop i x.0 (j + 1) ps (vals (shifted p byte_zero cs)) (byte_mul d (byte_add x p)).0
  unfolding basis_loop
  basis_turn j p ps cs d ne =
      rw (==_ne i j ne, basis_loop)
        (then _ (multiply-shifted p cs)
          ∙ ap
              (λ t. gf_mul d.0 t >>= λ d'.
                basis_loop i x.0 (j + 1) ps (vals (shifted p byte_zero cs)) d')
              (gf_add-byte_add x p)
          ∙ then _ (gf_mul-byte_mul d (byte_add x p)))

  basis_result : List Byte → List Byte → Byte → Result (List ℕ × ℕ)
  basis_result ps cs d = ok (vals (basis_of ps cs), (byte_mul d (product byte_field x ps)).0)

  basis_result-cons :
      (p : Byte) (ps cs : List Byte) (d : Byte)
      → basis_result ps (shifted p byte_zero cs) (byte_mul d (byte_add x p))
        ≡ basis_result (p ∷ ps) cs d
  unfolding basis_result basis_of
  basis_result-cons p ps cs d =
      ap (λ (b : Byte). ok (vals (basis_of ps (shifted p byte_zero cs)), b.0))
        (ByteField.mul_assoc d (byte_add x p) (product byte_field x ps))

  basis_loop-after :
      (j : ℕ) (ps cs : List Byte) (d : Byte)
      → i < j
      → basis_loop i x.0 j (vals ps) (vals cs) d.0 ≡ basis_result ps cs d
  unfolding basis_loop basis_of basis_result
  basis_loop-after j [] cs d h = ap (λ (b : Byte). ok (vals cs, b.0)) (sym (ByteField.mul_one d))
  basis_loop-after j (p ∷ ps) cs d h =
      basis_turn j p (vals ps) cs d (λ e. absurd (omega arith))
      ∙ basis_loop-after (j + 1) ps (shifted p byte_zero cs) (byte_mul d (byte_add x p))
          (omega arith)
      ∙ basis_result-cons p ps cs d

  -- The points up to its own are those of `before`.
  basis_loop-result :
      (j : ℕ) (before after cs : List Byte) (d : Byte)
      → i ≡ j + length before
      → basis_loop i x.0 j (vals (before ++ x ∷ after)) (vals cs) d.0
        ≡ basis_result (before ++ after) cs d
  unfolding basis_loop
  basis_loop-result j [] after cs d e =
      let same : i ≡ j = omega arith in
      rw (ap (◌==◌ i) (sym same) ∙ ==_refl i, basis_loop)
        (basis_loop-after (j + 1) after cs d (omega arith))
  basis_loop-result j (p ∷ before) after cs d e =
      basis_turn j p (vals (before ++ x ∷ after)) cs d (λ h. absurd (omega arith))
      ∙ basis_loop-result (j + 1) before after (shifted p byte_zero cs) (byte_mul d (byte_add x p))
          (omega arith)
      ∙ basis_result-cons p (before ++ after) cs d

-- The coefficients of the points of `rest`; those of `done` came before them.
unfoldable pub coefficients : Byte → List Byte → List Byte → List Byte
coefficients z done [] = []
coefficients z done (x ∷ rest) =
    basis_at byte_field z x (done ++ rest) ∷ coefficients z (done ++ x ∷ []) rest

module _ (z : Byte) where
  coefficient-basis_at :
      (x : Byte) (others : List Byte) (next : ℕ → Result (List ℕ))
      → product byte_field x others ≢ byte_zero
      → (eval_poly (vals (basis_of others (byte_one ∷ []))) z.0 >>= λ v.
          gf_inv (byte_mul byte_one (product byte_field x others)).0 >>= λ inverse.
          gf_mul v inverse >>= next)
        ≡ next (basis_at byte_field z x others).0
  unfolding value eval
  coefficient-basis_at x others next ne =
      let poly = basis_of others (byte_one ∷ []) in
      let denom = product byte_field x others in
      then _ (eval_poly-eval poly z)
      ∙ ap
          (λ (d : Byte).
            gf_inv d.0 >>= λ inverse. gf_mul (eval byte_field poly z).0 inverse >>= next)
          (Field.unit_mul byte_field denom)
      ∙ then _ (gf_inv-byte_inv denom ne)
      ∙ then _ (gf_mul-byte_mul (eval byte_field poly z) (byte_inv denom))
      ∙ ap (λ t. next (byte_mul t (byte_inv denom)).0)
          (value-basis_of z others (byte_one ∷ [])
            ∙ ap (byte_mul (product byte_field z others))
                (ap (byte_add byte_one) (ByteField.mul_zero z) ∙ ByteField.add_zero byte_one)
            ∙ ByteField.mul_one (product byte_field z others))

  coefficients_loop-coefficients :
      (done rest : List Byte) (i : ℕ)
      → i ≡ length done
      → Divisible byte_field done rest
      → coefficients_loop z.0 (vals (done ++ rest)) i (vals rest)
        ≡ ok (vals (coefficients z done rest))
  unfolding coefficients_loop coefficients basis_result
  coefficients_loop-coefficients done [] i e h = refl
  coefficients_loop-coefficients done (x ∷ rest) i e h =
      then _ (basis_loop-result i x 0 done rest (byte_one ∷ []) byte_one (omega arith))
      ∙ coefficient-basis_at x (done ++ rest) _ h.0
      ∙ then _ (
          ap (λ ps. coefficients_loop z.0 (vals ps) (i + 1) (vals rest))
            (sym (append_assoc done (x ∷ []) rest))
          ∙ coefficients_loop-coefficients (done ++ x ∷ []) rest (i + 1)
              (omega (arith, length-append done (x ∷ []))) h.1)

  pub lagrange_coefficients-coefficients :
      (points : List Byte)
      → Divisible byte_field [] points
      → lagrange_coefficients z.0 (vals points) ≡ ok (vals (coefficients z [] points))
  unfolding lagrange_coefficients
  lagrange_coefficients-coefficients points h = coefficients_loop-coefficients [] points 0 refl h
