-- ===== src/Shamir/Basis.antt =====
-- `_lagrange_coefficients` computes the basis polynomials: the loops over the coefficients and over
-- the points.
use ultimate_enigma.Prelude.{
  ℕ, suc, ◌+◌, ◌≡◌, refl, sym, ap, ◌∙◌, List, [], ◌∷◌, ◌++◌, length, set, replicate, index,
  index-append, set-append, length-append, length-map, append_assoc, Result, ok, ◌>>=◌, then, arith,
}
use ultimate_enigma.Field
use ultimate_enigma.Field.{Field}
use ultimate_enigma.Field.Poly.{eval}
use ultimate_enigma.Shamir.{multiply_loop, multiply}
use ultimate_enigma.Shamir.Gf256.{gf_add}
use ultimate_enigma.Shamir.Gf256.ByteField
use ultimate_enigma.Shamir.Gf256.ByteField.{
  Byte, byte_add, byte_mul, byte_inv, byte_zero, byte_one, byte_field,
}
use ultimate_enigma.Shamir.Gf256.Evaluate.{vals, gf_add-byte_add, gf_mul-byte_mul}

-- The coefficients times `x - p`, where `carry` is what the coefficient before passes on.
unfoldable pub shifted : Byte → Byte → List Byte → List Byte
shifted p carry [] = carry ∷ []
shifted p carry (c ∷ cs) = byte_add carry (byte_mul c p) ∷ shifted p c cs

zero_add : (a : Byte) → byte_add byte_zero a ≡ a
zero_add = Field.o_add byte_field

-- Where the loop is at an index, the entry there is known and those after it are 0.
multiply_loop-shifted :
    (p carry : Byte) (done : List ℕ) (cs : List Byte) (k : ℕ)
    → k ≡ length done
    → multiply_loop p.0 k (vals cs) (done ++ carry.0 ∷ replicate (length cs) 0)
      ≡ ok (done ++ vals (shifted p carry cs))
unfolding multiply_loop shifted
multiply_loop-shifted p carry done [] k e = refl
multiply_loop-shifted p carry done (c ∷ cs) k e =
    let low = byte_add carry (byte_mul c p) in
    let zeros = replicate (length cs) 0 in
    then _ (gf_mul-byte_mul c p)
    ∙ then _ (index-append done (0 ∷ zeros) carry.0 k e)
    ∙ ap (λ v. next (set (done ++ carry.0 ∷ 0 ∷ zeros) k v)) (gf_add-byte_add carry (byte_mul c p))
    ∙ ap next (
        set-append done (0 ∷ zeros) carry.0 low.0 k e
        ∙ sym (append_assoc done (low.0 ∷ []) (0 ∷ zeros)))
    ∙ then _ (index-append (done ++ low.0 ∷ []) zeros 0 (k + 1) place)
    ∙ ap
        (λ v.
          multiply_loop p.0 (k + 1) (vals cs) (set ((done ++ low.0 ∷ []) ++ 0 ∷ zeros) (k + 1) v))
        (gf_add-byte_add byte_zero c ∙ ap (λ (b : Byte). b.0) (zero_add c))
    ∙ ap (multiply_loop p.0 (k + 1) (vals cs))
        (set-append (done ++ low.0 ∷ []) zeros 0 c.0 (k + 1) place)
    ∙ multiply_loop-shifted p c (done ++ low.0 ∷ []) cs (k + 1) place
    ∙ ap ok (append_assoc done (low.0 ∷ []) (vals (shifted p c cs)))
  where
    place : k + 1 ≡ length (done ++ (byte_add carry (byte_mul c p)).0 ∷ [])
    place = omega (arith, e, length-append done ((byte_add carry (byte_mul c p)).0 ∷ []))

    next : List ℕ → Result (List ℕ)
    next new_basis = do
      high ← index new_basis (k + 1)
      multiply_loop p.0 (k + 1) (vals cs) (set new_basis (k + 1) (gf_add high c.0))

pub multiply-shifted :
    (p : Byte) (cs : List Byte) → multiply p.0 (vals cs) ≡ ok (vals (shifted p byte_zero cs))
unfolding multiply
multiply-shifted p cs =
    ap (λ n. multiply_loop p.0 0 (vals cs) (replicate n 0)) size
    ∙ multiply_loop-shifted p byte_zero [] cs 0 refl
  where
    size : length (vals cs) + 1 ≡ suc (length cs)
    size = omega (arith, length-map cs (λ (b : Byte). b.0))

module _ (z : Byte) where
  unfoldable pub value : List Byte → Byte
  value cs = eval byte_field cs z

  shift_step :
      (p carry c e : Byte)
      → byte_add
          (byte_add carry (byte_mul c p))
          (byte_mul z (byte_add c (byte_mul (byte_add z p) e)))
        ≡ byte_add carry (byte_mul (byte_add z p) (byte_add c (byte_mul z e)))
  shift_step p carry c e =
      let u = byte_add z p in
      ap (λ t. byte_add (byte_add carry (byte_mul c p)) t)
        (ByteField.mul_add z c (byte_mul u e)
          ∙ ap (byte_add (byte_mul z c)) (Field.mul_left_comm byte_field z u e))
      ∙ ByteField.add_assoc carry (byte_mul c p) _
      ∙ ap (byte_add carry) (
          sym (ByteField.add_assoc (byte_mul c p) (byte_mul z c) (byte_mul u (byte_mul z e)))
          ∙ ap (λ t. byte_add t (byte_mul u (byte_mul z e)))
              (ByteField.add_comm (byte_mul c p) (byte_mul z c)
                ∙ ap (byte_add (byte_mul z c)) (ByteField.mul_comm c p)
                ∙ sym (Field.add_mul byte_field z p c))
          ∙ sym (ByteField.mul_add u c (byte_mul z e)))

  pub value-shifted :
      (p carry : Byte) (cs : List Byte)
      → value (shifted p carry cs) ≡ byte_add carry (byte_mul (byte_add z p) (value cs))
  unfolding value shifted eval
  value-shifted p carry [] =
      ap (byte_add carry) (ByteField.mul_zero z ∙ sym (ByteField.mul_zero (byte_add z p)))
  value-shifted p carry (c ∷ cs) =
      ap (λ t. byte_add (byte_add carry (byte_mul c p)) (byte_mul z t)) (value-shifted p c cs)
      ∙ shift_step p carry c (value cs)
