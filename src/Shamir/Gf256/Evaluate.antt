-- ===== src/Shamir/Gf256/Evaluate.antt =====
-- The operations on the tables, for bytes, are those of the field; `_eval_poly` evaluates.
use ultimate_enigma.Prelude.{
  ℕ, ◌≡◌, ◌≢◌, refl, sym, ap, ◌∙◌, List, [], ◌∷◌, map, ok, then, zero, suc, arith,
}
use ultimate_enigma.Field
use ultimate_enigma.Field.{Field}
use ultimate_enigma.Field.Poly.{eval}
use ultimate_enigma.Shamir.Gf256.{gf_add, gf_mul, gf_inv, eval_poly, eval_poly_loop}
use ultimate_enigma.Shamir.Gf256.Product.{gf_mul-times, gf_inv-inverse}
use ultimate_enigma.Shamir.Gf256.ByteField
use ultimate_enigma.Shamir.Gf256.ByteField.{
  Byte, Byte_path, byte_add, byte_mul, byte_inv, byte_zero, byte_one, byte_field,
}

abbrev pub vals : List Byte → List ℕ
vals = map (λ (b : Byte). b.0)

pub gf_add-byte_add : (a b : Byte) → gf_add a.0 b.0 ≡ (byte_add a b).0
unfolding gf_add byte_add
gf_add-byte_add a b = refl

pub gf_mul-byte_mul : (a b : Byte) → gf_mul a.0 b.0 ≡ ok (byte_mul a b).0
unfolding byte_mul
gf_mul-byte_mul a b = gf_mul-times a.0 b.0 a.1 b.1

pub gf_inv-byte_inv : (a : Byte) → a ≢ byte_zero → gf_inv a.0 ≡ ok (byte_inv a).0
unfolding byte_inv
gf_inv-byte_inv (zero, h) ne = absurd (ne (Byte_path (zero, h) byte_zero refl))
gf_inv-byte_inv (suc a, h) ne = gf_inv-inverse (suc a) (omega arith, h)

eval_step :
    (result power x c e : Byte)
    → byte_add (byte_add result (byte_mul c power)) (byte_mul (byte_mul power x) e)
      ≡ byte_add result (byte_mul power (byte_add c (byte_mul x e)))
eval_step result power x c e = rw (
  ByteField.mul_comm c power,
  ByteField.mul_add power c (byte_mul x e),
  ByteField.mul_assoc power x e,
  ByteField.add_assoc result (byte_mul power c) (byte_mul power (byte_mul x e)),
)

eval_poly_loop-eval :
    (result power x : Byte) (cs : List Byte)
    → eval_poly_loop result.0 power.0 x.0 (vals cs)
      ≡ ok (byte_add result (byte_mul power (eval byte_field cs x))).0
unfolding eval_poly_loop eval
eval_poly_loop-eval result power x [] =
    ap (λ (b : Byte). ok b.0)
      (sym (ap (byte_add result) (ByteField.mul_zero power) ∙ ByteField.add_zero result))
eval_poly_loop-eval result power x (c ∷ cs) =
    then _ (gf_mul-byte_mul c power)
    ∙ then _ (gf_mul-byte_mul power x)
    ∙ ap (λ r. eval_poly_loop r (byte_mul power x).0 x.0 (vals cs))
        (gf_add-byte_add result (byte_mul c power))
    ∙ eval_poly_loop-eval (byte_add result (byte_mul c power)) (byte_mul power x) x cs
    ∙ ap (λ (b : Byte). ok b.0) (eval_step result power x c (eval byte_field cs x))

pub eval_poly-eval :
    (cs : List Byte) (x : Byte) → eval_poly (vals cs) x.0 ≡ ok (eval byte_field cs x).0
unfolding eval_poly
eval_poly-eval cs x =
    eval_poly_loop-eval byte_zero byte_one x cs
    ∙ ap (λ (b : Byte). ok b.0)
        (Field.o_add byte_field (byte_mul byte_one (eval byte_field cs x))
          ∙ Field.unit_mul byte_field (eval byte_field cs x))
