-- ===== src/Shamir/Combine.antt =====
-- `reconstruct_secret` evaluates at 0 the polynomials whose values the shares hold.
use ultimate_enigma.Prelude.{
  ℕ, zero, suc, ◌+◌, ◌≤◌, ◌≡◌, refl, sym, ap, ◌∙◌, List, [], ◌∷◌, ◌++◌, map, length, map-append,
  append_assoc, length-append, length-map, index, index-append, Result, ok, ◌>>=◌, ◌>>◌, Error,
  then, lt→ltb, require, arith, All, ◌==◌, ==_refl, true, ◌&&◌,
}
use ultimate_enigma.Field
use ultimate_enigma.Field.{Field}
use ultimate_enigma.Field.Poly
use ultimate_enigma.Field.Poly.{eval}
use ultimate_enigma.Field.Interpolation.{terms, basis_at}
use ultimate_enigma.Field.Lagrange
use ultimate_enigma.Field.Lagrange.{graph, lagrange, Distinct-Divisible}
use ultimate_enigma.Shamir.{
  Share, column, weighted_sum, reconstruct_byte, reconstruct_bytes, same_length,
  lagrange_coefficients,
}
use ultimate_enigma.Shamir.Coefficients.{coefficients, lagrange_coefficients-coefficients}
use ultimate_enigma.Shamir.Split.{values_at, share_at}
use ultimate_enigma.Shamir.Gf256.{gf_add}
use ultimate_enigma.Shamir.Gf256.ByteField
use ultimate_enigma.Shamir.Gf256.ByteField.{
  Byte, byte_add, byte_mul, byte_zero, byte_field, byte_one-ne-zero,
}
use ultimate_enigma.Shamir.Gf256.Evaluate.{vals, gf_add-byte_add, gf_mul-byte_mul}

weighted_sum-terms :
    (z v : Byte) (done : List Byte) (rest : List (Byte × Byte))
    → weighted_sum v.0
        (vals (map (λ p. p.1) rest))
        (vals (coefficients z done (map (λ p. p.0) rest)))
      ≡ ok (byte_add v (terms byte_field z done rest)).0
unfolding weighted_sum coefficients terms
weighted_sum-terms z v done [] = ap (λ (b : Byte). ok b.0) (sym (ByteField.add_zero v))
weighted_sum-terms z v done ((x, y) ∷ rest) =
    let c = basis_at byte_field z x (done ++ map (λ p. p.0) rest) in
    let points = vals (map (λ p. p.1) rest) in
    let coeffs = vals (coefficients z (done ++ x ∷ []) (map (λ p. p.0) rest)) in
    then (λ term. weighted_sum (gf_add v.0 term) points coeffs) (gf_mul-byte_mul y c)
    ∙ ap (λ v'. weighted_sum v' points coeffs) (gf_add-byte_add v (byte_mul y c))
    ∙ weighted_sum-terms z (byte_add v (byte_mul y c)) (done ++ x ∷ []) rest
    ∙ ap (λ (b : Byte). ok b.0)
        (ByteField.add_assoc v (byte_mul y c) (terms byte_field z (done ++ x ∷ []) rest))

column-values :
    (before after : List (List Byte)) (f : List Byte) (i : ℕ) (xs : List Byte)
    → i ≡ length before
    → column i (map (share_at (before ++ f ∷ after)) xs) ≡ ok (vals (map (eval byte_field f) xs))
unfolding column
column-values before after f i [] e = refl
column-values before after f i (x ∷ xs) e =
    then (λ byte. column i (map (share_at (before ++ f ∷ after)) xs) >>= λ rest. ok (byte ∷ rest))
      entry
    ∙ then _ (column-values before after f i xs e)
  where
    at : List Byte → ℕ
    at g = (eval byte_field g x).0

    split :
        vals (values_at (before ++ f ∷ after) x)
        ≡ vals (values_at before x) ++ at f ∷ vals (values_at after x)
    split =
        ap vals (map-append (λ g. eval byte_field g x) before (f ∷ after))
        ∙ map-append (λ (b : Byte). b.0) (values_at before x) (values_at (f ∷ after) x)

    entry : index (vals (values_at (before ++ f ∷ after) x)) i ≡ ok (at f)
    entry =
        ap (λ bs. index bs i) split
        ∙ index-append (vals (values_at before x)) (vals (values_at after x)) (at f) i (
            omega (
              arith,
              e,
              length-map (values_at before x) (λ (b : Byte). b.0),
              length-map before (λ g. eval byte_field g x),
            ))

numbers :
    (fs : List (List Byte)) (xs : List Byte)
    → map (λ (s : Share). s.number) (map (share_at fs) xs) ≡ vals xs
numbers fs [] = refl
numbers fs (x ∷ xs) = ap (◌∷◌ x.0) (numbers fs xs)

second-graph :
    (f : Byte → Byte) (xs : List Byte)
    → map (λ (p : Byte × Byte). p.1) (graph byte_field f xs) ≡ map f xs
second-graph f [] = refl
second-graph f (x ∷ xs) = ap (◌∷◌ (f x)) (second-graph f xs)

module _ (xs : List Byte) (distinct : Poly.Distinct byte_field xs) where
  reconstruct_byte-eval :
      (before after : List (List Byte)) (f : List Byte) (i : ℕ)
      → i ≡ length before
      → length f ≤ length xs
      → reconstruct_byte (map (share_at (before ++ f ∷ after)) xs) i
        ≡ ok (eval byte_field f byte_zero).0
  unfolding reconstruct_byte
  reconstruct_byte-eval before after f i e short =
      let coeffs = vals (coefficients byte_zero [] xs) in
      let value = eval byte_field f in
      then _ (column-values before after f i xs e)
      ∙ then (weighted_sum 0 (vals (map value xs))) (
          ap (lagrange_coefficients 0) (numbers (before ++ f ∷ after) xs)
          ∙ lagrange_coefficients-coefficients byte_zero xs
              (Distinct-Divisible byte_field byte_one-ne-zero xs distinct))
      ∙ ap (λ ys. weighted_sum 0 (vals ys) coeffs) (sym (second-graph value xs))
      ∙ ap
          (λ ps.
            weighted_sum 0 (vals (map (λ p. p.1) (graph byte_field value xs)))
              (vals (coefficients byte_zero [] ps)))
          (sym (Lagrange.map-graph byte_field value xs))
      ∙ weighted_sum-terms byte_zero byte_zero [] (graph byte_field value xs)
      ∙ ap (λ (b : Byte). ok b.0)
          (Field.o_add byte_field (terms byte_field byte_zero [] (graph byte_field value xs))
            ∙ lagrange byte_field byte_one-ne-zero f xs distinct short byte_zero)

  -- The bytes from one index on.
  pub reconstruct_bytes-values_at :
      (before fs : List (List Byte)) (i left : ℕ)
      → i ≡ length before
      → left ≡ length fs
      → All (λ f. length f ≤ length xs) fs
      → reconstruct_bytes (map (share_at (before ++ fs)) xs) i left
        ≡ ok (vals (values_at fs byte_zero))
  unfolding reconstruct_bytes
  reconstruct_bytes-values_at before [] i zero e size short = refl
  reconstruct_bytes-values_at before [] i (suc left) e size short = absurd (omega arith)
  reconstruct_bytes-values_at before (f ∷ fs) i zero e size short = absurd (omega arith)
  reconstruct_bytes-values_at before (f ∷ fs) i (suc left) e size short =
      let value = eval byte_field f byte_zero in
      then _ (reconstruct_byte-eval before fs f i e short.0)
      ∙ ap (λ t. require t (Error.value_error "byte must be in range(0, 256)") >> tail value.0)
          (lt→ltb value.0 256 value.1)
      ∙ then _ (
          ap (λ gs. reconstruct_bytes (map (share_at gs) xs) (i + 1) left)
            (sym (append_assoc before (f ∷ []) fs))
          ∙ reconstruct_bytes-values_at (before ++ f ∷ []) fs (i + 1) left
              (omega (arith, length-append before (f ∷ []))) (omega arith) short.1)
    where
      tail : ℕ → Result (List ℕ)
      tail value = do
        rest ← reconstruct_bytes (map (share_at (before ++ f ∷ fs)) xs) (i + 1) left
        ok (value ∷ rest)

pub same_length-share_at :
    (fs : List (List Byte)) (xs : List Byte) (n : ℕ)
    → n ≡ length fs
    → same_length n (map (share_at fs) xs) ≡ true
unfolding same_length
same_length-share_at fs [] n e = refl
same_length-share_at fs (x ∷ xs) n e =
    let size : length (vals (values_at fs x)) ≡ n =
      length-map (values_at fs x) (λ (b : Byte). b.0)
      ∙ length-map fs (λ g. eval byte_field g x)
      ∙ sym e in
    ap (λ m. m == n && same_length n (map (share_at fs) xs)) size
    ∙ ap (λ t. t && same_length n (map (share_at fs) xs)) (==_refl n)
    ∙ same_length-share_at fs xs n e
