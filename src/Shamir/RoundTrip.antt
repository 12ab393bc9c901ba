-- ===== src/Shamir/RoundTrip.antt =====
-- What `split_secret` shares, `reconstruct_secret` finds again from enough of the shares.
use mathlib.Core.List.Memᴰ
use mathlib.Core.List.{Memᴰ}
use ultimate_enigma.Prelude.{
  ℕ, ◌+◌, ◌-◌, ◌<◌, ◌≤◌, ◌≡◌, ◌≢◌, refl, sym, ap, ◌∙◌, subst, List, [], ◌∷◌, map, length,
  length-map, replicate, ok, ◌>>=◌, ◌>>◌, Error, require, require-ok, ok_injective, leb→le, le→leb,
  arith, All, ◌==◌, ==_refl, ==_ne,
}
use ultimate_enigma.Bytes.{Bytes, IsBytes}
use ultimate_enigma.Field
use ultimate_enigma.Field.Poly
use ultimate_enigma.Field.Poly.{eval}
use ultimate_enigma.Shamir.{
  Share, split_bytes, number_shares, split_secret, reconstruct_secret, reconstruct_checked,
  reconstruct_bytes, same_length,
}
use ultimate_enigma.Shamir.Split.{
  values_at, share_at, points_from, polynomials, length-polynomials, polynomials-Short,
  loops-share_at, as_bytes, vals-as_bytes,
}
use ultimate_enigma.Shamir.Combine.{reconstruct_bytes-values_at, same_length-share_at}
use ultimate_enigma.Shamir.Gf256.ByteField
use ultimate_enigma.Shamir.Gf256.ByteField.{Byte, byte_add, byte_zero, byte_field}
use ultimate_enigma.Shamir.Gf256.Evaluate.{vals}

-- No two shares have the same number.
abbrev pub Different : List Share → Type 0
Different [] = Unit
Different (s ∷ ss) = All (λ (r : Share). r.number ≢ s.number) ss × Different ss

AreShares : List Share → List Share → Type 0
AreShares shares = All (λ s. Memᴰ s shares)

module _ (fs : List (List Byte)) where
  point_of :
      (s : Share) (xs : List Byte)
      → Memᴰ s (map (share_at fs) xs)
      → (x : Byte) × (s ≡ share_at fs x)
  point_of s [] m = absurd (Memᴰ.not-nil m)
  point_of s (x ∷ xs) (Memᴰ.head e) = (x, e)
  point_of s (x ∷ xs) (Memᴰ.tail m) = point_of s xs m

  points_of :
      (chosen : List Share) (xs : List Byte)
      → All (λ s. Memᴰ s (map (share_at fs) xs)) chosen
      → (ys : List Byte) × (chosen ≡ map (share_at fs) ys)
  points_of [] xs h = ([], refl)
  points_of (s ∷ chosen) xs h =
      let (y, e) = point_of s xs h.0 in
      let (ys, es) = points_of chosen xs h.1 in
      (y ∷ ys, ap (λ c. c ∷ chosen) e ∙ ap (◌∷◌ (share_at fs y)) es)

  Different-All :
      (y : Byte) (ys : List Byte)
      → All (λ (r : Share). r.number ≢ y.0) (map (share_at fs) ys)
      → All (λ x. x ≢ y) ys
  Different-All y [] h = tt
  Different-All y (x ∷ ys) h = (λ e. h.0 (ap (λ (b : Byte). b.0) e), Different-All y ys h.1)

  Different-Distinct :
      (ys : List Byte) → Different (map (share_at fs) ys) → Poly.Distinct byte_field ys
  Different-Distinct [] h = tt
  Different-Distinct (y ∷ ys) h = (Different-All y ys h.0, Different-Distinct ys h.1)

  -- Enough of the shares give the values at 0.
  reconstruct-share_at :
      (ys : List Byte) (n : ℕ)
      → 2 ≤ length ys
      → n ≡ length fs
      → Poly.Distinct byte_field ys
      → All (λ f. length f ≤ length ys) fs
      → reconstruct_secret (map (share_at fs) ys) n ≡ ok (vals (values_at fs byte_zero))
  unfolding reconstruct_secret reconstruct_checked
  reconstruct-share_at [] n many size distinct short = absurd (omega arith)
  reconstruct-share_at (y ∷ []) n many size distinct short = absurd (omega arith)
  reconstruct-share_at (y ∷ x ∷ ys) n many size distinct short =
      let shares = map (share_at fs) (y ∷ x ∷ ys) in
      let actual : length (vals (values_at fs y)) ≡ n =
        length-map (values_at fs y) (λ (b : Byte). b.0)
        ∙ length-map fs (λ g. eval byte_field g y)
        ∙ sym size in
      ap
        (λ m.
          require (same_length m shares) (Error.invalid_share "Shares have mismatched lengths")
          >> (require (m == n) (Error.invalid_share "Share length != expected")
              >> reconstruct_bytes shares 0 n))
        actual
      ∙ ap
          (λ t.
            require t (Error.invalid_share "Shares have mismatched lengths")
            >> (require (n == n) (Error.invalid_share "Share length != expected")
                >> reconstruct_bytes shares 0 n))
          (same_length-share_at fs (y ∷ x ∷ ys) n size)
      ∙ ap
          (λ t.
            require t (Error.invalid_share "Share length != expected")
            >> reconstruct_bytes shares 0 n)
          (==_refl n)
      ∙ reconstruct_bytes-values_at (y ∷ x ∷ ys) distinct [] fs 0 n refl size short

module _ (draw : ℕ → ℕ) (small : (n : ℕ) → draw n < 256) where
  values_at-polynomials :
      (n t : ℕ) (bs : List Byte) → values_at (polynomials draw small n t bs) byte_zero ≡ bs
  unfolding polynomials eval
  values_at-polynomials n t [] = refl
  values_at-polynomials n t (b ∷ bs) =
      ap (λ c. c ∷ values_at (polynomials draw small (n + (t - 1)) t bs) byte_zero)
        (ap (byte_add b) (Field.o_mul byte_field _) ∙ ByteField.add_zero b)
      ∙ ap (◌∷◌ b) (values_at-polynomials (n + (t - 1)) t bs)

  module _ (secret : Bytes) (n t : ℕ) where
    -- What the guards of `split_secret` let through.
    guards :
        (shares : List Share)
        → split_secret draw secret n t ≡ ok shares
        → (2 ≤ t)
          × (t ≤ n)
          × (n ≤ 10)
          × ((split_bytes draw 0 t secret (replicate n []) >>= number_shares 0) ≡ ok shares)
    unfolding split_secret
    guards shares h =
        let (a, h1) = require-ok _ _ _ h in
        let (b, h2) = require-ok _ _ _ h1 in
        let (c, h3) = require-ok _ _ _ h2 in
        let (d, h4) = require-ok _ _ _ h3 in (leb→le 2 t b, leb→le t n c, leb→le n 10 d, h4)

    -- The shares of a secret of bytes, any numbers of them in any order, without a repeated
    -- number and at least as many as the threshold, give the secret back, whatever bytes were
    -- drawn.
    pub reconstruct-split :
        (shares chosen : List Share)
        → IsBytes secret
        → split_secret draw secret n t ≡ ok shares
        → All (λ s. Memᴰ s shares) chosen
        → Different chosen
        → t ≤ length chosen
        → reconstruct_secret chosen (length secret) ≡ ok secret
    reconstruct-split shares chosen bytes split among different enough =
        let (two, most, ten, loops) = guards shares split in
        let (xs, next, count) = points_from n 0 (omega arith) in
        let bs = as_bytes secret bytes in
        let fs = polynomials draw small 0 t bs in
        let made : shares ≡ map (share_at fs) xs = ok_injective (
          sym loops
          ∙ ap (λ s. split_bytes draw 0 t s (replicate n []) >>= number_shares 0)
              (sym (vals-as_bytes secret bytes))
          ∙ ap (λ m. split_bytes draw 0 t (vals bs) (replicate m []) >>= number_shares 0)
              (sym count)
          ∙ loops-share_at draw small t bs xs next) in
        let (ys, e) =
          points_of fs chosen xs (subst (λ ss. All (λ s. Memᴰ s ss) chosen) made among) in
        let size : length chosen ≡ length ys = ap length e ∙ length-map ys (share_at fs) in
        let same : length secret ≡ length fs = sym (
          length-polynomials draw small 0 t bs
          ∙ sym (length-map bs (λ (b : Byte). b.0))
          ∙ ap length (vals-as_bytes secret bytes)) in
        ap (λ c. reconstruct_secret c (length secret)) e
        ∙ reconstruct-share_at fs ys (length secret) (omega arith) same
            (Different-Distinct fs ys (subst Different e different))
            (polynomials-Short draw small 0 t (length ys) bs (omega arith) (omega arith))
        ∙ ap (λ vs. ok (vals vs)) (values_at-polynomials 0 t bs)
        ∙ ap ok (vals-as_bytes secret bytes)

    passes_guards :
        0 < length secret
        → 2 ≤ t
        → t ≤ n
        → n ≤ 10
        → split_secret draw secret n t
          ≡ (split_bytes draw 0 t secret (replicate n []) >>= number_shares 0)
    unfolding split_secret
    passes_guards filled two most ten = rw (
      ==_ne (length secret) 0 (λ e. absurd (omega arith)),
      le→leb 2 t two,
      le→leb t n most,
      le→leb n 10 ten,
    )

    -- Between the guards the sharing of a non-empty secret of bytes succeeds: it makes one share
    -- for each of the numbers asked for, each as long as the secret.
    pub split_secret-ok :
        IsBytes secret
        → 0 < length secret
        → 2 ≤ t
        → t ≤ n
        → n ≤ 10
        → (shares : List Share) × (split_secret draw secret n t ≡ ok shares)
          × (length shares ≡ n)
          × All (λ s. length s.content ≡ length secret) shares
    split_secret-ok bytes filled two most ten =
        let (xs, next, count) = points_from n 0 (omega arith) in
        let bs = as_bytes secret bytes in
        let fs = polynomials draw small 0 t bs in
        (
          map (share_at fs) xs,
          passes_guards filled two most ten
              ∙ ap (λ s. split_bytes draw 0 t s (replicate n []) >>= number_shares 0)
                  (sym (vals-as_bytes secret bytes))
              ∙ ap (λ m. split_bytes draw 0 t (vals bs) (replicate m []) >>= number_shares 0)
                  (sym count)
              ∙ loops-share_at draw small t bs xs next,
          length-map xs (share_at fs) ∙ count,
          sizes fs xs (
              length-polynomials draw small 0 t bs
              ∙ sym (length-map bs (λ (b : Byte). b.0))
              ∙ ap length (vals-as_bytes secret bytes)),
        )
      where
        sizes :
            (fs : List (List Byte)) (xs : List Byte)
            → length fs ≡ length secret
            → All (λ s. length s.content ≡ length secret) (map (share_at fs) xs)
        sizes fs [] e = tt
        sizes fs (x ∷ xs) e = (
          length-map (values_at fs x) (λ (b : Byte). b.0)
              ∙ length-map fs (λ g. eval byte_field g x)
              ∙ e,
          sizes fs xs e,
        )
