-- ===== src/Shamir/Split.antt =====
-- `split_secret` gives each share the values of one polynomial for each byte of the secret.
use ultimate_enigma.Prelude.{
  ℕ, zero, suc, ◌+◌, ◌-◌, ◌<◌, ◌≤◌, ◌≡◌, refl, sym, ap, ◌∙◌, List, [], ◌∷◌, ◌++◌, map, length,
  replicate, map-append, append_assoc, append_nil, ok, ◌>>=◌, then, lt→ltb, arith, All,
}
use ultimate_enigma.Bytes.{Bytes, IsBytes}
use ultimate_enigma.Field.Poly.{eval}
use ultimate_enigma.Shamir.{Share, bytes_of, draws, append_values, split_bytes, number_shares}
use ultimate_enigma.Shamir.Gf256.{eval_poly}
use ultimate_enigma.Shamir.Gf256.ByteField.{Byte, byte_field}
use ultimate_enigma.Shamir.Gf256.Evaluate.{vals, eval_poly-eval}

-- The values of the polynomials `fs` at a point.
abbrev pub values_at : List (List Byte) → Byte → List Byte
values_at fs x = map (λ f. eval byte_field f x) fs

-- The points are those after number `i`, one after another.
abbrev pub AreNext : ℕ → List Byte → Type 0
AreNext i [] = Unit
AreNext i (x ∷ xs) = (x.0 ≡ i + 1) × AreNext (i + 1) xs

pub points_from : (m i : ℕ) → i + m < 256 → (xs : List Byte) × AreNext i xs × (length xs ≡ m)
points_from zero i h = ([], tt, refl)
points_from (suc m) i h =
    let (xs, next, size) = points_from m (i + 1) (omega arith) in
    ((i + 1, omega arith) ∷ xs, (refl, next), ap suc size)

contents : List (List Byte) → List Byte → List (List ℕ)
contents fs = map (λ x. vals (values_at fs x))

abbrev pub share_at : List (List Byte) → Byte → Share
share_at fs x = record { number = x.0; content = vals (values_at fs x) }

append_values-contents :
    (fs : List (List Byte)) (f : List Byte) (i : ℕ) (xs : List Byte)
    → AreNext i xs
    → append_values (vals f) i (contents fs xs) ≡ ok (contents (fs ++ f ∷ []) xs)
unfolding append_values contents
append_values-contents fs f i [] h = refl
append_values-contents fs f i (x ∷ xs) h =
    then _ (ap (λ n. eval_poly (vals f) n) (sym h.0) ∙ eval_poly-eval f x)
    ∙ then _ (append_values-contents fs f (i + 1) xs h.1)
    ∙ ap (λ share. ok (share ∷ contents (fs ++ f ∷ []) xs))
        (sym (
          ap vals (map-append (λ g. eval byte_field g x) fs (f ∷ []))
          ∙ map-append (λ (b : Byte). b.0) (values_at fs x) (eval byte_field f x ∷ [])))

-- The bytes of a list that holds bytes.
pub as_bytes : (bs : Bytes) → IsBytes bs → List Byte
as_bytes [] h = []
as_bytes (b ∷ bs) h = (b, h.0) ∷ as_bytes bs h.1

pub vals-as_bytes : (bs : Bytes) (h : IsBytes bs) → vals (as_bytes bs h) ≡ bs
unfolding as_bytes
vals-as_bytes [] h = refl
vals-as_bytes (b ∷ bs) h = ap (◌∷◌ b) (vals-as_bytes bs h.1)

module _ (draw : ℕ → ℕ) (small : (n : ℕ) → draw n < 256) where
  pub drawn : ℕ → ℕ → List Byte
  drawn n zero = []
  drawn n (suc count) = (draw n, small n) ∷ drawn (n + 1) count

  vals-drawn : (n count : ℕ) → vals (drawn n count) ≡ draws draw n count
  unfolding drawn draws
  vals-drawn n zero = refl
  vals-drawn n (suc count) = ap (◌∷◌ (draw n)) (vals-drawn (n + 1) count)

  length-drawn : (n count : ℕ) → length (drawn n count) ≡ count
  unfolding drawn
  length-drawn n zero = refl
  length-drawn n (suc count) = ap suc (length-drawn (n + 1) count)

  -- The polynomial of each byte of the secret.
  unfoldable pub polynomials : ℕ → ℕ → List Byte → List (List Byte)
  polynomials n t [] = []
  polynomials n t (b ∷ bs) = (b ∷ drawn n (t - 1)) ∷ polynomials (n + (t - 1)) t bs

  pub length-polynomials : (n t : ℕ) (bs : List Byte) → length (polynomials n t bs) ≡ length bs
  unfolding polynomials
  length-polynomials n t [] = refl
  length-polynomials n t (b ∷ bs) = ap suc (length-polynomials (n + (t - 1)) t bs)

  pub polynomials-Short :
      (n t size : ℕ) (bs : List Byte)
      → 1 ≤ t
      → t ≤ size
      → All (λ f. length f ≤ size) (polynomials n t bs)
  unfolding polynomials
  polynomials-Short n t size [] ht hs = tt
  polynomials-Short n t size (b ∷ bs) ht hs =
      (omega (arith, length-drawn n (t - 1)), polynomials-Short (n + (t - 1)) t size bs ht hs)

  split_bytes-contents :
      (n t : ℕ) (bs : List Byte) (fs : List (List Byte)) (xs : List Byte)
      → AreNext 0 xs
      → split_bytes draw n t (vals bs) (contents fs xs)
        ≡ ok (contents (fs ++ polynomials n t bs) xs)
  unfolding split_bytes polynomials
  split_bytes-contents n t [] fs xs h = ap (λ gs. ok (contents gs xs)) (sym (append_nil fs))
  split_bytes-contents n t (b ∷ bs) fs xs h =
      let f = b ∷ drawn n (t - 1) in
      then _ (
        ap (λ cs. append_values (b.0 ∷ cs) 0 (contents fs xs)) (sym (vals-drawn n (t - 1)))
        ∙ append_values-contents fs f 0 xs h)
      ∙ split_bytes-contents (n + (t - 1)) t bs (fs ++ f ∷ []) xs h
      ∙ ap (λ gs. ok (contents gs xs)) (append_assoc fs (f ∷ []) (polynomials (n + (t - 1)) t bs))

bytes_of-vals : (bs : List Byte) → bytes_of (vals bs) ≡ ok (vals bs)
unfolding bytes_of
bytes_of-vals [] = refl
bytes_of-vals (b ∷ bs) = rw (lt→ltb b.0 256 b.1, bytes_of) (then _ (bytes_of-vals bs))

number_shares-share_at :
    (fs : List (List Byte)) (i : ℕ) (xs : List Byte)
    → AreNext i xs
    → number_shares i (contents fs xs) ≡ ok (map (share_at fs) xs)
unfolding number_shares contents
number_shares-share_at fs i [] h = refl
number_shares-share_at fs i (x ∷ xs) h =
    then _ (bytes_of-vals (values_at fs x))
    ∙ then _ (number_shares-share_at fs (i + 1) xs h.1)
    ∙ ap (λ n. ok (record { number = n; content = vals (values_at fs x) } ∷ map (share_at fs) xs))
        (sym h.0)

contents-nil : (xs : List Byte) → replicate (length xs) [] ≡ contents [] xs
unfolding contents
contents-nil [] = refl
contents-nil (x ∷ xs) = ap (◌∷◌ []) (contents-nil xs)

pub loops-share_at :
    (draw : ℕ → ℕ) (small : (n : ℕ) → draw n < 256) (t : ℕ) (bs xs : List Byte)
    → AreNext 0 xs
    → (split_bytes draw 0 t (vals bs) (replicate (length xs) []) >>= number_shares 0)
      ≡ ok (map (share_at (polynomials draw small 0 t bs)) xs)
loops-share_at draw small t bs xs h =
    ap (λ shares. split_bytes draw 0 t (vals bs) shares >>= number_shares 0) (contents-nil xs)
    ∙ then _ (split_bytes-contents draw small 0 t bs [] xs h)
    ∙ number_shares-share_at (polynomials draw small 0 t bs) 0 xs h
