-- ===== src/Bytes/Laws.antt =====
-- Packing and unpacking are inverse to one another.
use native.Mathlib.Nat.{pow-suc}
use ultimate_enigma.Prelude.{
  ℕ, zero, suc, ◌+◌, ◌*◌, ◌/◌, ◌%◌, ◌^◌, ◌<◌, ◌≡◌, refl, ap, [], ◌∷◌, ◌++◌, length, length-append,
  arith, ok, lt→ltb, ==_refl, ltb→lt, take, drop,
}
use ultimate_enigma.Bytes.{
  Bytes, IsBytes, le_bytes, le_value, be_bytes, be_value, be_value_from, pack_be, unpack_be,
}

pub IsBytes-append : (xs ys : Bytes) → IsBytes xs → IsBytes ys → IsBytes (xs ++ ys)
IsBytes-append [] ys h k = k
IsBytes-append (x ∷ xs) ys h k = (h.0, IsBytes-append xs ys h.1 k)

pub IsBytes-take : (n : ℕ) (xs : Bytes) → IsBytes xs → IsBytes (take n xs)
IsBytes-take zero xs h = tt
IsBytes-take (suc n) [] h = tt
IsBytes-take (suc n) (x ∷ xs) h = (h.0, IsBytes-take n xs h.1)

pub IsBytes-drop : (n : ℕ) (xs : Bytes) → IsBytes xs → IsBytes (drop n xs)
IsBytes-drop zero xs h = h
IsBytes-drop (suc n) [] h = tt
IsBytes-drop (suc n) (x ∷ xs) h = IsBytes-drop n xs h.1

pub length-le_bytes : (w n : ℕ) → length (le_bytes w n) ≡ w
unfolding le_bytes
length-le_bytes zero n = refl
length-le_bytes (suc w) n = ap suc (length-le_bytes w (n / 256))

pub le_bytes-IsBytes : (w n : ℕ) → IsBytes (le_bytes w n)
unfolding le_bytes
le_bytes-IsBytes zero n = tt
le_bytes-IsBytes (suc w) n = (omega arith, le_bytes-IsBytes w (n / 256))

pub le_value-le_bytes : (w n : ℕ) → n < 256 ^ w → le_value (le_bytes w n) ≡ n
unfolding le_value le_bytes
le_value-le_bytes zero n h = omega arith
le_value-le_bytes (suc w) n h =
    let smaller : n / 256 < 256 ^ w = omega (arith, pow-suc 256 w) in
    omega (arith, le_value-le_bytes w (n / 256) smaller)

pub length-be_bytes : (w n : ℕ) → length (be_bytes w n) ≡ w
unfolding be_bytes
length-be_bytes zero n = refl
length-be_bytes (suc w) n =
    omega (arith, length-append (be_bytes w (n / 256)) (n % 256 ∷ []), length-be_bytes w (n / 256))

pub be_bytes-IsBytes : (w n : ℕ) → IsBytes (be_bytes w n)
unfolding be_bytes
be_bytes-IsBytes zero n = tt
be_bytes-IsBytes (suc w) n =
    IsBytes-append (be_bytes w (n / 256)) (n % 256 ∷ []) (be_bytes-IsBytes w (n / 256))
      (omega arith, tt)

be_value_from-append :
    (acc : ℕ) (xs ys : Bytes)
    → be_value_from acc (xs ++ ys) ≡ be_value_from (be_value_from acc xs) ys
unfolding be_value_from
be_value_from-append acc [] ys = refl
be_value_from-append acc (x ∷ xs) ys = be_value_from-append (acc * 256 + x) xs ys

pub be_value-snoc : (xs : Bytes) (b : ℕ) → be_value (xs ++ b ∷ []) ≡ be_value xs * 256 + b
unfolding be_value be_value_from
be_value-snoc xs b = be_value_from-append 0 xs (b ∷ [])

pub be_value-be_bytes : (w n : ℕ) → n < 256 ^ w → be_value (be_bytes w n) ≡ n
unfolding be_bytes
be_value-be_bytes zero n h = unfold be_value be_value_from in omega arith
be_value-be_bytes (suc w) n h =
    let smaller : n / 256 < 256 ^ w = omega (arith, pow-suc 256 w) in
    omega
      (arith, be_value-snoc (be_bytes w (n / 256)) (n % 256), be_value-be_bytes w (n / 256) smaller)

-- The value of two bytes, spelled out.
pub be_bytes-be_value_two :
    (a b : ℕ) → a < 256 → b < 256 → be_bytes 2 (be_value (a ∷ b ∷ [])) ≡ a ∷ b ∷ []
unfolding be_bytes be_value be_value_from
be_bytes-be_value_two a b ha hb = ground arith

pub unpack_be-be_bytes : (w n : ℕ) → n < 256 ^ w → unpack_be w (be_bytes w n) ≡ ok n
unfolding unpack_be
unpack_be-be_bytes w n h = rw (length-be_bytes w n, ==_refl w, be_value-be_bytes w n h)

pub pack_be_lem : (w n : ℕ) → n < 256 ^ w → pack_be w n ≡ ok (be_bytes w n)
unfolding pack_be
pack_be_lem w n h = rw (lt→ltb n (256 ^ w) h)

pub pack_be_inv : (w n : ℕ) (bs : Bytes) → pack_be w n ≡ ok bs → (n < 256 ^ w) × (bs ≡ be_bytes w n)
unfolding pack_be
pack_be_inv w n bs h = ground (arith, ltb→lt n (256 ^ w))

pub unpack_be_inv :
    (w n : ℕ) (bs : Bytes) → unpack_be w bs ≡ ok n → (length bs ≡ w) × (n ≡ be_value bs)
unfolding unpack_be
unpack_be_inv w n bs h = ground arith

-- Two bytes are the packing of what they unpack to.
pub pack_be-unpack_be_two :
    (bs : Bytes) (n : ℕ) → IsBytes bs → unpack_be 2 bs ≡ ok n → pack_be 2 n ≡ ok bs
unfolding pack_be unpack_be be_value be_value_from be_bytes
pack_be-unpack_be_two (a ∷ b ∷ []) n v h = ground arith
pack_be-unpack_be_two (a ∷ []) n v h = cc
pack_be-unpack_be_two [] n v h = cc
pack_be-unpack_be_two (a ∷ b ∷ c ∷ bs) n v h = ground arith
