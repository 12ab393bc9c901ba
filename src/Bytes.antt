-- ===== src/Bytes.antt =====
-- Bytes as lists of numbers, and what the program uses of the module `struct`: big-endian and
-- little-endian packing of one unsigned integer of a fixed width.
pub mod Laws
use ultimate_enigma.Prelude.{
  ℕ, zero, suc, ◌+◌, ◌*◌, ◌/◌, ◌%◌, ◌^◌, ◌<◌, List, [], ◌∷◌, ◌++◌, length, All, ltb, ◌==◌,
  if◌then◌else◌, Result, ok, err, Error, Bool, true, false, ◌&&◌, ◌≡◌, refl, ap, ◌∙◌, ==_refl,
  ==_iff, ==_comm, and_true,
}

abbrev pub Bytes : Type 0
Bytes = List ℕ

abbrev pub IsBytes : Bytes → Type 0
IsBytes = All (λ b. b < 256)

-- The last `w` digits of `n` to the base 256, the lowest first.
unfoldable pub le_bytes : ℕ → ℕ → Bytes
le_bytes zero n = []
le_bytes (suc w) n = n % 256 ∷ le_bytes w (n / 256)

unfoldable pub le_value : Bytes → ℕ
le_value [] = 0
le_value (b ∷ bs) = b + 256 * le_value bs

-- The last `w` digits of `n` to the base 256, the highest first.
unfoldable pub be_bytes : ℕ → ℕ → Bytes
be_bytes zero n = []
be_bytes (suc w) n = be_bytes w (n / 256) ++ n % 256 ∷ []

be_value_from : ℕ → Bytes → ℕ
be_value_from acc [] = acc
be_value_from acc (b ∷ bs) = be_value_from (acc * 256 + b) bs

unfoldable pub be_value : Bytes → ℕ
unfolding be_value_from
be_value = be_value_from 0

-- `struct.pack` with the format ">H" (`w` is 2), ">I" (4) or ">Q" (8).
unfoldable pub pack_be : ℕ → ℕ → Result Bytes
pack_be w n = if ltb n (256 ^ w) then ok (be_bytes w n) else err Error.struct_error

-- `struct.unpack` with the same formats.
unfoldable pub unpack_be : ℕ → Bytes → Result ℕ
unpack_be w bs = if length bs == w then ok (be_value bs) else err Error.struct_error

-- `==` on bytes and on text.
abbrev pub same_bytes : Bytes → Bytes → Bool
same_bytes [] [] = true
same_bytes [] (y ∷ ys) = false
same_bytes (x ∷ xs) [] = false
same_bytes (x ∷ xs) (y ∷ ys) = x == y && same_bytes xs ys

pub same_bytes_refl : (xs : Bytes) → same_bytes xs xs ≡ true
same_bytes_refl [] = refl
same_bytes_refl (x ∷ xs) = ap (λ t. t && same_bytes xs xs) (==_refl x) ∙ same_bytes_refl xs

pub same_bytes_sound : (xs ys : Bytes) → same_bytes xs ys ≡ true → xs ≡ ys
same_bytes_sound [] [] h = refl
same_bytes_sound [] (y ∷ ys) h = cc
same_bytes_sound (x ∷ xs) [] h = cc
same_bytes_sound (x ∷ xs) (y ∷ ys) h =
    let (first, rest) = and_true (x == y) (same_bytes xs ys) h in
    ap (λ c. c ∷ xs) ((==_iff x y).0 first) ∙ ap (◌∷◌ y) (same_bytes_sound xs ys rest)

pub same_bytes_comm : (xs ys : Bytes) → same_bytes xs ys ≡ same_bytes ys xs
same_bytes_comm [] [] = refl
same_bytes_comm [] (y ∷ ys) = refl
same_bytes_comm (x ∷ xs) [] = refl
same_bytes_comm (x ∷ xs) (y ∷ ys) =
    ap (λ t. x == y && t) (same_bytes_comm xs ys) ∙ ap (λ t. t && same_bytes ys xs) (==_comm x y)
