-- ===== src/XChaCha/Words.antt =====
-- The rounds keep 16 words of 32 bits, and the bytes they are packed into.
use ultimate_enigma.Prelude.{
  ℕ, zero, suc, ◌+◌, ◌-◌, ◌*◌, ◌/◌, ◌^◌, ◌<◌, ◌≤◌, ◌≡◌, refl, ap, ◌∙◌, bit_and, bit_or, bit_xor,
  List, [], ◌∷◌, ◌++◌, length, get_or, set, take, drop, All, ok, Error, require, ◌>>=◌, ◌>>◌, then,
  lt→ltb, arith, length-set, length-append, length-take,
}
use ultimate_enigma.Bits.{bit_and-le, bit_xor-lt}
use ultimate_enigma.Bytes.{Bytes, IsBytes, le_bytes, le_value}
use ultimate_enigma.Bytes.Laws.{
  IsBytes-append, IsBytes-take, IsBytes-drop, length-le_bytes, le_bytes-IsBytes,
}
use ultimate_enigma.XChaCha.{
  rotl32, mask32, mix, quarter_round, double_round, rounds, unpack_words, pack_words,
  chacha20_constants,
}

abbrev pub AreWords : List ℕ → Type 0
AreWords = All (λ w. w < 2 ^ 32)

masked-lt : (a : ℕ) → bit_and a mask32 < 2 ^ 32
masked-lt a = omega (arith, bit_and-le a mask32)

rotl32-lt : (v n : ℕ) → rotl32 v n < 2 ^ 32
unfolding rotl32
rotl32-lt v n = masked-lt (bit_or (v * 2 ^ n) (v / 2 ^ (32 - n)))

get_or-lt : (ws : List ℕ) (i : ℕ) → AreWords ws → get_or ws i 0 < 2 ^ 32
get_or-lt [] i h = omega arith
get_or-lt (w ∷ ws) zero h = h.0
get_or-lt (w ∷ ws) (suc i) h = get_or-lt ws i h.1

set-AreWords : (ws : List ℕ) (i w : ℕ) → AreWords ws → w < 2 ^ 32 → AreWords (set ws i w)
set-AreWords [] i w h p = tt
set-AreWords (v ∷ ws) zero w h p = (p, h.1)
set-AreWords (v ∷ ws) (suc i) w h p = (h.0, set-AreWords ws i w h.1 p)

-- A state: 16 words.
abbrev pub IsState : List ℕ → Type 0
IsState ws = (length ws ≡ 16) × AreWords ws

mix-IsState : (x y z n : ℕ) (ws : List ℕ) → IsState ws → IsState (mix x y z n ws)
unfolding mix
mix-IsState x y z n ws h =
    let sum = bit_and (get_or ws x 0 + get_or ws y 0) mask32 in
    let added = set ws x sum in
    let added_words = set-AreWords ws x sum h.1 (masked-lt (get_or ws x 0 + get_or ws y 0)) in
    let changed = bit_xor (get_or added z 0) (get_or added x 0) in
    let mixed = set added z changed in
    let mixed_words = set-AreWords added z changed added_words (
      bit_xor-lt 32 (get_or added z 0) (get_or added x 0) (get_or-lt added z added_words)
        (get_or-lt added x added_words)) in
    let turned = rotl32 (get_or mixed z 0) n in
    (
      length-set mixed z turned ∙ length-set added z changed ∙ length-set ws x sum ∙ h.0,
      set-AreWords mixed z turned mixed_words (rotl32-lt (get_or mixed z 0) n),
    )

quarter_round-IsState :
    (a b c d : ℕ) (ws : List ℕ) → IsState ws → IsState (quarter_round a b c d ws)
unfolding quarter_round
quarter_round-IsState a b c d ws h =
    mix-IsState c d b 7 _
      (mix-IsState a b d 8 _ (mix-IsState c d b 12 _ (mix-IsState a b d 16 ws h)))

double_round-IsState : (ws : List ℕ) → IsState ws → IsState (double_round ws)
unfolding double_round
double_round-IsState ws h =
    let columns = quarter_round-IsState 3 7 11 15 _ (
      quarter_round-IsState 2 6 10 14 _
        (quarter_round-IsState 1 5 9 13 _ (quarter_round-IsState 0 4 8 12 ws h))) in
    quarter_round-IsState 3 4 9 14 _ (
      quarter_round-IsState 2 7 8 13 _
        (quarter_round-IsState 1 6 11 12 _ (quarter_round-IsState 0 5 10 15 _ columns)))

pub rounds-IsState : (n : ℕ) (ws : List ℕ) → IsState ws → IsState (rounds n ws)
unfolding rounds
rounds-IsState zero ws h = h
rounds-IsState (suc n) ws h = rounds-IsState n (double_round ws) (double_round-IsState ws h)

le_value-lt : (n : ℕ) (bs : Bytes) → IsBytes bs → length bs ≤ 4 → le_value bs < 2 ^ 32
unfolding le_value
le_value-lt n [] h p = omega arith
le_value-lt n (a ∷ []) h p = omega arith
le_value-lt n (a ∷ b ∷ []) h p = omega arith
le_value-lt n (a ∷ b ∷ c ∷ []) h p = omega arith
le_value-lt n (a ∷ b ∷ c ∷ d ∷ []) h p = omega arith
le_value-lt n (a ∷ b ∷ c ∷ d ∷ e ∷ bs) h p = absurd (omega arith)

pub length-unpack_words : (n : ℕ) (bs : Bytes) → length (unpack_words n bs) ≡ n
unfolding unpack_words
length-unpack_words zero bs = refl
length-unpack_words (suc n) bs = ap suc (length-unpack_words n (drop 4 bs))

pub unpack_words-AreWords : (n : ℕ) (bs : Bytes) → IsBytes bs → AreWords (unpack_words n bs)
unfolding unpack_words
unpack_words-AreWords zero bs h = tt
unpack_words-AreWords (suc n) bs h = (
  le_value-lt n (take 4 bs) (IsBytes-take 4 bs h) (omega (arith, length-take 4 bs)),
  unpack_words-AreWords n (drop 4 bs) (IsBytes-drop 4 bs h),
)

pub AreWords-append : (xs ys : List ℕ) → AreWords xs → AreWords ys → AreWords (xs ++ ys)
AreWords-append [] ys h p = p
AreWords-append (x ∷ xs) ys h p = (h.0, AreWords-append xs ys h.1 p)

pub AreWords-take : (n : ℕ) (xs : List ℕ) → AreWords xs → AreWords (take n xs)
AreWords-take zero xs h = tt
AreWords-take (suc n) [] h = tt
AreWords-take (suc n) (x ∷ xs) h = (h.0, AreWords-take n xs h.1)

pub AreWords-drop : (n : ℕ) (xs : List ℕ) → AreWords xs → AreWords (drop n xs)
AreWords-drop zero xs h = h
AreWords-drop (suc n) [] h = tt
AreWords-drop (suc n) (x ∷ xs) h = AreWords-drop n xs h.1

pub chacha20_constants-AreWords : AreWords chacha20_constants
unfolding chacha20_constants
chacha20_constants-AreWords = (omega arith, (omega arith, (omega arith, (omega arith, tt))))

pub pack_words-ok :
    (ws : List ℕ)
    → AreWords ws
    → (out : Bytes) × (pack_words ws ≡ ok out) × (length out ≡ 4 * length ws) × IsBytes out
unfolding pack_words
pack_words-ok [] h = ([], refl, refl, tt)
pack_words-ok (w ∷ ws) h =
    let (rest, e, size, bytes) = pack_words-ok ws h.1 in
    (
      le_bytes 4 w ++ rest,
      ap (λ t. require t Error.struct_error >> (pack_words ws >>= λ r. ok (le_bytes 4 w ++ r)))
            (lt→ltb w (2 ^ 32) h.0)
          ∙ then _ e,
      omega (arith, length-append (le_bytes 4 w) rest, length-le_bytes 4 w, size),
      IsBytes-append (le_bytes 4 w) rest (le_bytes-IsBytes 4 w) bytes,
    )
